-- ===== src/Prelude/Slices.antt =====
-- Slices of a buffer that is known as a concatenation.
use Prim.Native.Nat.{ℕ, ◌+◌, ◌-◌, ◌≤◌}
use mathlib.Core.Path.{◌≡◌, refl, ap, ap₂, sym, ◌∙◌}
use mathlib.Core.List.{List, [], ◌++◌, append_assoc, append-nil}
use native.Mathlib.Omega.{arith}
use lightvideo.Prelude.Lists.{
  length, take, drop, take-append, drop-append, length-append, take-append-drop, length-take,
  length-drop, take-all,
}
use lightvideo.Prelude.Fallible.{ok, slice, slice-ok, copy_into, copy_into-ok}

module _ {ℓ} {A : Type ℓ} where
  pub slice-at :
      (a m b : List A) (i j : ℕ)
      → i ≡ length a
      → j ≡ length a + length m
      → slice (a ++ (m ++ b)) i j ≡ ok m
  slice-at a m b i j hi hj =
      slice-ok (a ++ (m ++ b)) i j (omega arith)
        (omega (arith, length-append a (m ++ b), length-append m b))
      ∙ ap₂ (λ p q. ok (take p (drop q (a ++ (m ++ b))))) (omega arith) hi
      ∙ ap (λ xs. ok (take (length m) xs)) (drop-append a (m ++ b))
      ∙ ap ok (take-append m b)

  pub slice-end : (a m : List A) (i : ℕ) → i ≡ length a → slice (a ++ m) i (length (a ++ m)) ≡ ok m
  slice-end a m i h =
      ap (λ xs. slice (a ++ xs) i (length (a ++ m))) (sym (append-nil m))
      ∙ slice-at a m [] i (length (a ++ m)) h (omega (arith, length-append a m))

  pub slice-front :
      (a m b : List A) (j : ℕ) → j ≡ length a + length m → slice (a ++ (m ++ b)) 0 j ≡ ok (a ++ m)
  slice-front a m b j h =
      ap (λ xs. slice xs 0 j) (sym (append_assoc a m b))
      ∙ slice-at [] (a ++ m) b 0 j refl (omega (arith, length-append a m))

  pub copy_into-at :
      (a m b n : List A) (i : ℕ)
      → i ≡ length a
      → length n ≡ length m
      → copy_into (a ++ (m ++ b)) i n ≡ ok (a ++ (n ++ b))
  copy_into-at a m b n i hi hn =
      copy_into-ok (a ++ (m ++ b)) i n (omega (arith, length-append a (m ++ b), length-append m b))
      ∙ ap₂ (λ p q. ok (take p (a ++ (m ++ b)) ++ (n ++ drop q (a ++ (m ++ b))))) hi after
      ∙ ap₂ (λ p q. ok (p ++ (n ++ q))) (take-append a (m ++ b)) rest
    where
      after : i + length n ≡ length (a ++ m)
      after = omega (arith, length-append a m)

      rest : drop (length (a ++ m)) (a ++ (m ++ b)) ≡ b
      rest = ap (drop (length (a ++ m))) (sym (append_assoc a m b)) ∙ drop-append (a ++ m) b

  -- A list cut in two at `n`, with the length of the front.
  pub split_at :
      (n : ℕ) (xs : List A)
      → n ≤ length xs
      → (a : List A) × (b : List A) × (xs ≡ a ++ b) × (length a ≡ n) × (length b ≡ length xs - n)
  split_at n xs h = (
    take n xs,
    drop n xs,
    sym (take-append-drop n xs),
    omega (arith, length-take n xs),
    length-drop n xs,
  )

  pub slice-drop : (xs : List A) (i : ℕ) → i ≤ length xs → slice xs i (length xs) ≡ ok (drop i xs)
  slice-drop xs i h =
      slice-ok xs i (length xs) h (omega arith)
      ∙ ap ok (take-all (length xs - i) (drop i xs) (omega (arith, length-drop i xs)))
