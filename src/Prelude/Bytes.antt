-- ===== src/Prelude/Bytes.antt =====
-- `to_be_bytes` and `from_be_bytes` of the standard library, for every width, and the loop that
-- stores bytes into a buffer through a running index.
use Prim.Native.Nat.{ℕ, zero, suc, ◌+◌, ◌*◌, ◌/◌, ◌%◌, ◌^◌, ◌≤◌, ◌<◌}
use mathlib.Core.Path.{◌≡◌, refl, ap, ap₂, sym, ◌∙◌}
use mathlib.Core.List.{List, [], ◌∷◌, ◌++◌, reverse, reverse_aux, reverse-reverse, append_assoc}
use native.Mathlib.Omega.{arith}
use native.Mathlib.Nat.{pow-suc}
use native.Mathlib.Decide.{dec_lt}
use lightvideo.Prelude.Tests.{if◌then◌else◌, ltb, lt→ltb, le→ltb}
use lightvideo.Prelude.Lists.{length, set, drop, length-append, length-set}
use lightvideo.Prelude.Fallible.{Outcome, ok, panic, ◌>>=◌}

-- The `n` low bytes of a number, lowest first.
abbrev pub le_bytes : ℕ → ℕ → List ℕ
le_bytes zero x = []
le_bytes (suc n) x = (x % 256) ∷ le_bytes n (x / 256)

abbrev pub from_le_bytes : List ℕ → ℕ
from_le_bytes [] = 0
from_le_bytes (b ∷ bs) = b + 256 * from_le_bytes bs

abbrev pub to_be_bytes : ℕ → ℕ → List ℕ
to_be_bytes n x = reverse (le_bytes n x)

abbrev pub from_be_bytes : List ℕ → ℕ
from_be_bytes bs = from_le_bytes (reverse bs)

pub from_le_bytes-le_bytes : (n x : ℕ) → x < 256 ^ n → from_le_bytes (le_bytes n x) ≡ x
from_le_bytes-le_bytes zero x h = omega arith
from_le_bytes-le_bytes (suc n) x h =
    omega (arith, from_le_bytes-le_bytes n (x / 256) (omega (arith, pow-suc 256 n)))

-- Reading back the `n` bytes of a number below `256 ^ n`.
pub from_be_bytes-to_be_bytes : (n x : ℕ) → x < 256 ^ n → from_be_bytes (to_be_bytes n x) ≡ x
from_be_bytes-to_be_bytes n x h =
    ap from_le_bytes (reverse-reverse (le_bytes n x)) ∙ from_le_bytes-le_bytes n x h

-- `for byt in bytes { buf[i] = byt; i += 1; }`
unfoldable pub write_bytes : List ℕ → List ℕ × ℕ → Outcome (List ℕ × ℕ)
write_bytes [] (buf, i) = ok (buf, i)
write_bytes (b ∷ bs) (buf, i) =
    let rest = write_bytes bs (set buf i b, i + 1) in if ltb i (length buf) then rest else panic

set-append :
    (front rest : List ℕ) (x v : ℕ) → set (front ++ x ∷ rest) (length front) v ≡ front ++ v ∷ rest
set-append [] rest x v = refl
set-append (f ∷ front) rest x v = ap (λ r. f ∷ r) (set-append front rest x v)

-- The loop replaces as many bytes as it is given, and moves the index past them.
pub write_bytes-append :
    (bs front rest : List ℕ) (i : ℕ)
    → i ≡ length front
    → length bs ≤ length rest
    → write_bytes bs (front ++ rest, i) ≡ ok (front ++ (bs ++ drop (length bs) rest), i + length bs)
unfolding write_bytes
write_bytes-append [] front rest i e h = ap (λ k. ok (front ++ rest, k)) (omega arith)
write_bytes-append (b ∷ bs) front [] i e h = absurd (omega arith)
write_bytes-append (b ∷ bs) front (x ∷ rest) i e h =
    rw (lt→ltb i (length (front ++ x ∷ rest)) inside, stored)
      (write_bytes-append bs (front ++ b ∷ []) rest (i + 1) next (omega arith)
        ∙ ap₂ (λ r k. ok (r, k)) (append_assoc front (b ∷ []) _) (omega arith))
  where
    inside : i < length (front ++ x ∷ rest)
    inside = omega (arith, length-append front (x ∷ rest))

    next : i + 1 ≡ length (front ++ b ∷ [])
    next = omega (arith, length-append front (b ∷ []))

    stored : set (front ++ x ∷ rest) i b ≡ (front ++ b ∷ []) ++ rest
    stored = rw e (set-append front rest x b ∙ sym (append_assoc front (b ∷ []) rest))

-- A buffer that is too short is an index out of range.
pub write_bytes-panic :
    (bs buf : List ℕ) (i : ℕ)
    → i ≤ length buf
    → length buf < i + length bs
    → write_bytes bs (buf, i) ≡ panic
unfolding write_bytes
write_bytes-panic [] buf i k h = absurd (omega arith)
write_bytes-panic (b ∷ bs) buf i k h = elim (dec_lt i (length buf)) [
  | yes p ↦ rw (lt→ltb _ _ p) (
      write_bytes-panic bs (set buf i b) (i + 1) (omega (arith, length-set buf i b))
        (omega (arith, length-set buf i b)))
  | no p ↦ rw (le→ltb i (length buf) (omega arith))
]

-- Writing one run of bytes after another is writing them together.
pub write_bytes-++ :
    (xs ys : List ℕ) (s : List ℕ × ℕ)
    → write_bytes (xs ++ ys) s ≡ (write_bytes xs s >>= write_bytes ys)
unfolding write_bytes
write_bytes-++ [] ys s = refl
write_bytes-++ (x ∷ xs) ys (buf, i) = ground (arith, write_bytes-++ xs ys (set buf i x, i + 1))

length-reverse_aux : (xs ys : List ℕ) → length (reverse_aux xs ys) ≡ length xs + length ys
length-reverse_aux [] ys = omega arith
length-reverse_aux (x ∷ xs) ys = omega (arith, length-reverse_aux xs (x ∷ ys))

pub length-le_bytes : (n x : ℕ) → length (le_bytes n x) ≡ n
length-le_bytes zero x = refl
length-le_bytes (suc n) x = ap suc (length-le_bytes n (x / 256))

pub length-to_be_bytes : (n x : ℕ) → length (to_be_bytes n x) ≡ n
length-to_be_bytes n x = omega (arith, length-reverse_aux (le_bytes n x) [], length-le_bytes n x)

pub write_bytes-cons :
    (x : ℕ) (ys : List ℕ) (s : List ℕ × ℕ)
    → write_bytes (x ∷ ys) s ≡ (write_bytes (x ∷ []) s >>= write_bytes ys)
write_bytes-cons x ys s = write_bytes-++ (x ∷ []) ys s
