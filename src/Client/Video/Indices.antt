-- ===== src/Client/Video/Indices.antt =====
-- Lemmas on the shards that a decoder has been given.
use lightvideo.Prelude.{
  ℕ, zero, suc, ◌≡◌, List, [], ◌∷◌, ◌++◌, none, some, ◌==◌, ◌||◌, get_elem?, map, replicate, All,
  arith,
}
use lightvideo.Codec.{Indexed, Shard, has_index, Agrees}

pub has_index-append :
    (j : ℕ) (xs : Indexed) (k : ℕ) (s : Shard)
    → has_index j (xs ++ ((k, s) ∷ [])) ≡ (has_index j xs || k == j)
has_index-append j [] k s = ground arith
has_index-append j ((i, t) ∷ xs) k s = ground (arith, has_index-append j xs k s)

pub Agrees-append :
    (xs : Indexed) (k : ℕ) (s : Shard) (block : List Shard)
    → Agrees xs block
    → get_elem? block k ≡ some s
    → Agrees (xs ++ ((k, s) ∷ [])) block
Agrees-append [] k s block a h = (h, tt)
Agrees-append ((i, t) ∷ xs) k s block a h = (a.0, Agrees-append xs k s block a.1 h)

pub get_elem?-map {ℓ} :
    {A : Type ℓ} {B : Type ℓ} (f : A → B) (xs : List A) (i : ℕ) (x : A)
    → get_elem? xs i ≡ some x
    → get_elem? (map f xs) i ≡ some (f x)
get_elem?-map f [] i x h = cc
get_elem?-map f (y ∷ ys) zero x h = cc
get_elem?-map f (y ∷ ys) (suc i) x h = get_elem?-map f ys i x h

pub All-map {ℓ} :
    {A : Type ℓ} {B : Type ℓ} (P : A → Type 0) (Q : B → Type 0) (f : A → B) (xs : List A)
    → ((x : A) → P x → Q (f x))
    → All P xs
    → All Q (map f xs)
All-map P Q f [] h v = tt
All-map P Q f (x ∷ xs) h v = (h x v.0, All-map P Q f xs h v.1)

pub All-append {ℓ} :
    {A : Type ℓ} (P : A → Type 0) (xs ys : List A) → All P xs → All P ys → All P (xs ++ ys)
All-append P [] ys v w = w
All-append P (x ∷ xs) ys v w = (v.0, All-append P xs ys v.1 w)

pub All-replicate {ℓ} : {A : Type ℓ} (P : A → Type 0) (n : ℕ) (x : A) → P x → All P (replicate n x)
All-replicate P zero x v = tt
All-replicate P (suc n) x v = (v, All-replicate P n x v)

pub All-get_elem? {ℓ} :
    {A : Type ℓ} (P : A → Type 0) (xs : List A) (i : ℕ) (x : A)
    → All P xs
    → get_elem? xs i ≡ some x
    → P x
All-get_elem? P [] i x v h = absurd (no_some h)
  where
    no_some : none ≡ some x → ⊥
    no_some e = cc
All-get_elem? P (y ∷ ys) zero x v h = let same : y ≡ x = cc in rw (← same) v.0
All-get_elem? P (y ∷ ys) (suc i) x v h = All-get_elem? P ys i x v.1 h
