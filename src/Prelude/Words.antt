-- ===== src/Prelude/Words.antt =====
-- Machine words as native numbers, with the wrap-around of a release build.
use lightvideo.Prelude.{◌≡◌, ◌≢◌, refl, Bool, true, false, ◌&&◌, ltb, lt→ltb, arith, ◌<◌}
use Prim.Native.Nat.{ℕ, ◌+◌, ◌-◌, ◌%◌, ◌^◌}

abbrev pub add32 : ℕ → ℕ → ℕ
add32 a b = (a + b) % 2 ^ 32

abbrev pub sub32 : ℕ → ℕ → ℕ
sub32 a b = (a + 2 ^ 32 - b) % 2 ^ 32

abbrev pub add16 : ℕ → ℕ → ℕ
add16 a b = (a + b) % 2 ^ 16

abbrev pub as_u16 : ℕ → ℕ
as_u16 a = a % 2 ^ 16

-- Whether an `i32`, kept as its bit pattern, is greater than 0.
abbrev pub is_positive : ℕ → Bool
is_positive n = ltb 0 n && ltb n (2 ^ 31)

pub is_positive-zero : (n : ℕ) → n ≡ 0 → is_positive n ≡ false
is_positive-zero n e = rw e refl

pub is_positive-true : (n : ℕ) → n ≢ 0 → n < 2 ^ 31 → is_positive n ≡ true
is_positive-true n some small = rw (lt→ltb 0 n (omega (arith, some)), lt→ltb n (2 ^ 31) small) refl
