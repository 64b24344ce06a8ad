-- ===== src/Prelude/Fallible.antt =====
-- What a Rust call comes back with: a value, an `Err`, or a panic that unwinds its thread.
use Prim.Native.Nat.{ℕ, ◌+◌, ◌-◌, ◌≤◌, ◌<◌}
use mathlib.Core.Path.{◌≡◌, refl}
use mathlib.Core.Bool.{Bool, true, false, ◌&&◌}
use mathlib.Core.Option.{Option, none, some}
use mathlib.Core.List.{List, ◌++◌}
use native.Mathlib.Omega.{arith}
use lightvideo.Prelude.Tests.{if◌then◌else◌, leb, le→leb}
use lightvideo.Prelude.Lists.{length, take, drop, get_elem?, get_or, get_elem?-eq-get_or}

-- Where a boxed error comes from.
pub data Error : Type 0 where
  erasure_code socket_io rtp_marshal rtp_unmarshal depacketizer : Error
  broken_pipe no_scancode scancode_range bad_event : Error
  queue_ioctl encoder packetizer color_conversion : Error
  x_server shared_memory no_screen image_size bad_address : Error

pub data Outcome {ℓ} (A : Type ℓ) : Type ℓ where
  ok : A → Outcome A
  err : Error → Outcome A
  panic : Outcome A

infixl 5 ◌>>=◌ ◌>>◌
abbrev pub ◌>>=◌ {ℓ κ} : {A : Type ℓ} {B : Type κ} → Outcome A → (A → Outcome B) → Outcome B
panic >>= next = panic
err source >>= next = err source
ok value >>= next = next value

abbrev pub ◌>>◌ {ℓ} : {B : Type ℓ} → Outcome (Unit {0}) → Outcome B → Outcome B
first >> next = first >>= λ done. next

-- `.unwrap()` and `.expect(..)` on an option.
abbrev pub unwrap {ℓ} : {A : Type ℓ} → Option A → Outcome A
unwrap (some a) = ok a
unwrap none = panic

-- `assert`-like guards that the language inserts.
abbrev pub check : Bool → Outcome (Unit {0})
check true = ok tt
check false = panic

-- `buf[a..b]`
unfoldable pub slice {ℓ} : {A : Type ℓ} → List A → ℕ → ℕ → Outcome (List A)
slice buf a b = if leb a b && leb b (length buf) then ok (take (b - a) (drop a buf)) else panic

pub slice-ok {ℓ} :
    {A : Type ℓ} (buf : List A) (a b : ℕ)
    → a ≤ b
    → b ≤ length buf
    → slice buf a b ≡ ok (take (b - a) (drop a buf))
unfolding slice
slice-ok buf a b h k = rw (le→leb a b h, le→leb b (length buf) k)

pub slice-panic {ℓ} : {A : Type ℓ} (buf : List A) (a b : ℕ) → length buf < b → slice buf a b ≡ panic
unfolding slice
slice-panic buf a b k = ground arith

-- `buf[i]`
abbrev pub index {ℓ} : {A : Type ℓ} → List A → ℕ → Outcome A
index buf i = unwrap (get_elem? buf i)

pub index-ok {ℓ} :
    {A : Type ℓ} (buf : List A) (i : ℕ) (d : A) → i < length buf → index buf i ≡ ok (get_or buf i d)
index-ok buf i d h = rw (get_elem?-eq-get_or buf i d h)

pub bind_assoc {ℓ κ μ} :
    {A : Type ℓ} {B : Type κ} {C : Type μ} (m : Outcome A) (f : A → Outcome B) (g : B → Outcome C)
    → ((m >>= f) >>= g) ≡ (m >>= λ a. f a >>= g)
bind_assoc (ok a) f g = refl
bind_assoc (err e) f g = refl
bind_assoc panic f g = refl

-- `buf[a..a + bs.len()].copy_from_slice(bs)`
unfoldable pub copy_into {ℓ} : {A : Type ℓ} → List A → ℕ → List A → Outcome (List A)
copy_into buf a bs =
    if leb (a + length bs) (length buf)
    then ok (take a buf ++ (bs ++ drop (a + length bs) buf))
    else panic

pub copy_into-ok {ℓ} :
    {A : Type ℓ} (buf : List A) (a : ℕ) (bs : List A)
    → a + length bs ≤ length buf
    → copy_into buf a bs ≡ ok (take a buf ++ (bs ++ drop (a + length bs) buf))
unfolding copy_into
copy_into-ok buf a bs h = rw (le→leb (a + length bs) (length buf) h)

-- A buffer of a fixed length that a `recv` or a `read` fills from its front.
abbrev pub fill_front {ℓ} : {A : Type ℓ} → List A → List A → List A
fill_front buf got = take (length buf) got ++ drop (length got) buf
