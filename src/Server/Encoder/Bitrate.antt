-- ===== src/Server/Encoder/Bitrate.antt =====
-- The bitrate of the encoder of server/src/encoder/openh264_enc.rs, from `new` on and
-- through the changes of `set_bitrate`.
use lightvideo.Prelude.{
  ℕ, ◌^◌, ◌<◌, ◌≡◌, List, [], ◌∷◌, All, Option, none, some, lt→ltb, le→ltb, dec_lt, arith, Error,
}
use lightvideo.Prelude.Runs.{Ran, done, failed, panicked, M, and_then}
use lightvideo.Statistics.Collector.{LvStatisticsMessage}
use lightvideo.Server.Encoder.{or_fail, as_c_int, as_u32, ColorPrimitives}
use lightvideo.Server.Encoder.Openh264Enc.{Openh264, LvOpenh264Encoder, SEncParamExt}
use lightvideo.Server.Encoder.Openh264Enc

abbrev pub IsU32 : ℕ → Type 0
IsU32 n = n < 2 ^ 32

-- The cast to a signed integer and back.
as_u32-as_c_int : (n : ℕ) → IsU32 n → as_u32 (as_c_int n) ≡ n
as_u32-as_c_int n h = elim (dec_lt n (2 ^ 31)) [
  | yes small ↦ rw (lt→ltb n (2 ^ 31) small) (omega arith)
  | no large ↦ rw (le→ltb n (2 ^ 31) (omega arith)) (omega arith)
]

abbrev pub last : ℕ → List ℕ → ℕ
last b [] = b
last b (c ∷ bs) = last c bs

module _ (lib : Openh264) (colors : ColorPrimitives) where
  abbrev pub set_all : List ℕ → LvOpenh264Encoder lib → LvOpenh264Encoder lib
  set_all [] e = e
  set_all (b ∷ bs) e = set_all bs (Openh264Enc.set_bitrate lib b e)

  set_all_lem :
      (b : ℕ) (bs : List ℕ) (e : LvOpenh264Encoder lib)
      → Openh264Enc.bitrate lib e ≡ b
      → All IsU32 bs
      → Openh264Enc.bitrate lib (set_all bs e) ≡ last b bs
  unfolding Openh264Enc.set_bitrate
  set_all_lem b [] e h v = h
  set_all_lem b (c ∷ bs) e h v =
      set_all_lem c bs (Openh264Enc.set_bitrate lib c e) (as_u32-as_c_int c v.0) v.1

  abbrev Messages : Type 0
  Messages = List LvStatisticsMessage

  abbrev Holds : {A : Type 0} → (A → Type 0) → Ran Messages A → Type 0
  Holds P (done a m) = P a
  Holds P (failed e m) = Unit {0}
  Holds P (panicked m) = Unit {0}

  Holds-or_fail :
      {A B : Type 0} (P : B → Type 0) (o : Option A) (x : Error) (m : Messages)
      (f : A → M Messages B)
      → ((a : A) → Holds P (f a m))
      → Holds P (and_then (or_fail o x m) f)
  Holds-or_fail P none x m f h = tt
  Holds-or_fail P (some a) x m f h = h a

  Openh264Enc-Holds :
      (width height b framerate : ℕ) (m : Messages)
      → IsU32 b
      → Holds
          (λ e. Openh264Enc.bitrate lib e ≡ b)
          (Openh264Enc.new lib colors width height b framerate m)
  unfolding Openh264Enc.new Openh264Enc.params_for
  Openh264Enc-Holds width height b framerate m h =
      let P = λ (e : LvOpenh264Encoder lib). Openh264Enc.bitrate lib e ≡ b in
      Holds-or_fail P (colors.get_buffers_size width height (Openh264Enc.dst_format lib)) _ _ _
        (λ sizes.
          Holds-or_fail P
            (lib.with_raw_config (Openh264Enc.params_for lib width height b framerate)) _ _ _
            (λ e. as_u32-as_c_int b h))

  -- For bitrates that a u32 holds, the software encoder, from `new` on and through any changes,
  -- answers `bitrate` with the one that was set last, although it keeps it as a signed integer.
  pub bitrate-set_bitrate :
      (width height b framerate : ℕ) (bs : List ℕ) (m m1 : Messages) (e : LvOpenh264Encoder lib)
      → All IsU32 (b ∷ bs)
      → Openh264Enc.new lib colors width height b framerate m ≡ done e m1
      → Openh264Enc.bitrate lib (set_all bs e) ≡ last b bs
  bitrate-set_bitrate width height b framerate bs m m1 e v made =
      set_all_lem b bs e (rw made at (Openh264Enc-Holds width height b framerate m v.0)) v.1
