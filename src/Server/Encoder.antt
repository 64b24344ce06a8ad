-- ===== src/Server/Encoder.antt =====
-- server/src/encoder/mod.rs: what the two encoders share.
pub mod Openh264Enc
pub mod Nvidia
pub mod Default
pub mod Bitrate
pub mod Frames
use lightvideo.Prelude.{
  ℕ, ◌+◌, ◌-◌, ◌*◌, ◌%◌, ◌^◌, List, [], ◌∷◌, ◌++◌, length, take, drop, Option, none, some, Bool,
  true, false, leb, ltb, if◌then◌else◌, Outcome, ok, panic, err, ◌>>=◌, color_conversion, Error,
}
use lightvideo.Prelude.Runs.{Ran, done, failed, M}
use lightvideo.Statistics.Collector.{LvStatisticsMessage}

-- The integers of C, with the casts `as c_int` and `as u32`.
pub data ℤ : Type 0 where
  pos negsuc : ℕ → ℤ

abbrev pub as_c_int : ℕ → ℤ
as_c_int n = if ltb n (2 ^ 31) then pos n else negsuc (2 ^ 32 - 1 - n)

abbrev pub as_u32 : ℤ → ℕ
as_u32 (pos n) = n % 2 ^ 32
as_u32 (negsuc n) = 2 ^ 32 - 1 - n % 2 ^ 32

pub data PixelFormat : Type 0 where
  bgra i420 nv12 : PixelFormat

pub data ColorSpace : Type 0 where
  rgb bt601 : ColorSpace

pub record ImageFormat : Type 0 where
  pub pixel_format : PixelFormat
  pub color_space : ColorSpace
  pub num_planes : ℕ

pub record Image : Type 0 where
  pub width : ℕ
  pub height : ℕ
  pub raw : List ℕ

abbrev pub src_format : ImageFormat
src_format = record { pixel_format = bgra; color_space = rgb; num_planes = 1 }

-- The three planes of a destination.
pub record Planes : Type 0 where
  pub y : List ℕ
  pub u : List ℕ
  pub v : List ℕ

-- The crate `dcv_color_primitives`, which is not part of the repository. `get_buffers_size` gives the
-- sizes of three planes, and `convert_image` the planes after the conversion and whether it has
-- succeeded.
pub record ColorPrimitives : Type 0 where
  pub get_buffers_size : ℕ → ℕ → ImageFormat → Option (ℕ × ℕ × ℕ)
  pub convert_image : Image → ℕ → ImageFormat → Planes → Bool × Planes

-- `split_at_mut`
abbrev pub split_at_mut : List ℕ → ℕ → Outcome (List ℕ × List ℕ)
split_at_mut b n = if leb n (length b) then ok (take n b, drop n b) else panic

-- `convert_frame`, which is the same for both: what it leaves in the buffer, and whether it has
-- succeeded.
unfoldable pub convert_planes :
    ColorPrimitives
    → (dst : ImageFormat) (stride y_size u_size : ℕ) → Image
    → List ℕ
    → Outcome (Bool × List ℕ)
convert_planes colors dst stride y_size u_size image yuv = do
  (y, uv) ← split_at_mut yuv y_size
  (u, v) ← split_at_mut uv u_size
  let (fine, planes) = colors.convert_image image stride dst (record { y = y; u = u; v = v }) in
      ok (fine, planes.y ++ (planes.u ++ planes.v))

-- `e?` on a call to a library.
abbrev pub or_fail : {A : Type 0} → Option A → Error → M (List LvStatisticsMessage) A
or_fail none e m = failed e m
or_fail (some a) e m = done a m

abbrev pub tell : List LvStatisticsMessage → M (List LvStatisticsMessage) (Unit {0})
tell more m = done tt (m ++ more)
