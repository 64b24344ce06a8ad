-- ===== src/Server/Capture.antt =====
-- server/src/capture/linux.rs: frames of the screen from the X server, through a shared segment.
pub mod Frames
use lightvideo.Prelude.{
  ℕ, ◌+◌, ◌*◌, ◌≤◌, ◌≡◌, List, length, Option, none, some, Bool, true, false, ◌==◌, if◌then◌else◌,
  Outcome, ok, err, panic, ◌>>=◌, ◌>>◌, x_server, Error, shared_memory, no_screen, image_size, leb,
}

pub data ImageOrder : Type 0 where
  lsb_first msb_first : ImageOrder

-- `display_info` of the crate `screenshots`, its numbers as the code converts them: multiplied with
-- the scale factor, the sizes `as u16`, the offsets `as i16`.
pub record Screen : Type 0 where
  pub width : ℕ
  pub height : ℕ
  pub x : ℕ
  pub y : ℕ

-- The request that every frame repeats.
pub record GetImage : Type 0 where
  pub drawable : ℕ
  pub x : ℕ
  pub y : ℕ
  pub width : ℕ
  pub height : ℕ
  pub plane_mask : ℕ
  pub format : ℕ
  pub shmseg : ℕ
  pub offset : ℕ

-- The crates `xcb`, `libc` and `image`. `none` and `false` are an `Err`.
pub record Display : Type 1 where
  -- The number of the screen that the connection names.
  pub connect_with_extensions : Option ℕ
  pub shmget : ℕ → ℕ
  -- The address, 0 being the null pointer.
  pub shmat : ℕ → ℕ
  pub generate_id : ℕ
  pub attach : ℕ → ℕ → Bool
  pub root : ℕ → Option ℕ
  pub bitmap_format_bit_order : ImageOrder
  pub z_pixmap : ℕ
  -- Whether the reply to the n-th request is no error, and the bytes that stand in the segment then.
  pub wait_for_reply : ℕ → GetImage → Bool
  pub segment : ℕ → ℕ → ℕ → List ℕ
  pub ImageBuffer : Type 0
  pub from_vec : ℕ → ℕ → List ℕ → Option ImageBuffer

pub record LvLinuxCapturer : Type 0 where
  pub get_image : GetImage
  pub bit_order : ImageOrder
  pub bgr_buffer : ℕ
  pub bgr_buffer_len : ℕ

abbrev pub ok_or {ℓ} : {A : Type ℓ} → Option A → Error → Outcome A
ok_or (some a) e = ok a
ok_or none e = err e

module _ (display : Display) where
  open display use {
    connect_with_extensions, shmget, shmat, generate_id, attach, root, bitmap_format_bit_order,
    z_pixmap, wait_for_reply, segment, ImageBuffer, from_vec,
  }

  abbrev pub buffer_size : Screen → ℕ
  buffer_size screen = screen.width * screen.height * 4

  -- The shared segment: its address, attached on both sides.
  unfoldable pub open_segment : ℕ → Outcome ℕ
  open_segment size =
      let shm_id = shmget size in
      let bgr_buffer = shmat shm_id in
      if bgr_buffer == 0
      then err shared_memory
      else if attach generate_id shm_id
      then ok bgr_buffer
      else err x_server

  -- What `new` returns in the end.
  abbrev pub capturer : ℕ → ℕ → Screen → LvLinuxCapturer
  capturer window bgr_buffer screen = record {
    get_image = record {
      drawable = window;
      x = screen.x;
      y = screen.y;
      width = screen.width;
      height = screen.height;
      plane_mask = 4294967295;
      format = z_pixmap;
      shmseg = generate_id;
      offset = 0;
    };
    bit_order = bitmap_format_bit_order;
    bgr_buffer = bgr_buffer;
    bgr_buffer_len = buffer_size screen;
  }

  unfoldable pub new : Screen → Outcome LvLinuxCapturer
  unfolding open_segment
  new screen = do
    number ← ok_or connect_with_extensions x_server
    bgr_buffer ← open_segment (buffer_size screen)
    window ← ok_or (root number) no_screen
    ok (capturer window bgr_buffer screen)

  -- The `if` on the order of the bits; only one of them is implemented.
  abbrev pub check_order : ImageOrder → Outcome (Unit {0})
  check_order lsb_first = ok tt
  check_order msb_first = panic

  -- The `n`-th frame.
  unfoldable pub capture : ℕ → LvLinuxCapturer → Outcome ImageBuffer
  capture n c = do
    (if wait_for_reply n c.get_image then ok tt else err x_server)
    let bytes = segment n c.bgr_buffer c.bgr_buffer_len
    check_order c.bit_order
    ok_or (from_vec c.get_image.width c.get_image.height bytes) image_size
