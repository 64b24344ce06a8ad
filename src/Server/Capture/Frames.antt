-- ===== src/Server/Capture/Frames.antt =====
-- What `capture` of server/src/capture/linux.rs comes to for a capturer that `new` has made.
use lightvideo.Prelude.{
  ℕ, ◌*◌, ◌≤◌, ◌≡◌, refl, ap₂, ◌∙◌, List, length, Option, none, some, true, false, Outcome, ok, err,
  panic, ◌>>=◌, ◌>>◌, x_server, no_screen, image_size, arith, Bool-cases, inl, inr,
}
use lightvideo.Server.Capture.{
  Display, ImageOrder, lsb_first, msb_first, Screen, LvLinuxCapturer, ok_or, open_segment, capturer,
  new, capture, buffer_size, check_order,
}

module _ (display : Display) where
  open display use {wait_for_reply, segment, ImageBuffer, from_vec, root, connect_with_extensions}

  -- `from_raw_parts` gives as many bytes as it is told, and `from_vec` of RGB takes every container
  -- with three bytes a pixel or more.
  pub record DisplayLaws : Type 0 where
    pub length-segment : (n address len : ℕ) → length (segment n address len) ≡ len
    pub from_vec-fits :
        (w h : ℕ) (bytes : List ℕ)
        → w * h * 3 ≤ length bytes
        → (image : ImageBuffer) × (from_vec w h bytes ≡ some image)

  -- A capturer for this screen.
  record Of (screen : Screen) (c : LvLinuxCapturer) : Type 0 where
    width : c.get_image.width ≡ screen.width
    height : c.get_image.height ≡ screen.height
    len : c.bgr_buffer_len ≡ screen.width * screen.height * 4

  Made : Screen → Outcome LvLinuxCapturer → Type 0
  Made screen (ok c) = Of screen c
  Made screen (err e) = Unit {0}
  Made screen panic = Unit {0}

  new-Made : (screen : Screen) → Made screen (new display screen)
  unfolding Made new
  new-Made screen =
      connected connect_with_extensions (open_segment display (buffer_size display screen))
    where
      rooted :
          (b : ℕ) (o : Option ℕ)
          → Made screen (ok_or o no_screen >>= λ w. ok (capturer display w b screen))
      rooted b none = tt
      rooted b (some w) = record { width = refl; height = refl; len = refl }

      attached :
          (number : ℕ) (seg : Outcome ℕ)
          → Made screen
              (seg >>= λ b. ok_or (root number) no_screen >>= λ w. ok (capturer display w b screen))
      attached number (ok b) = rooted b (root number)
      attached number (err e) = tt
      attached number panic = tt

      connected :
          (o : Option ℕ) (seg : Outcome ℕ)
          → Made screen (
              ok_or o x_server >>= λ number.
              seg >>= λ b. ok_or (root number) no_screen >>= λ w. ok (capturer display w b screen))
      connected none seg = tt
      connected (some number) seg = attached number seg

  -- The ways a capture ends: an image of the screen's size over the whole segment; the error of the
  -- X server; a panic when the server puts its bits in the other order.
  abbrev pub Captured : Screen → ℕ → LvLinuxCapturer → Outcome ImageBuffer → Type 0
  Captured screen n c (ok image) =
      (wait_for_reply n c.get_image ≡ true)
      × (c.bit_order ≡ lsb_first)
      × (from_vec screen.width screen.height (segment n c.bgr_buffer c.bgr_buffer_len) ≡ some image)
  Captured screen n c (err e) = (wait_for_reply n c.get_image ≡ false) × (e ≡ x_server)
  Captured screen n c panic = (wait_for_reply n c.get_image ≡ true) × (c.bit_order ≡ msb_first)

  capture_lem :
      (screen : Screen) (c : LvLinuxCapturer) (n : ℕ)
      → DisplayLaws
      → Of screen c
      → Captured screen n c (capture display n c)
  unfolding capture
  capture_lem screen c n laws v = elim (Bool-cases (wait_for_reply n c.get_image)) [
    | inr refused ↦ rw refused (refused, refl)
    | inl replied ↦ rw replied (ordered replied c.bit_order refl)
  ]
    where
      bytes : List ℕ
      bytes = segment n c.bgr_buffer c.bgr_buffer_len

      long : screen.width * screen.height * 3 ≤ length bytes
      long = grind (arith, laws.length-segment n c.bgr_buffer c.bgr_buffer_len, v.len)

      ordered :
          wait_for_reply n c.get_image ≡ true
          → (o : ImageOrder) → c.bit_order ≡ o
          → Captured screen n c (
              check_order display o
              >> ok_or (from_vec c.get_image.width c.get_image.height bytes) image_size)
      ordered replied msb_first e = (replied, e)
      ordered replied lsb_first e =
          let (image, fits) = laws.from_vec-fits screen.width screen.height bytes long in
          let found : from_vec c.get_image.width c.get_image.height bytes ≡ some image =
            ap₂ (λ w h. from_vec w h bytes) v.width v.height ∙ fits in
          rw found (replied, e, fits)

  -- A capturer that `new` has made for a screen never fails for the size of its segment: a capture
  -- gives an image of the screen's size over the whole segment, or the error of the X server, or it
  -- panics when that server has its bits in the other order, each just when the server says so.
  pub capture-Captured :
      (screen : Screen) (c : LvLinuxCapturer) (n : ℕ)
      → DisplayLaws
      → new display screen ≡ ok c
      → Captured screen n c (capture display n c)
  unfolding Made
  capture-Captured screen c n laws made = capture_lem screen c n laws (rw made at (new-Made screen))
