-- ===== src/Server/Encoder/Frames.antt =====
-- What the encoders of server/src/encoder/openh264_enc.rs and nvidia.rs write for a frame, and the
-- conversion in front of it.
use lightvideo.Prelude.{
  ℕ, ◌+◌, ◌^◌, ◌%◌, ◌≤◌, ◌<◌, ◌≡◌, ◌≢◌, ◌⊎◌, refl, ap, sym, ◌∙◌, List, [], ◌∷◌, ◌++◌, length, take,
  drop, length-take, length-drop, length-append, Option, none, some, inl, inr, Bool, true, false,
  le→leb, lt→leb, dec_lt, if◌then◌else◌, arith, Outcome, ok, panic, encoder, ◌>>=◌,
}
use lightvideo.Prelude.Runs.{Ran, done, failed, panicked, final}
use lightvideo.Server.Encoder.{ImageFormat, Image, Planes, ColorPrimitives, convert_planes}
use lightvideo.Server.Encoder.Openh264Enc.{Openh264}
use lightvideo.Server.Encoder.Nvidia.{Nvenc, Picture, picture_ok, need_more_input, other_error}
use lightvideo.Server.Encoder.Openh264Enc
use lightvideo.Server.Encoder.Nvidia

-- A conversion writes in place.
abbrev pub InPlace : ColorPrimitives → Type 0
InPlace colors =
    (image : Image) (stride : ℕ) (dst : ImageFormat) (p : Planes)
    → (length ((colors.convert_image image stride dst p).1.y) ≡ length p.y)
      × (length ((colors.convert_image image stride dst p).1.u) ≡ length p.u)
      × (length ((colors.convert_image image stride dst p).1.v) ≡ length p.v)

module _ (colors : ColorPrimitives) (dst : ImageFormat) (stride y_size u_size : ℕ) where
  -- The buffer after one frame after the other, whose results are dropped.
  abbrev pub convert_all : List Image → List ℕ → Outcome (List ℕ)
  convert_all [] yuv = ok yuv
  convert_all (i ∷ is) yuv = do
    (fine, yuv) ← convert_planes colors dst stride y_size u_size i yuv
    convert_all is yuv

  convert_one :
      (i : Image) (yuv : List ℕ)
      → InPlace colors
      → y_size + u_size ≤ length yuv
      → (fine : Bool) × (out : List ℕ) × (convert_planes colors dst stride y_size u_size i yuv
          ≡ ok (fine, out))
        × (length out ≡ length yuv)
  unfolding convert_planes
  convert_one i yuv law fits =
      let planes : Planes = record {
        y = take y_size yuv;
        u = take u_size (drop y_size yuv);
        v = drop u_size (drop y_size yuv);
      } in
      let out = (colors.convert_image i stride dst planes).1 in
      let (ly, lu, lv) = law i stride dst planes in
      (
        (colors.convert_image i stride dst planes).0,
        out.y ++ (out.u ++ out.v),
        rw (le→leb y_size (length yuv) (omega arith)) (
            rw (le→leb u_size (length (drop y_size yuv)) (omega (arith, length-drop y_size yuv)))
              refl),
        omega (
          arith,
          length-append out.y (out.u ++ out.v),
          length-append out.u out.v,
          ly,
          lu,
          lv,
          length-take y_size yuv,
          length-take u_size (drop y_size yuv),
          length-drop u_size (drop y_size yuv),
          length-drop y_size yuv,
        ),
      )

  convert_all_runs :
      (is : List Image) (yuv : List ℕ)
      → InPlace colors
      → y_size + u_size ≤ length yuv
      → (out : List ℕ) × (convert_all is yuv ≡ ok out) × (length out ≡ length yuv)
  convert_all_runs [] yuv law fits = (yuv, refl, refl)
  convert_all_runs (i ∷ is) yuv law fits =
      let (fine, one, ran, same) = convert_one i yuv law fits in
      let (out, rest, same') = convert_all_runs is one law (omega arith) in
      (out, rw ran rest, same' ∙ same)

  convert_panics :
      (i : Image) (yuv : List ℕ)
      → length yuv < y_size + u_size
      → convert_planes colors dst stride y_size u_size i yuv ≡ panic
  unfolding convert_planes
  convert_panics i yuv short = elim (dec_lt (length yuv) y_size) [
    | yes lt ↦ rw (lt→leb y_size (length yuv) lt) refl
    | no ge ↦
        rw (le→leb y_size (length yuv) (omega arith)) (
          rw (lt→leb u_size (length (drop y_size yuv)) (omega (arith, length-drop y_size yuv)))
            refl)
  ]

  -- When the colour conversion writes in place: a buffer that holds the first two planes is converted
  -- into for every frame without a panic and keeps its length, whether the conversions succeed or
  -- not; a shorter one panics on the first frame.
  pub convert_all_cases :
      (i : Image) (is : List Image) (yuv : List ℕ)
      → InPlace colors
      → ((y_size + u_size ≤ length yuv)
          × (out : List ℕ) × (convert_all (i ∷ is) yuv ≡ ok out)
          × (length out ≡ length yuv))
        ⊎ ((length yuv < y_size + u_size) × (convert_all (i ∷ is) yuv ≡ panic))
  convert_all_cases i is yuv law = elim (dec_lt (length yuv) (y_size + u_size)) [
    | yes short ↦ inr (short, rw (convert_panics i yuv short) refl)
    | no long ↦
        (let (out, ran, same) = convert_all_runs (i ∷ is) yuv law (omega arith) in
          inl (omega arith, out, ran, same))
  ]

module _ (lib : Openh264) where
  -- With the picture encoded, its bytes are written; on an error nothing is, and nothing is measured.
  abbrev pub Writes :
      List ℕ → ℕ → Openh264Enc.Session lib → Ran (Openh264Enc.Session lib) (Unit {0}) → Type 0
  Writes yuv t s r =
      ((bits : List ℕ) × ((lib.encode_at s.enc.encoder yuv t).0 ≡ some bits)
        × (r ≡ done tt (final r))
        × ((final r).h264_buffer ≡ s.h264_buffer ++ bits)
        × (length (final r).messages ≡ length s.messages + 2))
      ⊎ (((lib.encode_at s.enc.encoder yuv t).0 ≡ none)
          × (r ≡ failed encoder (final r))
          × ((final r).h264_buffer ≡ s.h264_buffer)
          × ((final r).messages ≡ s.messages))

  write_picture-Writes :
      (yuv : List ℕ) (t : ℕ) (s : Openh264Enc.Session lib) (e : lib.Encoder) (o : Option (List ℕ))
      → (lib.encode_at s.enc.encoder yuv t).0 ≡ o
      → Writes yuv t s
          (Openh264Enc.write_picture lib o (record s { enc = record (s.enc) { encoder = e } }))
  write_picture-Writes yuv t s e none out = inr (out, refl, refl, refl)
  write_picture-Writes yuv t s e (some bits) out =
      inl (bits, out, refl, refl, length-append s.messages _)

  -- `encode_frame` of the software encoder appends the bytes of the picture and makes two measurements
  -- when the picture could be encoded, and otherwise returns the error with the bitstream and the
  -- statistics as they were.
  pub encode_frame-Writes :
      (yuv : List ℕ) (t : ℕ) (s : Openh264Enc.Session lib)
      → Writes yuv t s (Openh264Enc.encode_frame lib yuv t s)
  unfolding Openh264Enc.encode_frame
  encode_frame-Writes yuv t s =
      write_picture-Writes yuv t s (lib.encode_at s.enc.encoder yuv t).1
        (lib.encode_at s.enc.encoder yuv t).0 refl

module _ (lib : Nvenc) where
  abbrev S : Type 0
  S = Nvidia.Session lib

  abbrev pub picture_of : List ℕ → ℕ → S → Picture
  picture_of yuv t s =
      (lib.encode_picture s.enc.enc_session (lib.write s.enc.input_buffer yuv)
        s.enc.output_bitstream t).0

  -- The output after the frame.
  abbrev pub output_of : List ℕ → ℕ → S → lib.Bitstream
  output_of yuv t s =
      (lib.encode_picture s.enc.enc_session (lib.write s.enc.input_buffer yuv)
        s.enc.output_bitstream t).2

  -- Nothing but the objects of the encoder has changed.
  abbrev pub Untouched : S → S → Type 0
  Untouched s s' = (s'.h264_buffer ≡ s.h264_buffer) × (s'.enc.frame_no ≡ s.enc.frame_no)

  -- A picture that came out is written and counted; every other frame is dropped, with no error.
  abbrev pub Drops : List ℕ → ℕ → S → Ran S (Unit {0}) → Type 0
  Drops yuv t s r =
      (((lib.lock_input s.enc.input_buffer ≡ false)
          ⊎ ((picture_of yuv t s ≡ picture_ok) × (lib.lock_output (output_of yuv t s) ≡ none)))
        × (r ≡ panicked (final r))
        × Untouched s (final r))
      ⊎ ((lib.lock_input s.enc.input_buffer ≡ true)
          × (picture_of yuv t s ≡ picture_ok)
          × (bits : List ℕ) × (lib.lock_output (output_of yuv t s) ≡ some bits)
          × (r ≡ done tt (final r))
          × ((final r).h264_buffer ≡ s.h264_buffer ++ bits)
          × ((final r).enc.frame_no ≡ (s.enc.frame_no + 1) % 2 ^ 64))
      ⊎ ((lib.lock_input s.enc.input_buffer ≡ true)
          × (picture_of yuv t s ≢ picture_ok)
          × (r ≡ done tt (final r))
          × Untouched s (final r)
          × ((final r).messages ≡ s.messages))

  not_ok :
      (p : Picture)
      → elim p [ picture_ok ↦ true | need_more_input ↦ false | other_error ↦ false ] ≡ false
      → p ≢ picture_ok
  not_ok p h e = absurd (
      differ (
        sym
          (ap (λ q. elim q [ picture_ok ↦ true | need_more_input ↦ false | other_error ↦ false ]) e)
        ∙ h))
    where
      differ : true ≡ false → ⊥
      differ x = cc

  abbrev working : S → lib.Buffer → lib.Session → lib.Bitstream → S
  working s input session output = record s {
    enc = record (s.enc) { input_buffer = input; enc_session = session; output_bitstream = output };
  }

  write_picture-Drops :
      (yuv : List ℕ) (t : ℕ) (s : S) (input : lib.Buffer) (session : lib.Session)
      (output : lib.Bitstream) (o : Option (List ℕ))
      → lib.lock_input s.enc.input_buffer ≡ true
      → picture_of yuv t s ≡ picture_ok
      → lib.lock_output (output_of yuv t s) ≡ o
      → Drops yuv t s (
          Nvidia.write_picture lib o (Nvidia.measure_encoding lib (working s input session output)))
  write_picture-Drops yuv t s input session output none l e out =
      inl (inr (e, out), refl, (refl, refl))
  write_picture-Drops yuv t s input session output (some bits) l e out =
      inr (inl (l, e, bits, out, refl, refl, refl))

  take_picture-Drops :
      (yuv : List ℕ) (t : ℕ) (s : S) (input : lib.Buffer) (session : lib.Session)
      (output : lib.Bitstream) (p : Picture)
      → lib.lock_input s.enc.input_buffer ≡ true
      → output_of yuv t s ≡ output
      → picture_of yuv t s ≡ p
      → Drops yuv t s (Nvidia.take_picture lib p (working s input session output))
  take_picture-Drops yuv t s input session output picture_ok l same e =
      write_picture-Drops yuv t s input session output (lib.lock_output output) l e
        (ap lib.lock_output same)
  take_picture-Drops yuv t s input session output need_more_input l same e =
      inr (inr (l, rw e (not_ok need_more_input refl), refl, (refl, refl), refl))
  take_picture-Drops yuv t s input session output other_error l same e =
      inr (inr (l, rw e (not_ok other_error refl), refl, (refl, refl), refl))

  locked-Drops :
      (yuv : List ℕ) (t : ℕ) (s : S) (r : Ran S (Unit {0})) (b : Bool)
      → lib.lock_input s.enc.input_buffer ≡ b
      → (lib.lock_input s.enc.input_buffer ≡ true → Drops yuv t s r)
      → Drops yuv t s (if b then r else panicked s)
  locked-Drops yuv t s r true l v = v l
  locked-Drops yuv t s r false l v = inl (inl l, refl, (refl, refl))

  -- `encode_frame` of the graphics card's encoder returns no error. It panics when the input cannot be
  -- locked, or the output of a picture that came out, with the bitstream and the count as they were;
  -- else it writes the bytes of the output and counts the picture if one came out, and drops a frame
  -- that failed, with the bitstream, the count and the statistics as they were.
  pub encode_frame-Drops :
      (yuv : List ℕ) (t : ℕ) (s : S) → Drops yuv t s (Nvidia.encode_frame lib yuv t s)
  unfolding Nvidia.encode_frame
  encode_frame-Drops yuv t s =
      let input = lib.write s.enc.input_buffer yuv in
      let (picture, session, output) =
        lib.encode_picture s.enc.enc_session input s.enc.output_bitstream t in
      locked-Drops yuv t s (Nvidia.take_picture lib picture (working s input session output))
        (lib.lock_input s.enc.input_buffer) refl
        (λ l. take_picture-Drops yuv t s input session output picture l refl refl)
