-- ===== src/Client/LvDecoder/Frames.antt =====
-- The two frames of client/src/double_buffer.rs under `depacketize_decode` of
-- client/src/decoder/video.rs.
use lightvideo.Prelude.{
  ℕ, ◌≡◌, ◌⊎◌, inl, inr, refl, List, [], ◌∷◌, Option, none, some, if◌then◌else◌, Bool-cases,
  Option-cases, depacketizer, color_conversion, arith,
}
use lightvideo.Prelude.Runs.{Ran, done, failed, panicked, and_then, return}
use lightvideo.Rtp.{Rtp}
use lightvideo.Client.DoubleBuffer.{Frame, initialize, uninitialized, write_back, swap}
use lightvideo.Client.LvDecoder.{
  Decoded, decode_error, no_picture, picture, H264, LvDecoder, prepare, show_picture,
  handle_decoded, finish_frame, depacketize_decode, depacketize_payload,
}

-- No frame yet, or two frames of the decoder's size.
abbrev pub Frames : ℕ → ℕ → Option Frame → Option Frame → Type 0
Frames w h none none = Unit {0}
Frames w h none (some f) = ⊥
Frames w h (some b) none = ⊥
Frames w h (some b) (some f) = (b.width ≡ w) × (b.height ≡ h) × (f.width ≡ w) × (f.height ≡ h)

module _ (h264 : H264) (rtp : Rtp) where
  open h264 use {Yuv, is_partition_head, depacketize, decode}
  open rtp use {Packet, payload}

  abbrev V : Type 0
  V = LvDecoder h264

  abbrev pub Consistent : V → Type 0
  Consistent v = Frames v.width v.height v.double_buffer.back v.double_buffer.front

  -- No panic, and only the two errors that are passed on; the frames stay consistent.
  abbrev pub Safe : {A : Type 0} → Ran V A → Type 0
  Safe (done a v) = Consistent v
  Safe (failed e v) = Consistent v × ((e ≡ depacketizer) ⊎ (e ≡ color_conversion))
  Safe (panicked v) = ⊥

  Safe-and_then :
      {A B : Type 0} (r : Ran V A) (k : A → V → Ran V B)
      → Safe r
      → ((a : A) (v : V) → Consistent v → Safe (k a v))
      → Safe (and_then r k)
  Safe-and_then (done a v) k c f = f a v c
  Safe-and_then (failed e v) k c f = c
  Safe-and_then (panicked v) k c f = absurd c

  abbrev with_frames : V → Option Frame → Option Frame → V
  with_frames v b f = record v { double_buffer = record { back = b; front = f } }

  shown-Safe :
      (yuv : Yuv) (v : V) (b f : Option Frame)
      → Frames v.width v.height b f
      → Safe (show_picture h264 rtp yuv (with_frames v b f))
  unfolding show_picture prepare initialize uninitialized write_back swap
  shown-Safe yuv v none none c = ground arith
  shown-Safe yuv v none (some f) c = absurd c
  shown-Safe yuv v (some b) none c = absurd c
  shown-Safe yuv v (some b) (some f) c = ground arith

  handle_decoded-Safe :
      (d : Decoded Yuv) (v : V) → Consistent v → Safe (handle_decoded h264 rtp d v)
  unfolding handle_decoded
  handle_decoded-Safe decode_error v c = c
  handle_decoded-Safe no_picture v c = c
  handle_decoded-Safe (picture yuv) v c =
      shown-Safe yuv v v.double_buffer.back v.double_buffer.front c

  finish_frame-Safe :
      (buffer : List ℕ) (v : V)
      → Consistent v
      → Safe (finish_frame h264 rtp (record v { buffer = buffer }))
  unfolding finish_frame
  finish_frame-Safe [] v c = c
  finish_frame-Safe (x ∷ xs) v c =
      let (d, decoder) = decode v.decoder (x ∷ xs) in
      Safe-and_then (handle_decoded h264 rtp d (record v { buffer = x ∷ xs; decoder = decoder })) _
        (handle_decoded-Safe d (record v { buffer = x ∷ xs; decoder = decoder }) c) (λ u w k. k)

  depacketize_payload-Safe :
      (bytes : List ℕ) (v : V) → Consistent v → Safe (depacketize_payload h264 rtp bytes v)
  depacketize_payload-Safe bytes v c = elim (Option-cases ((depacketize v.pkt bytes).0)) [
    | inl bad ↦ rw (bad, Safe) (c, inl refl)
    | inr (more, good) ↦ rw (good, Safe) c
  ]

  -- From consistent frames (none, or two of the decoder's size) `depacketize_decode` does not panic
  -- on any packet, returns no error but those of the depacketizer and of the colour conversion, and
  -- leaves the frames consistent on every way out.
  pub depacketize_decode-Safe :
      (packet : Packet) (v : V) → Consistent v → Safe (depacketize_decode h264 rtp packet v)
  unfolding depacketize_decode
  depacketize_decode-Safe packet v c =
      Safe-and_then
        ((if is_partition_head v.pkt (payload packet) then finish_frame h264 rtp else return tt) v)
        _
        (elim (Bool-cases (is_partition_head v.pkt (payload packet))) [
          | inl head ↦ rw head (finish_frame-Safe v.buffer v c)
          | inr inner ↦ rw inner c
        ])
        (λ u w k.
          Safe-and_then (depacketize_payload h264 rtp (payload packet) w) _
            (depacketize_payload-Safe (payload packet) w k) (λ u' x m. m))
