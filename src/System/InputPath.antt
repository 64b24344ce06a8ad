-- ===== src/System/InputPath.antt =====
-- From an event on the client (client/src/decoder/input.rs) to an event on the server
-- (server/src/server/input_server.rs).
use lightvideo.Prelude.{
  ℕ, ◌+◌, ◌-◌, ◌≤◌, ◌≡◌, refl, ap, sym, ◌∙◌, List, [], ◌∷◌, ◌++◌, length, set, take, drop,
  take-append, drop-append, length-append, length-take, length-drop, length-set, some, ok, ◌>>=◌,
  slice, slice-ok, index, copy_into, copy_into-ok, arith,
}
use lightvideo.Net.Input.{
  LvInputEvent, keyboard_event, mouse_click_event, mouse_wheel_event, mouse_move_event, max_align,
  input_packet_size,
}
use lightvideo.Net.Pod.{Bytemuck, EventFits}
use lightvideo.Client.Input.{fill_buffer}
use lightvideo.Server.InputServer.{decode_buffer}

-- What stands behind the eight bytes of the variant.
payload_slice :
    (front bs rest : List ℕ) (n t : ℕ)
    → length front ≡ max_align
    → length bs ≡ n
    → slice (set (front ++ (bs ++ rest)) 0 t) max_align (n + max_align) ≡ ok bs
payload_slice [] bs rest n t h e = absurd (omega arith)
payload_slice (f ∷ fs) bs rest n t h e =
    slice-ok (t ∷ (fs ++ (bs ++ rest))) max_align (n + max_align) (omega arith)
      (omega (arith, length-append fs (bs ++ rest), length-append bs rest))
    ∙ ap (λ k. ok (take (n + 8 - 8) (drop k (t ∷ (fs ++ (bs ++ rest)))))) (sym h)
    ∙ ap (λ xs. ok (take (n + 8 - 8) xs)) (drop-append (t ∷ fs) (bs ++ rest))
    ∙ ap (λ k. ok (take k (bs ++ rest))) (omega arith)
    ∙ ap ok (take-append bs rest)

type_index :
    (front rest : List ℕ) (t : ℕ)
    → length front ≡ max_align
    → index (set (front ++ rest) 0 t) 0 ≡ ok t
type_index [] rest t h = absurd (omega arith)
type_index (f ∷ fs) rest t h = refl

abbrev packed : List ℕ → List ℕ → ℕ → List ℕ
packed bs buf t = set (take max_align buf ++ (bs ++ drop (max_align + length bs) buf)) 0 t

-- The bytes of a struct go in behind the alignment gap and its code in front, and both come back.
packed_lem :
    (bs buf : List ℕ) (n t : ℕ)
    → length buf ≡ input_packet_size
    → length bs ≡ n
    → n + max_align ≤ input_packet_size
    → ((copy_into buf max_align bs >>= λ b. ok (set b 0 t)) ≡ ok (packed bs buf t))
      × (length (packed bs buf t) ≡ input_packet_size)
      × (index (packed bs buf t) 0 ≡ ok t)
      × (slice (packed bs buf t) max_align (n + max_align) ≡ ok bs)
packed_lem bs buf n t hb hs fits =
    let front = length-take max_align buf in
    (
      ap (λ m. m >>= λ b. ok (set b 0 t)) (copy_into-ok buf max_align bs (omega arith)),
      omega (
        arith,
        front,
        length-set (take max_align buf ++ (bs ++ drop (max_align + length bs) buf)) 0 t,
        length-append (take max_align buf) (bs ++ drop (max_align + length bs) buf),
        length-append bs (drop (max_align + length bs) buf),
        length-drop (max_align + length bs) buf,
      ),
      type_index (take max_align buf) _ t (omega (arith, front)),
      payload_slice (take max_align buf) bs (drop (max_align + length bs) buf) n t
          (omega (arith, front)) hs,
    )

module _ (pods : Bytemuck) where
  open pods use {key, click, wheel, move}

  -- A datagram that carries the event.
  abbrev pub Carries : LvInputEvent → List ℕ → Type 0
  Carries ev out = (length out ≡ input_packet_size) × (decode_buffer pods out ≡ ok (some ev))

  -- Whatever an earlier event left in the client's 24 bytes, the client encodes an event without a
  -- panic into 24 bytes from which the server decodes that same event.
  pub decode_buffer-fill_buffer :
      (ev : LvInputEvent) (buf : List ℕ)
      → EventFits ev
      → length buf ≡ input_packet_size
      → (out : List ℕ) × (fill_buffer pods ev buf ≡ ok out) × Carries ev out
  unfolding fill_buffer decode_buffer
  decode_buffer-fill_buffer (keyboard_event e) buf v h =
      let (p, l, i, s) =
        packed_lem (key.bytes_of e) buf 2 0 h (key.length-bytes_of e) (omega arith) in
      (packed (key.bytes_of e) buf 0, p, (l, rw (i, s, key.from_bytes-bytes_of e v)))
  decode_buffer-fill_buffer (mouse_click_event e) buf v h =
      let (p, l, i, s) =
        packed_lem (click.bytes_of e) buf 8 1 h (click.length-bytes_of e) (omega arith) in
      (packed (click.bytes_of e) buf 1, p, (l, rw (i, s, click.from_bytes-bytes_of e v)))
  decode_buffer-fill_buffer (mouse_wheel_event e) buf v h =
      let (p, l, i, s) =
        packed_lem (wheel.bytes_of e) buf 0 2 h (wheel.length-bytes_of e) (omega arith) in
      (packed (wheel.bytes_of e) buf 2, p, (l, rw (i, s, wheel.from_bytes-bytes_of e v)))
  decode_buffer-fill_buffer (mouse_move_event e) buf v h =
      let (p, l, i, s) =
        packed_lem (move.bytes_of e) buf 16 3 h (move.length-bytes_of e) (omega arith) in
      (packed (move.bytes_of e) buf 3, p, (l, rw (i, s, move.from_bytes-bytes_of e v)))
