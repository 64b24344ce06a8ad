-- ===== src/System/InputRelay.antt =====
-- A whole session of the input channel: the loop of client/src/decoder/input.rs feeding the loop
-- of server/src/server/input_server.rs over a channel that neither loses nor reorders.
use lightvideo.Prelude.{
  ℕ, zero, suc, ◌≡◌, refl, ap, ap₂, sym, ◌∙◌, List, [], ◌∷◌, ◌++◌, length, map, All, replicate,
  take-length, take, drop, drop-length, none, some, Outcome, ok, err, panic, ◌>>=◌, arith,
  append-nil, fill_front,
}
use lightvideo.Net.Input.{LvInputEvent, KeyTable, input_packet_size}
use lightvideo.Net.Pod.{Bytemuck, EventFits}
use lightvideo.Client.Input.{send_round, send_loop}
use lightvideo.Server.X11.{FakeInput, Xlib, write_event}
use lightvideo.Server.InputServer.{Receiver, apply_event, receive_round, receive_loop}
use lightvideo.System.InputPath.{decode_buffer-fill_buffer, Carries}

-- What the events do when they are handed to the emulator directly.
module _ (keys : KeyTable) (xlib : Xlib) where
  abbrev Emulated : Type 0
  Emulated = FakeInput × List FakeInput

  unfoldable pub emulate_one : LvInputEvent → Emulated → Outcome Emulated
  emulate_one ev (f, sent) =
      let w = write_event keys xlib ev f in
      elim w.result [
        | ok u ↦ ok (w.fake_input, sent ++ w.sent)
        | err e ↦ ok (w.fake_input, sent ++ w.sent)
        | panic ↦ panic
      ]

  unfoldable pub emulate : List LvInputEvent → Emulated → Outcome Emulated
  emulate [] s = ok s
  emulate (ev ∷ evs) s = emulate_one ev s >>= emulate evs

abbrev pub view : Receiver → FakeInput × List FakeInput
view r = (r.fake_input, r.requests)

-- A datagram as long as the buffer replaces all of it.
fill_front-same : (buf got : List ℕ) → length buf ≡ length got → fill_front buf got ≡ got
fill_front-same buf got e =
    ap (λ k. take k got ++ drop (length got) buf) e
    ∙ ap (λ k. take (length got) got ++ drop k buf) (sym e)
    ∙ ap₂ ◌++◌ (take-length got) (drop-length buf)
    ∙ append-nil got

module _ (keys : KeyTable) (xlib : Xlib) (pods : Bytemuck) where
  -- Datagrams that carry these events, one each.
  abbrev pub AllCarry : List LvInputEvent → List (List ℕ) → Type 0
  AllCarry [] [] = Unit {0}
  AllCarry [] (d ∷ ds) = ⊥
  AllCarry (ev ∷ evs) [] = ⊥
  AllCarry (ev ∷ evs) (d ∷ ds) = Carries pods ev d × AllCarry evs ds

  pub receive_round-Carries :
      (ev : LvInputEvent) (d : List ℕ) (r : Receiver)
      → length r.buf ≡ input_packet_size
      → Carries pods ev d
      → receive_round keys xlib pods (some d) r
        ≡ apply_event keys xlib pods (some ev) (record r { buf = d })
  unfolding receive_round
  receive_round-Carries ev d r h c = rw (fill_front-same r.buf d (omega arith), c.1)

  receive_loop-emulate :
      (evs : List LvInputEvent) (ds : List (List ℕ)) (r : Receiver)
      → length r.buf ≡ input_packet_size
      → AllCarry evs ds
      → (receive_loop keys xlib pods (map some ds) r >>= λ r'. ok (view r'))
        ≡ emulate keys xlib evs (view r)
  unfolding receive_loop emulate apply_event emulate_one
  receive_loop-emulate [] [] r h c = refl
  receive_loop-emulate [] (d ∷ ds) r h c = absurd c
  receive_loop-emulate (ev ∷ evs) [] r h c = absurd c
  receive_loop-emulate (ev ∷ evs) (d ∷ ds) r h c =
      let w = write_event keys xlib ev r.fake_input in
      let r1 : Receiver = record {
        buf = d;
        fake_input = w.fake_input;
        requests = r.requests ++ w.sent;
      } in
      ground (arith, receive_round-Carries ev d r h c.0, receive_loop-emulate evs ds r1 c.0.0 c.1)

  pub send_loop-carries :
      (evs : List LvInputEvent) (buf : List ℕ)
      → All EventFits evs
      → length buf ≡ input_packet_size
      → (ds : List (List ℕ)) × (send_loop pods (map some evs) buf ≡ ok ds) × AllCarry evs ds
  unfolding send_loop send_round
  send_loop-carries [] buf v h = ([], refl, tt)
  send_loop-carries (ev ∷ evs) buf v h =
      let (out, p, c) = decode_buffer-fill_buffer pods ev buf v.0 h in
      let (ds, q, cs) = send_loop-carries evs out v.1 c.0 in (out ∷ ds, rw (p, q), (c, cs))

  -- Any list of events that the client sends from any 24-byte buffer arrives, over a channel that
  -- delivers every datagram in order, as the same events in the same order: the server's emulator
  -- ends in the state, with the requests, that handing it those events directly would give, and
  -- the server panics exactly where that would.
  pub receive_loop-send_loop :
      (evs : List LvInputEvent) (buf : List ℕ) (r : Receiver)
      → All EventFits evs
      → length buf ≡ input_packet_size
      → length r.buf ≡ input_packet_size
      → (ds : List (List ℕ)) × (send_loop pods (map some evs) buf ≡ ok ds)
        × ((receive_loop keys xlib pods (map some ds) r >>= λ r'. ok (view r'))
            ≡ emulate keys xlib evs (view r))
  receive_loop-send_loop evs buf r v h k =
      let (ds, p, c) = send_loop-carries evs buf v h in (ds, p, receive_loop-emulate evs ds r k c)

-- After an event, each failing `recv()` of the client's loop sends that same event once more: with
-- `n` failures the server receives it `n + 1` times.
pub send_loop_repeats :
    (pods : Bytemuck) (ev : LvInputEvent) (n : ℕ) (buf : List ℕ)
    → EventFits ev
    → length buf ≡ input_packet_size
    → (out : List ℕ) × (send_loop pods (some ev ∷ replicate n none) buf
        ≡ ok (replicate (suc n) out))
      × Carries pods ev out
unfolding send_loop send_round
send_loop_repeats pods ev n buf v h =
    let (out, p, c) = decode_buffer-fill_buffer pods ev buf v h in (out, rw (p, again n out), c)
  where
    again : (k : ℕ) (out : List ℕ) → send_loop pods (replicate k none) out ≡ ok (replicate k out)
    again zero out = refl
    again (suc k) out = rw (again k out)
