-- ===== src/Server/StreamingServer/Frames.antt =====
-- The capture thread of server/src/server/streaming_server.rs and the bounded channel between it
-- and the streaming loop, under every interleaving of the two threads.
use lightvideo.Prelude.{
  ℕ, zero, suc, ◌+◌, ◌-◌, ◌≤◌, ◌≡◌, ap, sym, ◌∙◌, List, [], ◌∷◌, ◌++◌, length, Outcome, ok, err,
  panic, if◌then◌else◌, Bool, true, false, min, ltb, lt→ltb, le→ltb, arith, append_assoc,
  append-nil, length-append,
}

-- `flume::bounded(2)`
abbrev pub backlog : ℕ
backlog = 2

module _ (Image : Type 0) where
  -- What the two threads do: the result of `capture()`, or a `recv()`.
  pub data FrameTurn : Type 0 where
    captured : Outcome Image → FrameTurn
    receives : FrameTurn

  -- The frames in the channel, those that the streaming loop has received, and whether the capture
  -- thread still runs.
  pub record Frames : Type 0 where
    pub queue : List Image
    pub received : List Image
    pub running : Bool

  -- `frame_push.try_send(frame)`: a full channel drops the frame.
  unfoldable pub push_frame : Image → Frames → Frames
  push_frame frame s =
      if ltb (length s.queue) backlog then record s { queue = s.queue ++ (frame ∷ []) } else s

  -- One pass of the capture loop: an error is logged, a panic ends the thread.
  unfoldable pub capture_pass : Outcome Image → Frames → Frames
  unfolding push_frame
  capture_pass (ok frame) s = push_frame frame s
  capture_pass (err e) s = s
  capture_pass panic s = record s { running = false }

  abbrev pub take_front : List Image → Frames → Frames
  take_front [] s = s
  take_front (frame ∷ rest) s = record s { queue = rest; received = s.received ++ (frame ∷ []) }

  -- A `recv()` on an empty channel waits: the turn changes nothing.
  unfoldable pub turn : FrameTurn → Frames → Frames
  unfolding capture_pass
  turn (captured r) s = if s.running then capture_pass r s else s
  turn receives s = take_front s.queue s

  unfoldable pub turns : List FrameTurn → Frames → Frames
  turns [] s = s
  turns (t ∷ ts) s = turns ts (turn t s)

  -- The frames that get into the channel when so many places are free, told by the number of free
  -- places alone, and by whether the capture thread runs.
  abbrev pub admitted : ℕ → Bool → List FrameTurn → List Image
  admitted free running [] = []
  admitted free running (receives ∷ ts) = admitted (min backlog (free + 1)) running ts
  admitted free false (captured r ∷ ts) = admitted free false ts
  admitted free true (captured (err e) ∷ ts) = admitted free true ts
  admitted free true (captured panic ∷ ts) = admitted free false ts
  admitted zero true (captured (ok frame) ∷ ts) = admitted zero true ts
  admitted (suc free) true (captured (ok frame) ∷ ts) = frame ∷ admitted free true ts

  -- The frames are those of before and these, and the channel holds two at most.
  Keeps : Frames → Frames → List Image → Type 0
  Keeps s r frames =
      (length r.queue ≤ backlog) × (r.received ++ r.queue ≡ (s.received ++ s.queue) ++ frames)

  turns-Keeps :
      (ts : List FrameTurn) (free : ℕ) (q received : List Image) (running : Bool)
      → free + length q ≡ backlog
      → let s : Frames = record { queue = q; received = received; running = running } in
        Keeps s (turns ts s) (admitted free running ts)
  unfolding Keeps turns turn capture_pass push_frame
  turns-Keeps [] free q received running room =
      (omega (arith, room), sym (append-nil (received ++ q)))
  turns-Keeps (receives ∷ ts) free [] received running room =
      let same : min 2 (free + 1) ≡ free = omega (arith, room) in
      rw same (turns-Keeps ts free [] received running room)
  turns-Keeps (receives ∷ ts) free (x ∷ q) received running room =
      let more : min 2 (free + 1) ≡ free + 1 = omega (arith, room) in
      let (bound, e) =
        turns-Keeps ts (free + 1) q (received ++ (x ∷ [])) running (omega (arith, room)) in
      rw more (
        bound,
        e ∙ ap (λ xs. xs ++ admitted (free + 1) running ts) (append_assoc received (x ∷ []) q),
      )
  turns-Keeps (captured r ∷ ts) free q received false room =
      turns-Keeps ts free q received false room
  turns-Keeps (captured (err e) ∷ ts) free q received true room =
      turns-Keeps ts free q received true room
  turns-Keeps (captured panic ∷ ts) free q received true room =
      turns-Keeps ts free q received false room
  turns-Keeps (captured (ok frame) ∷ ts) zero q received true room =
      rw (le→ltb (length q) 2 (omega (arith, room)), turns, turn, capture_pass, push_frame)
        (turns-Keeps ts zero q received true room)
  turns-Keeps (captured (ok frame) ∷ ts) (suc free) q received true room =
      let (bound, e) =
        turns-Keeps ts free (q ++ (frame ∷ [])) received true
          (omega (arith, room, length-append q (frame ∷ []))) in
      rw (lt→ltb (length q) 2 (omega (arith, room)), turns, turn, capture_pass, push_frame)
        (
          bound,
          e
              ∙ ap (λ xs. xs ++ admitted free true ts) (sym (append_assoc received q (frame ∷ [])))
              ∙ append_assoc (received ++ q) (frame ∷ []) (admitted free true ts),
        )

  -- Under every interleaving of the two threads, from a channel of at most two frames on: the
  -- channel never holds more than two, and the frames received and waiting in the end are those of
  -- the beginning and then, in the order in which they were captured, exactly the frames that came
  -- while a place was free and the capture thread ran; the others are dropped.
  pub turns_lem :
      (ts : List FrameTurn) (s : Frames)
      → length s.queue ≤ backlog
      → (length (turns ts s).queue ≤ backlog)
        × ((turns ts s).received ++ (turns ts s).queue
            ≡ (s.received ++ s.queue) ++ admitted (backlog - length s.queue) s.running ts)
  unfolding Keeps
  turns_lem ts s small =
      turns-Keeps ts (backlog - length s.queue) s.queue s.received s.running (omega (arith, small))
