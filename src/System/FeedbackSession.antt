-- ===== src/System/FeedbackSession.antt =====
-- A whole session of the feedback channel: the loop of client/src/decoder/feedback.rs over a
-- connection, read by the loop of server/src/server/feedback_server.rs one message at a time.
use lightvideo.Prelude.{
  ℕ, ◌+◌, ◌≡◌, refl, ap, ◌∙◌, List, [], ◌∷◌, ◌++◌, length, map, All, Option, some, Outcome, ok, err,
  panic, ◌>>=◌,
}
use lightvideo.Net.FeedbackPacket.{LvAck, LvFeedbackPacket}
use lightvideo.Net.Wire.{Bincode, BincodeLaws}
use lightvideo.Client.Feedback.{Shared, feedback_messages, feedback_thread}
use lightvideo.Server.FeedbackServer.{
  Floats, Feedback, message_size, apply_feedback, apply_ack, feedback_loop, feedback_round,
}
use lightvideo.System.FeedbackPath.{
  buffered, apply_feedback-buffered, feedback_loop-feedback_messages,
}

-- The counts from 0, for a second; the buffer occupancy is kept.
abbrev pub from_zero : LvFeedbackPacket → LvFeedbackPacket
from_zero p = record {
  time_quantum = 1000;
  total_blocks = 0;
  out_of_order_blocks = 0;
  total_packets = 0;
  lost_packets = 0;
  ecc_decoder_failures = 0;
  average_buffer_occupancy = p.average_buffer_occupancy;
}

-- What is behind the mutex when each round of the client sends it.
abbrev pub snapshots : List (Shared → Shared) → Shared → List Shared
snapshots [] s = []
snapshots (changes ∷ more) s =
    changes s ∷ snapshots more (record (changes s) { feedback = from_zero (changes s).feedback })

module _ (f32 : Floats) (bincode : Bincode) (now : ℕ → ℕ) where
  -- The reads of the server, one for each message; `now k` is its clock at those of round `k`.
  abbrev pub reads : ℕ → List (List (List ℕ)) → List (Option (List ℕ) × ℕ)
  reads k [] = []
  reads k (messages ∷ rest) = map (λ m. (some m, now k)) messages ++ reads (k + 1) rest

  -- The packet and then the acknowledgement of each round, taken without any bytes.
  abbrev pub taken : ℕ → List Shared → Feedback → Feedback
  taken k [] s = s
  taken k (x ∷ xs) s =
      taken (k + 1) xs (apply_ack f32 (now k) x.ack (apply_feedback f32 x.feedback s))

  apply_ack-buffered :
      (t : ℕ) (a : LvAck) (s : Feedback) (b : List ℕ)
      → apply_ack f32 t a (buffered f32 bincode s b) ≡ buffered f32 bincode (apply_ack f32 t a s) b
  unfolding apply_ack
  apply_ack-buffered t a s b = refl

  taken-buffered :
      (k : ℕ) (xs : List Shared) (s : Feedback) (b : List ℕ)
      → taken k xs (buffered f32 bincode s b) ≡ buffered f32 bincode (taken k xs s) b
  taken-buffered k [] s b = refl
  taken-buffered k (x ∷ xs) s b =
      ap (taken (k + 1) xs) (
        ap (apply_ack f32 (now k) x.ack) (apply_feedback-buffered f32 bincode x.feedback s b)
        ∙ apply_ack-buffered (now k) x.ack (apply_feedback f32 x.feedback s) b)
      ∙ taken-buffered (k + 1) xs (apply_ack f32 (now k) x.ack (apply_feedback f32 x.feedback s)) b

  no_reads : (s : Feedback) → feedback_loop f32 bincode [] s ≡ ok s
  unfolding feedback_loop
  no_reads s = refl

  feedback_loop-++ :
      (xs ys : List (Option (List ℕ) × ℕ)) (s : Feedback)
      → feedback_loop f32 bincode (xs ++ ys) s
        ≡ (feedback_loop f32 bincode xs s >>= feedback_loop f32 bincode ys)
  unfolding feedback_loop
  feedback_loop-++ [] ys s = refl
  feedback_loop-++ ((got, t) ∷ xs) ys s =
      behind (feedback_round f32 bincode got t s) (feedback_loop-++ xs ys)
    where
      behind :
          (r : Outcome Feedback)
          → ((u : Feedback)
              → feedback_loop f32 bincode (xs ++ ys) u
                ≡ (feedback_loop f32 bincode xs u >>= feedback_loop f32 bincode ys))
          → (r >>= feedback_loop f32 bincode (xs ++ ys))
            ≡ ((r >>= feedback_loop f32 bincode xs) >>= feedback_loop f32 bincode ys)
      behind (ok u) h = h u
      behind (err e) h = refl
      behind panic h = refl

  module _ {Fits : LvFeedbackPacket → Type 0} {AckFits : LvAck → Type 0}
      (laws : BincodeLaws bincode Fits AckFits) where
    -- Over any number of rounds of the client, whatever the decoder puts behind the mutex between
    -- them, when each message comes whole in a read of its own: the server takes, round after round,
    -- the feedback packet and the acknowledgement that stood behind the mutex then, with the counts
    -- from 0 after every round; nothing else but the bytes of its receive buffer changes.
    pub feedback_loop-feedback_thread :
        (rounds : List (Shared → Shared)) (k : ℕ) (shared : Shared) (s : Feedback)
        → All (λ x. Fits x.feedback × AckFits x.ack) (snapshots rounds shared)
        → length s.msg_buffer ≡ message_size
        → (b : List ℕ) × (length b ≡ message_size)
          × (feedback_loop f32 bincode (reads k (feedback_thread bincode rounds shared).0) s
              ≡ ok (record (taken k (snapshots rounds shared) s) { msg_buffer = b }))
    unfolding feedback_thread feedback_messages
    feedback_loop-feedback_thread [] k shared s fits full = (s.msg_buffer, full, no_reads s)
    feedback_loop-feedback_thread (changes ∷ more) k shared s fits full =
        let x = changes shared in
        let (b, full1, one, reset, kept) =
          feedback_loop-feedback_messages f32 bincode laws x (now k) s fits.0.0 fits.0.1 full in
        let xs = snapshots more (record x { feedback = from_zero x.feedback }) in
        let s1 = apply_ack f32 (now k) x.ack (apply_feedback f32 x.feedback s) in
        let (b2, full2, others) =
          feedback_loop-feedback_thread more (k + 1) (record x { feedback = from_zero x.feedback })
            (buffered f32 bincode s1 b) fits.1 full1 in
        (
          b2,
          full2,
          feedback_loop-++ (map (λ m. (some m, now k)) (feedback_messages bincode x).0) _ s
              ∙ ap
                  (λ r.
                    r
                    >>= feedback_loop f32 bincode (
                        reads (k + 1)
                          (feedback_thread bincode more
                            (record x { feedback = from_zero x.feedback })).0))
                  (one
                    ∙ ap ok (apply_ack-buffered (now k) x.ack (apply_feedback f32 x.feedback s) b))
              ∙ others
              ∙ ap (λ u. ok (buffered f32 bincode u b2)) (taken-buffered (k + 1) xs s1 b),
        )
