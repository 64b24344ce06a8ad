-- ===== src/System/FeedbackPath.antt =====
-- One exchange on the feedback channel: a round of client/src/decoder/feedback.rs, read by the loop
-- of server/src/server/feedback_server.rs one message at a time.
use lightvideo.Prelude.{ℕ, ◌≡◌, refl, ap, ◌∙◌, List, [], ◌∷◌, length, map, some, ok, ◌>>=◌, arith}
use lightvideo.Net.FeedbackPacket.{LvAck, LvFeedbackPacket, ack_type, feedback_type}
use lightvideo.Net.Wire.{Bincode, BincodeLaws}
use lightvideo.Client.Feedback.{Shared, feedback_messages, reset_counts}
use lightvideo.Server.FeedbackServer.{
  Floats, Feedback, message_size, apply_feedback, apply_ack, feedback_loop, feedback_round,
}
use lightvideo.Server.FeedbackServer.Messages.{feedback_round-packet, feedback_round-ack}

module _ (f32 : Floats) (bincode : Bincode) where
  abbrev pub buffered : Feedback → List ℕ → Feedback
  buffered s b = record s { msg_buffer = b }

  -- What the receive buffer holds does not matter to a packet.
  pub apply_feedback-buffered :
      (p : LvFeedbackPacket) (s : Feedback) (b : List ℕ)
      → apply_feedback f32 p (buffered s b) ≡ buffered (apply_feedback f32 p s) b
  unfolding apply_feedback
  apply_feedback-buffered p s b = ground arith

  two_reads :
      (m1 m2 : List ℕ) (now : ℕ) (s s1 s2 : Feedback)
      → feedback_round f32 bincode (some m1) now s ≡ ok s1
      → feedback_round f32 bincode (some m2) now s1 ≡ ok s2
      → feedback_loop f32 bincode ((some m1, now) ∷ (some m2, now) ∷ []) s ≡ ok s2
  unfolding feedback_loop
  two_reads m1 m2 now s s1 s2 first second =
      ap (λ r. r >>= feedback_loop f32 bincode ((some m2, now) ∷ [])) first
      ∙ ap (λ r. r >>= feedback_loop f32 bincode []) second

  module _ {Fits : LvFeedbackPacket → Type 0} {AckFits : LvAck → Type 0}
      (laws : BincodeLaws bincode Fits AckFits) where
    -- When each of the client's two messages comes whole in a read of its own, the server applies
    -- the feedback packet and then the acknowledgement that the client had behind its mutex, and
    -- apart from the receive buffer, which keeps its length, nothing else changes; the client has
    -- then reset its counts and kept its acknowledgement.
    pub feedback_loop-feedback_messages :
        (shared : Shared) (now : ℕ) (s : Feedback)
        → Fits shared.feedback
        → AckFits shared.ack
        → length s.msg_buffer ≡ message_size
        → (b : List ℕ) × (length b ≡ message_size)
          × (feedback_loop f32 bincode
                (map (λ m. (some m, now)) ((feedback_messages bincode shared).0))
                s
              ≡ ok (
                  apply_ack f32 now shared.ack
                    (record (apply_feedback f32 shared.feedback s) { msg_buffer = b })))
          × ((feedback_messages bincode shared).1.feedback ≡ reset_counts shared.feedback)
          × ((feedback_messages bincode shared).1.ack ≡ shared.ack)
    unfolding feedback_messages
    feedback_loop-feedback_messages shared now s fits ack_fits full =
        let (b1, full1, first) =
          feedback_round-packet f32 bincode laws shared.feedback now s fits full in
        let s1 = buffered (apply_feedback f32 shared.feedback s) b1 in
        let (b2, full2, second) =
          feedback_round-ack f32 bincode laws shared.ack now s1 ack_fits full1 in
        (
          b2,
          full2,
          two_reads (feedback_type ∷ bincode.serialize_feedback shared.feedback)
              (ack_type ∷ bincode.serialize_ack shared.ack) now s s1 _
              (first ∙ ap ok (apply_feedback-buffered shared.feedback s b1)) second,
          refl,
          refl,
        )
