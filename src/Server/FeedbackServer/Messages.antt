-- ===== src/Server/FeedbackServer/Messages.antt =====
-- How server/src/server/feedback_server.rs reads the messages of client/src/decoder/feedback.rs.
use lightvideo.Prelude.{
  ℕ, zero, suc, ◌≡◌, refl, ap, ap₂, ◌∙◌, List, [], ◌∷◌, ◌++◌, length, replicate, some, Outcome, ok,
  ◌>>=◌, arith, drop, length-append, length-drop, fill_front, take-all, ◌≤◌,
}
use mathlib.Core.Path.{fun_ext}
use lightvideo.Prelude.Slices.{slice-at, slice-end}
use lightvideo.Net.FeedbackPacket.{LvAck, LvFeedbackPacket, ack_type, feedback_type}
use lightvideo.Net.Wire.{Bincode, BincodeLaws}
use lightvideo.Server.FeedbackServer.{
  Floats, Feedback, message_size, apply_feedback, apply_ack, feedback_round, feedback_loop,
  handle_message,
}

module _ (f32 : Floats) (bincode : Bincode) where
  -- The message in the buffer, handled `n` times.
  unfoldable pub again : ℕ → ℕ → Feedback → Outcome Feedback
  again zero now s = ok s
  again (suc n) now s = handle_message f32 bincode now s >>= again n now

  fill_front-nil : (buf : List ℕ) → fill_front buf [] ≡ buf
  fill_front-nil [] = refl
  fill_front-nil (b ∷ buf) = refl

  round_with :
      (got : List ℕ) (now : ℕ) (s : Feedback) (b : List ℕ)
      → fill_front s.msg_buffer got ≡ b
      → feedback_round f32 bincode (some got) now s
        ≡ handle_message f32 bincode now (record s { msg_buffer = b })
  unfolding feedback_round
  round_with got now s b e =
      ap (λ xs. handle_message f32 bincode now (record s { msg_buffer = xs })) e

  -- At the end of the stream each `read` returns no bytes, and the loop takes the message that is
  -- still in its buffer once more: `n` such rounds handle that message `n` times.
  pub feedback_loop-end_of_stream :
      (n now : ℕ) (s : Feedback)
      → feedback_loop f32 bincode (replicate n (some [], now)) s ≡ again n now s
  unfolding feedback_loop again
  feedback_loop-end_of_stream zero now s = refl
  feedback_loop-end_of_stream (suc n) now s =
      ap₂ (λ m f. m >>= f) (round_with [] now s s.msg_buffer (fill_front-nil s.msg_buffer))
        (fun_ext (feedback_loop-end_of_stream n now))

  module _ {Fits : LvFeedbackPacket → Type 0} {AckFits : LvAck → Type 0}
      (laws : BincodeLaws bincode Fits AckFits) where
    -- A whole message in one read, behind it what the buffer held before.
    arrived : (m buf : List ℕ) → length m ≤ length buf → fill_front buf m ≡ m ++ drop (length m) buf
    arrived m buf h = ap (λ xs. xs ++ drop (length m) buf) (take-all (length buf) m h)

    -- A feedback message that one read delivers whole changes the state as its packet says, and
    -- otherwise only the receive buffer, which keeps its length.
    pub feedback_round-packet :
        (p : LvFeedbackPacket) (now : ℕ) (s : Feedback)
        → Fits p
        → length s.msg_buffer ≡ message_size
        → (b : List ℕ) × (length b ≡ message_size)
          × (feedback_round f32 bincode (some (feedback_type ∷ bincode.serialize_feedback p)) now s
              ≡ ok (apply_feedback f32 p (record s { msg_buffer = b })))
    unfolding handle_message
    feedback_round-packet p now s fits full =
        let ser = bincode.serialize_feedback p in
        let len = laws.length-serialize_feedback p in
        let old = drop (suc (length ser)) s.msg_buffer in
        (
          feedback_type ∷ (ser ++ old),
          omega (arith, len, length-append ser old, length-drop (suc (length ser)) s.msg_buffer),
          round_with (feedback_type ∷ ser) now s _
                (arrived (feedback_type ∷ ser) s.msg_buffer (omega (arith, len)))
              ∙ rw (
                slice-at (feedback_type ∷ []) ser old 1 17 refl (omega (arith, len)),
                laws.deserialize_feedback-serialize_feedback p fits,
              ),
        )

    -- So does an acknowledgement.
    pub feedback_round-ack :
        (a : LvAck) (now : ℕ) (s : Feedback)
        → AckFits a
        → length s.msg_buffer ≡ message_size
        → (b : List ℕ) × (length b ≡ message_size)
          × (feedback_round f32 bincode (some (ack_type ∷ bincode.serialize_ack a)) now s
              ≡ ok (apply_ack f32 now a (record s { msg_buffer = b })))
    unfolding handle_message
    feedback_round-ack a now s fits full =
        let ser = bincode.serialize_ack a in
        let len = laws.length-serialize_ack a in
        let old = drop (suc (length ser)) s.msg_buffer in
        (
          ack_type ∷ (ser ++ old),
          omega (arith, len, length-append ser old, length-drop (suc (length ser)) s.msg_buffer),
          round_with (ack_type ∷ ser) now s _
                (arrived (ack_type ∷ ser) s.msg_buffer (omega (arith, len)))
              ∙ rw (
                slice-end (ack_type ∷ []) (ser ++ old) 1 refl,
                laws.deserialize_ack-serialize_ack a old fits,
              ),
        )
