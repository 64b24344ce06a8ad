-- ===== src/Net/Wire.antt =====
-- The crate `bincode`, which is not part of the repository, at the two messages of
-- net/src/feedback_packet.rs.
use lightvideo.Prelude.{ℕ, ◌≡◌, List, ◌++◌, length, Option, some}
use lightvideo.Net.FeedbackPacket.{LvAck, LvFeedbackPacket, ack_no_bytes, feedback_no_bytes}

-- `none` is an `Err`.
pub record Bincode : Type 0 where
  pub serialize_ack : LvAck → List ℕ
  pub deserialize_ack : List ℕ → Option LvAck
  pub serialize_feedback : LvFeedbackPacket → List ℕ
  pub deserialize_feedback : List ℕ → Option LvFeedbackPacket

-- Messages are as long as the packed structs, and what was written is read back; behind an ack
-- more bytes may stand.
pub record BincodeLaws (b : Bincode) (Fits : LvFeedbackPacket → Type 0) (AckFits : LvAck → Type 0)
    : Type 0 where
  pub length-serialize_ack : (a : LvAck) → length (b.serialize_ack a) ≡ ack_no_bytes
  pub length-serialize_feedback :
      (p : LvFeedbackPacket) → length (b.serialize_feedback p) ≡ feedback_no_bytes
  pub deserialize_ack-serialize_ack :
      (a : LvAck) (more : List ℕ)
      → AckFits a
      → b.deserialize_ack (b.serialize_ack a ++ more) ≡ some a
  pub deserialize_feedback-serialize_feedback :
      (p : LvFeedbackPacket) → Fits p → b.deserialize_feedback (b.serialize_feedback p) ≡ some p
