-- ===== src/Client/Feedback.antt =====
-- client/src/decoder/feedback.rs: the thread that sends the counts and the last acknowledgement.
use lightvideo.Prelude.{ℕ, List, [], ◌∷◌, Option, none, some}
use lightvideo.Net.FeedbackPacket.{LvAck, LvFeedbackPacket, ack_type, feedback_type}
use lightvideo.Net.Wire.{Bincode}

abbrev pub quantum : ℕ
quantum = 1000

-- Behind the mutex: what the decoder writes and this thread sends.
pub record Shared : Type 0 where
  pub ack : LvAck
  pub feedback : LvFeedbackPacket

-- The counts start again; the buffer occupancy stays.
abbrev pub reset_counts : LvFeedbackPacket → LvFeedbackPacket
reset_counts p = record p {
  time_quantum = quantum;
  total_blocks = 0;
  out_of_order_blocks = 0;
  total_packets = 0;
  lost_packets = 0;
  ecc_decoder_failures = 0;
}

-- One round under the lock: the two messages in the order of their writes, and what is behind the
-- mutex afterwards. Whether a write succeeds is only logged.
unfoldable pub feedback_messages : Bincode → Shared → List (List ℕ) × Shared
feedback_messages bincode s = (
  (feedback_type ∷ bincode.serialize_feedback s.feedback)
      ∷ (ack_type ∷ bincode.serialize_ack s.ack)
      ∷ [],
  record s { feedback = reset_counts s.feedback },
)

-- The loop over a connection: before each round the decoder has changed what is behind the mutex.
-- The messages are those of each round.
unfoldable pub feedback_thread :
    Bincode → List (Shared → Shared) → Shared → List (List (List ℕ)) × Shared
unfolding feedback_messages
feedback_thread bincode [] s = ([], s)
feedback_thread bincode (changes ∷ more) s =
    let (messages, s) = feedback_messages bincode (changes s) in
    let (rest, s) = feedback_thread bincode more s in (messages ∷ rest, s)

-- The loop over `incoming()`: it never comes back from the first connection that it gets; `none`
-- is a connection that failed.
unfoldable pub served {ℓ} : {Stream : Type ℓ} → List (Option Stream) → Option Stream
served [] = none
served (none ∷ rest) = served rest
served (some stream ∷ rest) = some stream
