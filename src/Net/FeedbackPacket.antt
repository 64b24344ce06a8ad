-- ===== src/Net/FeedbackPacket.antt =====
-- net/src/feedback_packet.rs: the two messages of the feedback channel.
use lightvideo.Prelude.{ℕ, ◌+◌, ◌*◌}

abbrev pub ack_type : ℕ
ack_type = 0

abbrev pub feedback_type : ℕ
feedback_type = 1

pub record LvAck : Type 0 where
  pub rtp_seqno : ℕ
  pub send_ts : ℕ

pub record LvFeedbackPacket : Type 0 where
  pub time_quantum : ℕ
  pub total_blocks : ℕ
  pub out_of_order_blocks : ℕ
  pub total_packets : ℕ
  pub lost_packets : ℕ
  pub ecc_decoder_failures : ℕ
  pub average_buffer_occupancy : ℕ

-- The structs are packed, so their sizes are the sums of the sizes of their fields.
abbrev pub ack_no_bytes : ℕ
ack_no_bytes = 16 + 2

abbrev pub feedback_no_bytes : ℕ
feedback_no_bytes = 6 * 2 + 4

-- `EMPTY_PKT`, which is also what `Default` gives.
abbrev pub empty_pkt : LvFeedbackPacket
empty_pkt = record {
  time_quantum = 0;
  total_blocks = 0;
  out_of_order_blocks = 0;
  total_packets = 0;
  lost_packets = 0;
  ecc_decoder_failures = 0;
  average_buffer_occupancy = 0;
}

abbrev pub default_ack : LvAck
default_ack = record { rtp_seqno = 0; send_ts = 0 }
