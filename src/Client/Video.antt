-- ===== src/Client/Video.antt =====
-- client/src/decoder/video.rs: `decode_loop`, which repairs blocks, passes the packets on in order
-- and counts for the feedback. The integer locals wrap as in a release build; of
-- `rs_oorder_packets`, an `i32`, the model keeps the bit pattern.
pub mod Published
pub mod Indices
pub mod Block
pub mod Accept
pub mod Original
pub mod Restore
pub mod Reset
pub mod Recover
pub mod Round
pub mod Stream
pub mod Blocks
pub mod Waiting
pub mod Disorder
use lightvideo.Prelude.{
  ℕ, ◌+◌, ◌-◌, ◌/◌, ◌%◌, List, [], ◌∷◌, ◌++◌, length, set, replicate, Option, none, some, Bool, not,
  ◌&&◌, ◌==◌, ltb, leb, if◌then◌else◌, slice, index, check, erasure_code, rtp_unmarshal,
  broken_pipe,
}
use lightvideo.Prelude.Words.{is_positive, add32, sub32, add16, as_u16}
use lightvideo.Prelude.Runs.{
  Ran, done, failed, panicked, M, ◌>>=◌, ◌>>◌, return, get, modify, lift, throw,
}
use lightvideo.Net.Packet.{
  LvErasureInformation, from_bytes, no_bytes, ec_ratio_recovery_packets, ec_ratio_regular_packets,
  simd_packet_size,
}
use lightvideo.Net.FeedbackPacket.{LvAck, LvFeedbackPacket}
use lightvideo.Codec.{ErasureCode, Indexed, Shard}
use lightvideo.Rtp.{Rtp}
use lightvideo.Statistics.{increment}
use lightvideo.Statistics.Collector.{LvStatisticsMessage, update}
use lightvideo.Client.LvDecoder.{H264, LvDecoder, depacketize_decode}

-- One datagram with what else the round meets: the kernel's queue length (`none` when the socket is
-- not known or the ioctl fails), and whether `try_lock` on the feedback packet succeeds.
pub record Arrival : Type 0 where
  pub datagram : List ℕ
  pub queued : Option ℕ
  pub unlocked : Bool

-- The counters that go into the feedback packet.
pub record Counters : Type 0 where
  pub total_blocks : ℕ
  pub out_of_order_blocks : ℕ
  pub total_packets : ℕ
  pub lost_packets : ℕ
  pub ecc_decoder_failures : ℕ
  pub average_qocc : ℕ
  pub average_qocc_iterations : ℕ

abbrev pub no_counters : Counters
no_counters = record {
  total_blocks = 0;
  out_of_order_blocks = 0;
  total_packets = 0;
  lost_packets = 0;
  ecc_decoder_failures = 0;
  average_qocc = 0;
  average_qocc_iterations = 0;
}

-- The locals of the loop, with the feedback packet that it shares.
pub record Locals (ShardDecoder Packet Video : Type 0) : Type 0 where
  pub video_dec : Video
  pub rs_decoder : ShardDecoder
  pub lvheader_prev_fragment_index : ℕ
  pub rs_sendq : List Packet
  pub rs_total_packets : ℕ
  pub rs_pkt_sizes : List ℕ
  pub rs_inorder_packets : ℕ
  pub rs_recovery_packets : ℕ
  pub rs_oorder_packets : ℕ
  pub block_id : ℕ
  pub counters : Counters
  pub open counters use *
  pub ack : LvAck
  pub feedback : LvFeedbackPacket
  -- The messages that the loop itself has sent to the statistics.
  pub messages : List LvStatisticsMessage

module _ (code : ErasureCode) (rtp : Rtp) (h264 : H264) where
  open code use {ShardDecoder, new_decoder, add_original_shard, add_recovery_shard, decode, reset}
  open rtp use {Packet, unmarshal, sequence_number, default_packet}

  abbrev pub L : Type 0
  L = Locals ShardDecoder Packet (LvDecoder h264)

  -- The locals before the loop, once the two decoders have been made.
  unfoldable pub start : LvDecoder h264 → LvAck → LvFeedbackPacket → L
  start video ack feedback = record {
    video_dec = video;
    rs_decoder = new_decoder;
    lvheader_prev_fragment_index = ec_ratio_regular_packets - 1;
    rs_sendq = replicate ec_ratio_regular_packets default_packet;
    rs_total_packets = 0;
    rs_pkt_sizes = replicate ec_ratio_regular_packets 0;
    rs_inorder_packets = 0;
    rs_recovery_packets = 0;
    rs_oorder_packets = 0;
    block_id = 0;
    counters = no_counters;
    ack = ack;
    feedback = feedback;
    messages = [];
  }

  abbrev pub on_video : Ran (LvDecoder h264) (Unit {0}) → L → Ran L (Unit {0})
  on_video (done u v) s = done u (record s { video_dec = v })
  on_video (failed e v) s = failed e (record s { video_dec = v })
  on_video (panicked v) s = panicked (record s { video_dec = v })

  -- `video_dec.depacketize_decode(packet)?`
  unfoldable pub deliver : Packet → M L (Unit {0})
  deliver packet s = on_video (depacketize_decode h264 rtp packet s.video_dec) s

  unfoldable pub deliver_all : List Packet → M L (Unit {0})
  unfolding deliver
  deliver_all [] = return tt
  deliver_all (p ∷ ps) = deliver p >> deliver_all ps

  abbrev pub count : (Counters → Counters) → M L (Unit {0})
  count f = modify λ s. record s { counters = f s.counters }

  -- `Packet::unmarshal(..)?`
  abbrev pub read_packet : List ℕ → M L Packet
  read_packet bytes = elim (unmarshal bytes) [ none ↦ throw rtp_unmarshal | some p ↦ return p ]

  -- `rs_sendq[k] = packet`
  abbrev pub enqueue : ℕ → Packet → M L (Unit {0})
  enqueue k packet = do
    s ← get
    lift (check (ltb k (length s.rs_sendq)))
    modify λ s. record s { rs_sendq = set s.rs_sendq k packet }

  -- The loop over `restored_original_iter()`.
  unfoldable pub restore : Indexed → M L (Unit {0})
  restore [] = return tt
  restore ((k, shard) ∷ more) = do
    s ← get
    size ← lift (index s.rs_pkt_sizes k)
    bytes ← lift (slice shard 0 size)
    packet ← read_packet bytes
    enqueue k packet
    restore more

  abbrev pub run_decoder : M L (Option Indexed)
  run_decoder s = let (r, d) = decode s.rs_decoder in done r (record s { rs_decoder = d })

  -- The `match` on the result of `rs_decoder.decode()`.
  unfoldable pub use_decoded : Option Indexed → M L (Unit {0})
  unfolding restore deliver_all
  use_decoded none = count λ c. record c { ecc_decoder_failures = add16 c.ecc_decoder_failures 1 }
  use_decoded (some restored) = do
    restore restored
    s ← get
    pending ← lift (slice s.rs_sendq s.rs_inorder_packets (length s.rs_sendq))
    deliver_all pending

  unfoldable pub recover : M L (Unit {0})
  unfolding use_decoded
  recover = do
    count λ c. record c { out_of_order_blocks = add16 c.out_of_order_blocks 1 }
    r ← run_decoder
    use_decoded r
    modify λ s. record s { lvheader_prev_fragment_index = ec_ratio_regular_packets - 1 }

  -- Whether the block that ends lacks packets.
  abbrev pub is_incomplete : L → Bool
  is_incomplete s =
      ltb s.rs_total_packets (ec_ratio_recovery_packets + ec_ratio_regular_packets)
      && not (sub32 s.rs_total_packets s.rs_recovery_packets == ec_ratio_regular_packets)

  abbrev pub reset_decoder : M L (Unit {0})
  reset_decoder s = elim (reset s.rs_decoder) [
    | none ↦ failed erasure_code s
    | some d ↦ done tt (record s { rs_decoder = d })
  ]

  -- `if lvheader.block_id != block_id { … }`
  unfoldable pub enter_block : ℕ → M L (Unit {0})
  unfolding recover
  enter_block id s =
      if id == s.block_id
      then done tt s
      else (do
        count λ c. record c { total_blocks = add16 c.total_blocks 1 }
        s ← get
        (if is_incomplete s then recover else return tt)
        modify λ s. record s {
          rs_inorder_packets = 0;
          rs_recovery_packets = 0;
          rs_oorder_packets = 0;
          rs_total_packets = 0;
        }
        reset_decoder
        modify λ s. record s { block_id = id })
          s

  -- The bytes of a packet, filled up to the size of a shard: `rs_fragment_buffer`.
  abbrev pub fragment_buffer : List ℕ → M L Shard
  fragment_buffer bytes = do
    lift (check (leb (length bytes) simd_packet_size))
    return (bytes ++ replicate (simd_packet_size - length bytes) 0)

  abbrev pub keep_recovery : LvErasureInformation → Shard → M L (Unit {0})
  keep_recovery h shard s = elim (add_recovery_shard s.rs_decoder h.fragment_index shard) [
    | none ↦ failed erasure_code s
    | some d ↦ done tt (record s {
      rs_decoder = d;
      rs_pkt_sizes = h.pkt_sizes;
      rs_recovery_packets = add32 s.rs_recovery_packets 1;
      rs_total_packets = add32 s.rs_total_packets 1;
    })
  ]

  abbrev pub keep_original : LvErasureInformation → Shard → M L (Unit {0})
  keep_original h shard s = elim (add_original_shard s.rs_decoder h.fragment_index shard) [
    | none ↦ failed erasure_code s
    | some d ↦ done tt (record s { rs_decoder = d; rs_total_packets = add32 s.rs_total_packets 1 })
  ]

  -- The fragment that the loop waits for.
  abbrev pub expected : L → ℕ
  expected s = add32 s.lvheader_prev_fragment_index 1 % ec_ratio_regular_packets

  -- A packet behind a gap waits in `rs_sendq`; the gap is counted as lost.
  unfoldable pub hold_back : LvErasureInformation → Packet → M L (Unit {0})
  hold_back h packet = do
    modify λ s. record s {
      counters = record (s.counters) {
        lost_packets = add32 s.lost_packets (sub32 h.fragment_index (expected s));
      };
      lvheader_prev_fragment_index = h.fragment_index;
      rs_oorder_packets = add32 s.rs_oorder_packets 1;
    }
    enqueue h.fragment_index packet

  abbrev pub sample_queue : Option ℕ → M L (Unit {0})
  sample_queue none = return tt
  sample_queue (some d) = count λ c. record c {
    average_qocc = add32 c.average_qocc d;
    average_qocc_iterations = add32 c.average_qocc_iterations 1;
  }

  -- The counts go into the shared feedback packet, and start again from 0 if the sender has reset
  -- that packet since.
  unfoldable pub write_feedback : LvErasureInformation → Packet → M L (Unit {0})
  write_feedback h packet = do
    before ← get
    modify λ s. record s {
      feedback = record (s.feedback) {
        total_blocks = s.total_blocks;
        out_of_order_blocks = s.out_of_order_blocks;
        total_packets = s.total_packets;
        lost_packets = as_u16 s.lost_packets;
        ecc_decoder_failures = s.ecc_decoder_failures;
      };
    }
    lift (check (not (before.average_qocc_iterations == 0)))
    modify λ s. record s {
      feedback = record (s.feedback) {
        average_buffer_occupancy = s.average_qocc / s.average_qocc_iterations;
      };
      counters = if before.feedback.total_packets == 0 then no_counters else s.counters;
      ack = record { rtp_seqno = sequence_number packet; send_ts = h.send_timestamp };
    }

  -- A packet that is next in order goes to the decoder at once.
  unfoldable pub pass_on : Arrival → LvErasureInformation → Packet → M L (Unit {0})
  unfolding deliver write_feedback
  pass_on a h packet = do
    modify λ s. record s {
      rs_inorder_packets =
          if s.rs_oorder_packets == 0 then s.rs_inorder_packets + 1 else s.rs_inorder_packets;
      lvheader_prev_fragment_index = h.fragment_index;
    }
    deliver packet
    sample_queue a.queued
    (if a.unlocked then write_feedback h packet else return tt)

  abbrev pub report_disorder : M L (Unit {0})
  report_disorder = modify λ s. record s {
    messages = s.messages ++ (update "client_packets_out_of_order" increment ∷ []);
  }

  unfoldable pub receive_original : Arrival → LvErasureInformation → List ℕ → Shard → M L (Unit {0})
  unfolding hold_back pass_on
  receive_original a h bytes shard = do
    keep_original h shard
    packet ← read_packet bytes
    s ← get
    (if is_positive s.rs_oorder_packets
        then hold_back h packet
        else if not (expected s == h.fragment_index)
        then (report_disorder >> hold_back h packet)
        else pass_on a h packet)

  -- One round of the loop.
  unfoldable pub decode_round : Arrival → M L (Unit {0})
  unfolding enter_block receive_original
  decode_round a = do
    h ← lift (from_bytes a.datagram)
    bytes ← lift (slice a.datagram no_bytes (length a.datagram))
    count λ c. record c { total_packets = add16 c.total_packets 1 }
    enter_block h.block_id
    shard ← fragment_buffer bytes
    (if h.recovery_pkt then keep_recovery h shard else receive_original a h bytes shard)

  -- The loop over the datagrams that the network thread hands over, until it closes the channel.
  unfoldable pub decode_loop : List Arrival → M L (Unit {0})
  unfolding decode_round
  decode_loop [] = throw broken_pipe
  decode_loop (a ∷ as') = decode_round a >> decode_loop as'
