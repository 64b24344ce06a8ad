-- ===== src/Examples/Server.antt =====
-- The theorems on server/ at concrete values.
use lightvideo.Prelude.{
  ℕ, ◌+◌, ◌≤◌, ◌≡◌, refl, List, [], ◌∷◌, ◌++◌, length, replicate, some, ok, arith, ◌||◌, ltb,
  if◌then◌else◌, socket_io, erasure_code,
}
use lightvideo.Prelude.Runs.{done, failed}
use lightvideo.Net.Packet.{no_bytes}
use lightvideo.Net.FeedbackPacket.{LvAck, LvFeedbackPacket, ack_type, feedback_type}
use lightvideo.Server.ErasureManager.{Host, Sender, new, send_lv_packet}
use lightvideo.Server.ErasureManager.Regular.{Reliable}
use lightvideo.Server.ErasureManager.Blocks.{Block, Represents, Started, datagrams}
use lightvideo.Server.ErasureManager.Refine.{send_lv_packet_refines, new-Represents}
use lightvideo.Server.ErasureManager.Wedge.{failed_recovery_wedges}
use lightvideo.Server.FeedbackServer.{
  start, choose_bitrate, slow_down, speed_up, congestion, feedback_loop, feedback_round,
  apply_feedback, apply_ack, message_size,
}
use lightvideo.Server.FeedbackServer.Bitrate.{after, bitrate_bounds, choose_bitrate-two_branches}
use lightvideo.Server.FeedbackServer.Messages.{
  again, feedback_loop-end_of_stream, feedback_round-packet, feedback_round-ack,
}
use lightvideo.Client.Feedback.{Shared}
use lightvideo.System.FeedbackSession.{snapshots, reads, taken, feedback_loop-feedback_thread}
use lightvideo.Client.Feedback.{feedback_thread}
use lightvideo.Examples.Models.{
  rtp, rtp_laws, host, broken_host, floats, float_laws, bincode, bincode_laws,
}
use lightvideo.Examples.ToyCode.{toy, toy_encoder_laws}

abbrev B : Type 0
B = Block toy rtp host toy_encoder_laws rtp_laws

abbrev Rep : Sender toy.Enc → B → Type 0
Rep = Represents toy rtp host toy_encoder_laws rtp_laws

abbrev p : List ℕ
p = 1 ∷ 2 ∷ 3 ∷ []

host-Reliable : Reliable host
host-Reliable l d = refl

abbrev block : ℕ → List (List ℕ) → B
block id ps = record { id = id; packets = ps }

-- A manager after four packets: block 0 is full.
full_sender : (s : Sender toy.Enc) × Rep s (block 0 (p ∷ p ∷ p ∷ p ∷ []))
full_sender =
    let s0 : Sender toy.Enc = record { mgr = new toy rtp host; sent = []; readings = 0 } in
    let send = send_lv_packet_refines toy rtp host toy_encoder_laws rtp_laws in
    let r0 = new-Represents toy rtp host toy_encoder_laws rtp_laws in
    let (s1, a1, b1, c1, r1, st1) =
      send s0 (block 0 []) p host-Reliable r0 (omega arith) (omega arith) (omega arith) in
    let (s2, a2, b2, c2, r2, st2) =
      send s1 (block 0 (p ∷ [])) p host-Reliable r1 st1 (omega arith) (omega arith) in
    let (s3, a3, b3, c3, r3, st3) =
      send s2 (block 0 (p ∷ p ∷ [])) p host-Reliable r2 st2 (omega arith) (omega arith) in
    let (s4, a4, b4, c4, r4, st4) =
      send s3 (block 0 (p ∷ p ∷ p ∷ [])) p host-Reliable r3 st3 (omega arith) (omega arith) in
    (s4, r4)

abbrev full : B
full = block 0 (p ∷ p ∷ p ∷ p ∷ [])

-- The packet that opens block 1.
send_lv_packet_refines_example :
    (s' : Sender toy.Enc) × (send_lv_packet toy rtp host p full_sender.0 ≡ done (no_bytes + 3) s')
    × (s'.sent
        ≡ full_sender.0.sent
          ++ datagrams toy rtp host toy_encoder_laws rtp_laws full p full_sender.0.readings)
    × (s'.readings ≡ full_sender.0.readings + 3)
    × Rep s' (block 1 (p ∷ []))
    × Started toy rtp host toy_encoder_laws rtp_laws (block 1 (p ∷ []))
send_lv_packet_refines_example =
    send_lv_packet_refines toy rtp host toy_encoder_laws rtp_laws full_sender.0 full p host-Reliable
      full_sender.1 (omega arith) (omega arith) (omega arith)

-- The same manager over a socket that fails.
full_sender-broken :
    Represents toy rtp broken_host toy_encoder_laws rtp_laws full_sender.0
      (record { id = 0; packets = p ∷ p ∷ p ∷ p ∷ [] })
full_sender-broken =
    let r = full_sender.1 in
    record {
      room = record {
        data_len = r.room.data_len;
        sizes_len = r.room.sizes_len;
        largest_le = r.room.largest_le;
      };
      at_most_four = r.at_most_four;
      block_id = r.block_id;
      index = r.index;
      recovery_index = r.recovery_index;
      largest_payload = r.largest_payload;
      stale = r.stale;
      packet_sizes = r.packet_sizes;
      shards = r.shards;
    }

failed_recovery_wedges_example :
    (s' : Sender toy.Enc) × (send_lv_packet toy rtp broken_host p full_sender.0
      ≡ failed socket_io s')
    × (s'.sent ≡ full_sender.0.sent)
    × ((later : Host) (q : List ℕ) → send_lv_packet toy rtp later q s' ≡ failed erasure_code s')
failed_recovery_wedges_example =
    failed_recovery_wedges toy rtp broken_host toy_encoder_laws rtp_laws full_sender.0
      (record { id = 0; packets = p ∷ p ∷ p ∷ p ∷ [] }) p full_sender-broken refl (omega arith)
      (λ d. refl)

abbrev lossy : LvFeedbackPacket
lossy = record {
  time_quantum = 250;
  total_blocks = 20;
  out_of_order_blocks = 4;
  total_packets = 80;
  lost_packets = 6;
  ecc_decoder_failures = 1;
  average_buffer_occupancy = 0;
}

abbrev ack : LvAck
ack = record { rtp_seqno = 300; send_ts = 1700000000000 }

bitrate_bounds_example :
    let s = after floats float_laws (lossy ∷ lossy ∷ []) start in
    (12000 ≤ s.bitrate) × (s.bitrate ≤ 1100000) × (s.bitrate_mtx ≡ s.bitrate)
bitrate_bounds_example = bitrate_bounds floats float_laws lossy (lossy ∷ []) (omega arith)

choose_bitrate-two_branches_example : choose_bitrate floats lossy start ≡ (
    if floats.gt (congestion floats lossy) floats.c0_001 || ltb 0 1
    then slow_down floats start
    else speed_up floats start)
choose_bitrate-two_branches_example = choose_bitrate-two_branches floats float_laws lossy start

feedback_loop-end_of_stream_example :
    feedback_loop floats bincode (replicate 3 (some [], 5)) start ≡ again floats bincode 3 5 start
feedback_loop-end_of_stream_example = feedback_loop-end_of_stream floats bincode 3 5 start

feedback_round-packet_example :
    (b : List ℕ) × (length b ≡ message_size)
    × (feedback_round floats bincode
          (some (feedback_type ∷ bincode.serialize_feedback lossy))
          5
          start
        ≡ ok (apply_feedback floats lossy (record start { msg_buffer = b })))
feedback_round-packet_example =
    feedback_round-packet floats bincode bincode_laws lossy 5 start
      (omega arith, omega arith, omega arith, omega arith, omega arith, omega arith, omega arith)
      refl

feedback_round-ack_example :
    (b : List ℕ) × (length b ≡ message_size)
    × (feedback_round floats bincode (some (ack_type ∷ bincode.serialize_ack ack)) 5 start
        ≡ ok (apply_ack floats 5 ack (record start { msg_buffer = b })))
feedback_round-ack_example =
    feedback_round-ack floats bincode bincode_laws ack 5 start (omega arith, omega arith) refl

abbrev shared : Shared
shared = record { ack = ack; feedback = lossy }

-- Two rounds, the decoder adding nothing between them.
abbrev two_rounds : List (Shared → Shared)
two_rounds = (λ s. s) ∷ (λ s. s) ∷ []

feedback_loop-feedback_thread_example :
    (b : List ℕ) × (length b ≡ message_size)
    × (feedback_loop floats bincode
          (reads floats bincode (λ k. k) 5 (feedback_thread bincode two_rounds shared).0)
          start
        ≡ ok (record (taken floats bincode (λ k. k) 5 (snapshots two_rounds shared) start) {
          msg_buffer = b;
        }))
feedback_loop-feedback_thread_example =
    feedback_loop-feedback_thread floats bincode (λ k. k) bincode_laws two_rounds 5 shared start
      (ground arith) refl
