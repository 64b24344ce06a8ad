-- ===== src/Client/Video/Accept.antt =====
-- `decode_loop` of client/src/decoder/video.rs on an original packet that the decoder of the block
-- accepts: it waits in `rs_sendq`, or goes on.
use lightvideo.Prelude.{
  ℕ, ◌+◌, ◌^◌, ◌<◌, ◌≤◌, ◌≡◌, ◌≢◌, ◌⊎◌, refl, ◌∙◌, List, [], ◌∷◌, ◌++◌, length, set, some, not,
  ◌==◌, if◌then◌else◌, arith, Bool-cases, inl, inr, eq→==, ne→==, lt→ltb, ℕ_discrete,
}
use lightvideo.Prelude.Words.{is_positive, is_positive-true, is_positive-zero, add32, sub32}
use lightvideo.Prelude.Runs.{done, ◌>>◌}
use lightvideo.Net.Packet.{LvErasureInformation}
use lightvideo.Net.FeedbackPacket.{LvAck, LvFeedbackPacket}
use lightvideo.Codec.{ErasureCode, Shard}
use lightvideo.Rtp.{Rtp}
use lightvideo.Client.LvDecoder.{H264, LvDecoder, depacketize_decode}
use lightvideo.Client.Video.{
  Arrival, Counters, no_counters, L, keep_original, hold_back, pass_on, write_feedback,
  receive_original, expected, deliver, report_disorder, read_packet,
}
use lightvideo.Statistics.{increment}
use lightvideo.Statistics.Collector.{LvStatisticsMessage, update}
use lightvideo.Client.Video.Published.{sampled, published}

module _ (code : ErasureCode) (rtp : Rtp) (h264 : H264) where
  open code use {ShardDecoder, add_original_shard}
  open rtp use {Packet, unmarshal, sequence_number}

  abbrev S : Type 0
  S = L code rtp h264

  abbrev V : Type 0
  V = LvDecoder h264

  abbrev pub kept : S → ShardDecoder → S
  kept s d = record s { rs_decoder = d; rs_total_packets = add32 s.rs_total_packets 1 }

  abbrev pub held_at : S → LvErasureInformation → Packet → S
  held_at s h p = record s {
    counters = record (s.counters) {
      lost_packets = add32 s.lost_packets (sub32 h.fragment_index (expected code rtp h264 s));
    };
    lvheader_prev_fragment_index = h.fragment_index;
    rs_oorder_packets = add32 s.rs_oorder_packets 1;
    rs_sendq = set s.rs_sendq h.fragment_index p;
  }

  hold_back_lem :
      (h : LvErasureInformation) (p : Packet) (s : S)
      → h.fragment_index < length s.rs_sendq
      → hold_back code rtp h264 h p s ≡ done tt (held_at s h p)
  unfolding hold_back
  hold_back_lem h p s lt = rw (lt→ltb h.fragment_index (length s.rs_sendq) lt) refl

  pub receive_lem :
      (a : Arrival) (h : LvErasureInformation) (bytes : List ℕ) (shard : Shard) (s : S)
      (d : ShardDecoder) (p : Packet)
      → add_original_shard s.rs_decoder h.fragment_index shard ≡ some d
      → unmarshal bytes ≡ some p
      → receive_original code rtp h264 a h bytes shard s
        ≡ (if is_positive s.rs_oorder_packets
              then hold_back code rtp h264 h p
              else if not (expected code rtp h264 s == h.fragment_index)
              then (report_disorder code rtp h264 >> hold_back code rtp h264 h p)
              else pass_on code rtp h264 a h p)
            (kept s d)
  unfolding receive_original
  receive_lem a h bytes shard s d p accepted read =
      rw (accepted, keep_original) (rw (read, read_packet) refl)

  -- A packet that is not next in order waits, with or without a report.
  pub receive_held :
      (a : Arrival) (h : LvErasureInformation) (bytes : List ℕ) (shard : Shard) (s : S)
      (d : ShardDecoder) (p : Packet)
      → add_original_shard s.rs_decoder h.fragment_index shard ≡ some d
      → unmarshal bytes ≡ some p
      → h.fragment_index < length s.rs_sendq
      → s.rs_oorder_packets < 2 ^ 31
      → (s.rs_oorder_packets ≢ 0) ⊎ (expected code rtp h264 s ≢ h.fragment_index)
      → (m : List LvStatisticsMessage) × (receive_original code rtp h264 a h bytes shard s
          ≡ done tt (record (held_at (kept s d) h p) { messages = m }))
  receive_held a h bytes shard s d p accepted read lt small waits =
      let start = receive_lem a h bytes shard s d p accepted read in
      elim (ℕ_discrete s.rs_oorder_packets 0) [
        | no more ↦ (
          s.messages,
          start
              ∙ rw (is_positive-true s.rs_oorder_packets more small)
                  (hold_back_lem h p (kept s d) lt),
        )
        | yes idle ↦
            let gap : expected code rtp h264 s ≢ h.fragment_index = elim waits [
              | inl w ↦ absurd (w idle)
              | inr w ↦ w
            ] in
            (
              s.messages ++ (update "client_packets_out_of_order" increment ∷ []),
              start
                  ∙ rw
                      (
                        is_positive-zero s.rs_oorder_packets idle,
                        ne→== (expected code rtp h264 s) h.fragment_index gap,
                      )
                      (hold_back_lem h p
                        (record (kept s d) {
                          messages =
                              s.messages ++ (update "client_packets_out_of_order" increment ∷ []);
                        })
                        lt),
            )
      ]

  -- The state after a packet in order, but for what is published.
  abbrev pub moved : S → LvErasureInformation → V → S
  moved s h v = record s {
    rs_inorder_packets = s.rs_inorder_packets + 1;
    lvheader_prev_fragment_index = h.fragment_index;
    video_dec = v;
  }

  pub pass_on_runs :
      (a : Arrival) (h : LvErasureInformation) (p : Packet) (s : S) (v : V) (q : ℕ)
      → depacketize_decode h264 rtp p s.video_dec ≡ done tt v
      → a.queued ≡ some q
      → s.rs_oorder_packets ≡ 0
      → s.average_qocc_iterations + 1 < 2 ^ 32
      → (c : Counters) × (ack : LvAck) × (fb : LvFeedbackPacket) × (pass_on code rtp h264 a h p s
          ≡ done tt (record (moved s h v) { counters = c; ack = ack; feedback = fb }))
        × (c.average_qocc_iterations ≤ s.average_qocc_iterations + 1)
  unfolding pass_on deliver write_feedback
  pass_on_runs a h p s v q decoded queued idle room =
      let c = sampled (some q) s.counters in
      elim (Bool-cases a.unlocked) [
        | inl free ↦ (
          (if s.feedback.total_packets == 0 then no_counters else c),
          record { rtp_seqno = sequence_number p; send_ts = h.send_timestamp },
          published code rtp h264 c s.feedback,
          rw (decoded, queued, free, eq→== s.rs_oorder_packets 0 idle)
              (rw (ne→== c.average_qocc_iterations 0 (omega arith)) refl),
          ground arith,
        )
        | inr busy ↦ (
          c,
          s.ack,
          s.feedback,
          rw (decoded, queued, busy, eq→== s.rs_oorder_packets 0 idle) refl,
          omega arith,
        )
      ]
