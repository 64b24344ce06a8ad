-- ===== src/Client/Video/Published.antt =====
-- What `decode_loop` of client/src/decoder/video.rs publishes when a packet comes in order.
use lightvideo.Prelude.{
  ℕ, ◌+◌, ◌/◌, ◌≡◌, ◌≢◌, ◌⊎◌, inl, inr, refl, Option, none, some, true, ◌==◌, if◌then◌else◌, eq→==,
  ne→==, ℕ_discrete,
}
use lightvideo.Prelude.Words.{add32, as_u16}
use lightvideo.Prelude.Runs.{Ran, done, panicked, final, ◌>>◌}
use lightvideo.Net.Packet.{LvErasureInformation}
use lightvideo.Net.FeedbackPacket.{LvFeedbackPacket}
use lightvideo.Codec.{ErasureCode}
use lightvideo.Rtp.{Rtp}
use lightvideo.Client.LvDecoder.{H264, LvDecoder, depacketize_decode}
use lightvideo.Client.Video.{
  Arrival, Counters, no_counters, L, deliver, write_feedback, pass_on, sample_queue,
}

-- The counters when the queue of the socket has been read, or could not be.
abbrev pub sampled : Option ℕ → Counters → Counters
sampled none c = c
sampled (some d) c = record c {
  average_qocc = add32 c.average_qocc d;
  average_qocc_iterations = add32 c.average_qocc_iterations 1;
}

module _ (code : ErasureCode) (rtp : Rtp) (h264 : H264) where
  open rtp use {Packet, sequence_number}

  -- The counts of the loop stand in the feedback packet.
  abbrev pub published : Counters → LvFeedbackPacket → LvFeedbackPacket
  published c p = record p {
    total_blocks = c.total_blocks;
    out_of_order_blocks = c.out_of_order_blocks;
    total_packets = c.total_packets;
    lost_packets = as_u16 c.lost_packets;
    ecc_decoder_failures = c.ecc_decoder_failures;
    average_buffer_occupancy = c.average_qocc / c.average_qocc_iterations;
  }

  abbrev S : Type 0
  S = L code rtp h264

  -- How the rest of a round ends for these counters.
  abbrev pub Publishes : LvErasureInformation → Packet → S → Ran S (Unit {0}) → Type 0
  Publishes h p s r =
      ((s.average_qocc_iterations ≡ 0) × (r ≡ panicked (final r)))
      ⊎ ((s.average_qocc_iterations ≢ 0)
          × (r ≡ done tt (final r))
          × ((final r).feedback ≡ published s.counters s.feedback)
          × ((final r).ack ≡ record { rtp_seqno = sequence_number p; send_ts = h.send_timestamp })
          × ((final r).counters
              ≡ (if s.feedback.total_packets == 0 then no_counters else s.counters))
          × ((final r).video_dec ≡ s.video_dec))

  write_feedback-Publishes :
      (h : LvErasureInformation) (p : Packet) (s : S)
      → Publishes h p s (write_feedback code rtp h264 h p s)
  unfolding write_feedback
  write_feedback-Publishes h p s = elim (ℕ_discrete s.average_qocc_iterations 0) [
    | yes z ↦ inl (z, rw (eq→== s.average_qocc_iterations 0 z) refl)
    | no nz ↦
        let open_gate = ne→== s.average_qocc_iterations 0 nz in
        inr (
          nz,
          rw open_gate refl,
          rw open_gate refl,
          rw open_gate refl,
          rw open_gate refl,
          rw open_gate refl,
        )
  ]

  -- The state in which a packet in order, once it is decoded, is published.
  abbrev pub passed : Arrival → LvErasureInformation → LvDecoder h264 → S → S
  passed a h v s = record s {
    rs_inorder_packets =
        if s.rs_oorder_packets == 0 then s.rs_inorder_packets + 1 else s.rs_inorder_packets;
    lvheader_prev_fragment_index = h.fragment_index;
    video_dec = v;
    counters = sampled a.queued s.counters;
  }

  resumed :
      (queued : Option ℕ) (h : LvErasureInformation) (p : Packet) (s : S)
      → Publishes h p
          (record s { counters = sampled queued s.counters })
          ((sample_queue code rtp h264 queued >> write_feedback code rtp h264 h p) s)
  resumed none h p s = write_feedback-Publishes h p s
  resumed (some d) h p s =
      write_feedback-Publishes h p (record s { counters = sampled (some d) s.counters })

  -- A packet in order that is decoded without an error, when the lock is free: the round publishes
  -- the counts of the loop, the mean of the queue readings, and the packet's number and send time,
  -- and sets the counts back to 0 exactly when the feedback packet had been reset since; but it
  -- panics when the queue has not been read once, this round's reading included.
  pub pass_on-Publishes :
      (a : Arrival) (h : LvErasureInformation) (p : Packet) (s : S) (v : LvDecoder h264)
      → depacketize_decode h264 rtp p s.video_dec ≡ done tt v
      → a.unlocked ≡ true
      → Publishes h p (passed a h v s) (pass_on code rtp h264 a h p s)
  unfolding pass_on deliver
  pass_on-Publishes a h p s v decoded free =
      rw (decoded, free) (resumed a.queued h p (record (passed a h v s) { counters = s.counters }))
