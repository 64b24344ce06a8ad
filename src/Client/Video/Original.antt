-- ===== src/Client/Video/Original.antt =====
-- The rounds of `decode_loop` of client/src/decoder/video.rs that take an original packet of a block.
use lightvideo.Prelude.{
  ℕ, suc, ◌+◌, ◌<◌, ◌≤◌, ◌≡◌, ◌≢◌, ◌⊎◌, refl, ap, ◌∙◌, List, [], ◌∷◌, ◌++◌, length, drop, set,
  get_elem?, some, true, false, ◌==◌, ◌||◌, arith, inl, inr, eq→==, length-append, length-set,
  get_elem?-set, drop-get_elem?, ℕ_discrete,
}
use lightvideo.Prelude.Words.{is_positive-zero, add32}
use lightvideo.Prelude.Runs.{done}
use lightvideo.Net.Packet.{LvErasureInformation, simd_packet_size}
use lightvideo.Net.FeedbackPacket.{LvAck, LvFeedbackPacket}
use lightvideo.Codec.{ErasureCode, DecoderLaws, Shard, has_index, Agrees}
use lightvideo.Rtp.{Rtp, RtpLaws}
use lightvideo.Client.LvDecoder.{H264, LvDecoder, depacketize_decode}
use lightvideo.Client.Video.{Arrival, Counters, L, expected}
use lightvideo.Statistics.Collector.{LvStatisticsMessage}
use lightvideo.Client.Video.Indices.{has_index-append, Agrees-append, get_elem?-map}
use lightvideo.Client.Video.Block.{
  filled, Receiving, take, take_plain, length-filled, shards, Feeds,
}
use lightvideo.Client.Video.Accept.{kept, held_at, receive_lem, receive_held, moved, pass_on_runs}

module _ (code : ErasureCode) (rtp : Rtp) (h264 : H264) (recovery : List Shard → List Shard)
    (dec_laws : DecoderLaws code recovery) (rtp_laws : RtpLaws rtp) where
  open code use {ShardDecoder}
  open rtp use {Packet}
  open dec_laws use {originals, recoveries}
  open rtp_laws use {wire}

  abbrev Rec : ℕ → List Packet → LvDecoder h264 → ℕ → ℕ → ℕ → ℕ → ℕ → ℕ → L code rtp h264 → Type 0
  Rec = Receiving code rtp h264 recovery dec_laws rtp_laws

  -- What the decoder makes of an original that is new to it.
  record Grown (ps : List Packet) (k : ℕ) (p : Packet) (s : L code rtp h264) (d : ShardDecoder)
      : Type 0 where
    at : get_elem? ps k ≡ some p
    more : originals d ≡ originals s.rs_decoder ++ ((k, filled (wire p)) ∷ [])
    same : recoveries d ≡ recoveries s.rs_decoder

  module _ {id : ℕ} {ps : List Packet} {w : LvDecoder h264} {k lost i r missed room : ℕ}
      {s : L code rtp h264} (v : Rec id ps w k lost i r missed (suc room) s) (p : Packet)
      (d : ShardDecoder) (g : Grown ps k p s d) where
    shard_at :
        get_elem? (shards code rtp h264 recovery dec_laws rtp_laws ps) k ≡ some (filled (wire p))
    shard_at = get_elem?-map (λ p. filled (wire p)) ps k p g.at

    grown_size : length (originals d) ≡ length (originals s.rs_decoder) + 1
    grown_size = omega (
      arith,
      ap length g.more,
      length-append (originals s.rs_decoder) ((k, filled (wire p)) ∷ []),
    )

    grown_index :
        (j : ℕ) → has_index j (originals d) ≡ (has_index j (originals s.rs_decoder) || k == j)
    grown_index j = rw (g.more, has_index-append) refl

    grown-Agrees : Agrees (originals d) (shards code rtp h264 recovery dec_laws rtp_laws ps)
    grown-Agrees =
        rw g.more (Agrees-append (originals s.rs_decoder) k (filled (wire p)) _ v.agrees shard_at)

    passed-Receiving :
        (h : LvErasureInformation) (u : LvDecoder h264) (c : Counters) (ack : LvAck)
        (fb : LvFeedbackPacket)
        → k < 4
        → h.fragment_index ≡ k
        → lost ≡ 0
        → Feeds code rtp h264 recovery dec_laws rtp_laws u (drop (suc k) ps) w
        → c.average_qocc_iterations ≤ s.average_qocc_iterations + 1
        → Rec id ps w
            (k + 1)
            lost
            (k + 1)
            r
            missed
            room
            (record (moved code rtp h264 (kept code rtp h264 s d) h u) {
              counters = c;
              ack = ack;
              feedback = fb;
            })
    passed-Receiving h u c ack fb lt index none_lost feeds le =
        let (here, idle) = v.intact none_lost in
        record {
          block = v.block;
          k_le = omega arith;
          i_le = omega arith;
          r_le = v.r_le;
          feeds = let e : k + 1 ≡ suc k = omega arith in rw e feeds;
          inorder = omega (arith, v.inorder, here);
          intact = λ z. (refl, idle);
          gap = λ z. absurd (z none_lost);
          idle = λ z. omega (arith, index);
          waiting = omega (arith, idle);
          agrees = grown-Agrees;
          fresh = λ j z. ground (arith, v.fresh j, grown_index j);
          held = λ j z t. absurd (not_held j z t);
          queue = v.queue;
          counted = omega (arith, v.counted, grown_size);
          agrees_recovery = λ z. rw g.same (v.agrees_recovery (inr lt));
          fresh_recovery = λ j z. rw g.same (v.fresh_recovery j z);
          counted_recovery = rw g.same v.counted_recovery;
          sizes = λ z. v.sizes (rw (← g.same) z);
          total =
              ground (
                arith,
                v.total,
                grown_size,
                ap length g.same,
                v.counted,
                v.counted_recovery,
                v.r_le,
              );
          recovered = rw g.same v.recovered;
          readings = omega (arith, v.readings);
        }
      where
        not_held : (j : ℕ) → k + 1 ≤ j → has_index j (originals d) ≡ true → ⊥
        not_held j z t = ground (arith, v.fresh j, grown_index j)

    held-Receiving :
        (h : LvErasureInformation) (m : List LvStatisticsMessage)
        → k < 4
        → h.fragment_index ≡ k
        → lost ≢ 0
        → Rec id ps w
            (k + 1)
            lost
            i
            r
            missed
            room
            (record (held_at code rtp h264 (kept code rtp h264 s d) h p) { messages = m })
    held-Receiving h m lt index some_lost =
        let (early, gone) = v.gap some_lost in
        record {
          block = v.block;
          k_le = omega arith;
          i_le = omega arith;
          r_le = v.r_le;
          feeds = v.feeds;
          inorder = v.inorder;
          intact = λ z. absurd (some_lost z);
          gap = λ z. (omega arith, ground (arith, gone, grown_index i));
          idle = λ z. absurd (busy z);
          waiting = ground (arith, v.waiting);
          agrees = grown-Agrees;
          fresh = λ j z. ground (arith, v.fresh j, grown_index j);
          held = λ j z t. held_slot j z t;
          queue = omega (arith, v.queue, length-set s.rs_sendq h.fragment_index p);
          counted = omega (arith, v.counted, grown_size);
          agrees_recovery = λ z. rw g.same (v.agrees_recovery (inr lt));
          fresh_recovery = λ j z. rw g.same (v.fresh_recovery j z);
          counted_recovery = rw g.same v.counted_recovery;
          sizes = λ z. v.sizes (rw (← g.same) z);
          total =
              ground (
                arith,
                v.total,
                grown_size,
                ap length g.same,
                v.counted,
                v.counted_recovery,
                v.r_le,
              );
          recovered = rw g.same v.recovered;
          readings = omega (arith, v.readings);
        }
      where
        busy : add32 s.rs_oorder_packets 1 ≡ 0 → ⊥
        busy z = omega (arith, v.waiting, v.k_le)

        held_slot :
            (j : ℕ)
            → i ≤ j
            → has_index j (originals d) ≡ true
            → get_elem? (set s.rs_sendq h.fragment_index p) j ≡ get_elem? ps j
        held_slot j z t = ground (
          arith,
          get_elem?-set s.rs_sendq h.fragment_index j p,
          v.queue,
          v.held j,
          grown_index j,
          g.at,
        )

  -- The next original packet of the block.
  pub take_original :
      {id : ℕ} {ps : List Packet} {w : LvDecoder h264} {k lost i r missed room : ℕ}
      {s : L code rtp h264} (v : Rec id ps w k lost i r missed (suc room) s) (a : Arrival)
      (h : LvErasureInformation) (p : Packet) (q : ℕ)
      → get_elem? ps k ≡ some p
      → k < 4
      → h.recovery_pkt ≡ false
      → h.fragment_index ≡ k
      → length (wire p) ≤ simd_packet_size
      → a.queued ≡ some q
      → (i' : ℕ) × (s' : L code rtp h264) × (take code rtp h264 recovery dec_laws rtp_laws a h
            (wire p)
            s
          ≡ done tt s')
        × Rec id ps w (k + 1) lost i' r missed room s'
  take_original {ps = ps} {w = w} {k = k} {lost = lost} {i = i} {s = s} v a h p q at lt flag index
        fits queued =
      let (d, accepted, more, same) =
        dec_laws.original_accepted s.rs_decoder h.fragment_index (filled (wire p)) (omega arith)
          (length-filled code rtp h264 recovery dec_laws rtp_laws (wire p) fits)
          (v.fresh h.fragment_index (omega arith)) in
      let read = rtp_laws.unmarshal-wire p in
      let g : Grown ps k p s d = record { at = at; more = rw (← index) more; same = same } in
      let plain = take_plain code rtp h264 recovery dec_laws rtp_laws a h (wire p) s fits flag in
      elim (ℕ_discrete lost 0) [
        | no some_lost ↦
            let (m, run) =
              receive_held code rtp h264 a h (wire p) (filled (wire p)) s d p accepted read
                (omega (arith, v.queue)) (omega (arith, v.waiting, v.k_le)) (waits some_lost) in
            (i, _, plain ∙ run, held-Receiving v p d g h m lt index some_lost)
        | yes none_lost ↦
            let (u, fed, feeds) = next_fed none_lost in
            let (c, ack, fb, run, le) =
              pass_on_runs code rtp h264 a h p (kept code rtp h264 s d) u q fed queued
                (v.intact none_lost).1 (omega (arith, v.readings)) in
            (
              k + 1,
              _,
              plain
                  ∙ receive_lem code rtp h264 a h (wire p) (filled (wire p)) s d p accepted read
                  ∙ rw
                      (
                        is_positive-zero s.rs_oorder_packets (v.intact none_lost).1,
                        eq→== (expected code rtp h264 s) h.fragment_index (due none_lost),
                      )
                      run,
              passed-Receiving v p d g h u c ack fb lt index none_lost feeds le,
            )
      ]
    where
      waits : lost ≢ 0 → (s.rs_oorder_packets ≢ 0) ⊎ (expected code rtp h264 s ≢ h.fragment_index)
      waits some_lost = elim (ℕ_discrete s.rs_oorder_packets 0) [
        | no more ↦ inl more
        | yes idle ↦ inr (λ e. omega (arith, v.idle idle, (v.gap some_lost).0, e, index))
      ]

      due : lost ≡ 0 → expected code rtp h264 s ≡ h.fragment_index
      due none_lost = omega (arith, v.idle (v.intact none_lost).1, (v.intact none_lost).0, index)

      next_fed :
          lost ≡ 0
          → (u : LvDecoder h264) × (depacketize_decode h264 rtp p s.video_dec ≡ done tt u)
            × Feeds code rtp h264 recovery dec_laws rtp_laws u (drop (suc k) ps) w
      next_fed none_lost =
          let here : Feeds code rtp h264 recovery dec_laws rtp_laws s.video_dec (drop k ps) w =
            rw (← (v.intact none_lost).0) v.feeds in
          rw (drop-get_elem? k ps p at) at here
