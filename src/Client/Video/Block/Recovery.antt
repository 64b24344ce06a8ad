-- ===== src/Client/Video/Block/Recovery.antt =====
-- The rounds of `decode_loop` of client/src/decoder/video.rs that take a recovery datagram of a block.
use lightvideo.Prelude.{
  ℕ, ◌+◌, ◌<◌, ◌≤◌, ◌≡◌, refl, ap, ◌∙◌, List, [], ◌∷◌, ◌++◌, length, get_elem?, map, some, true,
  if◌then◌else◌, arith, le→leb, length-append,
}
use lightvideo.Prelude.Words.{add32, as_u16}
use lightvideo.Prelude.Runs.{done, M}
use lightvideo.Net.Packet.{LvErasureInformation, simd_packet_size}
use lightvideo.Codec.{ErasureCode, DecoderLaws, Shard}
use lightvideo.Rtp.{Rtp, RtpLaws}
use lightvideo.Client.LvDecoder.{H264}
use lightvideo.Client.Video.{Arrival, keep_recovery, receive_original}
use lightvideo.Client.Video.Indices.{has_index-append, Agrees-append}
use lightvideo.Client.Video.Block.{Matters, filled, S, V, shards, Receiving, take, length-filled}

module _ (code : ErasureCode) (rtp : Rtp) (h264 : H264) (recovery : List Shard → List Shard)
    (dec_laws : DecoderLaws code recovery) (rtp_laws : RtpLaws rtp) where
  open code use {ShardDecoder, add_original_shard, add_recovery_shard}
  open rtp use {Packet, marshal_size, unmarshal}
  open dec_laws use {originals, recoveries}
  open rtp_laws use {wire}

  abbrev Q : Type 0
  Q = S code rtp h264 recovery dec_laws rtp_laws

  abbrev U : Type 0
  U = V code rtp h264 recovery dec_laws rtp_laws

  abbrev Rec : ℕ → List Packet → U → ℕ → ℕ → ℕ → ℕ → ℕ → ℕ → Q → Type 0
  Rec = Receiving code rtp h264 recovery dec_laws rtp_laws

  abbrev handle : Arrival → LvErasureInformation → List ℕ → M Q (Unit {0})
  handle = take code rtp h264 recovery dec_laws rtp_laws

  take_flagged :
      (a : Arrival) (h : LvErasureInformation) (bytes : List ℕ) (s : Q)
      → length bytes ≤ simd_packet_size
      → h.recovery_pkt ≡ true
      → handle a h bytes s ≡ keep_recovery code rtp h264 h (filled bytes) s
  take_flagged a h bytes s fits flag = rw (le→leb (length bytes) simd_packet_size fits) (
      ap
        (λ b.
          (if b
              then keep_recovery code rtp h264 h (filled bytes)
              else receive_original code rtp h264 a h bytes (filled bytes))
            s)
        flag)

  abbrev with_recovery : Q → LvErasureInformation → ShardDecoder → Q
  with_recovery s h d = record s {
    rs_decoder = d;
    rs_pkt_sizes = h.pkt_sizes;
    rs_recovery_packets = add32 s.rs_recovery_packets 1;
    rs_total_packets = add32 s.rs_total_packets 1;
  }

  keep_recovery_accepts :
      (h : LvErasureInformation) (shard : Shard) (s : Q) (d : ShardDecoder)
      → add_recovery_shard s.rs_decoder h.fragment_index shard ≡ some d
      → keep_recovery code rtp h264 h shard s ≡ done tt (with_recovery s h d)
  keep_recovery_accepts h shard s d accepted = rw (accepted, keep_recovery) refl

  with_recovery-Receiving :
      {id : ℕ} {ps : List Packet} {w : U} {k lost i r missed room : ℕ} {s : Q}
      (v : Rec id ps w k lost i r missed room s) (h : LvErasureInformation) (shard : Shard)
      (d : ShardDecoder)
      → r < 2
      → h.fragment_index ≡ r
      → h.pkt_sizes ≡ map (λ p. as_u16 (marshal_size p)) ps
      → (Matters code rtp h264 recovery dec_laws rtp_laws lost k
          → get_elem? (recovery (shards code rtp h264 recovery dec_laws rtp_laws ps)) r
            ≡ some shard)
      → originals d ≡ originals s.rs_decoder
      → recoveries d ≡ recoveries s.rs_decoder ++ ((h.fragment_index, shard) ∷ [])
      → Rec id ps w k lost i (r + 1) missed room (with_recovery s h d)
  with_recovery-Receiving {ps = ps} {r = r} {s = s} v h shard d lt index szs at same more =
      let size = length-append (recoveries s.rs_decoder) ((h.fragment_index, shard) ∷ []) in
      record {
        block = v.block;
        k_le = v.k_le;
        i_le = v.i_le;
        r_le = omega arith;
        feeds = v.feeds;
        inorder = v.inorder;
        intact = v.intact;
        gap = λ z. rw same (v.gap z);
        idle = v.idle;
        waiting = v.waiting;
        agrees = rw same v.agrees;
        fresh = λ j z. rw same (v.fresh j z);
        held = λ j z t. v.held j z (rw (← same) t);
        queue = v.queue;
        counted = rw same v.counted;
        agrees_recovery = λ z. rw more (
            Agrees-append (recoveries s.rs_decoder) h.fragment_index shard _ (v.agrees_recovery z)
              (rw index (at z)));
        fresh_recovery = λ j z. rw (more, has_index-append) (ground (arith, v.fresh_recovery j));
        counted_recovery = omega (arith, v.counted_recovery, ap length more, size);
        sizes = λ z. szs;
        total = ground (
          arith,
          v.total,
          ap length more,
          ap length same,
          size,
          v.counted,
          v.counted_recovery,
          v.k_le,
        );
        recovered = ground (arith, v.recovered, ap length more, size, v.counted_recovery);
        readings = v.readings;
      }

  -- A recovery datagram of the block.
  pub take_recovery :
      {id : ℕ} {ps : List Packet} {w : U} {k lost i r missed room : ℕ} {s : Q}
      (v : Rec id ps w k lost i r missed room s) (a : Arrival) (h : LvErasureInformation)
      (bytes : List ℕ)
      → r < 2
      → h.recovery_pkt ≡ true
      → h.fragment_index ≡ r
      → h.pkt_sizes ≡ map (λ p. as_u16 (marshal_size p)) ps
      → length bytes ≤ simd_packet_size
      → (Matters code rtp h264 recovery dec_laws rtp_laws lost k
          → get_elem? (recovery (shards code rtp h264 recovery dec_laws rtp_laws ps)) r
            ≡ some (filled bytes))
      → (s' : Q) × (handle a h bytes s ≡ done tt s') × Rec id ps w k lost i (r + 1) missed room s'
  take_recovery {s = s} v a h bytes lt flag index szs fits at =
      let (d, accepted, same, more) =
        dec_laws.recovery_accepted s.rs_decoder h.fragment_index (filled bytes) (omega arith)
          (length-filled code rtp h264 recovery dec_laws rtp_laws bytes fits)
          (v.fresh_recovery h.fragment_index (omega arith)) in
      (
        with_recovery s h d,
        take_flagged a h bytes s fits flag ∙ keep_recovery_accepts h (filled bytes) s d accepted,
        with_recovery-Receiving v h (filled bytes) d lt index szs at same more,
      )
