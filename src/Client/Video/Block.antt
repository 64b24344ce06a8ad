-- ===== src/Client/Video/Block.antt =====
-- A block of four packets on its way through `decode_loop` of client/src/decoder/video.rs: what
-- holds while its datagrams come in, and the rounds that keep it.
pub mod Recovery
use lightvideo.Prelude.{
  ℕ, ◌+◌, ◌-◌, ◌%◌, ◌^◌, ◌<◌, ◌≤◌, ◌≡◌, ◌≢◌, ◌⊎◌, inr, refl, ap, ◌∙◌, List, [], ◌∷◌, ◌++◌, length,
  drop, get_elem?, map, replicate, some, true, false, if◌then◌else◌, arith, le→leb, length-append,
  length-replicate, ℕ_discrete,
}
use lightvideo.Prelude.Words.{add32, as_u16}
use lightvideo.Prelude.Runs.{done, M, ◌>>=◌}
use lightvideo.Net.Packet.{LvErasureInformation, simd_packet_size}
use lightvideo.Codec.{ErasureCode, DecoderLaws, Shard, has_index, Agrees}
use lightvideo.Rtp.{Rtp, RtpLaws}
use lightvideo.Client.LvDecoder.{H264, LvDecoder, depacketize_decode}
use lightvideo.Client.Video.{Arrival, L, fragment_buffer, keep_recovery, receive_original}
use lightvideo.Client.Video.Indices.{has_index-append, Agrees-append}

-- The payload of a datagram, filled up to a shard.
abbrev pub filled : List ℕ → Shard
filled bytes = bytes ++ replicate (simd_packet_size - length bytes) 0

module _ (code : ErasureCode) (rtp : Rtp) (h264 : H264) (recovery : List Shard → List Shard)
    (dec_laws : DecoderLaws code recovery) (rtp_laws : RtpLaws rtp) where
  open code use {ShardDecoder, add_original_shard, add_recovery_shard}
  open rtp use {Packet, marshal_size, unmarshal}
  open dec_laws use {originals, recoveries}
  open rtp_laws use {wire}

  abbrev pub S : Type 0
  S = L code rtp h264

  abbrev pub V : Type 0
  V = LvDecoder h264

  -- The decoder takes these packets, one after the other, and then stands at the last state.
  abbrev pub Feeds : V → List Packet → V → Type 0
  Feeds v [] w = v ≡ w
  Feeds v (p ∷ ps) w = (u : V) × (depacketize_decode h264 rtp p v ≡ done tt u) × Feeds u ps w

  abbrev pub shards : List Packet → List Shard
  shards = map (λ p. filled (wire p))

  -- Recovery datagrams matter, unless the four originals have come.
  abbrev pub Matters : ℕ → ℕ → Type 0
  Matters lost k = (lost ≢ 0) ⊎ (k < 4)

  -- The block `id` of the packets `ps`, of which `k` originals and `r` recovery datagrams have come
  -- or are lost: `lost` and `missed` of them are lost, and `i` packets went to the decoder, which
  -- stands at `w` when it has taken the others too. The queue can still be read `room` times.
  pub record Receiving (id : ℕ) (ps : List Packet) (w : V) (k lost i r missed room : ℕ) (s : S)
      : Type 0 where
    pub block : s.block_id ≡ id
    pub k_le : k ≤ 4
    pub i_le : i ≤ k
    pub r_le : r ≤ 2
    pub feeds : Feeds s.video_dec (drop i ps) w
    pub inorder : s.rs_inorder_packets ≡ i
    pub intact : lost ≡ 0 → (i ≡ k) × (s.rs_oorder_packets ≡ 0)
    pub gap : lost ≢ 0 → (i < k) × (has_index i (originals s.rs_decoder) ≡ false)
    pub idle : s.rs_oorder_packets ≡ 0 → s.lvheader_prev_fragment_index ≡ (i + 3) % 4
    pub waiting : s.rs_oorder_packets ≤ k
    pub agrees : Agrees (originals s.rs_decoder) (shards ps)
    pub fresh : (j : ℕ) → k ≤ j → has_index j (originals s.rs_decoder) ≡ false
    pub held :
        (j : ℕ)
        → i ≤ j
        → has_index j (originals s.rs_decoder) ≡ true
        → get_elem? s.rs_sendq j ≡ get_elem? ps j
    pub queue : length s.rs_sendq ≡ 4
    pub counted : length (originals s.rs_decoder) + lost ≡ k
    pub agrees_recovery : Matters lost k → Agrees (recoveries s.rs_decoder) (recovery (shards ps))
    pub fresh_recovery : (j : ℕ) → r ≤ j → has_index j (recoveries s.rs_decoder) ≡ false
    pub counted_recovery : length (recoveries s.rs_decoder) + missed ≡ r
    pub sizes :
        1 ≤ length (recoveries s.rs_decoder)
        → s.rs_pkt_sizes ≡ map (λ p. as_u16 (marshal_size p)) ps
    pub total :
        s.rs_total_packets ≡ length (originals s.rs_decoder) + length (recoveries s.rs_decoder)
    pub recovered : s.rs_recovery_packets ≡ length (recoveries s.rs_decoder)
    pub readings : s.average_qocc_iterations + room < 2 ^ 32

  -- What a round does behind the change of the block.
  abbrev pub take : Arrival → LvErasureInformation → List ℕ → M S (Unit {0})
  take a h bytes = do
    shard ← fragment_buffer code rtp h264 bytes
    (if h.recovery_pkt
        then keep_recovery code rtp h264 h shard
        else receive_original code rtp h264 a h bytes shard)

  -- A datagram that does not come.
  pub lose_original :
      {id : ℕ} {ps : List Packet} {w : V} {k lost i r missed room : ℕ} {s : S}
      → Receiving id ps w k lost i r missed room s
      → k < 4
      → Receiving id ps w (k + 1) (lost + 1) i r missed room s
  lose_original {k = k} {lost = lost} {i = i} {s = s} v h = record {
    block = v.block;
    k_le = omega arith;
    i_le = omega (arith, v.i_le);
    r_le = v.r_le;
    feeds = v.feeds;
    inorder = v.inorder;
    intact = λ z. absurd (omega arith);
    gap = λ z. elim (ℕ_discrete lost 0) [
      | yes none_lost ↦ (omega (arith, v.i_le), v.fresh i (omega (arith, (v.intact none_lost).0)))
      | no some_lost ↦ (omega (arith, (v.gap some_lost).0), (v.gap some_lost).1)
    ];
    idle = v.idle;
    waiting = omega (arith, v.waiting);
    agrees = v.agrees;
    fresh = λ j z. v.fresh j (omega arith);
    held = v.held;
    queue = v.queue;
    counted = omega (arith, v.counted);
    agrees_recovery = λ z. v.agrees_recovery (inr h);
    fresh_recovery = v.fresh_recovery;
    counted_recovery = v.counted_recovery;
    sizes = v.sizes;
    total = v.total;
    recovered = v.recovered;
    readings = v.readings;
  }

  pub lose_recovery :
      {id : ℕ} {ps : List Packet} {w : V} {k lost i r missed room : ℕ} {s : S}
      → Receiving id ps w k lost i r missed room s
      → r < 2
      → Receiving id ps w k lost i (r + 1) (missed + 1) room s
  lose_recovery v h = record {
    block = v.block;
    k_le = v.k_le;
    i_le = v.i_le;
    r_le = omega arith;
    feeds = v.feeds;
    inorder = v.inorder;
    intact = v.intact;
    gap = v.gap;
    idle = v.idle;
    waiting = v.waiting;
    agrees = v.agrees;
    fresh = v.fresh;
    held = v.held;
    queue = v.queue;
    counted = v.counted;
    agrees_recovery = v.agrees_recovery;
    fresh_recovery = λ j z. v.fresh_recovery j (omega arith);
    counted_recovery = omega (arith, v.counted_recovery);
    sizes = v.sizes;
    total = v.total;
    recovered = v.recovered;
    readings = v.readings;
  }

  pub length-filled :
      (bytes : List ℕ) → length bytes ≤ simd_packet_size → length (filled bytes) ≡ simd_packet_size
  length-filled bytes h = omega (
    arith,
    length-append bytes (replicate (simd_packet_size - length bytes) 0),
    length-replicate {A = ℕ} (simd_packet_size - length bytes) 0,
  )

  pub take_plain :
      (a : Arrival) (h : LvErasureInformation) (bytes : List ℕ) (s : S)
      → length bytes ≤ simd_packet_size
      → h.recovery_pkt ≡ false
      → take a h bytes s ≡ receive_original code rtp h264 a h bytes (filled bytes) s
  take_plain a h bytes s fits flag = rw (le→leb (length bytes) simd_packet_size fits) (
      ap
        (λ b.
          (if b
              then keep_recovery code rtp h264 h (filled bytes)
              else receive_original code rtp h264 a h bytes (filled bytes))
            s)
        flag)
