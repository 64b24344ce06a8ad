-- ===== src/Client/Video/Waiting.antt =====
-- The rounds of `decode_loop` of client/src/decoder/video.rs while packets of the block wait in
-- `rs_sendq`.
use lightvideo.Prelude.{
  ℕ, ◌+◌, ◌^◌, ◌<◌, ◌≤◌, ◌≡◌, ◌≢◌, sym, ◌∙◌, List, length, Option, none, some, true, ok, arith,
  slice, check, leb, eq→==, ne→==, if◌then◌else◌, ℕ_discrete, not, ◌==◌, ltb, rtp_unmarshal,
  Bool-cases, inl, inr,
}
use lightvideo.Prelude.Words.{is_positive, is_positive-true, is_positive-zero, add32, sub32, add16}
use lightvideo.Prelude.Runs.{
  Ran, Ends, and_then-Ends, lift-Ends, ◌>>◌, ◌>>=◌, option-Ends, M, throw, return, lift,
}
use lightvideo.Net.Packet.{LvErasureInformation, from_bytes, no_bytes, simd_packet_size}
use lightvideo.Codec.{ErasureCode, Shard}
use lightvideo.Rtp.{Rtp}
use lightvideo.Client.LvDecoder.{H264, LvDecoder}
use lightvideo.Client.Video.{
  Arrival, L, decode_round, enter_block, receive_original, hold_back, pass_on, report_disorder,
  expected, keep_recovery, keep_original, read_packet, fragment_buffer,
}

module _ (code : ErasureCode) (rtp : Rtp) (h264 : H264) where
  open rtp use {Packet}

  abbrev S : Type 0
  S = L code rtp h264

  abbrev V : Type 0
  V = LvDecoder h264

  -- Within the block `id`, at most `n` packets wait, and at least one does.
  pub record Waits (v : V) (id n : ℕ) (s : S) : Type 0 where
    pub video : s.video_dec ≡ v
    pub block : s.block_id ≡ id
    pub some_wait : s.rs_oorder_packets ≢ 0
    pub bound : s.rs_oorder_packets ≤ n

  abbrev pub Untouched : V → S → Type 0
  Untouched v s = s.video_dec ≡ v

  -- What a run within a block keeps: at least one packet waits afterwards, if it succeeds.
  abbrev pub Waiting : V → ℕ → ℕ → Ran S (Unit {0}) → Type 0
  Waiting v id n = Ends (λ u. Waits v id n) (Untouched v)

  hold_back-Waits :
      (v : V) (id n : ℕ) (h : LvErasureInformation) (p : Packet) (s : S)
      → s.video_dec ≡ v
      → s.block_id ≡ id
      → s.rs_oorder_packets ≤ n
      → n + 1 < 2 ^ 31
      → Waiting v id (n + 1) (hold_back code rtp h264 h p s)
  unfolding hold_back
  hold_back-Waits v id n h p s same block bound small =
      let more : add32 s.rs_oorder_packets 1 ≢ 0 = λ z. absurd (omega (arith, z)) in
      let counted : S = record s {
        counters = record (s.counters) {
          lost_packets = add32 s.lost_packets (sub32 h.fragment_index (expected code rtp h264 s));
        };
        lvheader_prev_fragment_index = h.fragment_index;
        rs_oorder_packets = add32 s.rs_oorder_packets 1;
      } in
      and_then-Ends (Untouched v) (λ u. Waits v id (n + 1)) (λ u. Waits v id (n + 1))
        (lift (check (ltb h.fragment_index (length s.rs_sendq))) counted) _
        (lift-Ends (Untouched v) (λ u. Waits v id (n + 1))
          (check (ltb h.fragment_index (length s.rs_sendq))) counted
          (λ u. record { video = same; block = block; some_wait = more; bound = omega arith }) same)
        (λ u t w. record {
          video = w.video;
          block = w.block;
          some_wait = w.some_wait;
          bound = w.bound;
        })

  -- A state that is ready to take an original that is not next in order.
  pub record Behind (v : V) (id n : ℕ) (h : LvErasureInformation) (s : S) : Type 0 where
    pub video : s.video_dec ≡ v
    pub block : s.block_id ≡ id
    pub bound : s.rs_oorder_packets ≤ n
    pub behind : s.rs_oorder_packets ≡ 0 → expected code rtp h264 s ≢ h.fragment_index

  keep_original-Behind :
      (v : V) (id n : ℕ) (h : LvErasureInformation) (shard : Shard) (s : S)
      → Behind v id n h s
      → Ends (λ u. Behind v id n h) (Untouched v) (keep_original code rtp h264 h shard s)
  keep_original-Behind v id n h shard s b =
      option-Ends (Untouched v) (λ u. Behind v id n h)
        (code.add_original_shard s.rs_decoder h.fragment_index shard) _ _ b.video
        (λ d. record { video = b.video; block = b.block; bound = b.bound; behind = b.behind })

  read_packet-Behind :
      (v : V) (id n : ℕ) (h : LvErasureInformation) (bytes : List ℕ) (s : S)
      → Behind v id n h s
      → Ends (λ p. Behind v id n h) (Untouched v) (read_packet code rtp h264 bytes s)
  read_packet-Behind v id n h bytes s b = read_lem (rtp.unmarshal bytes)
    where
      read_lem :
          (o : Option Packet)
          → Ends
              (λ p. Behind v id n h)
              (Untouched v)
              ((elim o as (λ x. M S Packet) [ none ↦ throw rtp_unmarshal | some p ↦ return p ]) s)
      read_lem none = b.video
      read_lem (some p) = b

  receive_disordered :
      (v : V) (id n : ℕ) (a : Arrival) (h : LvErasureInformation) (p : Packet) (s : S)
      → Behind v id n h s
      → n + 1 < 2 ^ 31
      → Waiting v id (n + 1) (
          (if is_positive s.rs_oorder_packets
              then hold_back code rtp h264 h p
              else if not (expected code rtp h264 s == h.fragment_index)
              then (report_disorder code rtp h264 >> hold_back code rtp h264 h p)
              else pass_on code rtp h264 a h p)
            s)
  receive_disordered v id n a h p s b small = elim (ℕ_discrete s.rs_oorder_packets 0) [
    | yes none_waits ↦
        rw
          (
            is_positive-zero s.rs_oorder_packets none_waits,
            ne→== (expected code rtp h264 s) h.fragment_index (b.behind none_waits),
          )
          (hold_back-Waits v id n h p _ b.video b.block b.bound small)
    | no some_wait ↦
        rw (is_positive-true s.rs_oorder_packets some_wait (omega (arith, b.bound)))
          (hold_back-Waits v id n h p s b.video b.block b.bound small)
  ]

  receive_original-Waits :
      (v : V) (id n : ℕ) (a : Arrival) (h : LvErasureInformation) (bytes : List ℕ) (shard : Shard)
      (s : S)
      → Behind v id n h s
      → n + 1 < 2 ^ 31
      → Waiting v id (n + 1) (receive_original code rtp h264 a h bytes shard s)
  unfolding receive_original
  receive_original-Waits v id n a h bytes shard s b small =
      and_then-Ends (Untouched v) (λ u. Behind v id n h) (λ u. Waits v id (n + 1)) _ _
        (keep_original-Behind v id n h shard s b)
        (λ u t c.
          and_then-Ends (Untouched v) (λ p. Behind v id n h) (λ u. Waits v id (n + 1)) _ _
            (read_packet-Behind v id n h bytes t c)
            (λ p r d. receive_disordered v id n a h p r d small))

  keep_recovery-Waits :
      (v : V) (id n : ℕ) (h : LvErasureInformation) (shard : Shard) (s : S)
      → Waits v id n s
      → Waiting v id (n + 1) (keep_recovery code rtp h264 h shard s)
  keep_recovery-Waits v id n h shard s w =
      option-Ends (Untouched v) (λ u. Waits v id (n + 1))
        (code.add_recovery_shard s.rs_decoder h.fragment_index shard) _ _ w.video
        (λ d. record {
          video = w.video;
          block = w.block;
          some_wait = w.some_wait;
          bound = omega (arith, w.bound);
        })

  -- A state that is ready to take a datagram with this header, be it an original or not.
  abbrev pub Taking : V → ℕ → ℕ → LvErasureInformation → S → Type 0
  Taking v id n h s = Behind v id n h s × (h.recovery_pkt ≡ true → Waits v id n s)

  -- Behind the change of the block.
  take_datagram-Waits :
      (v : V) (id n : ℕ) (a : Arrival) (h : LvErasureInformation) (bytes : List ℕ) (s : S)
      → Taking v id n h s
      → n + 1 < 2 ^ 31
      → Waiting v id (n + 1) (
          (fragment_buffer code rtp h264 bytes >>= λ shard.
          if h.recovery_pkt
          then keep_recovery code rtp h264 h shard
          else receive_original code rtp h264 a h bytes shard)
            s)
  take_datagram-Waits v id n a h bytes s ready small =
      and_then-Ends (Untouched v) (λ shard. Taking v id n h) (λ u. Waits v id (n + 1))
        (fragment_buffer code rtp h264 bytes s) _
        (and_then-Ends (Untouched v) (λ u. Taking v id n h) (λ shard. Taking v id n h)
          (lift (check (leb (length bytes) simd_packet_size)) s) _
          (lift-Ends (Untouched v) (λ u. Taking v id n h)
            (check (leb (length bytes) simd_packet_size)) s (λ u. ready) ready.0.video)
          (λ u t e. e))
        (λ shard t e. elim (Bool-cases h.recovery_pkt) [
          | inl flagged ↦ simp flagged (keep_recovery-Waits v id n h shard t (e.1 flagged))
          | inr regular ↦ simp regular (receive_original-Waits v id n a h bytes shard t e.0 small)
        ])

  abbrev counted_packet : S → S
  counted_packet s = record s {
    counters = record (s.counters) { total_packets = add16 s.total_packets 1 };
  }

  counted :
      {v : V} {id n : ℕ} {h : LvErasureInformation} {s : S}
      → Taking v id n h s
      → Taking v id n h (counted_packet s)
  counted (b, waits) = (
    record { video = b.video; block = b.block; bound = b.bound; behind = b.behind },
    λ flagged.
        let w = waits flagged in
        record { video = w.video; block = w.block; some_wait = w.some_wait; bound = w.bound },
  )

  pub round-Waits :
      (v : V) (id n : ℕ) (a : Arrival) (h : LvErasureInformation) (s : S)
      → from_bytes a.datagram ≡ ok h
      → h.block_id ≡ id
      → Taking v id n h s
      → n + 1 < 2 ^ 31
      → Waiting v id (n + 1) (decode_round code rtp h264 a s)
  unfolding decode_round enter_block
  round-Waits v id n a h s read same ready small = rw (read) (
      and_then-Ends (Untouched v) (λ bytes. Taking v id n h) (λ u. Waits v id (n + 1))
        (lift (slice a.datagram no_bytes (length a.datagram)) s) _
        (lift-Ends (Untouched v) (λ bytes. Taking v id n h)
          (slice a.datagram no_bytes (length a.datagram)) s (λ bytes. ready) ready.0.video)
        (λ bytes t e.
          rw (eq→== h.block_id t.block_id (same ∙ sym e.0.block))
            (take_datagram-Waits v id n a h bytes (counted_packet t) (counted e) small)))
