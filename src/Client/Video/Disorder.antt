-- ===== src/Client/Video/Disorder.antt =====
-- `decode_loop` of client/src/decoder/video.rs over a block of which a packet has come out of order.
use lightvideo.Prelude.{
  ℕ, ◌+◌, ◌^◌, ◌<◌, ◌≡◌, ◌≢◌, ◌⊎◌, inl, inr, Bool-cases, refl, List, [], ◌∷◌, length, All, true,
  false, ok, arith, eq→==, ne→==, ℕ_discrete,
}
use lightvideo.Prelude.Words.{add16}
use lightvideo.Prelude.Runs.{Ran, final, Ends, and_then-Ends, final-Ends, option-Ends}
use lightvideo.Net.Packet.{LvErasureInformation, from_bytes}
use lightvideo.Codec.{ErasureCode}
use lightvideo.Rtp.{Rtp}
use lightvideo.Client.LvDecoder.{H264, LvDecoder}
use lightvideo.Client.Video.Waiting.{Waits, Taking, round-Waits}
use lightvideo.Client.Video.{
  Arrival, L, decode_round, decode_loop, enter_block, expected, is_incomplete, reset_decoder,
}

module _ (code : ErasureCode) (rtp : Rtp) (h264 : H264) where
  open rtp use {Packet}

  abbrev S : Type 0
  S = L code rtp h264

  abbrev V : Type 0
  V = LvDecoder h264

  abbrev Untouched : V → S → Type 0
  Untouched v s = s.video_dec ≡ v

  -- A datagram of this block, an original or a recovery datagram.
  abbrev pub OfBlock : ℕ → Arrival → Type 0
  OfBlock id a = (h : LvErasureInformation) × (from_bytes a.datagram ≡ ok h) × (h.block_id ≡ id)

  Waits-Taking :
      {v : V} {id n : ℕ} (h : LvErasureInformation) {s : S}
      → Waits code rtp h264 v id n s
      → Taking code rtp h264 v id n h s
  Waits-Taking h w = (
    record {
      video = w.video;
      block = w.block;
      bound = w.bound;
      behind = λ z. absurd (w.some_wait z);
    },
    λ flagged. w,
  )

  abbrev Unfed : V → Ran S (Unit {0}) → Type 0
  Unfed v = Ends (λ u. Untouched v) (Untouched v)

  loop-Waits :
      (v : V) (id n : ℕ) (xs : List Arrival) (s : S)
      → Waits code rtp h264 v id n s
      → All (OfBlock id) xs
      → n + length xs < 2 ^ 31
      → Unfed v (decode_loop code rtp h264 xs s)
  unfolding decode_loop
  loop-Waits v id n [] s w all small = w.video
  loop-Waits v id n (a ∷ xs) s w ((h, read, same), all) small =
      and_then-Ends (Untouched v) (λ u. Waits code rtp h264 v id (n + 1)) (λ u. Untouched v)
        (decode_round code rtp h264 a s) (λ u. decode_loop code rtp h264 xs)
        (round-Waits code rtp h264 v id n a h s read same (Waits-Taking h w) (omega arith))
        (λ u t w'. loop-Waits v id (n + 1) xs t w' all (omega arith))

  abbrev left : S → S
  left s = record s {
    counters = record (s.counters) { total_blocks = add16 s.total_blocks 1 };
    rs_inorder_packets = 0;
    rs_recovery_packets = 0;
    rs_oorder_packets = 0;
    rs_total_packets = 0;
  }

  leave_block :
      (v : V) (id : ℕ) (s : S)
      → s.video_dec ≡ v
      → is_incomplete code rtp h264 s ≡ false
      → Unfed v (enter_block code rtp h264 id s)
  unfolding enter_block
  leave_block v id s same complete = elim (ℕ_discrete id s.block_id) [
    | yes e ↦ rw (eq→== id s.block_id e) same
    | no other ↦
        rw (ne→== id s.block_id other, complete)
          (and_then-Ends (Untouched v) (λ u. Untouched v) (λ u. Untouched v)
            (reset_decoder code rtp h264 (left s)) _
            (option-Ends (Untouched v) (λ u. Untouched v) (code.reset s.rs_decoder) _ _ same
              (λ d. same))
            (λ u t e. e))
  ]

  -- An original comes that is not the one the loop waits for, while nothing of its block waits yet,
  -- and then any datagrams of the same block, fewer than 2 ^ 31 in all, in any order. Whether the
  -- rounds succeed or not, the video decoder gets none of their packets; and either the block counts
  -- as incomplete in the end, or the change to any block gives the decoder none of them either.
  pub disorder_drops :
      (a : Arrival) (h : LvErasureInformation) (xs : List Arrival) (s : S) (next : ℕ)
      → from_bytes a.datagram ≡ ok h
      → h.block_id ≡ s.block_id
      → h.recovery_pkt ≡ false
      → expected code rtp h264 s ≢ h.fragment_index
      → s.rs_oorder_packets ≡ 0
      → All (OfBlock s.block_id) xs
      → 1 + length xs < 2 ^ 31
      → ((final (decode_loop code rtp h264 (a ∷ xs) s)).video_dec ≡ s.video_dec)
        × ((is_incomplete code rtp h264 (final (decode_loop code rtp h264 (a ∷ xs) s)) ≡ true)
            ⊎ ((final (
                  enter_block code rtp h264 next
                    (final (decode_loop code rtp h264 (a ∷ xs) s)))).video_dec
                ≡ s.video_dec))
  unfolding decode_loop
  disorder_drops a h xs s next read same regular other none_waits all small =
      let v : V = s.video_dec in
      let kept : Untouched v (final (decode_loop code rtp h264 (a ∷ xs) s)) =
        final-Ends (Untouched v) (λ u. Untouched v) (decode_loop code rtp h264 (a ∷ xs) s)
          (and_then-Ends (Untouched v) (λ u. Waits code rtp h264 v s.block_id 1) (λ u. Untouched v)
            (decode_round code rtp h264 a s) (λ u. decode_loop code rtp h264 xs)
            (round-Waits code rtp h264 v s.block_id 0 a h s read same
              (
                record { video = refl; block = refl; bound = omega arith; behind = λ z. other },
                λ flagged. absurd (true_false flagged),
              )
              (omega arith))
            (λ u t w. loop-Waits v s.block_id 1 xs t w all (omega arith)))
          (λ u t e. e) in
      (
        kept,
        elim (Bool-cases
            (is_incomplete code rtp h264 (final (decode_loop code rtp h264 (a ∷ xs) s)))) [
              | inl lacking ↦ inl lacking
              | inr complete ↦ inr (
                  final-Ends (Untouched v) (λ u. Untouched v) _
                    (leave_block v next (final (decode_loop code rtp h264 (a ∷ xs) s)) kept
                      complete)
                    (λ u t e. e))
            ],
      )
    where
      true_false : h.recovery_pkt ≡ true → ⊥
      true_false e = cc
