-- ===== src/Client/Video/Restore.antt =====
-- `decode_loop` of client/src/decoder/video.rs: the packets of a block that ends with gaps, put back
-- into `rs_sendq` and handed to the decoder.
use lightvideo.Prelude.{
  ℕ, zero, suc, ◌+◌, ◌-◌, ◌<◌, ◌≤◌, ◌≡◌, refl, ◌∙◌, List, [], ◌∷◌, length, set, get_elem?,
  replicate, All, some, true, false, if◌then◌else◌, arith, Bool-cases, inl, inr, ok, slice, lt→ltb,
  length-set, get_elem?-set,
}
use lightvideo.Prelude.Words.{as_u16}
use lightvideo.Prelude.Slices.{slice-at}
use lightvideo.Prelude.Runs.{done, M, ◌>>=◌, ◌>>◌}
use lightvideo.Net.Packet.{simd_packet_size}
use lightvideo.Codec.{ErasureCode, Shard, Indexed, has_index, DecoderLaws, missing}
use lightvideo.Rtp.{Rtp, RtpLaws}
use lightvideo.Client.LvDecoder.{H264, LvDecoder}
use lightvideo.Client.Video.{L, read_packet, enqueue, restore, deliver, deliver_all}
use lightvideo.Client.Video.Block.{filled, Feeds, shards}

-- The queue with the packets that have not come put in their places, from `k` on.
abbrev pub refill {ℓ} : {A : Type ℓ} → Indexed → ℕ → List A → List A → List A
refill got k [] q = q
refill got k (p ∷ ps) q = refill got (k + 1) ps (if has_index k got then q else set q k p)

module _ {ℓ} {A : Type ℓ} (got : Indexed) where
  abbrev slot : ℕ → A → List A → List A
  slot k p q = if has_index k got then q else set q k p

  length-slot : (k : ℕ) (p : A) (q : List A) → length (slot k p q) ≡ length q
  length-slot k p q = elim (Bool-cases (has_index k got)) [
    | inl h ↦ rw h refl
    | inr h ↦ rw h (length-set q k p)
  ]

  pub length-refill : (k : ℕ) (ps q : List A) → length (refill got k ps q) ≡ length q
  length-refill k [] q = refl
  length-refill k (p ∷ ps) q = length-refill (k + 1) ps (slot k p q) ∙ length-slot k p q

  slot-other :
      (k j : ℕ) (p : A) (q : List A)
      → k < length q
      → (k ≡ j → has_index j got ≡ true)
      → get_elem? (slot k p q) j ≡ get_elem? q j
  slot-other k j p q lt h = elim (Bool-cases (has_index k got)) [
    | inl e ↦ rw e refl
    | inr e ↦ rw e (get_elem?-set q k j p lt ∙ ground (arith, h, e))
  ]

  -- The places in front of `k` and those of the packets that came are kept.
  pub refill-kept :
      (k : ℕ) (ps q : List A) (j : ℕ)
      → k + length ps ≤ length q
      → (k ≤ j → has_index j got ≡ true)
      → get_elem? (refill got k ps q) j ≡ get_elem? q j
  refill-kept k [] q j fits h = refl
  refill-kept k (p ∷ ps) q j fits h =
      refill-kept (k + 1) ps (slot k p q) j (omega (arith, length-slot k p q))
        (λ le. h (omega arith))
      ∙ slot-other k j p q (omega arith) (λ e. h (omega arith))

  slot-missing :
      (k : ℕ) (p : A) (q : List A)
      → k < length q
      → has_index k got ≡ false
      → get_elem? (slot k p q) k ≡ some p
  slot-missing k p q lt h = rw h (get_elem?-set q k k p lt ∙ ground arith)

  pub refill-missing :
      (k : ℕ) (ps q : List A) (j m : ℕ)
      → k + length ps ≤ length q
      → has_index j got ≡ false
      → m < length ps
      → j ≡ k + m
      → get_elem? (refill got k ps q) j ≡ get_elem? ps m
  refill-missing k [] q j m fits h lt e = absurd (omega arith)
  refill-missing k (p ∷ ps) q j zero fits h lt e =
      let here : j ≡ k = omega arith in
      refill-kept (k + 1) ps (slot k p q) j (omega (arith, length-slot k p q))
        (λ le. absurd (omega arith))
      ∙ rw here (slot-missing k p q (omega arith) (rw (← here) h))
  refill-missing k (p ∷ ps) q j (suc m) fits h lt e =
      refill-missing (k + 1) ps (slot k p q) j m (omega (arith, length-slot k p q)) h (omega arith)
        (omega arith)

module _ (code : ErasureCode) (rtp : Rtp) (h264 : H264) (recovery : List Shard → List Shard)
    (dec_laws : DecoderLaws code recovery) (rtp_laws : RtpLaws rtp) where
  open rtp use {Packet, marshal_size}
  open rtp_laws use {wire}

  -- The bytes of the packet fit a shard.
  abbrev pub Fits : Packet → Type 0
  Fits p = (marshal_size p ≤ simd_packet_size) × All (λ b. b < 256) (wire p)

  slice-filled :
      (p : Packet)
      → marshal_size p ≤ simd_packet_size
      → slice (filled (wire p)) 0 (as_u16 (marshal_size p)) ≡ ok (wire p)
  slice-filled p lt =
      slice-at [] (wire p) (replicate (simd_packet_size - length (wire p)) 0) 0
        (as_u16 (marshal_size p)) refl (omega (arith, rtp_laws.length-wire p))

  enqueue_step :
      (k : ℕ) (p : Packet) (next : M (L code rtp h264) (Unit {0})) (s : L code rtp h264)
      → k < length s.rs_sendq
      → (read_packet code rtp h264 (wire p) >>= λ packet. enqueue code rtp h264 k packet >> next) s
        ≡ next (record s { rs_sendq = set s.rs_sendq k p })
  enqueue_step k p next s lt =
      rw (rtp_laws.unmarshal-wire p, read_packet) (rw (lt→ltb k (length s.rs_sendq) lt) refl)

  restore_step :
      (k : ℕ) (p : Packet) (more : Indexed) (s : L code rtp h264)
      → get_elem? s.rs_pkt_sizes k ≡ some (as_u16 (marshal_size p))
      → marshal_size p ≤ simd_packet_size
      → k < length s.rs_sendq
      → restore code rtp h264 ((k, filled (wire p)) ∷ more) s
        ≡ restore code rtp h264 more (record s { rs_sendq = set s.rs_sendq k p })
  unfolding restore
  restore_step k p more s size small lt =
      rw (size, slice-filled p small) (enqueue_step k p (restore code rtp h264 more) s lt)

  -- What the decoder restores of a block goes to the places of the packets that have not come.
  pub restore_refills :
      (got : Indexed) (k : ℕ) (ps : List Packet) (s : L code rtp h264)
      → ((j : ℕ) (p : Packet)
          → get_elem? ps j ≡ some p
          → get_elem? s.rs_pkt_sizes (k + j) ≡ some (as_u16 (marshal_size p)))
      → All Fits ps
      → k + length ps ≤ length s.rs_sendq
      → restore code rtp h264 (missing got k (shards code rtp h264 recovery dec_laws rtp_laws ps)) s
        ≡ done tt (record s { rs_sendq = refill got k ps s.rs_sendq })
  unfolding restore
  restore_refills got k [] s sizes fits room = refl
  restore_refills got k (p ∷ ps) s sizes fits room = elim (Bool-cases (has_index k got)) [
    | inl came ↦ rw came (restore_refills got (k + 1) ps s later fits.1 (omega arith))
    | inr gone ↦ rw gone (
        restore_step k p _ s here fits.0.0 (omega arith)
        ∙ restore_refills got (k + 1) ps (record s { rs_sendq = set s.rs_sendq k p }) later fits.1
            (omega (arith, length-set s.rs_sendq k p)))
  ]
    where
      here : get_elem? s.rs_pkt_sizes k ≡ some (as_u16 (marshal_size p))
      here = let e : k + 0 ≡ k = omega arith in rw e at (sizes 0 p refl)

      later :
          (j : ℕ) (q : Packet)
          → get_elem? ps j ≡ some q
          → get_elem? s.rs_pkt_sizes (k + 1 + j) ≡ some (as_u16 (marshal_size q))
      later j q h = let e : k + 1 + j ≡ k + suc j = omega arith in rw e (sizes (suc j) q h)

  -- The packets that the decoder has not had go to it in order.
  pub deliver_all-Feeds :
      (ps : List Packet) (s : L code rtp h264) (w : LvDecoder h264)
      → Feeds code rtp h264 recovery dec_laws rtp_laws s.video_dec ps w
      → deliver_all code rtp h264 ps s ≡ done tt (record s { video_dec = w })
  unfolding deliver_all deliver
  deliver_all-Feeds [] s w f = rw f refl
  deliver_all-Feeds (p ∷ ps) s w f =
      rw f.1 (deliver_all-Feeds ps (record s { video_dec = f.0 }) w f.2)
