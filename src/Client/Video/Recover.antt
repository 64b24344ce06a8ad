-- ===== src/Client/Video/Recover.antt =====
-- `decode_loop` of client/src/decoder/video.rs at the first datagram of another block: the block
-- that ends is repaired, and the locals are set back.
use lightvideo.Prelude.{
  ℕ, ◌+◌, ◌^◌, ◌<◌, ◌≤◌, ◌≡◌, ◌≢◌, refl, ap, sym, ◌∙◌, List, [], length, drop, get_elem?, All, some,
  true, false, arith, Bool-cases, inl, inr, ok, slice, get_elem?-past, drop-ext, drop-all, dec_lt,
  length-map, ℕ_discrete,
}
use lightvideo.Prelude.Words.{as_u16}
use lightvideo.Prelude.Slices.{slice-drop}
use lightvideo.Prelude.Runs.{done}
use lightvideo.Net.Packet.{simd_packet_size}
use lightvideo.Codec.{ErasureCode, Shard, has_index, DecoderLaws, missing}
use lightvideo.Rtp.{Rtp, RtpLaws}
use lightvideo.Client.LvDecoder.{H264, LvDecoder}
use lightvideo.Client.Video.{use_decoded, recover, enter_block, is_incomplete}
use lightvideo.Client.Video.Indices.{get_elem?-map, All-map, All-append, All-replicate}
use lightvideo.Client.Video.Block.{filled, Feeds, shards, Receiving, length-filled}
use lightvideo.Client.Video.Restore.{
  refill, length-refill, refill-kept, refill-missing, Fits, restore_refills, deliver_all-Feeds,
}
use lightvideo.Client.Video.Reset.{
  S, use_decoded_lem, repaired, asked, recover_lem, counted_block, reopen, enter_block_lem,
}

module _ (code : ErasureCode) (rtp : Rtp) (h264 : H264) (recovery : List Shard → List Shard)
    (dec_laws : DecoderLaws code recovery) (rtp_laws : RtpLaws rtp) where
  open code use {ShardDecoder}
  open rtp use {Packet, marshal_size}
  open dec_laws use {originals, recoveries}
  open rtp_laws use {wire}

  abbrev Rec : ℕ → List Packet → LvDecoder h264 → ℕ → ℕ → ℕ → ℕ → ℕ → ℕ → S code rtp h264 → Type 0
  Rec = Receiving code rtp h264 recovery dec_laws rtp_laws

  pub reopen-Receiving :
      (id : ℕ) (ps : List Packet) (w : LvDecoder h264) (room : ℕ) (t : S code rtp h264)
      (d : ShardDecoder)
      → length t.rs_sendq ≡ 4
      → t.lvheader_prev_fragment_index ≡ 3
      → t.average_qocc_iterations + room < 2 ^ 32
      → Feeds code rtp h264 recovery dec_laws rtp_laws t.video_dec ps w
      → originals d ≡ []
      → recoveries d ≡ []
      → Rec id ps w 0 0 0 0 0 room (reopen code rtp h264 id d t)
  reopen-Receiving id ps w room t d queue last room_left feeds none_in no_more = record {
    block = refl;
    k_le = omega arith;
    i_le = omega arith;
    r_le = omega arith;
    feeds = feeds;
    inorder = refl;
    intact = λ z. (refl, refl);
    gap = λ z. absurd (z refl);
    idle = λ z. omega arith;
    waiting = omega arith;
    agrees = rw none_in tt;
    fresh = λ j z. rw none_in refl;
    held = λ j z t. absurd (nothing j t);
    queue = queue;
    counted = rw none_in refl;
    agrees_recovery = λ z. rw no_more tt;
    fresh_recovery = λ j z. rw no_more refl;
    counted_recovery = rw no_more refl;
    sizes = λ z. absurd (omega (arith, ap length no_more));
    total = rw (none_in, no_more) refl;
    recovered = rw no_more refl;
    readings = room_left;
  }
    where
      nothing : (j : ℕ) → has_index j (originals d) ≡ true → ⊥
      nothing j e = ground (arith, e, ap (has_index j) none_in)

  module _ {id : ℕ} {ps : List Packet} {w : LvDecoder h264} {lost i missed room : ℕ}
      {s : S code rtp h264} (v : Rec id ps w 4 lost i 2 missed room s) (four : length ps ≡ 4)
      (fit : All (Fits code rtp h264 recovery dec_laws rtp_laws) ps) where
    abbrev refilled : List Packet
    refilled = refill (originals s.rs_decoder) 0 ps s.rs_sendq

    length-refilled : length refilled ≡ 4
    length-refilled = length-refill (originals s.rs_decoder) 0 ps s.rs_sendq ∙ v.queue

    refilled_at : (j : ℕ) → i ≤ j → get_elem? refilled j ≡ get_elem? ps j
    refilled_at j le = elim (Bool-cases (has_index j (originals s.rs_decoder))) [
      | inl came ↦
          refill-kept (originals s.rs_decoder) 0 ps s.rs_sendq j (omega (arith, v.queue))
            (λ z. came)
          ∙ v.held j le came
      | inr gone ↦ elim (dec_lt j 4) [
        | yes lt ↦
            refill-missing (originals s.rs_decoder) 0 ps s.rs_sendq j j (omega (arith, v.queue))
              gone (omega arith) (omega arith)
        | no ge ↦
            get_elem?-past refilled j (omega (arith, length-refilled))
            ∙ sym (get_elem?-past ps j (omega arith))
      ]
    ]

    pending : slice refilled s.rs_inorder_packets (length refilled) ≡ ok (drop i ps)
    pending =
        slice-drop refilled s.rs_inorder_packets (omega (arith, length-refilled, v.inorder, v.i_le))
        ∙ ap (λ k. ok (drop k refilled)) v.inorder
        ∙ ap ok (drop-ext i refilled ps (omega (arith, length-refilled)) refilled_at)

    shards_are_bytes : All (All (λ b. b < 256)) (shards code rtp h264 recovery dec_laws rtp_laws ps)
    shards_are_bytes =
        All-map (Fits code rtp h264 recovery dec_laws rtp_laws) (All (λ b. b < 256))
          (λ p. filled (wire p)) ps
          (λ p f.
            All-append (λ b. b < 256) (wire p) _ f.1
              (All-replicate (λ b. b < 256) _ 0 (omega arith)))
          fit

    shards_are_full :
        All (λ s. length s ≡ simd_packet_size) (shards code rtp h264 recovery dec_laws rtp_laws ps)
    shards_are_full =
        All-map (Fits code rtp h264 recovery dec_laws rtp_laws) (λ s. length s ≡ simd_packet_size)
          (λ p. filled (wire p)) ps
          (λ p f.
            length-filled code rtp h264 recovery dec_laws rtp_laws (wire p)
              (omega (arith, f.0, rtp_laws.length-wire p)))
          fit

    module _ (few : lost + missed ≤ 2) (some_lost : lost ≢ 0) where
      decoded :
          (code.decode s.rs_decoder).0
          ≡ some (
              missing
                (originals s.rs_decoder)
                0
                (shards code rtp h264 recovery dec_laws rtp_laws ps))
      decoded =
          dec_laws.decode_restores s.rs_decoder (shards code rtp h264 recovery dec_laws rtp_laws ps)
            (length-map (λ p. filled (wire p)) ps ∙ four) shards_are_bytes shards_are_full v.agrees
            (v.agrees_recovery (inl some_lost)) (omega (arith, v.counted, v.counted_recovery))
            (omega (arith, v.counted_recovery))

      size_at :
          (j : ℕ) (p : Packet)
          → get_elem? ps j ≡ some p
          → get_elem? s.rs_pkt_sizes (0 + j) ≡ some (as_u16 (marshal_size p))
      size_at j p h =
          let e : 0 + j ≡ j = omega arith in
          rw (e, v.sizes (omega (arith, v.counted_recovery)))
            (get_elem?-map (λ p. as_u16 (marshal_size p)) ps j p h)

      used :
          use_decoded code rtp h264
            (some (
              missing
                (originals s.rs_decoder)
                0
                (shards code rtp h264 recovery dec_laws rtp_laws ps)))
            (asked code rtp h264 (counted_block code rtp h264 s))
          ≡ done tt (record (asked code rtp h264 (counted_block code rtp h264 s)) {
            rs_sendq = refilled;
            video_dec = w;
          })
      used =
          let t = asked code rtp h264 (counted_block code rtp h264 s) in
          use_decoded_lem code rtp h264 _ refilled (drop i ps) w t
            (restore_refills code rtp h264 recovery dec_laws rtp_laws (originals s.rs_decoder) 0 ps
              t size_at fit (omega (arith, v.queue)))
            pending
            (deliver_all-Feeds code rtp h264 recovery dec_laws rtp_laws (drop i ps)
              (record t { rs_sendq = refilled }) w v.feeds)

      incomplete : is_incomplete code rtp h264 s ≡ true
      incomplete = ground (arith, v.total, v.recovered, v.counted, v.counted_recovery)

      recovers :
          recover code rtp h264 (counted_block code rtp h264 s)
          ≡ done tt (repaired code rtp h264 (counted_block code rtp h264 s) refilled w)
      recovers = recover_lem code rtp h264 _ refilled w (counted_block code rtp h264 s) decoded used

    complete : lost ≡ 0 → is_incomplete code rtp h264 s ≡ false
    complete z = ground (arith, v.total, v.recovered, v.counted, v.counted_recovery)

  -- The first datagram of another block: the decoder gets all packets of the block that ends.
  pub enter_next :
      {id : ℕ} {ps : List Packet} {w : LvDecoder h264} {lost i missed room : ℕ}
      {s : S code rtp h264} (v : Rec id ps w 4 lost i 2 missed room s) (id' : ℕ) (ps' : List Packet)
      (w' : LvDecoder h264)
      → length ps ≡ 4
      → All (Fits code rtp h264 recovery dec_laws rtp_laws) ps
      → lost + missed ≤ 2
      → id' ≢ id
      → Feeds code rtp h264 recovery dec_laws rtp_laws w ps' w'
      → (s' : S code rtp h264) × (enter_block code rtp h264 id' s ≡ done tt s')
        × (s'.video_dec ≡ w)
        × Rec id' ps' w' 0 0 0 0 0 room s'
  enter_next {ps = ps} {w = w} {lost = lost} {i = i} {room = room} {s = s} v id' ps' w' four fit few
        other next =
      elim (ℕ_discrete lost 0) [
        | no some_lost ↦
            let t =
              repaired code rtp h264 (counted_block code rtp h264 s) (refilled v four fit) w in
            let (d, emptied, none_in, no_more) = dec_laws.reset_empties t.rs_decoder in
            (
              reopen code rtp h264 id' d t,
              enter_block_lem code rtp h264 id' s t d (λ e. other (e ∙ v.block))
                  (rw (incomplete v four fit few some_lost) (recovers v four fit few some_lost))
                  emptied,
              refl,
              reopen-Receiving id' ps' w' room t d (length-refilled v four fit) refl v.readings next
                  none_in no_more,
            )
        | yes none_lost ↦
            let t = counted_block code rtp h264 s in
            let (d, emptied, none_in, no_more) = dec_laws.reset_empties s.rs_decoder in
            let (all_in, idle) = v.intact none_lost in
            let fed : s.video_dec ≡ w = all_fed (rw all_in at v.feeds) in
            (
              reopen code rtp h264 id' d t,
              enter_block_lem code rtp h264 id' s t d (λ e. other (e ∙ v.block))
                  (rw (complete v four fit none_lost) refl) emptied,
              fed,
              reopen-Receiving id' ps' w' room t d v.queue (omega (arith, v.idle idle, all_in))
                  v.readings (rw fed next) none_in no_more,
            )
      ]
    where
      all_fed :
          Feeds code rtp h264 recovery dec_laws rtp_laws s.video_dec (drop 4 ps) w → s.video_dec ≡ w
      all_fed f = rw (drop-all 4 ps (omega arith)) at f
