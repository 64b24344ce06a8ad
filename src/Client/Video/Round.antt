-- ===== src/Client/Video/Round.antt =====
-- One round of `decode_loop` of client/src/decoder/video.rs on a datagram with a sound header.
use lightvideo.Prelude.{
  ℕ, suc, ◌+◌, ◌^◌, ◌≤◌, ◌<◌, ◌≡◌, refl, ap, sym, ◌∙◌, List, ◌∷◌, ◌++◌, length, get_elem?, map,
  some, true, false, arith, ok, slice, eq→==,
}
use lightvideo.Prelude.Words.{add16, as_u16}
use lightvideo.Prelude.Slices.{slice-end}
use lightvideo.Prelude.Runs.{done}
use lightvideo.Net.Packet.{LvErasureInformation, IsHeader, from_bytes, no_bytes, simd_packet_size}
use lightvideo.Net.Packet.Layout.{layout, length-layout}
use lightvideo.Net.Packet.RoundTrip.{from_bytes-layout}
use lightvideo.Codec.{ErasureCode, Shard, DecoderLaws}
use lightvideo.Rtp.{Rtp, RtpLaws}
use lightvideo.Client.LvDecoder.{H264, LvDecoder}
use lightvideo.Client.Video.{Arrival, Counters, L, decode_round, decode_loop, enter_block}
use lightvideo.Client.Video.Block.{Matters, filled, shards, Receiving, take}
use lightvideo.Client.Video.Block.Recovery.{take_recovery}
use lightvideo.Client.Video.Original.{take_original}

module _ (code : ErasureCode) (rtp : Rtp) (h264 : H264) (recovery : List Shard → List Shard)
    (dec_laws : DecoderLaws code recovery) (rtp_laws : RtpLaws rtp) where
  open rtp use {Packet, marshal_size}
  open rtp_laws use {wire}

  abbrev S : Type 0
  S = L code rtp h264

  abbrev Rec : ℕ → List Packet → LvDecoder h264 → ℕ → ℕ → ℕ → ℕ → ℕ → ℕ → S → Type 0
  Rec = Receiving code rtp h264 recovery dec_laws rtp_laws

  abbrev pub counted_packet : S → S
  counted_packet s = record s {
    counters = record (s.counters) { total_packets = add16 s.total_packets 1 };
  }

  -- Packet `k` of the block `id` comes, and the queue of the socket can be read.
  pub record OriginalComes (id : ℕ) (ps : List Packet) (k : ℕ) (a : Arrival) : Type 0 where
    pub header : LvErasureInformation
    pub packet : Packet
    pub queue : ℕ
    pub sound : IsHeader header
    pub block_id : header.block_id ≡ id
    pub regular : header.recovery_pkt ≡ false
    pub fragment_index : header.fragment_index ≡ k
    pub at : get_elem? ps k ≡ some packet
    pub datagram : a.datagram ≡ layout header ++ wire packet
    pub queued : a.queued ≡ some queue

  -- Recovery datagram `r` of the block `id` comes, when `k` originals have come or are lost: its
  -- payload, filled up, is the recovery shard, unless the four originals have come.
  pub record RecoveryComes (id : ℕ) (ps : List Packet) (k lost r : ℕ) (a : Arrival) : Type 0 where
    pub header : LvErasureInformation
    pub bytes : List ℕ
    pub sound : IsHeader header
    pub block_id : header.block_id ≡ id
    pub flagged : header.recovery_pkt ≡ true
    pub fragment_index : header.fragment_index ≡ r
    pub pkt_sizes : header.pkt_sizes ≡ map (λ p. as_u16 (marshal_size p)) ps
    pub fits : length bytes ≤ simd_packet_size
    pub at :
        Matters code rtp h264 recovery dec_laws rtp_laws lost k
        → get_elem? (recovery (shards code rtp h264 recovery dec_laws rtp_laws ps)) r
          ≡ some (filled bytes)
    pub datagram : a.datagram ≡ layout header ++ bytes

  -- Of the counters only the readings of the queue matter.
  pub recount-Receiving :
      {id : ℕ} {ps : List Packet} {w : LvDecoder h264} {k lost i r missed room : ℕ} {s : S}
      → Rec id ps w k lost i r missed room s
      → (c : Counters) (room' : ℕ) → c.average_qocc_iterations + room' < 2 ^ 32
      → Rec id ps w k lost i r missed room' (record s { counters = c })
  recount-Receiving v c room' le = record {
    block = v.block;
    k_le = v.k_le;
    i_le = v.i_le;
    r_le = v.r_le;
    feeds = v.feeds;
    inorder = v.inorder;
    intact = v.intact;
    gap = v.gap;
    idle = v.idle;
    waiting = v.waiting;
    agrees = v.agrees;
    fresh = v.fresh;
    held = v.held;
    queue = v.queue;
    counted = v.counted;
    agrees_recovery = v.agrees_recovery;
    fresh_recovery = v.fresh_recovery;
    counted_recovery = v.counted_recovery;
    sizes = v.sizes;
    total = v.total;
    recovered = v.recovered;
    readings = le;
  }

  -- Within a block nothing is reset.
  pub enter_block_same :
      (id : ℕ) (s : S) → s.block_id ≡ id → enter_block code rtp h264 id s ≡ done tt s
  unfolding enter_block
  enter_block_same id s e = rw (eq→== id s.block_id (sym e)) refl

  round_lem :
      (a : Arrival) (h : LvErasureInformation) (bytes : List ℕ) (s s1 : S)
      → IsHeader h
      → a.datagram ≡ layout h ++ bytes
      → enter_block code rtp h264 h.block_id (counted_packet s) ≡ done tt s1
      → decode_round code rtp h264 a s ≡ take code rtp h264 recovery dec_laws rtp_laws a h bytes s1
  unfolding decode_round
  round_lem a h bytes s s1 sound d entered = rw (read, payload) (rw entered refl)
    where
      read : from_bytes a.datagram ≡ ok h
      read = ap from_bytes d ∙ from_bytes-layout h bytes sound

      payload : slice a.datagram no_bytes (length a.datagram) ≡ ok bytes
      payload =
          ap (λ b. slice b no_bytes (length b)) d
          ∙ slice-end (layout h) bytes no_bytes (sym (length-layout h sound.four_sizes))

  -- The rounds when the datagram belongs to the block whose state `enter_block` comes to.
  pub original_round :
      {id : ℕ} {ps : List Packet} {w : LvDecoder h264} {k lost i r missed room : ℕ} {s1 : S} (s : S)
      (a : Arrival) (c : OriginalComes id ps k a)
      → enter_block code rtp h264 id (counted_packet s) ≡ done tt s1
      → Rec id ps w k lost i r missed (suc room) s1
      → k < 4
      → length (wire c.packet) ≤ simd_packet_size
      → (i' : ℕ) × (s' : S) × (decode_round code rtp h264 a s ≡ done tt s')
        × Rec id ps w (k + 1) lost i' r missed room s'
  original_round {s1 = s1} s a c entered v lt fits =
      let (i', s', run, v') =
        take_original code rtp h264 recovery dec_laws rtp_laws v a c.header c.packet c.queue c.at lt
          c.regular c.fragment_index fits c.queued in
      (
        i',
        s',
        round_lem a c.header (wire c.packet) s s1 c.sound c.datagram (rw c.block_id entered) ∙ run,
        v',
      )

  pub recovery_round :
      {id : ℕ} {ps : List Packet} {w : LvDecoder h264} {k lost i r missed room : ℕ} {s1 : S} (s : S)
      (a : Arrival) (c : RecoveryComes id ps k lost r a)
      → enter_block code rtp h264 id (counted_packet s) ≡ done tt s1
      → Rec id ps w k lost i r missed (suc room) s1
      → r < 2
      → (s' : S) × (decode_round code rtp h264 a s ≡ done tt s')
        × Rec id ps w k lost i (r + 1) missed room s'
  recovery_round {room = room} {s1 = s1} s a c entered v lt =
      let (s', run, v') =
        take_recovery code rtp h264 recovery dec_laws rtp_laws
          (recount-Receiving v s1.counters room (omega (arith, v.readings))) a c.header c.bytes lt
          c.flagged c.fragment_index c.pkt_sizes c.fits c.at in
      (s', round_lem a c.header c.bytes s s1 c.sound c.datagram (rw c.block_id entered) ∙ run, v')

  pub loop_step :
      (a : Arrival) (rest : List Arrival) (s s' : S)
      → decode_round code rtp h264 a s ≡ done tt s'
      → decode_loop code rtp h264 (a ∷ rest) s ≡ decode_loop code rtp h264 rest s'
  unfolding decode_loop
  loop_step a rest s s' h = rw h refl
