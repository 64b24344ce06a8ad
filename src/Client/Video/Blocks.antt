-- ===== src/Client/Video/Blocks.antt =====
-- `decode_loop` of client/src/decoder/video.rs over one block after the other, from its start on.
use lightvideo.Prelude.{
  ℕ, ◌<◌, ◌^◌, ◌≡◌, ◌≢◌, refl, ap, sym, ◌∙◌, List, [], ◌∷◌, ◌++◌, length, All, arith, append_assoc,
  length-append, some, none, ℕ_discrete,
}
use lightvideo.Prelude.Words.{add16}
use lightvideo.Prelude.Runs.{done}
use lightvideo.Net.FeedbackPacket.{LvAck, LvFeedbackPacket}
use lightvideo.Codec.{ErasureCode, Shard, DecoderLaws}
use lightvideo.Rtp.{Rtp, RtpLaws}
use lightvideo.Client.LvDecoder.{H264, LvDecoder}
use lightvideo.Client.Video.{Arrival, L, start, decode_loop, enter_block, recover, use_decoded}
use lightvideo.Client.Video.Block.{Feeds, Receiving}
use lightvideo.Client.Video.Restore.{Fits}
use lightvideo.Client.Video.Reset.{enter_block_lem, counted_block, reopen}
use lightvideo.Client.Video.Recover.{enter_next, reopen-Receiving}
use lightvideo.Client.Video.Round.{counted_packet, recount-Receiving, enter_block_same}
use lightvideo.Client.Video.Stream.{Comes, Over, Gets, before_block}

module _ (code : ErasureCode) (rtp : Rtp) (h264 : H264) (recovery : List Shard → List Shard)
    (dec_laws : DecoderLaws code recovery) (rtp_laws : RtpLaws rtp) where
  open code use {decode}
  open rtp use {Packet}
  open dec_laws use {originals, recoveries}

  abbrev S : Type 0
  S = L code rtp h264

  abbrev V : Type 0
  V = LvDecoder h264

  abbrev Rec : ℕ → List Packet → V → ℕ → ℕ → ℕ → ℕ → ℕ → ℕ → S → Type 0
  Rec = Receiving code rtp h264 recovery dec_laws rtp_laws

  abbrev Fed : V → List Packet → V → Type 0
  Fed = Feeds code rtp h264 recovery dec_laws rtp_laws

  -- A block with the datagrams of it that come.
  pub record Traffic : Type 0 where
    pub id : ℕ
    pub packets : List Packet
    pub arrivals : List Arrival

  -- Four packets that fit, at most two datagrams lost, the others in order.
  pub record Arrives (b : Traffic) : Type 0 where
    pub four : length b.packets ≡ 4
    pub fit : All (Fits code rtp h264 recovery dec_laws rtp_laws) b.packets
    pub comes : Comes code rtp h264 recovery dec_laws rtp_laws b.id b.packets 0 0 0 0 b.arrivals

  abbrev pub all_packets : List Traffic → List Packet
  all_packets [] = []
  all_packets (b ∷ bs) = b.packets ++ all_packets bs

  abbrev pub all_arrivals : List Traffic → List Arrival
  all_arrivals [] = []
  all_arrivals (b ∷ bs) = b.arrivals ++ all_arrivals bs

  -- No two blocks that follow each other have the same id.
  abbrev pub Apart : ℕ → List Traffic → Type 0
  Apart id [] = Unit {0}
  Apart id (b ∷ bs) = (b.id ≢ id) × Apart b.id bs

  abbrev pub last_id : ℕ → List Traffic → ℕ
  last_id id [] = id
  last_id id (b ∷ bs) = last_id b.id bs

  Feeds-append :
      (ps qs : List Packet) (v w : V) → Fed v (ps ++ qs) w → (u : V) × Fed v ps u × Fed u qs w
  Feeds-append [] qs v w f = (v, refl, f)
  Feeds-append (p ∷ ps) qs v w (x, run, f) =
      let (u, g, h) = Feeds-append ps qs x w f in (u, (x, run, g), h)

  -- The next datagram can open the block.
  record Ready (id : ℕ) (ps : List Packet) (w : V) (room : ℕ) (s : S) : Type 0 where
    opened : S
    enters :
        enter_block code rtp h264 id (counted_packet code rtp h264 recovery dec_laws rtp_laws s)
        ≡ done tt opened
    state : Rec id ps w 0 0 0 0 0 room opened

  Over-Ready :
      {id : ℕ} {ps : List Packet} {u : V} {room : ℕ} {s : S}
      → Over code rtp h264 recovery dec_laws rtp_laws id ps u room s
      → length ps ≡ 4
      → All (Fits code rtp h264 recovery dec_laws rtp_laws) ps
      → (id' : ℕ) (qs : List Packet) (x : V) → id' ≢ id
      → Fed u qs x
      → Ready id' qs x room s
  Over-Ready {room = room} {s = s} o four fit id' qs x other f =
      let v =
        recount-Receiving code rtp h264 recovery dec_laws rtp_laws o.state
          (record (s.counters) { total_packets = add16 s.total_packets 1 }) room o.state.readings in
      let (s', enters, here, v') =
        enter_next code rtp h264 recovery dec_laws rtp_laws v id' qs x four fit o.few other f in
      record { opened = s'; enters = enters; state = v' }

  -- The first datagram of any other block brings the decoder to `w`.
  abbrev pub Ends : ℕ → V → S → Type 0
  Ends id w s =
      (id' : ℕ)
      → id' ≢ id
      → (s' : S) × (enter_block code rtp h264 id' s ≡ done tt s') × (s'.video_dec ≡ w)

  one_block :
      (b : Traffic) (bs : List Traffic) (s : S) (u : V)
      → Arrives b
      → Ready b.id b.packets u (length (all_arrivals (b ∷ bs))) s
      → Gets code rtp h264 recovery dec_laws rtp_laws b.id b.packets u
          (length (all_arrivals bs))
          b.arrivals
          s
  one_block b bs s u a r =
      before_block code rtp h264 recovery dec_laws rtp_laws b.id b.packets u a.fit
        (length (all_arrivals bs)) s r.opened a.comes (omega arith) (omega arith) r.enters
        (rw (length-append b.arrivals (all_arrivals bs)) at r.state)

  blocks_run :
      (b : Traffic) (bs : List Traffic) (s : S) (u w : V)
      → Arrives b
      → All Arrives bs
      → Apart b.id bs
      → Fed u (all_packets bs) w
      → Ready b.id b.packets u (length (all_arrivals (b ∷ bs))) s
      → (s' : S) × ((more : List Arrival)
          → decode_loop code rtp h264 (all_arrivals (b ∷ bs) ++ more) s
            ≡ decode_loop code rtp h264 more s')
        × Ends (last_id b.id bs) w s'
  blocks_run b [] s u w a as' apart f r =
      let (t, loop, end) = one_block b [] s u a r in
      (
        t,
        λ more.
            ap (λ xs. decode_loop code rtp h264 xs s) (append_assoc b.arrivals [] more) ∙ loop more,
        λ id' other.
            let (s', enters, here, v) =
              enter_next code rtp h264 recovery dec_laws rtp_laws end.state id' [] u a.four a.fit
                end.few other refl in
            (s', enters, here ∙ f),
      )
  blocks_run b (c ∷ cs) s u w a as' apart f r =
      let (t, loop, end) = one_block b (c ∷ cs) s u a r in
      let (x, now, later) = Feeds-append c.packets (all_packets cs) u w f in
      let (s', loop', ends) =
        blocks_run c cs t x w as'.0 as'.1 apart.1 later
          (Over-Ready end a.four a.fit c.id c.packets x apart.0 now) in
      (
        s',
        λ more.
            ap (λ xs. decode_loop code rtp h264 xs s)
              (append_assoc b.arrivals (all_arrivals (c ∷ cs)) more)
            ∙ loop (all_arrivals (c ∷ cs) ++ more)
            ∙ loop' more,
        ends,
      )

  abbrev unrepaired : S → S
  unrepaired s = record s {
    counters = record (s.counters) {
      out_of_order_blocks = add16 s.out_of_order_blocks 1;
      ecc_decoder_failures = add16 s.ecc_decoder_failures 1;
    };
    rs_decoder = (decode s.rs_decoder).1;
    lvheader_prev_fragment_index = 3;
  }

  recover-unrepaired :
      (s : S) → (decode s.rs_decoder).0 ≡ none → recover code rtp h264 s ≡ done tt (unrepaired s)
  unfolding recover use_decoded
  recover-unrepaired s refused = rw refused refl

  module _ (video : V) (ack : LvAck) (fb : LvFeedbackPacket) where
    abbrev counted_start : S
    counted_start =
        counted_packet code rtp h264 recovery dec_laws rtp_laws (start code rtp h264 video ack fb)

    start_refuses : (decode code.new_decoder).0 ≡ none
    start_refuses =
        dec_laws.decode_refuses code.new_decoder
          (omega (arith, ap length dec_laws.new_originals, ap length dec_laws.new_recoveries))

    enter_first :
        (id : ℕ) (d : code.ShardDecoder)
        → id ≢ 0
        → code.reset (decode code.new_decoder).1 ≡ some d
        → enter_block code rtp h264 id counted_start
          ≡ done tt
              (reopen code rtp h264 id d (unrepaired (counted_block code rtp h264 counted_start)))
    unfolding start
    enter_first id d other emptied =
        enter_block_lem code rtp h264 id counted_start
          (unrepaired (counted_block code rtp h264 counted_start)) d other
          (recover-unrepaired (counted_block code rtp h264 counted_start) start_refuses) emptied

    -- The locals at the start of the loop are ready for any block: for block 0, in which they begin,
    -- and for any other, which the client comes in at, behind a repair that fails.
    start-Ready :
        (id : ℕ) (ps : List Packet) (w : V) (room : ℕ)
        → Fed video ps w
        → room < 2 ^ 32
        → Ready id ps w room (start code rtp h264 video ack fb)
    unfolding start
    start-Ready id ps w room f small = elim (ℕ_discrete id 0) [
      | yes first ↦ record {
        opened = counted_start;
        enters =
            enter_block_same code rtp h264 recovery dec_laws rtp_laws id counted_start (sym first);
        state = rw first (
            reopen-Receiving code rtp h264 recovery dec_laws rtp_laws 0 ps w room counted_start
              code.new_decoder refl refl (omega arith) f dec_laws.new_originals
              dec_laws.new_recoveries);
      }
      | no later ↦
          let (d, emptied, none_in, no_more) = dec_laws.reset_empties (decode code.new_decoder).1 in
          let t = unrepaired (counted_block code rtp h264 counted_start) in
          record {
            opened = reopen code rtp h264 id d t;
            enters = enter_first id d later emptied;
            state =
                reopen-Receiving code rtp h264 recovery dec_laws rtp_laws id ps w room t d refl refl
                  (omega arith) f none_in no_more;
          }
    ]

  -- Blocks of four packets, each of which fits a shard, come in one after the other, under ids of
  -- which no two neighbours are equal, and in fewer than 2 ^ 32 datagrams. Of the six datagrams
  -- of a block the network loses at most two; it keeps the originals in order and the recovery
  -- datagrams in order. The decoder takes the packets without an error, a recovery datagram,
  -- filled up with zeros, is the recovery shard, and the queue of the socket can be read. Then
  -- the loop, from its start and whatever the id of the first block is, gets over all datagrams,
  -- and at the first datagram of another block the video decoder has taken every packet of all
  -- blocks, each once and in order.
  pub decode_loop_recovers :
      (video : V) (ack : LvAck) (fb : LvFeedbackPacket) (b : Traffic) (bs : List Traffic) (w : V)
      → All Arrives (b ∷ bs)
      → Apart b.id bs
      → Fed video (all_packets (b ∷ bs)) w
      → length (all_arrivals (b ∷ bs)) < 2 ^ 32
      → (id : ℕ) → id ≢ last_id b.id bs
      → (s s' : S) × ((more : List Arrival)
          → decode_loop code rtp h264
              (all_arrivals (b ∷ bs) ++ more)
              (start code rtp h264 video ack fb)
            ≡ decode_loop code rtp h264 more s)
        × (enter_block code rtp h264 id s ≡ done tt s')
        × (s'.video_dec ≡ w)
  decode_loop_recovers video ack fb b bs w a apart f small id other =
      let (u, now, later) = Feeds-append b.packets (all_packets bs) video w f in
      let (s, loop, ends) =
        blocks_run b bs (start code rtp h264 video ack fb) u w a.0 a.1 apart later
          (start-Ready video ack fb b.id b.packets u _ now small) in
      let (s', entered, taken) = ends id other in (s, s', loop, entered, taken)
