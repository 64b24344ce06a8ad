-- ===== src/Client/Video/Stream.antt =====
-- `decode_loop` of client/src/decoder/video.rs over the datagrams of several blocks, of which the
-- network loses some.
use lightvideo.Prelude.{
  ℕ, suc, ◌+◌, ◌≤◌, ◌<◌, ◌≡◌, refl, ◌∙◌, List, [], ◌∷◌, ◌++◌, length, All, arith,
}
use lightvideo.Prelude.Words.{add16}
use lightvideo.Prelude.Runs.{done}
use lightvideo.Net.Packet.{simd_packet_size}
use lightvideo.Codec.{ErasureCode, Shard, DecoderLaws}
use lightvideo.Rtp.{Rtp, RtpLaws}
use lightvideo.Client.LvDecoder.{H264, LvDecoder}
use lightvideo.Client.Video.{Arrival, L, decode_loop, enter_block, decode_round}
use lightvideo.Client.Video.Indices.{All-get_elem?}
use lightvideo.Client.Video.Block.{Receiving, lose_original, lose_recovery}
use lightvideo.Client.Video.Restore.{Fits}
use lightvideo.Client.Video.Round.{
  OriginalComes, RecoveryComes, counted_packet, recount-Receiving, enter_block_same, original_round,
  recovery_round, loop_step,
}

module _ (code : ErasureCode) (rtp : Rtp) (h264 : H264) (recovery : List Shard → List Shard)
    (dec_laws : DecoderLaws code recovery) (rtp_laws : RtpLaws rtp) where
  open rtp use {Packet}
  open rtp_laws use {wire}

  abbrev S : Type 0
  S = L code rtp h264

  abbrev Rec : ℕ → List Packet → LvDecoder h264 → ℕ → ℕ → ℕ → ℕ → ℕ → ℕ → S → Type 0
  Rec = Receiving code rtp h264 recovery dec_laws rtp_laws

  -- The datagrams that come of a block of which `k` originals, `lost` of them lost, and `r`
  -- recovery datagrams, `missed` of them lost, are over: the originals in their order, the recovery
  -- datagrams in theirs, and at most two of the six lost.
  pub data Comes (id : ℕ) (ps : List Packet) : ℕ → ℕ → ℕ → ℕ → List Arrival → Type 0 where
    over : {lost missed : ℕ} → lost + missed ≤ 2 → Comes id ps 4 lost 2 missed []
    original :
        {k lost r missed : ℕ} {a : Arrival} {rest : List Arrival}
        → k < 4
        → OriginalComes code rtp h264 recovery dec_laws rtp_laws id ps k a
        → Comes id ps (k + 1) lost r missed rest
        → Comes id ps k lost r missed (a ∷ rest)
    original_lost :
        {k lost r missed : ℕ} {rest : List Arrival}
        → k < 4
        → Comes id ps (k + 1) (lost + 1) r missed rest
        → Comes id ps k lost r missed rest
    recovery_comes :
        {k lost r missed : ℕ} {a : Arrival} {rest : List Arrival}
        → r < 2
        → RecoveryComes code rtp h264 recovery dec_laws rtp_laws id ps k lost r a
        → Comes id ps k lost (r + 1) missed rest
        → Comes id ps k lost r missed (a ∷ rest)
    recovery_lost :
        {k lost r missed : ℕ} {rest : List Arrival}
        → r < 2
        → Comes id ps k lost (r + 1) (missed + 1) rest
        → Comes id ps k lost r missed rest

  -- The block is over, and the loop stands at its end.
  pub record Over (id : ℕ) (ps : List Packet) (w : LvDecoder h264) (room : ℕ) (s : S) : Type 0 where
    pub lost : ℕ
    pub missed : ℕ
    pub sent : ℕ
    pub few : lost + missed ≤ 2
    pub state : Rec id ps w 4 lost sent 2 missed room s

  -- The loop gets over these datagrams, and then stands at the end of the block.
  abbrev pub Gets : ℕ → List Packet → LvDecoder h264 → ℕ → List Arrival → S → Type 0
  Gets id ps w room as' s =
      (s' : S) × ((more : List Arrival)
        → decode_loop code rtp h264 (as' ++ more) s ≡ decode_loop code rtp h264 more s')
      × Over id ps w room s'

  module _ (id : ℕ) (ps : List Packet) (w : LvDecoder h264)
      (fit : All (Fits code rtp h264 recovery dec_laws rtp_laws) ps) where
    small :
        {k : ℕ} {a : Arrival} (c : OriginalComes code rtp h264 recovery dec_laws rtp_laws id ps k a)
        → length (wire c.packet) ≤ simd_packet_size
    small {k = k} c = omega (
      arith,
      rtp_laws.length-wire c.packet,
      (All-get_elem? (Fits code rtp h264 recovery dec_laws rtp_laws) ps k c.packet fit c.at).0,
    )

    came :
        (as' : List Arrival) (room : ℕ) (a : Arrival) (s s' : S)
        → decode_round code rtp h264 a s ≡ done tt s'
        → Gets id ps w room as' s'
        → Gets id ps w room (a ∷ as') s
    came as' room a s s' run (t, loop, end) = (
      t,
      λ more.
          loop_step code rtp h264 recovery dec_laws rtp_laws a (as' ++ more) s s' run ∙ loop more,
      end,
    )

    spend :
        {k lost i r missed : ℕ} {s : S} (n room : ℕ)
        → Rec id ps w k lost i r missed (suc n + room) s
        → Rec id ps w k lost i r missed (suc (n + room)) s
    spend n room v = let e : suc n + room ≡ suc (n + room) = omega arith in rw e at v

    counted :
        {k lost i r missed : ℕ} {s : S} (n room : ℕ)
        → Rec id ps w k lost i r missed (suc n + room) s
        → Rec id ps w k lost i r missed
            (suc (n + room))
            (counted_packet code rtp h264 recovery dec_laws rtp_laws s)
    counted {s = s} n room v =
        recount-Receiving code rtp h264 recovery dec_laws rtp_laws v
          (record (s.counters) { total_packets = add16 s.total_packets 1 }) (suc (n + room))
          (omega (arith, v.readings))

    in_block :
        {k lost i r missed : ℕ} {as' : List Arrival} (room : ℕ) (s : S)
        → Comes id ps k lost r missed as'
        → Rec id ps w k lost i r missed (length as' + room) s
        → Gets id ps w room as' s
    in_block room s (over {lost = lost} {missed = missed} few) v =
        let e : 0 + room ≡ room = omega arith in
        (
          s,
          λ more. refl,
          record { lost = lost; missed = missed; sent = _; few = few; state = rw e at v },
        )
    in_block room s (original_lost lt c) v =
        in_block room s c (lose_original code rtp h264 recovery dec_laws rtp_laws v lt)
    in_block room s (recovery_lost lt c) v =
        in_block room s c (lose_recovery code rtp h264 recovery dec_laws rtp_laws v lt)
    in_block room s (original {a = a} {rest = rest} lt o c) v =
        let (i', s', run, v') =
          original_round code rtp h264 recovery dec_laws rtp_laws s a o
            (enter_block_same code rtp h264 recovery dec_laws rtp_laws id _ v.block)
            (counted (length rest) room v) lt (small o) in
        came rest room a s s' run (in_block room s' c v')
    in_block room s (recovery_comes {a = a} {rest = rest} lt o c) v =
        let (s', run, v') =
          recovery_round code rtp h264 recovery dec_laws rtp_laws s a o
            (enter_block_same code rtp h264 recovery dec_laws rtp_laws id _ v.block)
            (counted (length rest) room v) lt in
        came rest room a s s' run (in_block room s' c v')

    -- So far nothing of the block has come.
    pub before_block :
        {k lost i r missed : ℕ} {as' : List Arrival} (room : ℕ) (s s1 : S)
        → Comes id ps k lost r missed as'
        → k ≤ lost
        → r ≤ missed
        → enter_block code rtp h264 id (counted_packet code rtp h264 recovery dec_laws rtp_laws s)
          ≡ done tt s1
        → Rec id ps w k lost i r missed (length as' + room) s1
        → Gets id ps w room as' s
    before_block room s s1 (over few) hk hr entered v = absurd (omega arith)
    before_block room s s1 (original_lost lt c) hk hr entered v =
        before_block room s s1 c (omega arith) (omega arith) entered
          (lose_original code rtp h264 recovery dec_laws rtp_laws v lt)
    before_block room s s1 (recovery_lost lt c) hk hr entered v =
        before_block room s s1 c (omega arith) (omega arith) entered
          (lose_recovery code rtp h264 recovery dec_laws rtp_laws v lt)
    before_block room s s1 (original {a = a} {rest = rest} lt o c) hk hr entered v =
        let (i', s', run, v') =
          original_round code rtp h264 recovery dec_laws rtp_laws s a o entered
            (spend (length rest) room v) lt (small o) in
        came rest room a s s' run (in_block room s' c v')
    before_block room s s1 (recovery_comes {a = a} {rest = rest} lt o c) hk hr entered v =
        let (s', run, v') =
          recovery_round code rtp h264 recovery dec_laws rtp_laws s a o entered
            (spend (length rest) room v) lt in
        came rest room a s s' run (in_block room s' c v')
