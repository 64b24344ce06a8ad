-- ===== src/System/VideoPath/Delivery.antt =====
-- The whole way of the video: from the queue of the loop of
-- server/src/server/streaming_server.rs, over a network that loses datagrams, to the H.264 decoder
-- behind the loop of client/src/decoder/video.rs.
use lightvideo.Prelude.{
  ℕ, ◌+◌, ◌*◌, ◌^◌, ◌≤◌, ◌<◌, ◌≡◌, refl, ap, sym, ◌∙◌, List, [], ◌∷◌, ◌++◌, length, All, arith,
  length-append, append_assoc,
}
use lightvideo.Prelude.Runs.{done}
use lightvideo.Net.FeedbackPacket.{LvAck, LvFeedbackPacket}
use lightvideo.Net.Packet.{simd_packet_size}
use lightvideo.Codec.{ErasureCode, EncoderLaws, DecoderLaws}
use lightvideo.Rtp.{Rtp, RtpLaws}
use lightvideo.Client.LvDecoder.{H264, LvDecoder}
use lightvideo.Client.Video.{Arrival, L, start, decode_loop, enter_block}
use lightvideo.Client.Video.Block.{Feeds}
use lightvideo.Client.Video.Indices.{All-append}
use lightvideo.Client.Video.Restore.{Fits}
use lightvideo.Client.Video.Blocks.{
  Traffic, Arrives, Apart, all_packets, all_arrivals, last_id, decode_loop_recovers,
}
use lightvideo.Server.ErasureManager.{Host}
use lightvideo.Server.ErasureManager.Regular.{Reliable}
use lightvideo.Server.ErasureManager.Blocks.{Represents}
use lightvideo.Server.Packager.{Encoding, LvPackager}
use lightvideo.Server.Packager.Queue.{backwards}
use lightvideo.Server.StreamingServer.{send_all}
use lightvideo.Server.StreamingServer.Drain.{stream, send_all_sends}
use lightvideo.System.VideoPath.{Crosses, Transmits, joined, wires, stream-joined}
use lightvideo.System.VideoPath.Padding.{ChunkWise}
use lightvideo.System.VideoPath.Loss.{Crosses-Comes}

All-weaken {ℓ} :
    {A : Type ℓ} {P Q : A → Type 0} → ((x : A) → P x → Q x) → (xs : List A) → All P xs → All Q xs
All-weaken h [] v = tt
All-weaken h (x ∷ xs) v = (h x v.0, All-weaken h xs v.1)

module _ (code : ErasureCode) (rtp : Rtp) (host : Host) (h264 : H264) (enc_laws : EncoderLaws code)
    (dec_laws : DecoderLaws code enc_laws.recovery) (rtp_laws : RtpLaws rtp) where
  open rtp use {Packet, marshal_size}
  open enc_laws use {recovery}

  abbrev Fit : List Packet → Type 0
  Fit = All (Fits code rtp h264 recovery dec_laws rtp_laws)

  abbrev Block : Type 0
  Block = Traffic code rtp h264 recovery dec_laws rtp_laws

  -- Four packets, each of which fits a shard.
  pub record Sendable (g : List Packet) : Type 0 where
    pub four : length g ≡ 4
    pub fit : Fit g

  -- The blocks of these groups, as the client sees them.
  record Seen (id : ℕ) (gs : List (List Packet)) (xs : List Arrival) (bs : List Block)
      : Type 0 where
    arrivals : all_arrivals code rtp h264 recovery dec_laws rtp_laws bs ≡ xs
    packets : all_packets code rtp h264 recovery dec_laws rtp_laws bs ≡ joined gs
    arrives : All (Arrives code rtp h264 recovery dec_laws rtp_laws) bs
    apart : (prev : ℕ) → prev < id → Apart code rtp h264 recovery dec_laws rtp_laws prev bs
    last :
        (prev : ℕ)
        → prev + 1 ≡ id
        → last_id code rtp h264 recovery dec_laws rtp_laws prev bs + 1 ≡ id + length gs

  module _ (clock : (n : ℕ) → host.now n < 2 ^ 128) (chunks : ChunkWise recovery) where
    one_block :
        (id : ℕ) (g : List Packet) (t : ℕ) (now : List Arrival)
        → Sendable g
        → id < 2 ^ 32
        → Crosses code rtp host enc_laws rtp_laws id g t now
        → Arrives code rtp h264 recovery dec_laws rtp_laws
            (record { id = id; packets = g; arrivals = now })
    one_block id g t now v small d = record {
      four = v.four;
      fit = v.fit;
      comes =
          Crosses-Comes code rtp host h264 enc_laws dec_laws rtp_laws clock id g t now chunks v.four
            small d;
    }

    blocks-Seen :
        (gs : List (List Packet)) (id t : ℕ) (xs : List Arrival)
        → All Sendable gs
        → id + length gs < 2 ^ 32
        → Transmits code rtp host enc_laws rtp_laws id gs t xs
        → (bs : List Block) × Seen id gs xs bs
    blocks-Seen [] id t xs v small d = (
      [],
      record {
        arrivals = sym d;
        packets = refl;
        arrives = tt;
        apart = λ prev lt. tt;
        last = λ prev e. omega (arith, e);
      },
    )
    blocks-Seen (g ∷ gs) id t xs v small (now, later, e, d, ds) =
        let (bs, seen) = blocks-Seen gs (id + 1) (t + 6) later v.1 (omega arith) ds in
        (
          record { id = id; packets = g; arrivals = now } ∷ bs,
          record {
            arrivals = ap (λ ys. now ++ ys) seen.arrivals ∙ sym e;
            packets = ap (λ ps. g ++ ps) seen.packets;
            arrives = (one_block id g t now v.0 (omega arith) d, seen.arrives);
            apart = λ prev lt. (λ same. absurd (omega arith), seen.apart id (omega arith));
            last = λ prev z. omega (arith, seen.last id refl);
          },
        )

    -- What the client comes to when these datagrams arrive.
    abbrev pub Received :
        LvDecoder h264 → LvDecoder h264 → LvAck → LvFeedbackPacket → ℕ → List Arrival → Type 0
    Received v w ack fb next xs =
        (s s' : L code rtp h264) × ((more : List Arrival)
          → decode_loop code rtp h264 (xs ++ more) (start code rtp h264 v ack fb)
            ≡ decode_loop code rtp h264 more s)
        × (enter_block code rtp h264 next s ≡ done tt s')
        × (s'.video_dec ≡ w)

    pub transmitted :
        (g : List Packet) (gs : List (List Packet)) (t : ℕ) (xs : List Arrival)
        (v w : LvDecoder h264) (ack : LvAck) (fb : LvFeedbackPacket)
        → All Sendable (g ∷ gs)
        → length (g ∷ gs) < 2 ^ 32
        → Transmits code rtp host enc_laws rtp_laws 0 (g ∷ gs) t xs
        → length xs < 2 ^ 32
        → Feeds code rtp h264 recovery dec_laws rtp_laws v (joined (g ∷ gs)) w
        → Received v w ack fb (length (g ∷ gs)) xs
    transmitted g gs t xs v w ack fb good small (now, later, e, d, ds) few f =
        let (bs, seen) = blocks-Seen gs 1 (t + 6) later good.1 (omega arith) ds in
        let b : Block = record { id = 0; packets = g; arrivals = now } in
        rw (e, ← seen.arrivals)
          (decode_loop_recovers code rtp h264 recovery dec_laws rtp_laws v ack fb b bs w
            (one_block 0 g t now good.0 (omega arith) d, seen.arrives) (seen.apart 0 (omega arith))
            (rw seen.packets f)
            (omega (
              arith,
              few,
              ap length e,
              ap length seen.arrivals,
              length-append now later,
              length-append now (all_arrivals code rtp h264 recovery dec_laws rtp_laws bs),
            ))
            (length (g ∷ gs)) (λ same. absurd (omega (arith, same, seen.last 0 refl))))

    module _ (video : Encoding Packet) where
      abbrev P : Type 0
      P = LvPackager Packet code.Enc video

      enough_ids : (gs : List (List Packet)) → All Sendable gs → length gs ≤ length (joined gs)
      enough_ids [] v = omega arith
      enough_ids (g ∷ gs) v =
          omega (arith, v.0.four, enough_ids gs v.1, length-append g (joined gs))

      sizes_fit :
          (gs : List (List Packet)) (rest : List Packet)
          → All Sendable gs
          → All (λ p. marshal_size p ≤ simd_packet_size) rest
          → All (λ p. marshal_size p ≤ simd_packet_size) (joined gs ++ rest)
      sizes_fit [] rest v w = w
      sizes_fit (g ∷ gs) rest v w = rw (append_assoc g (joined gs) rest) (
          All-append (λ p. marshal_size p ≤ simd_packet_size) g (joined gs ++ rest)
            (All-weaken (λ p h. h.0) g v.0.fit) (sizes_fit gs rest v.1 w))

      -- The queue of a packager that has sent nothing in a block yet holds groups of four packets
      -- with others behind them; every packet fits a shard. The socket takes every datagram, ids
      -- and the clock stay in range, and the decoder takes the groups' packets without an error.
      -- The code is linear and works on chunks of 64 bytes. The network loses at most two of the
      -- six datagrams of each of the groups' blocks and does not reorder them; in a block that
      -- loses an original, the length of the largest packet is a multiple of 64. The client's ioctl
      -- for the length of its receive queue succeeds at every datagram. Then the loop over the
      -- queue sends it all, the groups' packets as those blocks; the client's loop, from its start,
      -- takes all datagrams that come, and at the first datagram of the block behind them its video
      -- decoder has had exactly the groups' packets, each once and in order.
      pub video_arrives :
          (s : P) (g : List Packet) (gs : List (List Packet)) (rest : List Packet)
          (v w : LvDecoder h264) (ack : LvAck) (fb : LvFeedbackPacket) (xs : List Arrival)
          → Reliable host
          → Represents code rtp host enc_laws rtp_laws s.erasure_manager
              (record { id = 0; packets = [] })
          → s.rtp_queue ≡ backwards (joined (g ∷ gs) ++ rest)
          → 1 ≤ length rest
          → length (joined (g ∷ gs) ++ rest) + 2 < 2 ^ 32
          → All Sendable (g ∷ gs)
          → All (λ p. marshal_size p ≤ simd_packet_size) rest
          → Feeds code rtp h264 recovery dec_laws rtp_laws v (joined (g ∷ gs)) w
          → Transmits code rtp host enc_laws rtp_laws 0 (g ∷ gs) s.erasure_manager.readings xs
          → length xs < 2 ^ 32
          → (s' : P) × (send_all code rtp host video s ≡ done tt s')
            × (s'.rtp_queue ≡ [])
            × (s'.erasure_manager.sent
                ≡ s.erasure_manager.sent
                  ++ (joined (
                        wires code rtp host enc_laws rtp_laws 0 (g ∷ gs) s.erasure_manager.readings)
                      ++ stream code rtp host video enc_laws rtp_laws
                          (record { id = length (g ∷ gs); packets = [] })
                          rest
                          (s.erasure_manager.readings + 6 * length (g ∷ gs))))
            × Received v w ack fb (length (g ∷ gs)) xs
      video_arrives s g gs rest v w ack fb xs reliable rep queue more small good fits f d few =
          let count : 0 + length (g ∷ gs) ≡ length (g ∷ gs) = omega arith in
          let (s', run, empty, sent, rep') =
            send_all_sends code rtp host video enc_laws rtp_laws (joined (g ∷ gs) ++ rest) s
              (record { id = 0; packets = [] }) reliable rep (omega arith) queue (omega arith)
              (sizes_fit (g ∷ gs) rest good fits) in
          (
            s',
            run,
            empty,
            sent
                ∙ ap (λ ds. s.erasure_manager.sent ++ ds)
                    (rw count at (
                      stream-joined code rtp host enc_laws rtp_laws video (g ∷ gs) 0 rest
                        s.erasure_manager.readings (All-weaken (λ g v. v.four) (g ∷ gs) good)
                        more)),
            transmitted g gs s.erasure_manager.readings xs v w ack fb good
                (omega
                  (arith, small, enough_ids (g ∷ gs) good, length-append (joined (g ∷ gs)) rest))
                d few f,
          )
