-- ===== src/Server/StreamingServer/Drain.antt =====
-- What the inner loop of server/src/server/streaming_server.rs does with a queue of packets.
use lightvideo.Prelude.{
  ℕ, zero, suc, ◌+◌, ◌^◌, ◌<◌, ◌≤◌, ◌≡◌, refl, ap, ap₂, sym, ◌∙◌, List, [], ◌∷◌, ◌++◌, length, some,
  append-nil, append_assoc, arith, All, eq→==, ne→==, ℕ_discrete,
}
use lightvideo.Prelude.Runs.{Ran, done, failed, panicked, and_then}
use lightvideo.Net.Packet.{simd_packet_size}
use lightvideo.Codec.{ErasureCode, EncoderLaws}
use lightvideo.Rtp.{Rtp, RtpLaws}
use lightvideo.Server.ErasureManager.{Host, Sender, send_lv_packet}
use lightvideo.Server.ErasureManager.Regular.{Reliable}
use lightvideo.Server.ErasureManager.Blocks.{
  Block, Represents, Started, datagrams, next_block, next_reading,
}
use lightvideo.Server.ErasureManager.Refine.{send_lv_packet_refines}
use lightvideo.Server.Packager.{Encoding, LvPackager, pop_back, send_next_pkt, on_manager}
use lightvideo.Server.Packager.Queue.{backwards, pop_back-append, pop_back_cases, length-backwards}
use lightvideo.Server.StreamingServer.{drain, send_all, attempt}

module _ (code : ErasureCode) (rtp : Rtp) (host : Host) (video : Encoding rtp.Packet) where
  open code use {Enc}
  open rtp use {Packet, marshal_size}

  abbrev P : Type 0
  P = LvPackager Packet Enc video

  -- The loop came to an end with nothing left, or a panic ended it.
  abbrev pub Emptied : Ran P (Unit {0}) → Type 0
  Emptied (done u s) = s.rtp_queue ≡ []
  Emptied (failed e s) = ⊥
  Emptied (panicked s) = Unit {0}

  abbrev with_queue : P → List Packet → P
  with_queue s q = record s { rtp_queue = q }

  after_send :
      (n : ℕ) (s : P) (r : Ran (Sender Enc) ℕ)
      → ((m : Sender Enc)
          → Emptied (drain code rtp host video n (record s { erasure_manager = m })))
      → Emptied (
          and_then
            (attempt (on_manager code rtp host video r s))
            (λ u. drain code rtp host video n))
  after_send n s (done k m) rest = rest m
  after_send n s (failed e m) rest = rest m
  after_send n s (panicked m) rest = tt

  drain_lem :
      (n : ℕ) (q : List Packet) (s : P)
      → length q ≤ n
      → Emptied (drain code rtp host video n (with_queue s q))
  unfolding drain send_next_pkt
  drain_lem zero [] s h = refl
  drain_lem (suc n) [] s h = refl
  drain_lem zero (x ∷ q) s h = absurd (omega arith)
  drain_lem (suc n) (x ∷ q) s h =
      let (p, rest, e, len) = pop_back_cases x q in
      rw e (
        after_send n (with_queue s rest) (send_lv_packet code rtp host p s.erasure_manager)
          (λ m. drain_lem n rest (record s { erasure_manager = m }) (omega arith)))

  drain_one :
      (n : ℕ) (q : List Packet) (s : P) (p : Packet) (rest : List Packet) (m : Sender Enc) (k : ℕ)
      → pop_back q ≡ some (p, rest)
      → send_lv_packet code rtp host p s.erasure_manager ≡ done k m
      → drain code rtp host video (suc n) (with_queue s q)
        ≡ drain code rtp host video n (record s { rtp_queue = rest; erasure_manager = m })
  unfolding drain send_next_pkt pop_back
  drain_one n [] s p rest m k e run = cc
  drain_one n (x ∷ q) s p rest m k e run = rw e (rw run refl)

  -- Whatever the socket and the erasure code do, the loop over the queue ends after as many rounds
  -- as there are packets, with the queue empty unless a panic ended it; errors do not stop it.
  pub send_all_ends : (s : P) → Emptied (send_all code rtp host video s)
  unfolding send_all
  send_all_ends s = drain_lem (length s.rtp_queue) s.rtp_queue s (omega arith)

  module _ (enc_laws : EncoderLaws code) (rtp_laws : RtpLaws rtp) where
    abbrev B : Type 0
    B = Block code rtp host enc_laws rtp_laws

    -- The block under way after these packets, and the datagrams that they put on the wire from
    -- the `t`-th reading of the clock on.
    abbrev pub blocks_after : B → List Packet → B
    blocks_after b [] = b
    blocks_after b (p ∷ ps) = blocks_after (next_block code rtp host enc_laws rtp_laws b p) ps

    abbrev pub stream : B → List Packet → ℕ → List (List ℕ)
    stream b [] t = []
    stream b (p ∷ ps) t =
        datagrams code rtp host enc_laws rtp_laws b p t
        ++ stream (next_block code rtp host enc_laws rtp_laws b p) ps
            (next_reading code rtp host enc_laws rtp_laws b t)

    next_id : (b : B) (p : Packet) → (next_block code rtp host enc_laws rtp_laws b p).id ≤ b.id + 1
    next_id b p = elim (ℕ_discrete (length b.packets) 4) [
      | yes full ↦ rw (eq→== (length b.packets) 4 full) (omega arith)
      | no more ↦ rw (ne→== (length b.packets) 4 more) (omega arith)
    ]

    drain_sends :
        (n : ℕ) (ps : List Packet) (s : P) (b : B)
        → Reliable host
        → Represents code rtp host enc_laws rtp_laws s.erasure_manager b
        → Started code rtp host enc_laws rtp_laws b
        → length ps ≤ n
        → b.id + length ps + 2 < 2 ^ 32
        → All (λ p. marshal_size p ≤ simd_packet_size) ps
        → (s' : P) × (drain code rtp host video n (with_queue s (backwards ps)) ≡ done tt s')
          × (s'.rtp_queue ≡ [])
          × (s'.erasure_manager.sent
              ≡ s.erasure_manager.sent ++ stream b ps s.erasure_manager.readings)
          × Represents code rtp host enc_laws rtp_laws s'.erasure_manager (blocks_after b ps)
    unfolding drain send_next_pkt
    drain_sends zero [] s b reliable rep begun enough small fits =
        (with_queue s [], refl, refl, sym (append-nil s.erasure_manager.sent), rep)
    drain_sends (suc n) [] s b reliable rep begun enough small fits =
        (with_queue s [], refl, refl, sym (append-nil s.erasure_manager.sent), rep)
    drain_sends zero (p ∷ ps) s b reliable rep begun enough small fits = absurd (omega arith)
    drain_sends (suc n) (p ∷ ps) s b reliable rep begun enough small fits =
        let (m, run, sent, read, rep1, begun1) =
          send_lv_packet_refines code rtp host enc_laws rtp_laws s.erasure_manager b p reliable rep
            begun (omega arith) (fits.0) in
        let next = next_block code rtp host enc_laws rtp_laws b p in
        let (s', run', empty, sent', rep') =
          drain_sends n ps (record s { erasure_manager = m }) next reliable rep1 begun1
            (omega arith) (omega (arith, next_id b p)) (fits.1) in
        (
          s',
          drain_one n (backwards (p ∷ ps)) s p (backwards ps) m _ (pop_back-append (backwards ps) p)
                run
              ∙ run',
          empty,
          sent'
              ∙ ap₂ (λ xs t. xs ++ stream next ps t) sent read
              ∙ append_assoc s.erasure_manager.sent _ _,
          rep',
        )

    -- Over a socket that takes every datagram, with a manager that stands for the block under way,
    -- and while block ids and packet sizes fit, the loop over the queue succeeds, leaves the queue
    -- empty, and sends exactly the stream of the queue's packets, the oldest first, in their blocks
    -- with the recovery datagrams between them; the manager then stands for the block they reach.
    pub send_all_sends :
        (ps : List Packet) (s : P) (b : B)
        → Reliable host
        → Represents code rtp host enc_laws rtp_laws s.erasure_manager b
        → Started code rtp host enc_laws rtp_laws b
        → s.rtp_queue ≡ backwards ps
        → b.id + length ps + 2 < 2 ^ 32
        → All (λ p. marshal_size p ≤ simd_packet_size) ps
        → (s' : P) × (send_all code rtp host video s ≡ done tt s')
          × (s'.rtp_queue ≡ [])
          × (s'.erasure_manager.sent
              ≡ s.erasure_manager.sent ++ stream b ps s.erasure_manager.readings)
          × Represents code rtp host enc_laws rtp_laws s'.erasure_manager (blocks_after b ps)
    unfolding send_all
    send_all_sends ps s b reliable rep begun queue small fits =
        let (s', run, empty, sent, rep') =
          drain_sends (length s.rtp_queue) ps s b reliable rep begun
            (omega (arith, ap length queue, length-backwards ps)) small fits in
        (
          s',
          ap (λ q. drain code rtp host video (length s.rtp_queue) (with_queue s q)) queue ∙ run,
          empty,
          sent,
          rep',
        )
