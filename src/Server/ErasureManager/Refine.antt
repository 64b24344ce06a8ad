-- ===== src/Server/ErasureManager/Refine.antt =====
-- `send_lv_packet` of server/src/packager/packet.rs refines the stream of blocks.
mod Runs
use lightvideo.Prelude.{
  ℕ, zero, ◌+◌, ◌%◌, ◌^◌, ◌<◌, ◌≤◌, ◌≡◌, refl, ap, ap₂, sym, ◌∙◌, true, false, List, [], ◌∷◌, ◌++◌,
  length, take, map, arith, length-append, length-map, length-replicate, append_assoc, append-nil,
  All, eq→==, ne→==, ℕ_discrete,
}
use lightvideo.Prelude.Words.{add32, sub32}
use lightvideo.Prelude.Runs.{Ran, done}
use lightvideo.Net.Packet.{no_bytes, simd_packet_size}
use lightvideo.Net.Packet.Layout.{layout, length-layout}
use lightvideo.Codec.{ErasureCode, EncoderLaws, Shard}
use lightvideo.Rtp.{Rtp, RtpLaws}
use lightvideo.Server.ErasureManager.{
  Host, Sender, send_lv_packet, new, no_sizes, advance, entry_header, send_regular, flush_block,
}
use lightvideo.Server.ErasureManager.Regular.{Reliable, send_regular_sends, sent_regular}
use lightvideo.Server.ErasureManager.Recovery.{
  HasRoom, sent_recovery, flush_block_sends, flush_block_skips, sent_recoveries, closed, emptied,
  sent_recovery-HasRoom,
}
use lightvideo.Server.ErasureManager.Blocks.{
  Block, Represents, Started, shard, sizes, next_block, regular_datagram, recovery_datagrams,
  datagrams, next_reading,
}
use lightvideo.Server.ErasureManager.Steps.{regular_step, length-sizes}
use lightvideo.Server.ErasureManager.Refine.Runs.{regular_run, flushed, flushed_lem, advanced}

module _ (code : ErasureCode) (rtp : Rtp) (host : Host) (enc_laws : EncoderLaws code)
    (rtp_laws : RtpLaws rtp) where
  open code use {Enc}
  open rtp use {Packet, marshal_size}
  open enc_laws use {originals, recovery}
  open rtp_laws use {wire, length-wire}

  abbrev B : Type 0
  B = Block code rtp host enc_laws rtp_laws

  abbrev Rep : Sender Enc → B → Type 0
  Rep = Represents code rtp host enc_laws rtp_laws

  abbrev wires : B → Packet → ℕ → List (List ℕ)
  wires = datagrams code rtp host enc_laws rtp_laws

  abbrev after : B → Packet → B
  after = next_block code rtp host enc_laws rtp_laws

  -- The packet travels alone unless it opens a block.
  send_inside :
      (s : Sender Enc) (b : B) (p : Packet)
      → Reliable host
      → Rep s b
      → Started code rtp host enc_laws rtp_laws b
      → length b.packets < 4
      → b.id + 1 < 2 ^ 32
      → marshal_size p ≤ simd_packet_size
      → (s' : Sender Enc) × (send_lv_packet code rtp host p s ≡ done (no_bytes + marshal_size p) s')
        × (s'.sent
            ≡ s.sent
              ++ (regular_datagram code rtp host enc_laws rtp_laws b p (host.now s.readings) ∷ []))
        × (s'.readings ≡ s.readings + 1)
        × Rep s' (record { id = b.id; packets = b.packets ++ (p ∷ []) })
  unfolding send_lv_packet
  send_inside s b p reliable r begun few small fits =
      let (s', run, sent, read, rep) =
        regular_run code rtp host enc_laws rtp_laws s b p reliable r few small fits in
      (
        s',
        rw (flush_block_skips code rtp host s (ground (arith, r.index, r.block_id))) run,
        sent,
        read,
        rep,
      )

  after_flush :
      (s s2 : Sender Enc) (p : Packet) {r : Ran (Sender Enc) ℕ}
      → flush_block code rtp host s ≡ done tt s2
      → entry_header code rtp host s2.mgr ≡ entry_header code rtp host s.mgr
      → send_regular code rtp host
          (entry_header code rtp host s2.mgr)
          p
          (advanced code rtp host enc_laws rtp_laws s2 p)
        ≡ r
      → send_lv_packet code rtp host p s ≡ r
  unfolding send_lv_packet
  after_flush s s2 p flush same run = rw flush (
      ap (λ h. send_regular code rtp host h p (advanced code rtp host enc_laws rtp_laws s2 p))
        (sym same)
      ∙ run)

  -- A packet that opens the next block: the recovery datagrams of the full block go first.
  send_across :
      (s : Sender Enc) (b : B) (p : Packet)
      → Reliable host
      → Rep s b
      → length b.packets ≡ 4
      → b.id + 2 < 2 ^ 32
      → marshal_size p ≤ simd_packet_size
      → (s' : Sender Enc) × (send_lv_packet code rtp host p s ≡ done (no_bytes + marshal_size p) s')
        × (s'.sent
            ≡ s.sent
              ++ (recovery_datagrams code rtp host enc_laws rtp_laws b s.readings 0
                    (recovery (map (shard code rtp host enc_laws rtp_laws) b.packets))
                  ++ (regular_datagram code rtp host enc_laws rtp_laws
                        (record { id = b.id + 1; packets = [] })
                        p
                        (host.now (s.readings + 2))
                      ∷ [])))
        × (s'.readings ≡ s.readings + 3)
        × Rep s' (record { id = b.id + 1; packets = p ∷ [] })
  send_across s b p reliable r full small fits =
      let d = originals s.enc in
      let (e, emp, flush) =
        flush_block_sends code rtp host enc_laws s reliable r.room (ground (arith, r.index, full))
          (ground (arith, r.block_id, full))
          (omega (
            arith,
            ap length r.shards,
            length-map (shard code rtp host enc_laws rtp_laws) b.packets,
          )) in
      let (rep2, sent2, read2, same) =
        flushed_lem code rtp host enc_laws rtp_laws s b e (recovery d) r full (omega arith) emp
          (enc_laws.length-recovery d) (enc_laws.shards-recovery d) in
      let next : List ℕ =
        regular_datagram code rtp host enc_laws rtp_laws (record { id = b.id + 1; packets = [] }) p
          (host.now (s.readings + 2)) in
      let s2 : Sender Enc = flushed code rtp host enc_laws rtp_laws s e (recovery d) in
      let (s', run, sent, read, rep) =
        regular_run code rtp host enc_laws rtp_laws s2 (record { id = b.id + 1; packets = [] }) p
          reliable rep2 (omega arith) (omega arith) fits in
      (
        s',
        after_flush s s2 p flush same run,
        sent
            ∙ ap₂
                (λ xs t.
                  xs
                  ++ (regular_datagram code rtp host enc_laws rtp_laws
                        (record { id = b.id + 1; packets = [] }) p (host.now t)
                      ∷ []))
                sent2 read2
            ∙ append_assoc s.sent _ _
            ∙ ap
                (λ ds.
                  s.sent
                  ++ (recovery_datagrams code rtp host enc_laws rtp_laws b s.readings 0
                        (recovery ds)
                      ++ (next ∷ [])))
                r.shards,
        omega (arith, read, read2),
        rep,
      )

  -- Over a socket that takes every datagram, from a manager that stands for the block `b` under
  -- way, and while block ids and packet sizes fit, `send_lv_packet` succeeds with the size of the
  -- packet's datagram; it appends to what was sent exactly the datagrams of the specification (the
  -- packet with its header, and in front of it, when `b` is full, the two recovery datagrams of
  -- `b` with the sizes of its packets); and the manager then stands for the block that follows.
  pub send_lv_packet_refines :
      (s : Sender Enc) (b : B) (p : Packet)
      → Reliable host
      → Rep s b
      → Started code rtp host enc_laws rtp_laws b
      → b.id + 2 < 2 ^ 32
      → marshal_size p ≤ simd_packet_size
      → (s' : Sender Enc) × (send_lv_packet code rtp host p s ≡ done (no_bytes + marshal_size p) s')
        × (s'.sent ≡ s.sent ++ wires b p s.readings)
        × (s'.readings ≡ next_reading code rtp host enc_laws rtp_laws b s.readings)
        × Rep s' (after b p)
        × Started code rtp host enc_laws rtp_laws (after b p)
  send_lv_packet_refines s b p reliable r begun small fits =
      elim (ℕ_discrete (length b.packets) 4) [
        | yes full ↦
            let (s', run, sent, read, rep) = send_across s b p reliable r full small fits in
            rw (eq→== (length b.packets) 4 full) (s', run, sent, read, rep, omega arith)
        | no more ↦
            let (s', run, sent, read, rep) =
              send_inside s b p reliable r begun (omega (arith, r.at_most_four)) (omega arith)
                fits in
            rw (ne→== (length b.packets) 4 more)
              (s', run, sent, read, rep, omega (arith, length-append b.packets (p ∷ [])))
      ]

  -- A new manager stands for the empty block 0.
  pub new-Represents :
      Rep
        (record { mgr = new code rtp host; sent = []; readings = 0 })
        (record { id = 0; packets = [] })
  unfolding new
  new-Represents = record {
    room = record {
      data_len = omega (arith, length-replicate (simd_packet_size + no_bytes) (zero));
      sizes_len = refl;
      largest_le = omega arith;
    };
    at_most_four = omega arith;
    block_id = refl;
    index = refl;
    recovery_index = refl;
    largest_payload = refl;
    stale = no_sizes;
    packet_sizes = refl;
    shards = enc_laws.new_is_empty;
  }
