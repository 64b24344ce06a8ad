-- ===== src/Server/ErasureManager/Refine/Runs.antt =====
-- A regular packet, and the recovery datagrams of a full block, in `send_lv_packet` of
-- server/src/packager/packet.rs: the state that each leaves stands for the block.
use lightvideo.Prelude.{
  ℕ, ◌+◌, ◌%◌, ◌^◌, ◌<◌, ◌≤◌, ◌≡◌, refl, ap, ◌∙◌, true, false, List, [], ◌∷◌, ◌++◌, length, take,
  arith, length-append, length-map, append_assoc, append-nil, All,
}
use lightvideo.Prelude.Words.{add32, sub32}
use lightvideo.Prelude.Runs.{done}
use lightvideo.Net.Packet.{no_bytes, simd_packet_size}
use lightvideo.Net.Packet.Layout.{layout, length-layout}
use lightvideo.Codec.{ErasureCode, EncoderLaws, Shard}
use lightvideo.Rtp.{Rtp, RtpLaws}
use lightvideo.Server.ErasureManager.{Host, Sender, no_sizes, advance, entry_header, send_regular}
use lightvideo.Server.ErasureManager.Regular.{Reliable, send_regular_sends, sent_regular}
use lightvideo.Server.ErasureManager.Recovery.{
  HasRoom, sent_recovery, sent_recoveries, closed, emptied, sent_recovery-HasRoom,
}
use lightvideo.Server.ErasureManager.Blocks.{
  Block, Represents, shard, sizes, next_block, regular_datagram, recovery_datagrams, datagrams,
}
use lightvideo.Server.ErasureManager.Steps.{regular_step, length-sizes}

-- A list of the length of its front has no rest.
front_only : (front rest : List ℕ) → length (front ++ rest) ≡ length front → front ++ rest ≡ front
front_only front [] e = append-nil front
front_only front (x ∷ rest) e = absurd (omega (arith, length-append front (x ∷ rest)))

module _ (code : ErasureCode) (rtp : Rtp) (host : Host) (enc_laws : EncoderLaws code)
    (rtp_laws : RtpLaws rtp) where
  open code use {Enc}
  open rtp use {Packet, marshal_size}
  open enc_laws use {originals, recovery}
  open rtp_laws use {wire, length-wire}

  abbrev B : Type 0
  B = Block code rtp host enc_laws rtp_laws

  abbrev Rep : Sender Enc → B → Type 0
  Rep = Represents code rtp host enc_laws rtp_laws

  abbrev wires : B → Packet → ℕ → List (List ℕ)
  wires = datagrams code rtp host enc_laws rtp_laws

  abbrev after : B → Packet → B
  after = next_block code rtp host enc_laws rtp_laws

  -- The state in which `send_regular` begins.
  abbrev pub advanced : Sender Enc → Packet → Sender Enc
  advanced s p = record s { mgr = advance code rtp host (marshal_size p) s.mgr }

  pub regular_run :
      (s : Sender Enc) (b : B) (p : Packet)
      → Reliable host
      → Rep s b
      → length b.packets < 4
      → b.id + 1 < 2 ^ 32
      → marshal_size p ≤ simd_packet_size
      → (s' : Sender Enc) × (send_regular code rtp host
            (entry_header code rtp host s.mgr)
            p
            (advanced s p)
          ≡ done (no_bytes + marshal_size p) s')
        × (s'.sent
            ≡ s.sent
              ++ (regular_datagram code rtp host enc_laws rtp_laws b p (host.now s.readings) ∷ []))
        × (s'.readings ≡ s.readings + 1)
        × Rep s' (record { id = b.id; packets = b.packets ++ (p ∷ []) })
  unfolding advance
  regular_run s b p reliable r few small fits =
      let pk = entry_header code rtp host s.mgr in
      let id : s.current_block_id ≡ b.id = ground (arith, r.block_id) in
      let at : s.current_regular_fragment_index ≡ length b.packets = ground (arith, r.index) in
      let h : List ℕ = layout (record pk { send_timestamp = host.now s.readings }) in
      let (e, orig, run) =
        send_regular_sends code rtp host enc_laws rtp_laws (advanced s p) pk p reliable
          r.room.data_len r.room.sizes_len refl (ground (arith, r.index)) fits
          (omega (
            arith,
            ap length r.shards,
            length-map (shard code rtp host enc_laws rtp_laws) b.packets,
          )) in
      (
        sent_regular code rtp host enc_laws rtp_laws (advanced s p) pk p e,
        run
            ∙ ap (λ n. done n (sent_regular code rtp host enc_laws rtp_laws (advanced s p) pk p e))
                (omega (
                  arith,
                  length-append h (wire p),
                  length-layout (record pk { send_timestamp = host.now s.readings }) refl,
                  length-wire p,
                )),
        λ i.
            s.sent
            ++ ((layout (record {
              block_id = id i;
              min_fragment_size = 4;
              recovery_pkt = false;
              fragment_index = at i;
              pkt_sizes = no_sizes;
              send_timestamp = host.now s.readings;
            })
                  ++ wire p)
                ∷ []),
        refl,
        regular_step code rtp host enc_laws rtp_laws s b p e r few small fits orig,
      )

  -- The state behind the recovery datagrams of a full block stands for the next block, still empty.
  abbrev pub flushed : (s : Sender Enc) (e : Enc) (rs : List Shard) → Sender Enc
  flushed s e rs =
      closed code rtp host (sent_recoveries code rtp host (emptied code rtp host s e) rs)

  pub flushed_lem :
      (s : Sender Enc) (b : B) (e : Enc) (rs : List Shard)
      → Rep s b
      → length b.packets ≡ 4
      → b.id + 1 < 2 ^ 32
      → originals e ≡ []
      → length rs ≡ 2
      → All (λ q. length q ≡ simd_packet_size) rs
      → Rep (flushed s e rs) (record { id = b.id + 1; packets = [] })
        × ((flushed s e rs).sent
            ≡ s.sent ++ recovery_datagrams code rtp host enc_laws rtp_laws b s.readings 0 rs)
        × ((flushed s e rs).readings ≡ s.readings + 2)
        × (entry_header code rtp host (flushed s e rs).mgr ≡ entry_header code rtp host s.mgr)
  flushed_lem s b e [] r full small emp two fine = absurd (omega arith)
  flushed_lem s b e (q ∷ []) r full small emp two fine = absurd (omega arith)
  flushed_lem s b e (q ∷ q' ∷ q'' ∷ rs) r full small emp two fine = absurd (omega arith)
  flushed_lem s b e (q ∷ q' ∷ []) r full small emp two fine =
      let start = emptied code rtp host s e in
      let room0 : HasRoom code rtp host start = record {
        data_len = r.room.data_len;
        sizes_len = r.room.sizes_len;
        largest_le = r.room.largest_le;
      } in
      let room2 =
        sent_recovery-HasRoom code rtp host (sent_recovery code rtp host start q) q'
          (sent_recovery-HasRoom code rtp host start q room0 fine.0) fine.1.0 in
      let ps = sizes code rtp host enc_laws rtp_laws b.packets in
      let id : sub32 s.current_block_id 1 ≡ b.id = ground (arith, r.block_id) in
      let first : add32 s.current_recovery_fragment_index 1 % 2 ≡ 0 =
        ground (arith, r.recovery_index) in
      let second : add32 (add32 s.current_recovery_fragment_index 1 % 2) 1 % 2 ≡ 1 =
        ground (arith, r.recovery_index) in
      let all : s.pkt_sizes ≡ ps =
        r.packet_sizes
        ∙ front_only ps r.stale (
            omega (
              arith,
              ap length r.packet_sizes,
              r.room.sizes_len,
              length-sizes code rtp host enc_laws rtp_laws b.packets,
            )) in
      let D : ℕ → ℕ → List ℕ → ℕ → Shard → ℕ → List ℕ = λ block j sz n x t.
        layout (record {
          block_id = block;
          min_fragment_size = 4;
          recovery_pkt = true;
          fragment_index = j;
          pkt_sizes = sz;
          send_timestamp = host.now t;
        })
        ++ take n x in
      (
        record {
          room = record {
            data_len = room2.data_len;
            sizes_len = room2.sizes_len;
            largest_le = omega arith;
          };
          at_most_four = omega arith;
          block_id = ground (arith, r.block_id);
          index = ground (arith, r.index);
          recovery_index = ground (arith, r.recovery_index);
          largest_payload = refl;
          stale = s.pkt_sizes;
          packet_sizes = refl;
          shards = emp;
        },
        (λ i.
              (s.sent ++ (D (id i) (first i) (all i) (r.largest_payload i) q s.readings ∷ []))
              ++ (D (id i) (second i) (all i) (r.largest_payload i) q' (s.readings + 1) ∷ []))
            ∙ append_assoc s.sent _ _,
        omega arith,
        refl,
      )
