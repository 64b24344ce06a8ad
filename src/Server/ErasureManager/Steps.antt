-- ===== src/Server/ErasureManager/Steps.antt =====
-- One packet of `send_lv_packet` (server/src/packager/packet.rs) in a block, by its cases.
use lightvideo.Prelude.{
  ℕ, zero, suc, ◌+◌, ◌^◌, ◌<◌, ◌≤◌, ◌≡◌, refl, ap, ap₂, sym, ◌∙◌, List, [], ◌∷◌, ◌++◌, length, set,
  max, arith, length-append, length-set,
}
use mathlib.Core.List.{map-append}
use lightvideo.Prelude.Words.{as_u16}
use lightvideo.Net.Packet.{LvErasureInformation, simd_packet_size}
use lightvideo.Net.Packet.Layout.{layout, length-layout}
use lightvideo.Codec.{ErasureCode, EncoderLaws}
use lightvideo.Rtp.{Rtp, RtpLaws}
use lightvideo.Server.ErasureManager.{Host, Sender, advance, entry_header}
use lightvideo.Server.ErasureManager.Regular.{sent_regular, length-shard_of}
use lightvideo.Server.ErasureManager.Blocks.{Block, Represents, shard, sizes, largest}

-- Writing just behind a filled front.
set_next :
    (front stale : List ℕ) (i v : ℕ)
    → i ≡ length front
    → length front < length (front ++ stale)
    → (rest : List ℕ) × (set (front ++ stale) i v ≡ (front ++ (v ∷ [])) ++ rest)
set_next [] [] i v e h = absurd (omega arith)
set_next [] (x ∷ stale) i v e h = (stale, ap (λ k. set (x ∷ stale) k v) e)
set_next (f ∷ front) stale zero v e h = absurd (omega arith)
set_next (f ∷ front) stale (suc i) v e h =
    let (rest, q) = set_next front stale i v (omega arith) (omega arith) in
    (rest, ap (λ r. f ∷ r) q)

module _ (code : ErasureCode) (rtp : Rtp) (host : Host) (enc_laws : EncoderLaws code)
    (rtp_laws : RtpLaws rtp) where
  open code use {Enc}
  open rtp use {Packet, marshal_size}
  open enc_laws use {originals, recovery}
  open rtp_laws use {wire}

  abbrev sizes_of : List Packet → List ℕ
  sizes_of = sizes code rtp host enc_laws rtp_laws

  abbrev largest_of : List Packet → ℕ
  largest_of = largest code rtp host enc_laws rtp_laws

  abbrev pub B : Type 0
  B = Block code rtp host enc_laws rtp_laws

  abbrev pub Rep : Sender Enc → B → Type 0
  Rep = Represents code rtp host enc_laws rtp_laws

  largest-snoc :
      (ps : List Packet) (p : Packet)
      → largest_of (ps ++ (p ∷ [])) ≡ max (largest_of ps) (marshal_size p)
  largest-snoc [] p = omega arith
  largest-snoc (q ∷ ps) p = omega (arith, largest-snoc ps p)

  pub length-sizes : (ps : List Packet) → length (sizes_of ps) ≡ length ps
  length-sizes [] = refl
  length-sizes (p ∷ ps) = ap suc (length-sizes ps)

  abbrev pub filled : B → Packet → B
  filled b p = record { id = b.id; packets = b.packets ++ (p ∷ []) }

  pub regular_step :
      (s : Sender Enc) (b : B) (p : Packet) (e : Enc)
      → Rep s b
      → length b.packets < 4
      → b.id + 1 < 2 ^ 32
      → marshal_size p ≤ simd_packet_size
      → originals e ≡ originals s.enc ++ (shard code rtp host enc_laws rtp_laws p ∷ [])
      → Rep
          (sent_regular code rtp host enc_laws rtp_laws
            (record s { mgr = advance code rtp host (marshal_size p) s.mgr })
            (entry_header code rtp host s.mgr)
            p
            e)
          (filled b p)
  unfolding advance
  regular_step s b p e r few small fits orig =
      let ps = b.packets in
      let at : s.current_regular_fragment_index ≡ length ps = ground (arith, r.index) in
      let pk : LvErasureInformation = record (entry_header code rtp host s.mgr) {
        send_timestamp = host.now s.readings;
      } in
      let snoc = length-append ps (p ∷ []) in
      let (rest, moved) =
        set_next (sizes_of ps) r.stale (length ps) (as_u16 (marshal_size p)) (sym (length-sizes ps))
          (omega (arith, ap length r.packet_sizes, r.room.sizes_len, length-sizes ps)) in
      record {
        room = record {
          data_len = omega (
            arith,
            length-append (layout pk) (shard code rtp host enc_laws rtp_laws p),
            length-layout pk refl,
            length-shard_of code rtp host enc_laws rtp_laws p fits,
          );
          sizes_len = omega (
            arith,
            length-set s.pkt_sizes s.current_regular_fragment_index (as_u16 (marshal_size p)),
            r.room.sizes_len,
          );
          largest_le = ground (arith, r.room.largest_le);
        };
        at_most_four = omega (arith, snoc);
        block_id = ground (arith, r.block_id, r.index, snoc);
        index = ground (arith, r.index, snoc);
        recovery_index = r.recovery_index;
        largest_payload = ground (arith, r.largest_payload, largest-snoc ps p);
        stale = rest;
        packet_sizes =
            ap₂ (λ xs i. set xs i (as_u16 (marshal_size p))) r.packet_sizes at
            ∙ moved
            ∙ ap (λ xs. xs ++ rest) (sym (map-append (λ q. as_u16 (marshal_size q)) ps (p ∷ [])));
        shards =
            orig
            ∙ ap (λ xs. xs ++ (shard code rtp host enc_laws rtp_laws p ∷ [])) r.shards
            ∙ sym (map-append (shard code rtp host enc_laws rtp_laws) ps (p ∷ []));
      }
