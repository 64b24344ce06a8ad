-- ===== src/Server/ErasureManager/Regular.antt =====
-- What `send_lv_packet` of server/src/packager/packet.rs sends for the packet itself.
use lightvideo.Prelude.{
  ℕ, zero, ◌+◌, ◌-◌, ◌<◌, ◌≤◌, ◌≡◌, ap, ap₂, sym, ◌∙◌, true, List, [], ◌∷◌, ◌++◌, length, set, take,
  drop, replicate, some, ok, arith, take-append, length-append, length-drop, length-replicate,
  lt→ltb,
}
use lightvideo.Prelude.Slices.{slice-at, split_at, slice-end, slice-front}
use lightvideo.Prelude.Words.{as_u16}
use lightvideo.Prelude.Runs.{done}
use lightvideo.Net.Packet.{
  LvErasureInformation, no_bytes, simd_packet_size, ec_ratio_regular_packets,
}
use lightvideo.Net.Packet.Layout.{layout, to_bytes_lem, length-layout}
use lightvideo.Codec.{ErasureCode, EncoderLaws}
use lightvideo.Rtp.{Rtp, RtpLaws}
use lightvideo.Server.ErasureManager.{
  Host, Sender, LvErasureManager, marshal_into, send_regular, emit, add_shard,
}

-- A host that takes every datagram.
abbrev pub Reliable : Host → Type 0
Reliable host = (l : List (List ℕ)) (d : List ℕ) → host.send_to l d ≡ some (length d)

module _ (code : ErasureCode) (rtp : Rtp) (host : Host) (enc_laws : EncoderLaws code)
    (rtp_laws : RtpLaws rtp) where
  open code use {Enc, add_original}
  open rtp use {Packet, marshal_size}
  open enc_laws use {originals}
  open rtp_laws use {wire, length-wire}

  marshal_into-split :
      (p : Packet) (front a b : List ℕ)
      → length front ≡ no_bytes
      → length a ≡ marshal_size p
      → marshal_into code rtp host p (front ++ (a ++ b))
        ≡ ok (front ++ (wire p ++ replicate (length b) 0), true)
  unfolding marshal_into
  marshal_into-split p front a b h la =
      rw
        (
          slice-at front a b no_bytes (no_bytes + marshal_size p) (sym h) (omega arith),
          rtp_laws.marshal_to_wire p a la,
          marshal_into,
        )
        (ap₂ (λ xs n. ok (xs ++ (wire p ++ replicate n 0), true)) kept left)
    where
      kept : take no_bytes (front ++ (a ++ b)) ≡ front
      kept = ap (λ n. take n (front ++ (a ++ b))) (sym h) ∙ take-append front (a ++ b)

      left : length (front ++ (a ++ b)) - (no_bytes + marshal_size p) ≡ length b
      left = omega (arith, length-append front (a ++ b), length-append a b)

  marshal_into-wire :
      (p : Packet) (front rest : List ℕ)
      → length front ≡ no_bytes
      → marshal_size p ≤ length rest
      → marshal_into code rtp host p (front ++ rest)
        ≡ ok (front ++ (wire p ++ replicate (length rest - marshal_size p) 0), true)
  marshal_into-wire p front rest h fits =
      let (a, b, e, la, lb) = split_at (marshal_size p) rest fits in
      ap (λ xs. marshal_into code rtp host p (front ++ xs)) e
      ∙ marshal_into-split p front a b h la
      ∙ ap (λ n. ok (front ++ (wire p ++ replicate n 0), true)) lb

  -- The shard that a packet makes: its bytes, filled up with zeros.
  abbrev pub shard_of : Packet → List ℕ
  shard_of p = wire p ++ replicate (simd_packet_size - marshal_size p) 0

  abbrev pub sized : LvErasureManager Enc → LvErasureInformation → Packet → List ℕ
  sized m pk p = set m.pkt_sizes pk.fragment_index (as_u16 (marshal_size p))

  abbrev pub stamped : LvErasureInformation → ℕ → LvErasureInformation
  stamped pk stamp = record pk { send_timestamp = stamp }

  pub length-shard_of :
      (p : Packet) → marshal_size p ≤ simd_packet_size → length (shard_of p) ≡ simd_packet_size
  length-shard_of p fits =
      let pad = simd_packet_size - marshal_size p in
      omega (
        arith,
        length-append (wire p) (replicate pad 0),
        length-wire p,
        length-replicate pad (zero),
      )

  marshal_into-shard :
      (p : Packet) (front rest : List ℕ)
      → length front ≡ no_bytes
      → length rest ≡ simd_packet_size
      → marshal_size p ≤ simd_packet_size
      → marshal_into code rtp host p (front ++ rest) ≡ ok (front ++ shard_of p, true)
  marshal_into-shard p front rest h hr fits =
      marshal_into-wire p front rest h (omega arith)
      ∙ ap (λ n. ok (front ++ (wire p ++ replicate (n - marshal_size p) 0), true)) hr

  -- The state after the packet has been sent with the header `pk`, the encoder being `e`.
  abbrev pub sent_regular : Sender Enc → LvErasureInformation → Packet → Enc → Sender Enc
  sent_regular s pk p e =
      let h = layout (stamped pk (host.now s.readings)) in
      record {
        mgr = record (s.mgr) { enc = e; pkt_sizes = sized s.mgr pk p; pkt_data = h ++ shard_of p };
        sent = s.sent ++ ((h ++ wire p) ∷ []);
        readings = s.readings + 1;
      }

  pub send_regular_sends :
      (s : Sender Enc) (pk : LvErasureInformation) (p : Packet)
      → Reliable host
      → length s.pkt_data ≡ simd_packet_size + no_bytes
      → length s.pkt_sizes ≡ 4
      → length pk.pkt_sizes ≡ 4
      → pk.fragment_index < 4
      → marshal_size p ≤ simd_packet_size
      → length (originals s.enc) < ec_ratio_regular_packets
      → (e : Enc) × (originals e ≡ originals s.enc ++ (shard_of p ∷ []))
        × (send_regular code rtp host pk p s
            ≡ done
                (length (layout (stamped pk (host.now s.readings)) ++ wire p))
                (sent_regular s pk p e))
  unfolding send_regular emit
  send_regular_sends s pk p reliable hd hs hp hi fits room =
      let pk' = stamped pk (host.now s.readings) in
      let h : List ℕ = layout pk' in
      let width = length-layout pk' hp in
      let rest = drop no_bytes s.pkt_data in
      let left = length-drop no_bytes s.pkt_data in
      let (e, added, orig) =
        enc_laws.add_accepts s.enc (shard_of p) room (length-shard_of p fits) in
      (
        e,
        orig,
        rw
            (
              to_bytes_lem pk' s.pkt_data hp (omega arith),
              lt→ltb pk.fragment_index (length s.pkt_sizes) (omega arith),
              marshal_into-shard p h rest width (omega (arith, left)) fits,
              slice-end h (shard_of p) no_bytes (sym width),
            )
            (rw (added, add_shard)
              (rw
                (slice-front h (wire p) (replicate (simd_packet_size - marshal_size p) 0)
                  (no_bytes + marshal_size p) (omega (arith, length-wire p)))
                (rw (reliable s.sent (h ++ wire p), emit)))),
      )
