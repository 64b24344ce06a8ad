-- ===== src/Server/ErasureManager/Blocks.antt =====
-- `LVErasureManager` of server/src/packager/packet.rs as a stream of blocks: four packets under
-- one block id, then two recovery datagrams in front of the next block's first packet.
use lightvideo.Prelude.{
  ℕ, ◌+◌, ◌-◌, ◌≤◌, ◌≡◌, Bool, true, false, List, [], ◌∷◌, ◌++◌, length, take, map, max, ◌==◌,
  if◌then◌else◌,
}
use lightvideo.Prelude.Words.{as_u16}
use lightvideo.Net.Packet.{ec_ratio_regular_packets}
use lightvideo.Net.Packet.Layout.{layout}
use lightvideo.Codec.{ErasureCode, EncoderLaws, Shard}
use lightvideo.Rtp.{Rtp, RtpLaws}
use lightvideo.Server.ErasureManager.{Host, Sender, no_sizes}
use lightvideo.Server.ErasureManager.Regular.{shard_of}
use lightvideo.Server.ErasureManager.Recovery.{HasRoom}

module _ (code : ErasureCode) (rtp : Rtp) (host : Host) (enc_laws : EncoderLaws code)
    (rtp_laws : RtpLaws rtp) where
  open code use {Enc}
  open rtp use {Packet, marshal_size}
  open enc_laws use {originals, recovery}
  open rtp_laws use {wire}

  abbrev pub shard : Packet → Shard
  shard = shard_of code rtp host enc_laws rtp_laws

  abbrev pub sizes : List Packet → List ℕ
  sizes = map (λ p. as_u16 (marshal_size p))

  abbrev pub largest : List Packet → ℕ
  largest [] = 0
  largest (p ∷ ps) = max (marshal_size p) (largest ps)

  -- The block under way: its id, and the packets that have been sent in it. A full block stays
  -- until the next packet comes.
  pub record Block : Type 0 where
    pub id : ℕ
    pub packets : List Packet

  abbrev pub is_full : Block → Bool
  is_full b = length b.packets == ec_ratio_regular_packets

  abbrev pub next_block : Block → Packet → Block
  next_block b p =
      if is_full b
      then record { id = b.id + 1; packets = p ∷ [] }
      else record { id = b.id; packets = b.packets ++ (p ∷ []) }

  abbrev pub regular_datagram : Block → Packet → ℕ → List ℕ
  regular_datagram b p stamp =
      layout (record {
        block_id = b.id;
        min_fragment_size = 4;
        recovery_pkt = false;
        fragment_index = length b.packets;
        pkt_sizes = no_sizes;
        send_timestamp = stamp;
      })
      ++ wire p

  abbrev pub recovery_datagram : Block → ℕ → Shard → ℕ → List ℕ
  recovery_datagram b j r stamp =
      layout (record {
        block_id = b.id;
        min_fragment_size = 4;
        recovery_pkt = true;
        fragment_index = j;
        pkt_sizes = sizes b.packets;
        send_timestamp = stamp;
      })
      ++ take (largest b.packets) r

  abbrev pub recovery_datagrams : Block → ℕ → ℕ → List Shard → List (List ℕ)
  recovery_datagrams b t j [] = []
  recovery_datagrams b t j (r ∷ rs) =
      recovery_datagram b j r (host.now t) ∷ recovery_datagrams b (t + 1) (j + 1) rs

  -- What one packet puts on the wire when the clock has been read `t` times: behind a full block
  -- its two recovery datagrams and then the packet as fragment 0 of the next block, otherwise the
  -- packet as the next fragment.
  abbrev pub datagrams : Block → Packet → ℕ → List (List ℕ)
  datagrams b p t =
      if is_full b
      then recovery_datagrams b t 0 (recovery (map shard b.packets))
        ++ (regular_datagram (record { id = b.id + 1; packets = [] }) p (host.now (t + 2)) ∷ [])
      else regular_datagram b p (host.now t) ∷ []

  abbrev pub next_reading : Block → ℕ → ℕ
  next_reading b t = if is_full b then t + 3 else t + 1

  -- Only the very first block can be empty.
  abbrev pub Started : Block → Type 0
  Started b = 1 ≤ length b.packets + (1 - b.id)

  -- The manager's fields, for the block under way. Before the first block ends, what `pkt_sizes`
  -- holds past the packets sent is left from the block before.
  pub record Represents (s : Sender Enc) (b : Block) : Type 0 where
    pub room : HasRoom code rtp host s
    pub at_most_four : length b.packets ≤ 4
    pub block_id : s.current_block_id ≡ (if is_full b then b.id + 1 else b.id)
    pub index : s.current_regular_fragment_index ≡ (if is_full b then 0 else length b.packets)
    pub recovery_index : s.current_recovery_fragment_index ≡ 1
    pub largest_payload : s.largest_sized_payload ≡ largest b.packets
    pub stale : List ℕ
    pub packet_sizes : s.pkt_sizes ≡ sizes b.packets ++ stale
    pub shards : originals s.enc ≡ map shard b.packets
