-- ===== src/System/VideoPath/Headers.antt =====
-- The headers that server/src/packager/packet.rs puts in front of a block's datagrams, and its shards.
use lightvideo.Prelude.{
  ℕ, ◌-◌, ◌^◌, ◌<◌, ◌≡◌, refl, ap, ap₂, sym, ◌∙◌, List, [], ◌∷◌, ◌++◌, length, map, replicate, All,
  true, false, arith, length-map,
}
use lightvideo.Prelude.Words.{as_u16}
use lightvideo.Net.Packet.{LvErasureInformation, IsHeader, simd_packet_size}
use lightvideo.Codec.{ErasureCode, EncoderLaws, DecoderLaws}
use lightvideo.Rtp.{Rtp, RtpLaws}
use lightvideo.Client.LvDecoder.{H264}
use lightvideo.Client.Video.Block.{shards}
use lightvideo.Server.ErasureManager.{Host, no_sizes}
use lightvideo.Server.ErasureManager.Blocks.{shard, sizes}

module _ (code : ErasureCode) (rtp : Rtp) (host : Host) (h264 : H264) (enc_laws : EncoderLaws code)
    (dec_laws : DecoderLaws code enc_laws.recovery) (rtp_laws : RtpLaws rtp) where
  open rtp use {Packet, marshal_size}
  open enc_laws use {recovery}
  open rtp_laws use {wire}

  -- The shards that the server encodes are those that the client works with.
  pub shards_agree :
      (ps : List Packet)
      → map (shard code rtp host enc_laws rtp_laws) ps
        ≡ shards code rtp h264 recovery dec_laws rtp_laws ps
  shards_agree [] = refl
  shards_agree (p ∷ ps) =
      ap₂ ◌∷◌
        (ap (λ n. wire p ++ replicate (simd_packet_size - n) 0) (sym (rtp_laws.length-wire p)))
        (shards_agree ps)

  abbrev pub regular_header : ℕ → ℕ → ℕ → LvErasureInformation
  regular_header id k stamp = record {
    block_id = id;
    min_fragment_size = 4;
    recovery_pkt = false;
    fragment_index = k;
    pkt_sizes = no_sizes;
    send_timestamp = stamp;
  }

  abbrev pub recovery_header : ℕ → List Packet → ℕ → ℕ → LvErasureInformation
  recovery_header id g j stamp = record {
    block_id = id;
    min_fragment_size = 4;
    recovery_pkt = true;
    fragment_index = j;
    pkt_sizes = sizes code rtp host enc_laws rtp_laws g;
    send_timestamp = stamp;
  }

  module _ (clock : (n : ℕ) → host.now n < 2 ^ 128) where
    pub regular_header-IsHeader :
        (id k t : ℕ) → id < 2 ^ 32 → k < 4 → IsHeader (regular_header id k (host.now t))
    regular_header-IsHeader id k t small lt = record {
      block_id_u32 = small;
      min_fragment_size_u32 = omega arith;
      fragment_index_u32 = omega arith;
      four_sizes = refl;
      sizes_u16 = (omega arith, (omega arith, (omega arith, (omega arith, tt))));
      send_timestamp_u128 = clock t;
    }

    sizes_u16 : (g : List Packet) → All (λ n. n < 2 ^ 16) (sizes code rtp host enc_laws rtp_laws g)
    sizes_u16 [] = tt
    sizes_u16 (p ∷ g) = (omega arith, sizes_u16 g)

    pub recovery_header-IsHeader :
        (id : ℕ) (g : List Packet) (j t : ℕ)
        → id < 2 ^ 32
        → length g ≡ 4
        → j < 2
        → IsHeader (recovery_header id g j (host.now t))
    recovery_header-IsHeader id g j t small four lt = record {
      block_id_u32 = small;
      min_fragment_size_u32 = omega arith;
      fragment_index_u32 = omega arith;
      four_sizes = length-map (λ p. as_u16 (marshal_size p)) g ∙ four;
      sizes_u16 = sizes_u16 g;
      send_timestamp_u128 = clock t;
    }
