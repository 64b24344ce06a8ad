-- ===== src/Examples/Recovery.antt =====
-- The repair of blocks at concrete values: of each block the second packet and the first recovery
-- datagram are lost.
use lightvideo.Prelude.{
  ℕ, ◌-◌, ◌<◌, ◌≡◌, ◌^◌, refl, ap, sym, ◌∙◌, List, [], ◌∷◌, ◌++◌, length, replicate, get_elem?, map,
  none, some, true, false, arith, append-nil,
}
use lightvideo.Prelude.Runs.{done, final}
use lightvideo.Net.Packet.{LvErasureInformation, IsHeader, simd_packet_size}
use lightvideo.Net.Packet.Layout.{layout}
use lightvideo.Net.FeedbackPacket.{default_ack, empty_pkt}
use lightvideo.Codec.{Shard}
use lightvideo.Client.LvDecoder.{LvDecoder, depacketize_decode}
use lightvideo.Client.DoubleBuffer.{write_back, uninitialized, initialize, swap}
use lightvideo.Client.Video.{Arrival, L, start, decode_loop, enter_block}
use lightvideo.Client.Video.Block.{filled, Feeds}
use lightvideo.Client.Video.Restore.{Fits}
use lightvideo.Client.Video.Round.{OriginalComes, RecoveryComes}
use lightvideo.Client.Video.Stream.{over, original, original_lost, recovery_comes, recovery_lost}
use lightvideo.Client.Video.Blocks.{
  Traffic, Arrives, all_packets, all_arrivals, decode_loop_recovers,
}
use lightvideo.Examples.ToyCode.{toy, toy_recovery, toy_decoder_laws, mixed, length-mixed}
use lightvideo.Examples.Models.{rtp, rtp_laws}
use lightvideo.Examples.Client.{h264, collecting}

filled_full : (b : Shard) → length b ≡ simd_packet_size → filled b ≡ b
filled_full b e =
    let none_left : simd_packet_size - length b ≡ 0 = omega (arith, e) in
    ap (λ n. b ++ replicate n 0) none_left ∙ append-nil b

module _ (id x : ℕ) where
  abbrev pub packet : ℕ → List ℕ
  packet j = j ∷ x ∷ []

  abbrev four_packets : List (List ℕ)
  four_packets = packet 0 ∷ packet 1 ∷ packet 2 ∷ packet 3 ∷ []

  abbrev pub original_header : ℕ → LvErasureInformation
  original_header j = record {
    block_id = id;
    min_fragment_size = 4;
    recovery_pkt = false;
    fragment_index = j;
    pkt_sizes = 0 ∷ 0 ∷ 0 ∷ 0 ∷ [];
    send_timestamp = 7;
  }

  abbrev recovery_header : LvErasureInformation
  recovery_header = record {
    block_id = id;
    min_fragment_size = 4;
    recovery_pkt = true;
    fragment_index = 1;
    pkt_sizes = 2 ∷ 2 ∷ 2 ∷ 2 ∷ [];
    send_timestamp = 8;
  }

  abbrev shard : Shard
  shard = mixed simd_packet_size (map (λ p. filled p) four_packets)

  abbrev pub sent : ℕ → Arrival
  sent j = record {
    datagram = layout (original_header j) ++ packet j;
    queued = some 512;
    unlocked = true;
  }

  abbrev sent_recovery : Arrival
  sent_recovery = record {
    datagram = layout recovery_header ++ shard;
    queued = none;
    unlocked = false;
  }

  abbrev lossy : Traffic toy rtp h264 toy_recovery toy_decoder_laws rtp_laws
  lossy = record {
    id = id;
    packets = four_packets;
    arrivals = sent 0 ∷ sent 2 ∷ sent 3 ∷ sent_recovery ∷ [];
  }

  module _ (small : id < 2 ^ 32) (byte : x < 256) where
    pub original_header-IsHeader : (j : ℕ) → j < 4 → IsHeader (original_header j)
    original_header-IsHeader j h = record {
      block_id_u32 = small;
      min_fragment_size_u32 = omega arith;
      fragment_index_u32 = omega arith;
      four_sizes = refl;
      sizes_u16 = (omega arith, (omega arith, (omega arith, (omega arith, tt))));
      send_timestamp_u128 = omega arith;
    }

    recovery_header-IsHeader : IsHeader recovery_header
    recovery_header-IsHeader = record {
      block_id_u32 = small;
      min_fragment_size_u32 = omega arith;
      fragment_index_u32 = omega arith;
      four_sizes = refl;
      sizes_u16 = (omega arith, (omega arith, (omega arith, (omega arith, tt))));
      send_timestamp_u128 = omega arith;
    }

    comes :
        (j : ℕ)
        → j < 4
        → get_elem? four_packets j ≡ some (packet j)
        → OriginalComes toy rtp h264 toy_recovery toy_decoder_laws rtp_laws id four_packets j
            (sent j)
    unfolding rtp_laws
    comes j h at = record {
      header = original_header j;
      packet = packet j;
      queue = 512;
      sound = original_header-IsHeader j h;
      block_id = refl;
      regular = refl;
      fragment_index = refl;
      at = at;
      datagram = refl;
      queued = refl;
    }

    comes_recovery :
        {k lost : ℕ}
        → RecoveryComes toy rtp h264 toy_recovery toy_decoder_laws rtp_laws id four_packets k lost 1
            sent_recovery
    unfolding rtp_laws
    comes_recovery = record {
      header = recovery_header;
      bytes = shard;
      sound = recovery_header-IsHeader;
      block_id = refl;
      flagged = refl;
      fragment_index = refl;
      pkt_sizes = refl;
      fits = omega (arith, length-mixed simd_packet_size (map (λ p. filled p) four_packets));
      at = λ z. ap some (
          sym
            (filled_full shard (length-mixed simd_packet_size (map (λ p. filled p) four_packets))));
      datagram = refl;
    }

    packet-Fits :
        (j : ℕ) → j < 4 → Fits toy rtp h264 toy_recovery toy_decoder_laws rtp_laws (packet j)
    unfolding rtp_laws
    packet-Fits j h = (omega arith, (omega arith, (byte, tt)))

    lossy-Arrives : Arrives toy rtp h264 toy_recovery toy_decoder_laws rtp_laws lossy
    lossy-Arrives = record {
      four = refl;
      fit = (
        packet-Fits 0 (omega arith),
        (
          packet-Fits 1 (omega arith),
          (packet-Fits 2 (omega arith), (packet-Fits 3 (omega arith), tt)),
        ),
      );
      comes = original (omega arith) (comes 0 (omega arith) refl) (
          original_lost (omega arith) (
            original (omega arith) (comes 2 (omega arith) refl) (
              original (omega arith) (comes 3 (omega arith) refl) (
                recovery_lost (omega arith)
                  (recovery_comes (omega arith) comes_recovery (over (omega arith)))))));
    }

abbrev step : List ℕ → LvDecoder h264 → LvDecoder h264
step p v = final (depacketize_decode h264 rtp p v)

abbrev pub steps : List (List ℕ) → LvDecoder h264 → LvDecoder h264
steps [] v = v
steps (p ∷ ps) v = steps ps (step p v)

abbrev all_sent : List (List ℕ)
all_sent =
    all_packets toy rtp h264 toy_recovery toy_decoder_laws rtp_laws (lossy 5 8 ∷ lossy 6 9 ∷ [])

collecting-Feeds :
    Feeds toy rtp h264 toy_recovery toy_decoder_laws rtp_laws collecting all_sent
      (steps all_sent collecting)
unfolding depacketize_decode write_back uninitialized initialize swap
collecting-Feeds =
    (_, refl, (_, refl, (_, refl, (_, refl, (_, refl, (_, refl, (_, refl, (_, refl, refl))))))))

-- The client comes in at block 5; after blocks 5 and 6 a datagram of block 7 comes.
decode_loop_recovers_example :
    (s s' : L toy rtp h264) × ((more : List Arrival)
      → decode_loop toy rtp h264
          (all_arrivals toy rtp h264 toy_recovery toy_decoder_laws rtp_laws
              (lossy 5 8 ∷ lossy 6 9 ∷ [])
            ++ more)
          (start toy rtp h264 collecting default_ack empty_pkt)
        ≡ decode_loop toy rtp h264 more s)
    × (enter_block toy rtp h264 7 s ≡ done tt s')
    × (s'.video_dec ≡ steps all_sent collecting)
decode_loop_recovers_example =
    decode_loop_recovers toy rtp h264 toy_recovery toy_decoder_laws rtp_laws collecting default_ack
      empty_pkt (lossy 5 8) (lossy 6 9 ∷ []) (steps all_sent collecting)
      (
        lossy-Arrives 5 8 (omega arith) (omega arith),
        (lossy-Arrives 6 9 (omega arith) (omega arith), tt),
      )
      (λ e. absurd (omega arith), tt) collecting-Feeds (omega arith) 7 (λ e. absurd (omega arith))
