-- ===== src/Examples/VideoPath.antt =====
-- The way of the video at concrete values: of the block the second packet and the first recovery
-- datagram are lost.
use lightvideo.Prelude.{
  ℕ, ◌<◌, ◌*◌, inr, replicate, suc, ◌≡◌, refl, List, [], ◌∷◌, ◌++◌, length, All, some, true, zero,
  arith, drop,
}
use lightvideo.Prelude.Runs.{done}
use lightvideo.Net.FeedbackPacket.{default_ack, empty_pkt}
use lightvideo.Client.LvDecoder.{depacketize_decode}
use lightvideo.Client.DoubleBuffer.{write_back, uninitialized, initialize, swap}
use lightvideo.Client.Video.{Arrival}
use lightvideo.Client.Video.Block.{Feeds}
use lightvideo.Server.ErasureManager.Refine.{new-Represents}
use lightvideo.Server.Packager.{LvPackager, new_packager}
use lightvideo.Server.Packager.Queue.{backwards}
use lightvideo.Server.StreamingServer.{send_all}
use lightvideo.Server.StreamingServer.Drain.{stream}
use lightvideo.Client.Video.Indices.{All-replicate}
use lightvideo.System.VideoPath.{
  Crosses, Transmits, wires, joined, nothing, delivered, dropped, block_wire,
}
use lightvideo.System.VideoPath.Padding.{ZeroFrom, ChunkWise, chunk_size}
use lightvideo.System.VideoPath.Delivery.{Sendable, Received, video_arrives}
use lightvideo.Examples.Models.{rtp, rtp_laws}
use lightvideo.Examples.ToyCode.{
  toy, toy_recovery, toy_encoder_laws, toy_decoder_laws, mixed, column, rests,
}
use lightvideo.Codec.{Shard}
use lightvideo.Net.Packet.{simd_packet_size}
use lightvideo.Examples.Client.{h264, collecting}
use lightvideo.Examples.Recovery.{steps}
use lightvideo.Server.ErasureManager.{Host}
use lightvideo.Examples.Streaming.{video}

abbrev group : List (List ℕ)
group = (1 ∷ []) ∷ (2 ∷ []) ∷ replicate 64 3 ∷ (5 ∷ []) ∷ []

-- A host whose clock stands still.
abbrev host : Host
host = record { send_to = λ l d. some (length d); now = λ n. 7 }

abbrev queued : LvPackager (List ℕ) toy.Enc video
queued = record (new_packager toy rtp host video 900000 30) {
  rtp_queue = backwards (group ++ ((6 ∷ []) ∷ []));
}

abbrev arrival : List ℕ → Arrival
arrival d = record { datagram = d; queued = some 512; unlocked = true }

abbrev head_of : List (List ℕ) → List ℕ
head_of [] = []
head_of (d ∷ ds) = d

abbrev nth : ℕ → List ℕ
nth n = head_of (drop n (block_wire toy rtp host toy_encoder_laws rtp_laws 0 group 0))

abbrev arrived : List Arrival
arrived = arrival (nth 0) ∷ arrival (nth 2) ∷ arrival (nth 3) ∷ arrival (nth 5) ∷ []

heads_zero : (ds : List Shard) → All (ZeroFrom 0) ds → column ds ≡ 0
heads_zero [] v = refl
heads_zero ([] ∷ ds) v = omega (arith, heads_zero ds v.1)
heads_zero ((x ∷ s) ∷ ds) v = omega (arith, v.0.0, heads_zero ds v.1)

rests_zero : (k : ℕ) (ds : List Shard) → All (ZeroFrom (suc k)) ds → All (ZeroFrom k) (rests ds)
rests_zero k [] v = tt
rests_zero zero ([] ∷ ds) v = (tt, rests_zero zero ds v.1)
rests_zero (suc k) ([] ∷ ds) v = (tt, rests_zero (suc k) ds v.1)
rests_zero k ((x ∷ s) ∷ ds) v = (v.0, rests_zero k ds v.1)

tails_zero : (ds : List Shard) → All (ZeroFrom 0) ds → All (ZeroFrom 0) (rests ds)
tails_zero [] v = tt
tails_zero ([] ∷ ds) v = (tt, tails_zero ds v.1)
tails_zero ((x ∷ s) ∷ ds) v = (v.0.1, tails_zero ds v.1)

-- The recovery shards of the small code are zero where all shards are.
mixed-ZeroFrom : (n k : ℕ) (ds : List Shard) → All (ZeroFrom k) ds → ZeroFrom k (mixed n ds)
unfolding mixed
mixed-ZeroFrom zero zero ds v = tt
mixed-ZeroFrom zero (suc k) ds v = tt
mixed-ZeroFrom (suc n) zero ds v =
    (heads_zero ds v, mixed-ZeroFrom n zero (rests ds) (tails_zero ds v))
mixed-ZeroFrom (suc n) (suc k) ds v = mixed-ZeroFrom n k (rests ds) (rests_zero k ds v)

toy-ChunkWise : ChunkWise toy_recovery
toy-ChunkWise n ds v =
    let one = mixed-ZeroFrom simd_packet_size (chunk_size * n) ds v in (one, (one, tt))

group-Sendable : Sendable toy rtp host h264 toy_encoder_laws toy_decoder_laws rtp_laws group
unfolding rtp_laws
group-Sendable = record {
  four = refl;
  fit = (
    (omega arith, (omega arith, tt)),
    (
      (omega arith, (omega arith, tt)),
      (
        (omega arith, All-replicate (λ b. b < 256) 64 3 (omega arith)),
        ((omega arith, (omega arith, tt)), tt),
      ),
    ),
  );
}

group-Crosses : Crosses toy rtp host toy_encoder_laws rtp_laws 0 group 0 arrived
unfolding rtp_laws
group-Crosses = record {
  lost = 1;
  missed = 1;
  few = omega arith;
  first = arrival (nth 0) ∷ arrival (nth 2) ∷ arrival (nth 3) ∷ [];
  second = arrival (nth 5) ∷ [];
  split = refl;
  regular = delivered refl refl (dropped (delivered refl refl (delivered refl refl nothing)));
  repair = dropped (delivered refl refl nothing);
  aligned = inr refl;
}

group-Transmits : Transmits toy rtp host toy_encoder_laws rtp_laws 0 (group ∷ []) 0 arrived
group-Transmits = (arrived, [], refl, group-Crosses, refl)

group-Feeds :
    Feeds toy rtp h264 toy_recovery toy_decoder_laws rtp_laws collecting group
      (steps group collecting)
unfolding depacketize_decode write_back uninitialized initialize swap
group-Feeds = (_, refl, (_, refl, (_, refl, (_, refl, refl))))

video_arrives_example :
    (s' : LvPackager (List ℕ) toy.Enc video) × (send_all toy rtp host video queued ≡ done tt s')
    × (s'.rtp_queue ≡ [])
    × (s'.erasure_manager.sent
        ≡ joined (wires toy rtp host toy_encoder_laws rtp_laws 0 (group ∷ []) 0)
          ++ stream toy rtp host video toy_encoder_laws rtp_laws
              (record { id = 1; packets = [] })
              ((6 ∷ []) ∷ [])
              6)
    × Received toy rtp host h264 toy_encoder_laws toy_decoder_laws rtp_laws
        (λ n. omega arith)
        toy-ChunkWise
        collecting
        (steps group collecting)
        default_ack
        empty_pkt
        1
        arrived
unfolding new_packager
video_arrives_example =
    video_arrives toy rtp host h264 toy_encoder_laws toy_decoder_laws rtp_laws (λ n. omega arith)
      toy-ChunkWise video queued group [] ((6 ∷ []) ∷ []) collecting (steps group collecting)
      default_ack empty_pkt arrived (λ l d. refl)
      (new-Represents toy rtp host toy_encoder_laws rtp_laws) refl (omega arith) (omega arith)
      (group-Sendable, tt) (omega arith, tt) group-Feeds group-Transmits (omega arith)
