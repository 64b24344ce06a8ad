-- ===== src/Examples/Streaming.antt =====
-- The theorems on the packager and the streaming loop at concrete values.
use lightvideo.Prelude.{ℕ, ◌≡◌, refl, List, [], ◌∷◌, take, drop, some, none, true, arith}
use lightvideo.Prelude.Runs.{done, final}
use lightvideo.Server.ErasureManager.Blocks.{Block, Represents}
use lightvideo.Server.ErasureManager.Refine.{new-Represents}
use lightvideo.Server.Packager.{Encoding, LvPackager, process_frame, new_packager}
use lightvideo.Server.Packager.Queue.{
  process_frame_queues, backwards, payloads, or_none, written_behind, Succeeds,
}
use lightvideo.Server.Benchmark.{send_frame}
use lightvideo.Server.Benchmark.Queue.{Follows, send_frame-Follows}
use lightvideo.Server.StreamingServer.{send_all, LvStreamingServer, Means, Tick, stream_round}
use lightvideo.Server.StreamingServer.Drain.{
  send_all_ends, send_all_sends, Emptied, stream, blocks_after,
}
use lightvideo.Server.StreamingServer.Rounds.{stream_round-Ends, Ends}
use lightvideo.Examples.Models.{rtp, rtp_laws, host, broken_host}
use lightvideo.Examples.ToyCode.{toy, toy_encoder_laws}

-- An image is its bitstream, which makes two packets; the encoder is its bitrate.
abbrev pub video : Encoding (List ℕ)
video = record {
  Image = List ℕ;
  Yuv = List ℕ;
  Encoder = ℕ;
  convert_frame = λ e i y. some (e, i);
  encode_frame = λ e y t. some (true, e, y);
  set_bitrate = λ e b. (true, b);
  Packetizer = Unit {0};
  packetize = λ k bits n. (some (take 2 bits ∷ drop 2 bits ∷ []), k);
  new_packetizer = tt;
  new_yuv = [];
  elapsed = λ n. n;
}

abbrev image : List ℕ
image = 7 ∷ 8 ∷ 9 ∷ []

abbrev fresh_packager : LvPackager (List ℕ) toy.Enc video
fresh_packager = new_packager toy rtp host video 900000 30

-- Two packets of an earlier frame wait.
abbrev waiting : LvPackager (List ℕ) toy.Enc video
waiting = record fresh_packager { rtp_queue = (2 ∷ []) ∷ (1 ∷ []) ∷ [] }

process_frame_queues_example :
    let r = process_frame toy rtp host video image 40 waiting in
    ((final r).rtp_queue
      ≡ backwards ((1 ∷ []) ∷ (2 ∷ []) ∷ or_none (payloads toy rtp host video image 40 waiting)))
    × Succeeds toy rtp host video (payloads toy rtp host video image 40 waiting) r
    × ((final r).h264_bitstream_writer ≡ written_behind toy rtp host video image 40 waiting)
process_frame_queues_example =
    process_frame_queues toy rtp host video image 40 waiting ((1 ∷ []) ∷ (2 ∷ []) ∷ []) refl

send_all_ends_example :
    Emptied toy rtp broken_host video (send_all toy rtp broken_host video waiting)
send_all_ends_example = send_all_ends toy rtp broken_host video waiting

send_frame-Follows_example :
    Follows toy rtp broken_host video waiting (send_frame toy rtp broken_host video waiting)
send_frame-Follows_example = send_frame-Follows toy rtp broken_host video waiting

abbrev five : List (List ℕ)
five = (1 ∷ []) ∷ (2 ∷ []) ∷ (3 ∷ 4 ∷ []) ∷ (5 ∷ []) ∷ (6 ∷ []) ∷ []

abbrev start_block : Block toy rtp host toy_encoder_laws rtp_laws
start_block = record { id = 0; packets = [] }

abbrev five_waiting : LvPackager (List ℕ) toy.Enc video
five_waiting = record fresh_packager { rtp_queue = backwards five }

send_all_sends_example :
    (s' : LvPackager (List ℕ) toy.Enc video) × (send_all toy rtp host video five_waiting
      ≡ done tt s')
    × (s'.rtp_queue ≡ [])
    × (s'.erasure_manager.sent
        ≡ stream toy rtp host video toy_encoder_laws rtp_laws start_block five 0)
    × Represents toy rtp host toy_encoder_laws rtp_laws s'.erasure_manager
        (blocks_after toy rtp host video toy_encoder_laws rtp_laws start_block five)
unfolding new_packager
send_all_sends_example =
    send_all_sends toy rtp host video toy_encoder_laws rtp_laws five five_waiting start_block
      (λ l d. refl) (new-Represents toy rtp host toy_encoder_laws rtp_laws) (omega arith) refl
      (omega arith) (omega arith, (omega arith, (omega arith, (omega arith, (omega arith, tt)))))

abbrev pub means : Means
means = record { of_nat = λ n. n; mean = λ a b. a }

abbrev tick : Tick (List ℕ)
tick = record { queued = some 5; quit = none; frame = some (image, 40); bitrate = 80000 }

abbrev server : LvStreamingServer (LvPackager (List ℕ) toy.Enc video)
server = record {
  packager = fresh_packager;
  old_bitrate = 900000;
  total_queue_occupancy = 0;
  total_cycles = 0;
  messages = [];
}

stream_round-Ends_example :
    Ends toy rtp host video means tick server (stream_round toy rtp host video means tick server)
stream_round-Ends_example = stream_round-Ends toy rtp host video means tick server
