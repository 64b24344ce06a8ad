-- ===== src/Examples/Client.antt =====
-- The theorems on client/ at concrete values.
use lightvideo.Prelude.{ℕ, ◌≡◌, refl, List, [], ◌∷◌, length, none, some, true, false, ltb}
use lightvideo.Client.LvDecoder.{H264, LvDecoder, picture, depacketize_decode}
use lightvideo.Client.LvDecoder.Frames.{depacketize_decode-Safe, Safe}
use lightvideo.Prelude.Runs.{done, final}
use lightvideo.Net.Packet.{LvErasureInformation}
use lightvideo.Net.FeedbackPacket.{default_ack, empty_pkt}
use lightvideo.Client.Video.{L, Arrival, start, pass_on}
use lightvideo.Client.Video.Published.{Publishes, passed, pass_on-Publishes}
use lightvideo.Client.DoubleBuffer.{write_back, uninitialized, initialize}
use lightvideo.Client.Network.{Reception, Delivers, socket_loop-Delivers}
use lightvideo.Examples.ToyCode.{toy}
use lightvideo.Examples.Models.{rtp, first_or_zero}

-- A payload that begins with 0 opens a frame; a picture is as high as its data is long.
abbrev pub h264 : H264
h264 = record {
  Depacketizer = Unit {0};
  is_partition_head = λ k b. ltb (first_or_zero b) 1;
  depacketize = λ k b. (some b, k);
  Decoder = Unit {0};
  Yuv = List ℕ;
  decode = λ k b. (picture b, k);
  stride = λ y. 2;
  height = λ y. length y;
  buffers_size_ok = λ w h. true;
  convert_image = λ w h y old. y;
  elapsed = λ n. n;
}

-- One packet has come; its picture is due when the next frame begins.
abbrev pub collecting : LvDecoder h264
collecting = record {
  width = 0;
  height = 0;
  double_buffer = record { back = none; front = none };
  buffer = 0 ∷ 5 ∷ [];
  decoder = tt;
  pkt = tt;
  messages = [];
}

depacketize_decode-Safe_example :
    Safe h264 rtp (depacketize_decode h264 rtp (0 ∷ 6 ∷ []) collecting)
depacketize_decode-Safe_example = depacketize_decode-Safe h264 rtp (0 ∷ 6 ∷ []) collecting tt

abbrev locals : L toy rtp h264
locals = start toy rtp h264 collecting default_ack empty_pkt

abbrev arrival : Arrival
arrival = record { datagram = []; queued = some 512; unlocked = true }

abbrev header : LvErasureInformation
header = record {
  block_id = 0;
  min_fragment_size = 4;
  recovery_pkt = false;
  fragment_index = 0;
  pkt_sizes = 0 ∷ 0 ∷ 0 ∷ 0 ∷ [];
  send_timestamp = 1700000000000;
}

abbrev decoded : LvDecoder h264
decoded = final (depacketize_decode h264 rtp (0 ∷ 6 ∷ []) collecting)

locals-video_dec :
    depacketize_decode h264 rtp
      (0 ∷ 6 ∷ [])
      (start toy rtp h264 collecting default_ack empty_pkt).video_dec
    ≡ done tt decoded
unfolding start depacketize_decode write_back uninitialized initialize
locals-video_dec = refl

pass_on-Publishes_example :
    Publishes toy rtp h264 header
      (0 ∷ 6 ∷ [])
      (passed toy rtp h264 arrival header decoded locals)
      (pass_on toy rtp h264 arrival header (0 ∷ 6 ∷ []) locals)
pass_on-Publishes_example =
    pass_on-Publishes toy rtp h264 arrival header (0 ∷ 6 ∷ []) locals decoded locals-video_dec refl

abbrev receptions : List Reception
receptions =
    record { has_slot = true; received = some (1 ∷ 2 ∷ 3 ∷ []) }
    ∷ record { has_slot = false; received = some (4 ∷ []) }
    ∷ record { has_slot = true; received = some (5 ∷ []) }
    ∷ record { has_slot = true; received = none }
    ∷ []

socket_loop-Delivers_example : Delivers receptions []
socket_loop-Delivers_example = socket_loop-Delivers receptions []
