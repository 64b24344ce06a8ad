-- ===== src/Client/LvDecoder.antt =====
-- client/src/decoder/video.rs: `LVDecoder` and `depacketize_decode`, which collects the H.264 bytes
-- of a frame and decodes them when the next frame begins.
pub mod Frames
use Prim.Native.String.{String}
use lightvideo.Prelude.{
  ℕ, ◌*◌, ◌%◌, ◌^◌, List, [], ◌∷◌, ◌++◌, length, Option, none, some, Bool, if◌then◌else◌,
  depacketizer, color_conversion,
}
use lightvideo.Prelude.Runs.{done, failed, M, ◌>>=◌, ◌>>◌, return, get, modify, lift, throw}
use lightvideo.Rtp.{Rtp}
use lightvideo.Statistics.{LvDataPoint, increment, time_elapsed}
use lightvideo.Statistics.Collector.{LvStatisticsMessage, update}
use lightvideo.Client.DoubleBuffer.{DoubleBuffer, initialize, uninitialized, write_back, swap}

pub data Decoded (Yuv : Type 0) : Type 0 where
  decode_error no_picture : Decoded Yuv
  picture : Yuv → Decoded Yuv

-- The crates `openh264`, `dcv_color_primitives` and the H.264 part of `rtp`, which are not part of
-- the repository. `elapsed` is the n-th duration that the thread measures.
pub record H264 : Type 1 where
  pub Depacketizer : Type 0
  pub is_partition_head : Depacketizer → List ℕ → Bool
  -- `none` is an `Err`.
  pub depacketize : Depacketizer → List ℕ → Option (List ℕ) × Depacketizer
  pub Decoder : Type 0
  pub Yuv : Type 0
  pub decode : Decoder → List ℕ → Decoded Yuv × Decoder
  pub stride : Yuv → ℕ
  pub height : Yuv → ℕ
  pub buffers_size_ok : ℕ → ℕ → Bool
  -- The destination after the conversion; an `Err` of it is only logged.
  pub convert_image : ℕ → ℕ → Yuv → List ℕ → List ℕ
  pub elapsed : ℕ → ℕ

pub record LvDecoder (h264 : H264) : Type 0 where
  pub width : ℕ
  pub height : ℕ
  pub double_buffer : DoubleBuffer
  pub buffer : List ℕ
  pub decoder : h264.Decoder
  pub pkt : h264.Depacketizer
  -- The messages that this thread has sent to the statistics.
  pub messages : List LvStatisticsMessage

module _ (h264 : H264) (rtp : Rtp) where
  open h264 use {
    Yuv, is_partition_head, depacketize, decode, stride, buffers_size_ok, convert_image, elapsed,
  }
  open rtp use {Packet, payload}

  abbrev pub V : Type 0
  V = LvDecoder h264

  abbrev pub report : String → LvDataPoint → M V (Unit {0})
  report name p = modify λ v. record v { messages = v.messages ++ (update name p ∷ []) }

  -- The first picture fixes the size of the two frames.
  abbrev pub sized : ℕ → ℕ → V → V
  sized w h v = record v {
    width = w;
    height = h;
    double_buffer = initialize (4 * w % 2 ^ 32 * h % 2 ^ 32) w h v.double_buffer;
  }

  unfoldable pub prepare : Yuv → V → V
  prepare yuv v =
      if uninitialized v.double_buffer
      then sized (stride yuv % 2 ^ 32) (h264.height yuv % 2 ^ 32) v
      else v

  -- A decoded picture goes to the back frame, which is then shown.
  unfoldable pub show_picture : Yuv → M V (Unit {0})
  unfolding prepare
  show_picture yuv = do
    modify (prepare yuv)
    v ← get
    (if buffers_size_ok v.width v.height then return tt else throw color_conversion)
    b ← lift (write_back (convert_image v.width v.height yuv) v.double_buffer)
    modify λ v. record v { double_buffer = swap b }

  unfoldable pub handle_decoded : Decoded Yuv → M V (Unit {0})
  unfolding show_picture
  handle_decoded decode_error = report "client_failed_decode_packets" increment
  handle_decoded no_picture = return tt
  handle_decoded (picture yuv) = show_picture yuv

  -- `self.decoder.decode(&self.buffer)`
  abbrev pub decode_buffer : M V (Decoded Yuv)
  decode_buffer v =
      let (d, decoder) = decode v.decoder v.buffer in done d (record v { decoder = decoder })

  -- At the head of a partition, what has been collected is decoded, unless that is nothing, and
  -- the buffer is cleared.
  unfoldable pub finish_frame : M V (Unit {0})
  unfolding handle_decoded
  finish_frame = do
    v ← get
    elim v.buffer [ [] ↦ return tt | b ∷ bs ↦ (decode_buffer >>= handle_decoded) ]
    modify λ v. record v { buffer = [] }

  abbrev pub depacketize_payload : List ℕ → M V (Unit {0})
  depacketize_payload bytes v =
      let (out, pkt) = depacketize v.pkt bytes in
      elim out [
        | none ↦ failed depacketizer (record v { pkt = pkt })
        | some more ↦ done tt (record v { pkt = pkt; buffer = v.buffer ++ more })
      ]

  unfoldable pub depacketize_decode : Packet → M V (Unit {0})
  unfolding finish_frame
  depacketize_decode packet = do
    v ← get
    (if is_partition_head v.pkt (payload packet) then finish_frame else return tt)
    depacketize_payload (payload packet)
    v ← get
    report "client_decode_packet" (time_elapsed (elapsed (length v.messages)))
