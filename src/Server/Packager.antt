-- ===== src/Server/Packager.antt =====
-- server/src/packager/mod.rs: from a frame to the queue of its RTP packets, and from the queue to
-- the erasure manager. The trait `LVEncoder` of server/src/encoder/mod.rs is an interface; the
-- queue is a list from its front to its back.
pub mod Queue
use Prim.Native.String.{String}
use lightvideo.Prelude.{
  ℕ, zero, suc, ◌+◌, ◌/◌, List, [], ◌∷◌, ◌++◌, length, Option, none, some, Bool, true, false, not,
  ◌==◌, if◌then◌else◌, check, encoder, packetizer, Outcome, ok, err, panic,
}
use lightvideo.Prelude.Runs.{
  Ran, done, failed, panicked, M, and_then, ◌>>=◌, ◌>>◌, return, get, modify, lift, throw,
}
use lightvideo.Codec.{ErasureCode}
use lightvideo.Rtp.{Rtp}
use lightvideo.Statistics.{LvDataPoint, time_elapsed, time_series}
use lightvideo.Statistics.Collector.{LvStatisticsMessage, register, update}
use lightvideo.Server.ErasureManager.{Host, Sender, new, send_lv_packet}

-- The trait `LVEncoder`, the crate's packetizer, and the n-th duration that is measured. A Boolean
-- result is false for an `Err`, an option `none`; `convert_frame` and `encode_frame` are `none` when
-- they panic. An encoder writes to the end of the bitstream.
pub record Encoding (Packet : Type 0) : Type 1 where
  pub Image : Type 0
  pub Yuv : Type 0
  pub Encoder : Type 0
  pub convert_frame : Encoder → Image → Yuv → Option (Encoder × Yuv)
  pub encode_frame : Encoder → Yuv → ℕ → Option (Bool × Encoder × List ℕ)
  pub set_bitrate : Encoder → ℕ → Bool × Encoder
  pub Packetizer : Type 0
  pub packetize : Packetizer → List ℕ → ℕ → Option (List Packet) × Packetizer
  pub new_packetizer : Packetizer
  pub new_yuv : Yuv
  pub elapsed : ℕ → ℕ

abbrev pub sample_rate : ℕ
sample_rate = 90000

module _ {A : Type 0} where
  unfoldable pub pop_back : List A → Option (A × List A)
  pop_back [] = none
  pop_back (x ∷ xs) = elim (pop_back xs) [
    | none ↦ some (x, [])
    | some (y, rest) ↦ some (y, x ∷ rest)
  ]

  -- `for payload in payloads { self.rtp_queue.push_front(payload) }`
  unfoldable pub push_all : List A → List A → List A
  push_all [] queue = queue
  push_all (p ∷ ps) queue = push_all ps (p ∷ queue)

  abbrev pub is_empty : List A → Bool
  is_empty [] = true
  is_empty (x ∷ xs) = false

-- The erasure manager is kept with what it has sent.
pub record LvPackager (Packet Enc : Type 0) (video : Encoding Packet) : Type 0 where
  pub encoder : video.Encoder
  pub h264_bitstream_writer : List ℕ
  pub yuv_buffer : video.Yuv
  pub rtp_queue : List Packet
  pub packetizer : video.Packetizer
  pub erasure_manager : Sender Enc
  pub fps : ℕ
  pub messages : List LvStatisticsMessage

module _ (code : ErasureCode) (rtp : Rtp) (host : Host) (video : Encoding rtp.Packet) where
  open code use {Enc}
  open rtp use {Packet}
  open video use {
    Image, Encoder, convert_frame, encode_frame, set_bitrate, packetize, new_packetizer, new_yuv,
    elapsed,
  }

  abbrev pub P : Type 0
  P = LvPackager Packet Enc video

  unfoldable pub new_packager : Encoder → ℕ → P
  new_packager e fps = record {
    encoder = e;
    h264_bitstream_writer = [];
    yuv_buffer = new_yuv;
    rtp_queue = [];
    packetizer = new_packetizer;
    erasure_manager = record { mgr = new code rtp host; sent = []; readings = 0 };
    fps = fps;
    messages =
        register "server_packetization" time_series ∷ register "server_queuing" time_series ∷ [];
  }

  abbrev pub measure : String → M P (Unit {0})
  measure name = modify λ s. record s {
    messages = s.messages ++ (update name (time_elapsed (elapsed (length s.messages))) ∷ []);
  }

  -- `encode_frame(..)?`
  abbrev pub write_encoded : Option (Bool × Encoder × List ℕ) → M P (Unit {0})
  write_encoded none s = panicked s
  write_encoded (some (fine, e, bits)) s =
      let s' : P = record s {
        encoder = e;
        h264_bitstream_writer = s.h264_bitstream_writer ++ bits;
      } in
      if fine then done tt s' else failed encoder s'

  -- `convert_frame`, whose result is dropped, and then `encode_frame`.
  unfoldable pub encode : Image → ℕ → M P (Unit {0})
  encode image timestamp s = elim (convert_frame s.encoder image s.yuv_buffer) [
    | none ↦ panicked s
    | some (e, yuv) ↦
        write_encoded (encode_frame e yuv timestamp) (record s { encoder = e; yuv_buffer = yuv })
  ]

  -- `split()` on the bitstream, and `packetize(.., SAMPLE_RATE / self.fps)?`, which panics on 0.
  unfoldable pub packets_of : M P (List Packet)
  packets_of s =
      let payload = s.h264_bitstream_writer in
      let s' : P = record s { h264_bitstream_writer = [] } in
      if s.fps == 0
      then panicked s'
      else (let (out, pk) = packetize s.packetizer payload (sample_rate / s.fps) in
          elim out [
            | none ↦ failed packetizer (record s' { packetizer = pk })
            | some ps ↦ done ps (record s' { packetizer = pk })
          ])

  unfoldable pub process_frame : Image → ℕ → M P (Unit {0})
  unfolding encode packets_of push_all
  process_frame image timestamp = do
    encode image timestamp
    payloads ← packets_of
    measure "server_packetization"
    modify λ s. record s { rtp_queue = push_all payloads s.rtp_queue }
    measure "server_queuing"

  -- `erasure_manager.send_lv_packet(socket, target_addr, pkt)`
  abbrev pub on_manager : Ran (Sender Enc) ℕ → P → Ran P ℕ
  on_manager (done n m) s = done n (record s { erasure_manager = m })
  on_manager (failed e m) s = failed e (record s { erasure_manager = m })
  on_manager (panicked m) s = panicked (record s { erasure_manager = m })

  unfoldable pub send_next_pkt : M P ℕ
  unfolding pop_back
  send_next_pkt s = elim (pop_back s.rtp_queue) [
    | none ↦ done 0 s
    | some (packet, rest) ↦
        on_manager (send_lv_packet code rtp host packet s.erasure_manager)
          (record s { rtp_queue = rest })
  ]

  abbrev pub has_rtp : P → Bool
  has_rtp s = not (is_empty s.rtp_queue)

  unfoldable pub update_bitrate : ℕ → M P (Unit {0})
  update_bitrate bitrate s =
      let (fine, e) = set_bitrate s.encoder bitrate in
      let s' : P = record s { encoder = e } in if fine then done tt s' else failed encoder s'
