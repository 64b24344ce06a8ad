-- ===== src/Server/Encoder/Nvidia.antt =====
-- server/src/encoder/nvidia.rs: the encoder of the graphics card. `enc_params` points
-- to a configuration that is a local of `new`: the pointer dangles when `new` has returned. What is
-- logged is not modelled.
use lightvideo.Prelude.{
  ℕ, ◌+◌, ◌*◌, ◌%◌, ◌^◌, List, [], ◌∷◌, ◌++◌, Option, none, some, Bool, Outcome, length,
  if◌then◌else◌, encoder, color_conversion,
}
use lightvideo.Server.Encoder.{
  or_fail, tell, ImageFormat, src_format, nv12, bt601, ColorPrimitives, Image, convert_planes,
}
use lightvideo.Prelude.Runs.{done, panicked, M, ◌>>=◌, ◌>>◌, return}
use lightvideo.Statistics.{time_elapsed, time_series}
use lightvideo.Statistics.Collector.{LvStatisticsMessage, register, update}

pub data Profile : Type 0 where
  baseline other_profile : Profile

pub data RateControlMode : Type 0 where
  cbr other_mode : RateControlMode

-- The fields of the preset's configuration that `new` sets.
pub record NvEncConfig : Type 0 where
  pub profile : Profile
  pub max_num_ref_frames : ℕ
  pub slice_mode : ℕ
  pub slice_mode_data : ℕ
  pub rate_control_mode : RateControlMode
  pub average_bit_rate : ℕ
  pub idr_period : ℕ
  pub gop_length : ℕ
  pub repeat_sps_pps : ℕ
  pub enable_intra_refresh : ℕ
  pub intra_refresh_period : ℕ
  pub intra_refresh_cnt : ℕ

pub record InitializeParams : Type 0 where
  pub width : ℕ
  pub height : ℕ
  pub framerate : ℕ
  -- What the pointer points to, `none` when it dangles.
  pub encode_config : Option NvEncConfig

-- What `encode_picture` comes to.
pub data Picture : Type 0 where
  picture_ok need_more_input other_error : Picture

-- The crates `cudarc` and `nvidia_video_codec_sdk`, which are not part of the repository. An option is
-- `none` and a Boolean false for an `Err`. `framerate as u32` is that of an `f32`'s bit pattern;
-- `lock` tells whether a buffer can be locked, and `bitstream` what the output then holds.
pub record Nvenc : Type 1 where
  pub Encoder : Type 0
  pub Session : Type 0
  pub Buffer : Type 0
  pub Bitstream : Type 0
  pub initialize_with_cuda : Option Encoder
  pub get_preset_config : Encoder → Option NvEncConfig
  pub start_session : Encoder → InitializeParams → Option Session
  pub create_input_buffer : Session → Option Buffer
  pub create_output_bitstream : Session → Option Bitstream
  pub lock_input : Buffer → Bool
  pub write : Buffer → List ℕ → Buffer
  pub encode_picture : Session → Buffer → Bitstream → ℕ → Picture × Session × Bitstream
  pub lock_output : Bitstream → Option (List ℕ)
  pub reconfigure_encoder : Session → InitializeParams → Bool × Session
  pub f32_as_u32 : ℕ → ℕ
  pub elapsed : ℕ → ℕ

-- The changes that `new` makes to the preset.
abbrev pub configured : ℕ → NvEncConfig → NvEncConfig
configured bitrate c = record c {
  profile = baseline;
  max_num_ref_frames = 1;
  slice_mode = 0;
  slice_mode_data = 0;
  rate_control_mode = cbr;
  average_bit_rate = bitrate;
  idr_period = 300;
  gop_length = 300;
  repeat_sps_pps = 1;
  enable_intra_refresh = 1;
  intra_refresh_period = 300;
  intra_refresh_cnt = 30;
}

module _ (lib : Nvenc) where
  open lib use {
    Buffer, Bitstream, initialize_with_cuda, get_preset_config, start_session, create_input_buffer,
    create_output_bitstream, lock_input, write, encode_picture, lock_output, reconfigure_encoder,
    f32_as_u32, elapsed,
  }

  pub record LvNvidiaEncoder : Type 0 where
    pub enc_session : lib.Session
    pub input_buffer : Buffer
    pub output_bitstream : Bitstream
    pub width : ℕ
    pub height : ℕ
    pub frame_no : ℕ
    pub enc_params : InitializeParams
    pub src_fmt : ImageFormat
    pub dst_fmt : ImageFormat
    pub src_strides : ℕ
    pub out_sizes : ℕ × ℕ × ℕ

  -- The encoder, with the bytes written to the bitstream and the messages for the statistics.
  pub record Session : Type 0 where
    pub enc : LvNvidiaEncoder
    pub h264_buffer : List ℕ
    pub messages : List LvStatisticsMessage

  abbrev pub dst_format : ImageFormat
  dst_format = record { pixel_format = nv12; color_space = bt601; num_planes = 1 }

  abbrev pub params_for : ℕ → ℕ → ℕ → ℕ → NvEncConfig → InitializeParams
  params_for width height bitrate framerate preset = record {
    width = width;
    height = height;
    framerate = f32_as_u32 framerate;
    encode_config = some (configured bitrate preset);
  }

  abbrev pub built :
      lib.Session → Buffer → Bitstream → ℕ × ℕ × ℕ → InitializeParams → LvNvidiaEncoder
  built session input output sizes params = record {
    enc_session = session;
    input_buffer = input;
    output_bitstream = output;
    width = params.width;
    height = params.height;
    frame_no = 0;
    enc_params = record params { encode_config = none };
    src_fmt = src_format;
    dst_fmt = dst_format;
    src_strides = 4 * params.width;
    out_sizes = sizes;
  }

  -- `new`, with the messages that it sends to the statistics.
  unfoldable pub new :
      ColorPrimitives → ℕ → ℕ → ℕ → ℕ → M (List LvStatisticsMessage) LvNvidiaEncoder
  new colors width height bitrate framerate = do
    enc ← or_fail initialize_with_cuda encoder
    tell (
        register "server_allocate_frames" time_series
        ∷ register "server_encode_frame" time_series
        ∷ register "server_bitstream_buffer_write" time_series
        ∷ [])
    preset ← or_fail (get_preset_config enc) encoder
    sizes ← or_fail (colors.get_buffers_size width height dst_format) color_conversion
    session ← or_fail (start_session enc (params_for width height bitrate framerate preset)) encoder
    input ← or_fail (create_input_buffer session) encoder
    output ← or_fail (create_output_bitstream session) encoder
    tell (update "server_allocate_frames" (time_elapsed (elapsed 0)) ∷ [])
    return (built session input output sizes (params_for width height bitrate framerate preset))

  abbrev pub convert_frame :
      ColorPrimitives → LvNvidiaEncoder → Image → List ℕ → Outcome (Bool × List ℕ)
  convert_frame colors e = convert_planes colors e.dst_fmt e.src_strides e.out_sizes.0 e.out_sizes.1

  abbrev pub measure_encoding : Session → Session
  measure_encoding s = record s {
    messages =
        s.messages
        ++ (update "server_encode_frame" (time_elapsed (elapsed (length s.messages))) ∷ []);
  }

  -- The bytes of the output, if it can be locked, go to the bitstream.
  abbrev pub write_picture : Option (List ℕ) → M Session (Unit {0})
  write_picture none s = panicked s
  write_picture (some bits) s = done tt (record s {
    enc = record (s.enc) { frame_no = (s.enc.frame_no + 1) % 2 ^ 64 };
    h264_buffer = s.h264_buffer ++ bits;
    messages =
        s.messages
        ++ (update "server_bitstream_buffer_write" (time_elapsed (elapsed (length s.messages)))
            ∷ []);
  })

  -- The `match` on the result of `encode_picture`.
  abbrev pub take_picture : Picture → M Session (Unit {0})
  take_picture picture_ok s =
      write_picture (lock_output s.enc.output_bitstream) (measure_encoding s)
  take_picture need_more_input s = done tt s
  take_picture other_error s = done tt s

  unfoldable pub encode_frame : List ℕ → ℕ → M Session (Unit {0})
  encode_frame yuv timestamp s =
      if lock_input s.enc.input_buffer
      then (let input = write s.enc.input_buffer yuv in
          let (picture, session, output) =
            encode_picture s.enc.enc_session input s.enc.output_bitstream timestamp in
          take_picture picture (record s {
            enc = record (s.enc) {
              input_buffer = input;
              enc_session = session;
              output_bitstream = output;
            };
          }))
      else panicked s

  -- `none` is a read through a dangling pointer, of which nothing can be said.
  abbrev pub bitrate : LvNvidiaEncoder → Option ℕ
  bitrate e = elim e.enc_params.encode_config [ none ↦ none | some c ↦ some c.average_bit_rate ]

  abbrev with_config : LvNvidiaEncoder → InitializeParams → LvNvidiaEncoder
  with_config e params = record e {
    enc_params = params;
    enc_session = (reconfigure_encoder e.enc_session params).1;
  }

  -- An error of the reconfiguration is only logged; `none` is a write through a dangling pointer.
  unfoldable pub set_bitrate : ℕ → LvNvidiaEncoder → Option LvNvidiaEncoder
  set_bitrate b e = elim e.enc_params.encode_config [
    | none ↦ none
    | some c ↦ some (
        with_config e
          (record (e.enc_params) { encode_config = some (record c { average_bit_rate = b }) }))
  ]
