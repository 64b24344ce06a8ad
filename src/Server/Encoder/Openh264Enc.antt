-- ===== src/Server/Encoder/Openh264Enc.antt =====
-- server/src/encoder/openh264_enc.rs: the encoder in software.
use lightvideo.Prelude.{
  ℕ, ◌+◌, ◌*◌, List, [], ◌∷◌, ◌++◌, Option, none, some, Bool, true, false, Outcome, encoder, length,
  color_conversion,
}
use lightvideo.Server.Encoder.{
  or_fail, tell, ℤ, pos, as_c_int, as_u32, ImageFormat, src_format, i420, bt601, ColorPrimitives,
  Image, convert_planes,
}
use lightvideo.Prelude.Runs.{done, failed, M, ◌>>=◌, ◌>>◌, return}
use lightvideo.Statistics.{time_elapsed, time_series}
use lightvideo.Statistics.Collector.{LvStatisticsMessage, register, update}

pub data EComplexityMode : Type 0 where
  low_complexity other_complexity : EComplexityMode

-- The fields of `SEncParamExt` that `new` sets.
pub record SEncParamExt : Type 0 where
  pub i_pic_width : ℤ
  pub i_pic_height : ℤ
  pub i_complexity_mode : EComplexityMode
  pub b_enable_frame_skip : Bool
  pub i_target_bitrate : ℤ
  pub b_enable_denoise : Bool
  pub f_max_frame_rate : ℕ
  pub b_enable_adaptive_quant : Bool
  pub i_multiple_thread_idc : ℕ
  pub i_entropy_coding_mode_flag : ℤ
  pub ui_intra_period : ℕ
  pub i_min_qp : ℤ
  pub i_max_qp : ℤ

-- The crate `openh264`, which is not part of the repository: an encoder for some parameters, the
-- encoded bytes of a picture, and the option for the bitrate. `elapsed` is the n-th duration measured.
pub record Openh264 : Type 1 where
  pub default_params : SEncParamExt
  pub Encoder : Type 0
  pub with_raw_config : SEncParamExt → Option Encoder
  pub encode_at : Encoder → List ℕ → ℕ → Option (List ℕ) × Encoder
  pub set_option_bitrate : Encoder → ℤ → Encoder
  pub elapsed : ℕ → ℕ

-- The parameters for a width, a height, a bitrate and a frame rate.
unfoldable pub params_for : Openh264 → ℕ → ℕ → ℕ → ℕ → SEncParamExt
params_for lib width height bitrate framerate = record (lib.default_params) {
  i_pic_width = as_c_int width;
  i_pic_height = as_c_int height;
  i_complexity_mode = low_complexity;
  b_enable_frame_skip = false;
  i_target_bitrate = as_c_int bitrate;
  b_enable_denoise = true;
  f_max_frame_rate = framerate;
  b_enable_adaptive_quant = false;
  i_multiple_thread_idc = 8;
  i_entropy_coding_mode_flag = pos 0;
  ui_intra_period = 120;
  i_min_qp = pos 35;
}

module _ (lib : Openh264) where
  open lib use {Encoder, with_raw_config, encode_at, set_option_bitrate, elapsed}

  pub record LvOpenh264Encoder : Type 0 where
    pub encoder : Encoder
    pub width : ℕ
    pub height : ℕ
    pub params : SEncParamExt
    pub src_fmt : ImageFormat
    pub dst_fmt : ImageFormat
    pub src_strides : ℕ
    pub out_sizes : ℕ × ℕ × ℕ

  -- The encoder, with the bytes written to the bitstream and the messages for the statistics.
  pub record Session : Type 0 where
    pub enc : LvOpenh264Encoder
    pub h264_buffer : List ℕ
    pub messages : List LvStatisticsMessage

  abbrev pub dst_format : ImageFormat
  dst_format = record { pixel_format = i420; color_space = bt601; num_planes = 3 }

  abbrev pub built : Encoder → ℕ → ℕ → SEncParamExt → ℕ × ℕ × ℕ → LvOpenh264Encoder
  built e width height params sizes = record {
    encoder = e;
    width = width;
    height = height;
    params = params;
    src_fmt = src_format;
    dst_fmt = dst_format;
    src_strides = 4 * width;
    out_sizes = sizes;
  }

  -- `new`, with the messages that it sends to the statistics.
  unfoldable pub new :
      ColorPrimitives → ℕ → ℕ → ℕ → ℕ → M (List LvStatisticsMessage) LvOpenh264Encoder
  unfolding params_for
  new colors width height bitrate framerate = do
    sizes ← or_fail (colors.get_buffers_size width height dst_format) color_conversion
    tell (
        register "server_encode_frame" time_series
        ∷ register "server_bitstream_buffer_write" time_series
        ∷ [])
    e ← or_fail (with_raw_config (params_for lib width height bitrate framerate)) encoder
    return (built e width height (params_for lib width height bitrate framerate) sizes)

  abbrev pub convert_frame :
      ColorPrimitives → LvOpenh264Encoder → Image → List ℕ → Outcome (Bool × List ℕ)
  convert_frame colors e = convert_planes colors e.dst_fmt e.src_strides e.out_sizes.0 e.out_sizes.1

  -- What `encode_at` gave: an error, or the bytes to write, with two measurements.
  abbrev pub write_picture : Option (List ℕ) → M Session (Unit {0})
  write_picture none s = failed encoder s
  write_picture (some bits) s = done tt (record s {
    h264_buffer = s.h264_buffer ++ bits;
    messages =
        s.messages
        ++ (update "server_encode_frame" (time_elapsed (elapsed (length s.messages)))
            ∷ update "server_bitstream_buffer_write"
                (time_elapsed (elapsed (length s.messages + 1)))
            ∷ []);
  })

  unfoldable pub encode_frame : List ℕ → ℕ → M Session (Unit {0})
  encode_frame yuv timestamp s =
      let (encoded, e) = encode_at s.enc.encoder yuv timestamp in
      write_picture encoded (record s { enc = record (s.enc) { encoder = e } })

  abbrev pub bitrate : LvOpenh264Encoder → ℕ
  bitrate e = as_u32 e.params.i_target_bitrate

  unfoldable pub set_bitrate : ℕ → LvOpenh264Encoder → LvOpenh264Encoder
  set_bitrate b e = record e {
    params = record (e.params) { i_target_bitrate = as_c_int b };
    encoder = set_option_bitrate e.encoder (as_c_int b);
  }
