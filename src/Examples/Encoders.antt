-- ===== src/Examples/Encoders.antt =====
-- The theorems on the encoders at concrete values.
use lightvideo.Prelude.{
  ℕ, ◌+◌, ◌≤◌, ◌<◌, ◌≡◌, ◌⊎◌, refl, List, [], ◌∷◌, length, take, Option, none, some, true, false,
  ltb, if◌then◌else◌, ok, panic, arith, ◌++◌,
}
use lightvideo.Prelude.Runs.{done}
use lightvideo.Statistics.{time_series, time_elapsed}
use lightvideo.Statistics.Collector.{LvStatisticsMessage, register, update}
use lightvideo.Server.Encoder.{pos, as_u32, src_format, ColorPrimitives, Image}
use lightvideo.Server.Encoder.Openh264Enc.{
  Openh264, LvOpenh264Encoder, SEncParamExt, other_complexity, params_for, dst_format,
}
use lightvideo.Server.Encoder.Nvidia.{
  Nvenc, LvNvidiaEncoder, NvEncConfig, other_profile, other_mode, picture_ok, other_error,
}
use lightvideo.Server.Encoder.Openh264Enc
use lightvideo.Server.Encoder.Nvidia
use lightvideo.Server.Encoder.Bitrate.{set_all, last, bitrate-set_bitrate}
use lightvideo.Server.Encoder.Frames.{
  convert_all, convert_all_cases, Writes, encode_frame-Writes, Drops, encode_frame-Drops,
}

-- Conversions leave the planes as they are.
abbrev colors : ColorPrimitives
colors = record { get_buffers_size = λ w h f. some (4, 1, 1); convert_image = λ i s f p. (true, p) }

-- A picture of no bytes cannot be encoded.
abbrev bits_of : List ℕ → Option (List ℕ)
bits_of [] = none
bits_of (x ∷ xs) = some (x ∷ [])

abbrev openh264 : Openh264
openh264 = record {
  default_params = record {
    i_pic_width = pos 0;
    i_pic_height = pos 0;
    i_complexity_mode = other_complexity;
    b_enable_frame_skip = true;
    i_target_bitrate = pos 0;
    b_enable_denoise = false;
    f_max_frame_rate = 0;
    b_enable_adaptive_quant = true;
    i_multiple_thread_idc = 1;
    i_entropy_coding_mode_flag = pos 1;
    ui_intra_period = 0;
    i_min_qp = pos 0;
    i_max_qp = pos 51;
  };
  Encoder = ℕ;
  with_raw_config = λ p. some (as_u32 p.i_target_bitrate);
  encode_at = λ e yuv t. (bits_of yuv, e);
  set_option_bitrate = λ e b. as_u32 b;
  elapsed = λ n. n;
}

abbrev preset : NvEncConfig
preset = record {
  profile = other_profile;
  max_num_ref_frames = 4;
  slice_mode = 3;
  slice_mode_data = 4;
  rate_control_mode = other_mode;
  average_bit_rate = 0;
  idr_period = 30;
  gop_length = 30;
  repeat_sps_pps = 0;
  enable_intra_refresh = 0;
  intra_refresh_period = 0;
  intra_refresh_cnt = 0;
}

abbrev nvenc : Nvenc
nvenc = record {
  Encoder = Unit {0};
  Session = ℕ;
  Buffer = List ℕ;
  Bitstream = List ℕ;
  initialize_with_cuda = some tt;
  get_preset_config = λ e. some preset;
  start_session = λ e p. some 0;
  create_input_buffer = λ s. some [];
  create_output_bitstream = λ s. some [];
  lock_input = λ b. true;
  write = λ b yuv. yuv;
  encode_picture = λ s input output t.
      (if ltb 0 (length input) then picture_ok else other_error, s + 1, take 1 input);
  lock_output = λ b. some b;
  reconfigure_encoder = λ s p. (true, s);
  f32_as_u32 = λ n. n;
  elapsed = λ n. n;
}

abbrev software : LvOpenh264Encoder openh264
unfolding params_for
software = record {
  encoder = 900000;
  width = 2;
  height = 2;
  params = params_for openh264 2 2 900000 60;
  src_fmt = src_format;
  dst_fmt = Openh264Enc.dst_format openh264;
  src_strides = 8;
  out_sizes = (4, 1, 1);
}

abbrev hardware : LvNvidiaEncoder nvenc
hardware = Nvidia.built nvenc 0 [] [] (4, 1, 1) (Nvidia.params_for nvenc 2 2 900000 60 preset)

abbrev software_messages : List LvStatisticsMessage
software_messages =
    register "server_encode_frame" time_series
    ∷ register "server_bitstream_buffer_write" time_series
    ∷ []

abbrev hardware_messages : List LvStatisticsMessage
hardware_messages =
    register "server_allocate_frames" time_series ∷ software_messages
    ++ (update "server_allocate_frames" (time_elapsed 0) ∷ [])

software-new : Openh264Enc.new openh264 colors 2 2 900000 60 [] ≡ done software software_messages
unfolding Openh264Enc.new params_for
software-new = refl

hardware-new : Nvidia.new nvenc colors 2 2 900000 60 [] ≡ done hardware hardware_messages
unfolding Nvidia.new
hardware-new = refl

bitrate-set_bitrate_example :
    Openh264Enc.bitrate openh264 (set_all openh264 colors (450000 ∷ 3000000000 ∷ []) software)
    ≡ last 900000 (450000 ∷ 3000000000 ∷ [])
bitrate-set_bitrate_example =
    bitrate-set_bitrate openh264 colors 2 2 900000 60 (450000 ∷ 3000000000 ∷ []) []
      software_messages software (omega arith, (omega arith, (omega arith, tt))) software-new

-- The encoder that `new` makes cannot answer `bitrate`.
dangling : Nvidia.bitrate nvenc hardware ≡ none
dangling = refl

abbrev image : ℕ → Image
image x = record { width = 2; height = 2; raw = x ∷ x ∷ x ∷ x ∷ [] }

abbrev buffer : List ℕ
buffer = 1 ∷ 2 ∷ 3 ∷ 4 ∷ 5 ∷ 6 ∷ []

convert_all_cases_example :
    ((4 + 1 ≤ length buffer)
      × (out : List ℕ) × (convert_all colors
            (Openh264Enc.dst_format openh264)
            8
            4
            1
            (image 7 ∷ image 8 ∷ [])
            buffer
          ≡ ok out)
      × (length out ≡ length buffer))
    ⊎ ((length buffer < 4 + 1)
        × (convert_all colors
              (Openh264Enc.dst_format openh264)
              8
              4
              1
              (image 7 ∷ image 8 ∷ [])
              buffer
            ≡ panic))
convert_all_cases_example =
    convert_all_cases colors (Openh264Enc.dst_format openh264) 8 4 1 (image 7) (image 8 ∷ []) buffer
      (λ i s f p. (refl, refl, refl))

abbrev session : Openh264Enc.Session openh264
session = record { enc = software; h264_buffer = 9 ∷ []; messages = [] }

encode_frame-Writes_example :
    Writes openh264
      (1 ∷ 2 ∷ [])
      16
      session
      (Openh264Enc.encode_frame openh264 (1 ∷ 2 ∷ []) 16 session)
encode_frame-Writes_example = encode_frame-Writes openh264 (1 ∷ 2 ∷ []) 16 session

abbrev card : Nvidia.Session nvenc
card = record { enc = hardware; h264_buffer = 9 ∷ []; messages = [] }

encode_frame-Drops_example : Drops nvenc [] 16 card (Nvidia.encode_frame nvenc [] 16 card)
encode_frame-Drops_example = encode_frame-Drops nvenc [] 16 card
