-- ===== src/Examples/Models.antt =====
-- Values for the parameters that stand for code outside the repository.
use lightvideo.Prelude.{
  ℕ, ◌+◌, ◌*◌, ◌/◌, ◌<◌, ◌≡◌, refl, List, [], ◌∷◌, ◌++◌, length, take, drop, none, some, true, ltb,
  arith,
}
use lightvideo.Prelude.Bytes.{le_bytes, from_le_bytes, from_le_bytes-le_bytes}
use lightvideo.Net.Input.{
  KeyTable, LvKeyboardEvent, LvMouseClickEvent, LvMouseMoveEvent, LvMouseWheelEvent,
}
use lightvideo.Net.FeedbackPacket.{LvAck, LvFeedbackPacket}
use lightvideo.Net.Pod.{Pod, Bytemuck, KeyFits, ClickFits, WheelFits, MoveFits}
use lightvideo.Net.Wire.{Bincode, BincodeLaws}
use lightvideo.Rtp.{Rtp, RtpLaws}
use lightvideo.Server.X11.{Xlib, FakeInput}
use lightvideo.Server.ErasureManager.{Host}
use lightvideo.Server.FeedbackServer.{Floats}
use lightvideo.Server.FeedbackServer.Bitrate.{FloatLaws}

abbrev pub keys : KeyTable
keys = record { KeyCode = ℕ; to_u8 = λ k. k; from_u8 = λ k. k; to_scancode = λ k. some k }

abbrev pub xlib : Xlib
xlib = record {
  key_press = 2;
  key_release = 3;
  button_press = 4;
  button_release = 5;
  motion_notify = 6;
  current_time = 0;
  as_i16 = λ x. x;
}

abbrev pub idle_input : FakeInput
idle_input = record {
  kind = 0;
  detail = 0;
  time = 0;
  root = 1;
  root_x = 0;
  root_y = 0;
  deviceid = 0;
}

key_pod : Pod LvKeyboardEvent KeyFits 2
key_pod = record {
  bytes_of = λ e. e.key_code ∷ e.state ∷ [];
  from_bytes = λ b. record {
    key_code = from_le_bytes (take 1 b);
    state = from_le_bytes (take 1 (drop 1 b));
  };
  length-bytes_of = λ e. refl;
  from_bytes-bytes_of = λ e f i. record { key_code = one e.key_code i; state = one e.state i };
}
  where
    one : (x : ℕ) → x + 256 * 0 ≡ x
    one x = omega arith

click_pod : Pod LvMouseClickEvent ClickFits 8
click_pod = record {
  bytes_of = λ e. le_bytes 4 e.button ++ le_bytes 4 e.state;
  from_bytes =
      λ b. record { button = from_le_bytes (take 4 b); state = from_le_bytes (take 4 (drop 4 b)) };
  length-bytes_of = λ e. refl;
  from_bytes-bytes_of = λ e f i. record {
    button = from_le_bytes-le_bytes 4 e.button f.0 i;
    state = from_le_bytes-le_bytes 4 e.state f.1 i;
  };
}

move_pod : Pod LvMouseMoveEvent MoveFits 16
move_pod = record {
  bytes_of = λ e. le_bytes 8 e.x ++ le_bytes 8 e.y;
  from_bytes = λ b. record { x = from_le_bytes (take 8 b); y = from_le_bytes (take 8 (drop 8 b)) };
  length-bytes_of = λ e. refl;
  from_bytes-bytes_of = λ e f i. record {
    x = from_le_bytes-le_bytes 8 e.x f.0 i;
    y = from_le_bytes-le_bytes 8 e.y f.1 i;
  };
}

wheel_pod : Pod LvMouseWheelEvent WheelFits 0
wheel_pod = record {
  bytes_of = λ e. [];
  from_bytes = λ b. record {};
  length-bytes_of = λ e. refl;
  from_bytes-bytes_of = λ e f. refl;
}

abbrev pub pods : Bytemuck
unfolding key_pod click_pod wheel_pod move_pod
pods = record { key = key_pod; click = click_pod; wheel = wheel_pod; move = move_pod }

abbrev pub floats : Floats
floats = record {
  of_nat = λ n. n;
  div = λ a b. a * 10000 / b;
  mul = λ a b. a * b / 10000;
  gt = λ a b. ltb b a;
  to_u32 = λ n. n;
  c0_001 = 10;
  c0_15 = 1500;
  c0_2 = 2000;
  c0_6 = 6000;
  c1_8 = 18000;
}

pub float_laws : FloatLaws floats
float_laws = record {
  scale_down = λ b h k. omega arith;
  scale_floor = λ b h k. omega arith;
  literal_order = λ x h. ground arith;
}

abbrev pub FeedbackFits : LvFeedbackPacket → Type 0
FeedbackFits p =
    (p.time_quantum < 256 * 256)
    × (p.total_blocks < 256 * 256)
    × (p.out_of_order_blocks < 256 * 256)
    × (p.total_packets < 256 * 256)
    × (p.lost_packets < 256 * 256)
    × (p.ecc_decoder_failures < 256 * 256)
    × (p.average_buffer_occupancy < 256 * 256 * 256 * 256)

abbrev pub AckFits : LvAck → Type 0
AckFits a = (a.rtp_seqno < 65536) × (a.send_ts < 340282366920938463463374607431768211456)

abbrev pub bincode : Bincode
bincode = record {
  serialize_ack = λ a. le_bytes 2 a.rtp_seqno ++ le_bytes 16 a.send_ts;
  deserialize_ack = λ b. some (record {
    rtp_seqno = from_le_bytes (take 2 b);
    send_ts = from_le_bytes (take 16 (drop 2 b));
  });
  serialize_feedback = λ p.
      le_bytes 2 p.time_quantum
      ++ (le_bytes 2 p.total_blocks
          ++ (le_bytes 2 p.out_of_order_blocks
              ++ (le_bytes 2 p.total_packets
                  ++ (le_bytes 2 p.lost_packets
                      ++ (le_bytes 2 p.ecc_decoder_failures
                          ++ le_bytes 4 p.average_buffer_occupancy)))));
  deserialize_feedback = λ b. some (record {
    time_quantum = from_le_bytes (take 2 b);
    total_blocks = from_le_bytes (take 2 (drop 2 b));
    out_of_order_blocks = from_le_bytes (take 2 (drop 4 b));
    total_packets = from_le_bytes (take 2 (drop 6 b));
    lost_packets = from_le_bytes (take 2 (drop 8 b));
    ecc_decoder_failures = from_le_bytes (take 2 (drop 10 b));
    average_buffer_occupancy = from_le_bytes (take 4 (drop 12 b));
  });
}

pub bincode_laws : BincodeLaws bincode FeedbackFits AckFits
bincode_laws = record {
  length-serialize_ack = λ a. refl;
  length-serialize_feedback = λ p. refl;
  deserialize_ack-serialize_ack = λ a more f i. some (record {
    rtp_seqno = from_le_bytes-le_bytes 2 a.rtp_seqno f.0 i;
    send_ts = from_le_bytes-le_bytes 16 a.send_ts f.1 i;
  });
  deserialize_feedback-serialize_feedback = λ p f i. some (record {
    time_quantum = from_le_bytes-le_bytes 2 p.time_quantum f.0 i;
    total_blocks = from_le_bytes-le_bytes 2 p.total_blocks f.1 i;
    out_of_order_blocks = from_le_bytes-le_bytes 2 p.out_of_order_blocks f.2 i;
    total_packets = from_le_bytes-le_bytes 2 p.total_packets f.3 i;
    lost_packets = from_le_bytes-le_bytes 2 p.lost_packets f.4 i;
    ecc_decoder_failures = from_le_bytes-le_bytes 2 p.ecc_decoder_failures f.5 i;
    average_buffer_occupancy = from_le_bytes-le_bytes 4 p.average_buffer_occupancy f.6 i;
  });
}

abbrev pub first_or_zero : List ℕ → ℕ
first_or_zero [] = 0
first_or_zero (x ∷ xs) = x

-- A packet is its bytes.
abbrev pub rtp : Rtp
rtp = record {
  Packet = List ℕ;
  marshal_size = λ p. length p;
  marshal_to = λ p s. (true, p);
  unmarshal = λ b. some b;
  sequence_number = first_or_zero;
  payload = λ p. p;
  default_packet = [];
}

unfoldable pub rtp_laws : RtpLaws rtp
rtp_laws = record {
  wire = λ p. p;
  length-wire = λ p. refl;
  marshal_to_wire = λ p s h. refl;
  unmarshal-wire = λ p. refl;
}

abbrev pub host : Host
host = record { send_to = λ l d. some (length d); now = λ n. n }

abbrev pub broken_host : Host
broken_host = record { send_to = λ l d. none; now = λ n. n }
