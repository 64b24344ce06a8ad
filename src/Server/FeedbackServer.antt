-- ===== src/Server/FeedbackServer.antt =====
-- server/src/server/feedback_server.rs: the thread that reads the client's messages and sets the
-- bitrate. An f32 is its bit pattern; the integer locals wrap as in a release build.
pub mod Bitrate
pub mod Messages
use Prim.Native.String.{String}
use lightvideo.Prelude.{
  ℕ, zero, suc, ◌+◌, ◌-◌, ◌%◌, ◌^◌, max, List, [], ◌∷◌, ◌++◌, length, replicate, Option, none, some,
  Bool, true, false, not, ◌&&◌, ◌||◌, ◌==◌, ltb, leb, if◌then◌else◌, Outcome, ok, err, panic, ◌>>=◌,
  slice, index, unwrap, fill_front,
}
use lightvideo.Prelude.Words.{add32, add16}
use lightvideo.Net.FeedbackPacket.{
  LvAck, LvFeedbackPacket, ack_type, feedback_type, ack_no_bytes, feedback_no_bytes,
}
use lightvideo.Net.Wire.{Bincode}
use lightvideo.Statistics.{LvDataPoint, xy_value, LvDataType, xy_data}
use lightvideo.Statistics.Collector.{LvStatisticsMessage, register, update}

-- The operations on f32 that the file uses, and its literals.
pub record Floats : Type 0 where
  pub of_nat : ℕ → ℕ
  pub div : ℕ → ℕ → ℕ
  pub mul : ℕ → ℕ → ℕ
  pub gt : ℕ → ℕ → Bool
  pub to_u32 : ℕ → ℕ
  pub c0_001 : ℕ
  pub c0_15 : ℕ
  pub c0_2 : ℕ
  pub c0_6 : ℕ
  pub c1_8 : ℕ

-- The locals of `handle_feedback` with the bitrate behind the mutex.
pub record Feedback : Type 0 where
  pub msg_buffer : List ℕ
  pub bitrate : ℕ
  pub oo_blocks : ℕ
  pub decoder_failures : ℕ
  pub ticks_survived : ℕ
  pub ticks_to_survive : ℕ
  pub bitrate_mtx : ℕ
  pub messages : List LvStatisticsMessage

abbrev pub message_size : ℕ
message_size = max feedback_no_bytes ack_no_bytes + 1

-- The locals before the loop; `begin` has put 80000 behind the mutex.
abbrev pub start : Feedback
start = record {
  msg_buffer = replicate message_size 0;
  bitrate = 900000;
  oo_blocks = 0;
  decoder_failures = 0;
  ticks_survived = 0;
  ticks_to_survive = 10;
  bitrate_mtx = 80000;
  messages =
      register "server_bitrate_oo_blocks" xy_data
      ∷ register "server_rtt_time" xy_data
      ∷ register "server_rtt_bitrate" xy_data
      ∷ register "server_bitrate_ecc_decoder_failures" xy_data
      ∷ [];
}

module _ (f32 : Floats) where
  open f32 use {of_nat, div, mul, gt, to_u32, c0_001, c0_15, c0_2, c0_6, c1_8}

  abbrev pub congestion : LvFeedbackPacket → ℕ
  congestion p = div (of_nat p.out_of_order_blocks) (of_nat p.total_blocks)

  -- The first branch of the block that computes the bitrate, and the two others.
  unfoldable pub slow_down : Feedback → Feedback
  slow_down s =
      if leb 20000 s.bitrate
      then record s {
        ticks_survived = 0;
        ticks_to_survive = to_u32 (mul (of_nat s.ticks_to_survive) c1_8);
        bitrate_mtx = to_u32 (mul (of_nat s.bitrate) c0_6);
      }
      else record s { ticks_survived = 0; bitrate_mtx = 20000 }

  unfoldable pub stay : Feedback → Feedback
  stay s = record s { ticks_survived = add32 s.ticks_survived 1; bitrate_mtx = s.bitrate }

  unfoldable pub speed_up : Feedback → Feedback
  speed_up s =
      if add32 s.ticks_survived 1 == s.ticks_to_survive
      then record s { ticks_survived = 0; bitrate_mtx = add32 s.bitrate 100000 }
      else record s { ticks_survived = add32 s.ticks_survived 1; bitrate_mtx = s.bitrate }

  unfoldable pub choose_bitrate : LvFeedbackPacket → Feedback → Feedback
  unfolding slow_down stay speed_up
  choose_bitrate p s =
      if gt (congestion p) c0_001 || ltb 0 p.ecc_decoder_failures
      then slow_down s
      else if gt c0_2 (congestion p) && gt (congestion p) c0_15
      then stay s
      else speed_up s

  -- Counting, the report when the bitrate changes, and taking it over.
  unfoldable pub settle : LvFeedbackPacket → Feedback → Feedback
  settle p s =
      let oo = add16 s.oo_blocks p.out_of_order_blocks in
      let failures = add16 s.decoder_failures p.ecc_decoder_failures in
      if s.bitrate == s.bitrate_mtx
      then record s { oo_blocks = oo; decoder_failures = failures; bitrate = s.bitrate_mtx }
      else record s {
        oo_blocks = 0;
        decoder_failures = 0;
        bitrate = s.bitrate_mtx;
        messages =
            s.messages
            ++ (update "server_bitrate_oo_blocks" (xy_value (of_nat s.bitrate) (of_nat oo))
                ∷ update "server_bitrate_ecc_decoder_failures"
                    (xy_value (of_nat s.bitrate) (of_nat failures))
                ∷ []);
      }

  unfoldable pub apply_feedback : LvFeedbackPacket → Feedback → Feedback
  unfolding choose_bitrate settle
  apply_feedback p s = settle p (choose_bitrate p s)

  -- The round-trip time is a u128; a send time in the future wraps.
  unfoldable pub apply_ack : ℕ → LvAck → Feedback → Feedback
  apply_ack now a s =
      let rtt = (now + 2 ^ 128 - a.send_ts) % 2 ^ 128 in
      record s {
        messages =
            s.messages
            ++ (update "server_rtt_time" (xy_value (of_nat a.rtp_seqno) (of_nat rtt))
                ∷ update "server_rtt_bitrate" (xy_value (of_nat s.bitrate) (of_nat rtt))
                ∷ []);
      }

  module _ (bincode : Bincode) where
    open bincode use {deserialize_ack, deserialize_feedback}

    unfoldable pub handle_ack : ℕ → Feedback → Outcome Feedback
    unfolding apply_ack
    handle_ack now s = do
      body ← slice s.msg_buffer 1 (length s.msg_buffer)
      a ← unwrap (deserialize_ack body)
      ok (apply_ack now a s)

    unfoldable pub handle_packet : Feedback → Outcome Feedback
    unfolding apply_feedback
    handle_packet s = do
      body ← slice s.msg_buffer 1 (feedback_no_bytes + 1)
      elim (deserialize_feedback body) [ none ↦ ok s | some p ↦ ok (apply_feedback p s) ]

    -- The `match feedback_type`.
    unfoldable pub handle_message : ℕ → Feedback → Outcome Feedback
    unfolding handle_ack handle_packet
    handle_message now s = do
      kind ← index s.msg_buffer 0
      (if kind == ack_type
          then handle_ack now s
          else if kind == feedback_type
          then handle_packet s
          else ok s)

    -- One round of the loop: what `read` puts into the buffer (nothing at the end of the stream),
    -- or an error, and the time.
    unfoldable pub feedback_round : Option (List ℕ) → ℕ → Feedback → Outcome Feedback
    unfolding handle_message
    feedback_round none now s = ok s
    feedback_round (some got) now s =
        handle_message now (record s { msg_buffer = fill_front s.msg_buffer got })

    unfoldable pub feedback_loop : List (Option (List ℕ) × ℕ) → Feedback → Outcome Feedback
    unfolding feedback_round
    feedback_loop [] s = ok s
    feedback_loop ((got, now) ∷ more) s = feedback_round got now s >>= feedback_loop more
