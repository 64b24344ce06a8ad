-- ===== src/Server/StreamingServer.antt =====
-- server/src/server/streaming_server.rs: the loop that takes frames, follows the bitrate and sends.
pub mod Drain
pub mod Rounds
pub mod Frames
pub mod Setup
use lightvideo.Prelude.{
  ℕ, zero, suc, ◌+◌, ◌%◌, ◌^◌, List, [], ◌∷◌, ◌++◌, length, Option, none, some, Bool, true, false,
  ◌==◌, if◌then◌else◌, queue_ioctl,
}
use lightvideo.Prelude.Words.{add32}
use lightvideo.Prelude.Runs.{
  Ran, done, failed, panicked, M, and_then, ◌>>=◌, ◌>>◌, return, get, modify, throw,
}
use lightvideo.Codec.{ErasureCode}
use lightvideo.Rtp.{Rtp}
use lightvideo.Statistics.{xy_value, time_elapsed}
use lightvideo.Statistics.Collector.{LvStatisticsMessage, update}
use lightvideo.Server.ErasureManager.{Host}
use lightvideo.Server.Packager.{
  Encoding, LvPackager, process_frame, send_next_pkt, has_rtp, update_bitrate,
}

-- A call whose error is only logged.
abbrev pub attempt : {S A : Type 0} → Ran S A → Ran S (Unit {0})
attempt (done a s) = done tt s
attempt (failed e s) = done tt s
attempt (panicked s) = panicked s

-- `as f32`, and the mean of the occupancy over the cycles.
pub record Means : Type 0 where
  pub of_nat : ℕ → ℕ
  pub mean : ℕ → ℕ → ℕ

-- What a round of the loop meets: the queue's length (`none` when the ioctl fails), `try_recv` on
-- the quit signal, the frame with its time (`none` when the channel is closed), and the bitrate
-- behind the mutex.
pub record Tick (Image : Type 0) : Type 0 where
  pub queued : Option ℕ
  pub quit : Option Bool
  pub frame : Option (Image × ℕ)
  pub bitrate : ℕ

pub record LvStreamingServer (Packager : Type 0) : Type 0 where
  pub packager : Packager
  pub old_bitrate : ℕ
  pub total_queue_occupancy : ℕ
  pub total_cycles : ℕ
  pub messages : List LvStatisticsMessage

abbrev pub is_quit : Option Bool → Bool
is_quit (some true) = true
is_quit (some false) = false
is_quit none = false

module _ (code : ErasureCode) (rtp : Rtp) (host : Host) (video : Encoding rtp.Packet) where
  abbrev P : Type 0
  P = LvPackager rtp.Packet code.Enc video

  -- `while packager.has_rtp() { .. }`, for so many rounds at most; an error is logged.
  unfoldable pub drain : ℕ → M P (Unit {0})
  unfolding send_next_pkt
  drain zero s = done tt s
  drain (suc n) s = elim (has_rtp code rtp host video s) [
    | false ↦ done tt s
    | true ↦ and_then (attempt (send_next_pkt code rtp host video s)) (λ u. drain n)
  ]

  -- Each round takes a packet, so the length of the queue is enough.
  unfoldable pub send_all : M P (Unit {0})
  unfolding drain
  send_all s = drain (length s.rtp_queue) s

  module _ (means : Means) where
    open means use {of_nat, mean}

    abbrev pub S : Type 0
    S = LvStreamingServer P

    abbrev pub on_packager : Ran P (Unit {0}) → S → Ran S (Unit {0})
    on_packager (done u p) s = done u (record s { packager = p })
    on_packager (failed e p) s = failed e (record s { packager = p })
    on_packager (panicked p) s = panicked (record s { packager = p })

    abbrev pub count_queue : Option ℕ → M S (Unit {0})
    count_queue none = throw queue_ioctl
    count_queue (some q) = modify λ s. record s {
      total_queue_occupancy = (s.total_queue_occupancy + q) % 2 ^ 64;
      total_cycles = add32 s.total_cycles 1;
    }

    abbrev pub take_frame : Option (video.Image × ℕ) → M S (Unit {0})
    take_frame none s = done tt s
    take_frame (some f) s =
        on_packager (attempt (process_frame code rtp host video (f.0) (f.1) s.packager)) s

    -- The statistics start again when the bitrate changes.
    unfoldable pub follow_bitrate : ℕ → M S (Unit {0})
    unfolding update_bitrate
    follow_bitrate bitrate s =
        if s.old_bitrate == bitrate
        then done tt s
        else on_packager (attempt (update_bitrate code rtp host video bitrate s.packager))
            (record s {
              old_bitrate = bitrate;
              total_queue_occupancy = 0;
              total_cycles = 0;
              messages =
                  s.messages
                  ++ (update "server_bitrate_queue_occupancy" (
                        xy_value (of_nat s.old_bitrate)
                          (mean s.total_queue_occupancy s.total_cycles))
                      ∷ []);
            })

    -- The packets in the queue, and the report of the time that they took.
    unfoldable pub send_and_report : M S Bool
    unfolding send_all
    send_and_report = do
      (λ s. on_packager (send_all s.packager) s)
      modify λ s. record s {
        messages =
            s.messages
            ++ (update "server_packet_sending" (time_elapsed (video.elapsed (length s.messages)))
                ∷ []);
      }
      return false

    abbrev pub serve : Tick video.Image → M S Bool
    serve t = take_frame t.frame >> (follow_bitrate t.bitrate >> send_and_report)

    -- One round; the result says whether the loop ends.
    unfoldable pub stream_round : Tick video.Image → M S Bool
    unfolding follow_bitrate process_frame send_and_report
    stream_round t = do count_queue t.queued; (if is_quit t.quit then return true else serve t)

    -- The loop over the rounds that have come so far.
    unfoldable pub stream_loop : List (Tick video.Image) → M S (Unit {0})
    unfolding stream_round
    stream_loop [] = return tt
    stream_loop (t ∷ ts) = do ended ← stream_round t; (if ended then return tt else stream_loop ts)
