-- ===== src/Server/Benchmark.antt =====
-- server/src/benchmark/mod.rs: the loop of `bench` over captured frames. The averages that it prints
-- are not modelled.
pub mod Queue
use lightvideo.Prelude.{
  ℕ, zero, suc, ◌+◌, ◌≤◌, ◌≡◌, refl, List, [], ◌∷◌, ◌++◌, length, Option, none, some, Bool, true,
  false, arith,
}
use lightvideo.Prelude.Runs.{Ran, done, failed, panicked, M, and_then, ◌>>=◌, ◌>>◌, return}
use lightvideo.Codec.{ErasureCode}
use lightvideo.Rtp.{Rtp}
use lightvideo.Server.ErasureManager.{Host, Sender, send_lv_packet}
use lightvideo.Server.Packager.{
  Encoding, LvPackager, new_packager, process_frame, send_next_pkt, has_rtp, pop_back, on_manager,
}
use lightvideo.Server.Packager.Queue.{pop_back_cases}

abbrev pub bitrate : ℕ
bitrate = 250000

abbrev pub framerate : ℕ
framerate = 60

module _ (code : ErasureCode) (rtp : Rtp) (host : Host) (video : Encoding rtp.Packet) where
  abbrev P : Type 0
  P = LvPackager rtp.Packet code.Enc video

  -- `while packager.has_rtp() { packager.send_next_pkt(..)?; }`, for so many rounds at most.
  unfoldable pub send_queue : ℕ → M P (Unit {0})
  unfolding send_next_pkt
  send_queue zero s = done tt s
  send_queue (suc n) s = elim (has_rtp code rtp host video s) [
    | false ↦ done tt s
    | true ↦ and_then (send_next_pkt code rtp host video s) (λ k. send_queue n)
  ]

  -- Each round takes a packet, so the length of the queue is enough.
  abbrev pub send_frame : M P (Unit {0})
  send_frame s = send_queue (length s.rtp_queue) s

  -- One iteration: the captured frame, if there is one, with its time.
  unfoldable pub iteration : Option (video.Image × ℕ) → M P (Unit {0})
  unfolding send_queue process_frame
  iteration none s = panicked s
  iteration (some f) s = (process_frame code rtp host video (f.0) (f.1) >> send_frame) s

  unfoldable pub iterations : List (Option (video.Image × ℕ)) → M P (Unit {0})
  unfolding iteration
  iterations [] = return tt
  iterations (f ∷ fs) = iteration f >> iterations fs

  -- `bench`, with an encoder that has been made, over what it captures.
  unfoldable pub bench : video.Encoder → List (Option (video.Image × ℕ)) → Ran P (Unit {0})
  unfolding iterations new_packager
  bench e captures = iterations captures (new_packager code rtp host video e framerate)
