-- ===== src/Server/Benchmark/Queue.antt =====
-- The loops over the queue of packets in server/src/benchmark/mod.rs, which ends at an error, and in
-- server/src/server/streaming_server.rs, which goes on.
use lightvideo.Prelude.{ℕ, zero, suc, ◌<◌, ◌≡◌, refl, [], length, Bool, true, false, arith}
use lightvideo.Prelude.Runs.{Ran, done, failed, panicked, and_then}
use lightvideo.Codec.{ErasureCode}
use lightvideo.Rtp.{Rtp}
use lightvideo.Server.ErasureManager.{Host}
use lightvideo.Server.Packager.{Encoding, LvPackager, send_next_pkt, has_rtp}
use lightvideo.Server.StreamingServer.{drain, send_all, attempt}
use lightvideo.Server.StreamingServer.Drain.{send_all_ends}
use lightvideo.Server.Benchmark.{send_queue, send_frame}

module _ (code : ErasureCode) (rtp : Rtp) (host : Host) (video : Encoding rtp.Packet) where
  abbrev P : Type 0
  P = LvPackager rtp.Packet code.Enc video

  -- A run of the streaming loop against one of the benchmark's.
  abbrev Relates : ℕ → Ran P (Unit {0}) → Ran P (Unit {0}) → Type 0
  Relates n d (done u s) = d ≡ done tt s
  Relates n d (failed e s) = (m : ℕ) × (m < n) × (d ≡ drain code rtp host video m s)
  Relates n d (panicked s) = d ≡ panicked s

  longer : (n : ℕ) (d r : Ran P (Unit {0})) → Relates n d r → Relates (suc n) d r
  longer n d (done u s) v = v
  longer n d (failed e s) (m, lt, same) = (m, omega arith, same)
  longer n d (panicked s) v = v

  next-Relates :
      (n : ℕ) (r : Ran P ℕ)
      → ((s : P) → Relates n (drain code rtp host video n s) (send_queue code rtp host video n s))
      → Relates
          (suc n)
          (and_then (attempt r) (λ u. drain code rtp host video n))
          (and_then r (λ k. send_queue code rtp host video n))
  next-Relates n (done k s) rest =
      longer n (drain code rtp host video n s) (send_queue code rtp host video n s) (rest s)
  next-Relates n (failed e s) rest = (n, omega arith, refl)
  next-Relates n (panicked s) rest = refl

  choice-Relates :
      (n : ℕ) (s : P) (b : Bool) (d r : Ran P (Unit {0}))
      → Relates n d r
      → Relates n
          (elim b [ false ↦ done tt s | true ↦ d ])
          (elim b [ false ↦ done tt s | true ↦ r ])
  choice-Relates n s true d r v = v
  choice-Relates n s false d r v = refl

  queue-Relates :
      (n : ℕ) (s : P)
      → Relates n (drain code rtp host video n s) (send_queue code rtp host video n s)
  unfolding drain send_queue
  queue-Relates zero s = refl
  queue-Relates (suc n) s =
      choice-Relates (suc n) s (has_rtp code rtp host video s) _ _
        (next-Relates n (send_next_pkt code rtp host video s) (queue-Relates n))

  -- How the benchmark's loop ends on this queue.
  abbrev pub Follows : P → Ran P (Unit {0}) → Type 0
  Follows s (done u s') = (send_all code rtp host video s ≡ done tt s') × (s'.rtp_queue ≡ [])
  Follows s (failed e s') =
      (m : ℕ) × (m < length s.rtp_queue)
      × (send_all code rtp host video s ≡ drain code rtp host video m s')
  Follows s (panicked s') = send_all code rtp host video s ≡ panicked s'

  Relates-Follows :
      (s : P) (r : Ran P (Unit {0}))
      → Relates (length s.rtp_queue) (send_all code rtp host video s) r
      → Follows s r
  Relates-Follows s (done u s') v = (v, rw v at (send_all_ends code rtp host video s))
  Relates-Follows s (failed e s') v = v
  Relates-Follows s (panicked s') v = v

  -- On every queue the benchmark's loop does what the streaming loop does: when it succeeds, or a
  -- panic ends it, both end in the same state, with the queue empty on success; when an error ends it,
  -- the streaming loop goes on from that state for fewer rounds than there were packets.
  pub send_frame-Follows : (s : P) → Follows s (send_frame code rtp host video s)
  unfolding send_all
  send_frame-Follows s =
      Relates-Follows s (send_frame code rtp host video s) (queue-Relates (length s.rtp_queue) s)
