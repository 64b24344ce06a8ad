-- ===== src/Server/StreamingServer/Rounds.antt =====
-- How a round of the loop of server/src/server/streaming_server.rs can end.
use lightvideo.Prelude.{
  ℕ, ◌≡◌, refl, List, [], Option, none, some, Bool, true, false, ◌==◌, if◌then◌else◌, Bool-cases,
  Option-cases, inl, inr, queue_ioctl, arith,
}
use lightvideo.Prelude.Runs.{Ran, done, failed, panicked, and_then, ◌>>◌, return}
use lightvideo.Codec.{ErasureCode}
use lightvideo.Rtp.{Rtp}
use lightvideo.Server.ErasureManager.{Host}
use lightvideo.Statistics.Collector.{LvStatisticsMessage}
use lightvideo.Server.Packager.{Encoding, LvPackager, update_bitrate, process_frame}
use lightvideo.Server.StreamingServer.{
  Means, Tick, LvStreamingServer, attempt, on_packager, follow_bitrate, send_all, send_and_report,
  serve, is_quit, stream_round, count_queue,
}
use lightvideo.Server.StreamingServer.Drain.{Emptied, send_all_ends}

module _ (code : ErasureCode) (rtp : Rtp) (host : Host) (video : Encoding rtp.Packet)
    (means : Means) where
  open video use {Image}

  abbrev P : Type 0
  P = LvPackager rtp.Packet code.Enc video

  abbrev S : Type 0
  S = LvStreamingServer P

  -- The rest of a round: it ends with this bitrate and an empty queue, or in a panic.
  abbrev pub Served : ℕ → Ran S Bool → Type 0
  Served b (done ended s) = (ended ≡ false) × (s.old_bitrate ≡ b) × (s.packager.rtp_queue ≡ [])
  Served b (failed e s) = ⊥
  Served b (panicked s) = Unit {0}

  -- A round: a failing ioctl leaves all as it was, a quit signal stops before the frame is taken.
  abbrev pub Ends : Tick Image → S → Ran S Bool → Type 0
  Ends t s (failed e s') = (t.queued ≡ none) × (e ≡ queue_ioctl) × (s' ≡ s)
  Ends t s (done true s') =
      (is_quit t.quit ≡ true) × (s'.packager ≡ s.packager) × (s'.old_bitrate ≡ s.old_bitrate)
  Ends t s (done false s') =
      (is_quit t.quit ≡ false) × (s'.old_bitrate ≡ t.bitrate) × (s'.packager.rtp_queue ≡ [])
  Ends t s (panicked s') = Unit {0}

  reported :
      (b : ℕ) (s : S) (f : S → List LvStatisticsMessage) (r : Ran P (Unit {0}))
      → s.old_bitrate ≡ b
      → Emptied code rtp host video r
      → Served b (
          and_then
            (on_packager code rtp host video means r s)
            (λ u s'. done false (record s' { messages = f s' })))
  reported b s f (done u p) same e = (refl, same, e)
  reported b s f (failed x p) same e = absurd e
  reported b s f (panicked p) same e = tt

  sending-Served :
      (b : ℕ) (s : S) → s.old_bitrate ≡ b → Served b (send_and_report code rtp host video means s)
  unfolding send_and_report
  sending-Served b s same =
      reported b s _ (send_all code rtp host video s.packager) same
        (send_all_ends code rtp host video s.packager)

  attempted-Served :
      (b : ℕ) (s : S) (r : Ran P (Unit {0}))
      → s.old_bitrate ≡ b
      → Served b (
          and_then
            (on_packager code rtp host video means (attempt r) s)
            (λ u. send_and_report code rtp host video means))
  attempted-Served b s (done u p) same = sending-Served b (record s { packager = p }) same
  attempted-Served b s (failed x p) same = sending-Served b (record s { packager = p }) same
  attempted-Served b s (panicked p) same = tt

  following-Served :
      (b : ℕ) (s : S)
      → Served b (
          (follow_bitrate code rtp host video means b >> send_and_report code rtp host video means)
            s)
  unfolding follow_bitrate
  following-Served b s = elim (Bool-cases (s.old_bitrate == b)) [
    | inl same ↦ rw same (sending-Served b s (ground arith))
    | inr other ↦
        rw other (attempted-Served b _ (update_bitrate code rtp host video b s.packager) refl)
  ]

  framed-Served :
      (b : ℕ) (s : S) (r : Ran P (Unit {0}))
      → Served b (
          and_then (on_packager code rtp host video means (attempt r) s) (λ u.
            follow_bitrate code rtp host video means b
            >> send_and_report code rtp host video means))
  framed-Served b s (done u p) = following-Served b (record s { packager = p })
  framed-Served b s (failed x p) = following-Served b (record s { packager = p })
  framed-Served b s (panicked p) = tt

  serve-Served : (t : Tick Image) (s : S) → Served t.bitrate (serve code rtp host video means t s)
  serve-Served t s = elim (Option-cases t.frame) [
    | inl lost ↦ rw lost (following-Served t.bitrate s)
    | inr (f, come) ↦
        rw come
          (framed-Served t.bitrate s (process_frame code rtp host video (f.0) (f.1) s.packager))
  ]

  Served-Ends :
      (t : Tick Image) (s : S) (r : Ran S Bool)
      → is_quit t.quit ≡ false
      → Served t.bitrate r
      → Ends t s r
  Served-Ends t s (done true s') go v = cc
  Served-Ends t s (done false s') go v = (go, v.1, v.2)
  Served-Ends t s (failed e s') go v = absurd v
  Served-Ends t s (panicked s') go v = tt

  decided :
      (t : Tick Image) (s s1 : S) (stop : Bool)
      → is_quit t.quit ≡ stop
      → s1.packager ≡ s.packager
      → s1.old_bitrate ≡ s.old_bitrate
      → Ends t s ((if stop then return true else serve code rtp host video means t) s1)
  decided t s s1 true e p o = (e, p, o)
  decided t s s1 false e p o =
      Served-Ends t s (serve code rtp host video means t s1) e (serve-Served t s1)

  counted :
      (t : Tick Image) (s : S) (queued : Option ℕ)
      → t.queued ≡ queued
      → Ends t s (
          (count_queue code rtp host video means queued
              >> (if is_quit t.quit then return true else serve code rtp host video means t))
            s)
  counted t s none e = (e, refl, refl)
  counted t s (some q) e = decided t s _ (is_quit t.quit) refl refl refl

  -- However the socket, the encoder and the erasure code answer, a round of the streaming loop that
  -- does not panic ends in one of three ways: the ioctl on the queue failed, and the error ends the
  -- loop with everything as it was; the quit signal came, and neither the packager nor the bitrate
  -- has changed; or the loop goes on, having taken over the bitrate behind the mutex and having
  -- emptied the queue of packets.
  pub stream_round-Ends :
      (t : Tick Image) (s : S) → Ends t s (stream_round code rtp host video means t s)
  unfolding stream_round
  stream_round-Ends t s = counted t s t.queued refl
