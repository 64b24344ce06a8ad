-- ===== src/Server/StreamingServer/Setup.antt =====
-- What server/src/server/streaming_server.rs does in front of its loop, and how the loop can end.
use lightvideo.Prelude.{
  ℕ, ◌≡◌, refl, ◌⊎◌, inl, inr, List, [], ◌∷◌, Option, none, some, Bool, true, false, if◌then◌else◌,
  queue_ioctl,
}
use lightvideo.Prelude.Runs.{Ran, done, failed, panicked, and_then, return}
use lightvideo.Codec.{ErasureCode}
use lightvideo.Rtp.{Rtp}
use lightvideo.Statistics.{time_series, xy_data}
use lightvideo.Statistics.Collector.{register}
use lightvideo.Server.ErasureManager.{Host}
use lightvideo.Server.Packager.{Encoding, LvPackager, new_packager}
use lightvideo.Server.StreamingServer.{
  Means, Tick, LvStreamingServer, stream_round, stream_loop, is_quit,
}
use lightvideo.Server.StreamingServer.Rounds.{Ends, stream_round-Ends}

-- The ioctl on a descriptor; `none` is an `Err`.
abbrev pub Ioctl : Type 0
Ioctl = ℕ → Option ℕ

-- Without a socket nothing is queued.
unfoldable pub bytes_in_send_queue : Ioctl → Option ℕ → Option ℕ
bytes_in_send_queue tiocoutq (some fd) = tiocoutq fd
bytes_in_send_queue tiocoutq none = some 0

-- The fields that `new` is given and that the loop reads.
pub record Settings : Type 0 where
  pub fps : ℕ
  pub width : ℕ
  pub height : ℕ
  pub old_bitrate : ℕ
  pub udp_fd : Option ℕ

-- `LVStreamingServer::new`
unfoldable pub new : ℕ → ℕ → ℕ → ℕ → Settings
new fps width height bitrate = record {
  fps = fps;
  width = width;
  height = height;
  old_bitrate = bitrate;
  udp_fd = none;
}

module _ (code : ErasureCode) (rtp : Rtp) (host : Host) (video : Encoding rtp.Packet)
    (means : Means) where
  open video use {Image, Encoder}

  abbrev S : Type 0
  S = LvStreamingServer (LvPackager rtp.Packet code.Enc video)

  -- The state in front of the loop.
  abbrev pub begun : Settings → Encoder → S
  begun settings encoder = record {
    packager = new_packager code rtp host video encoder settings.fps;
    old_bitrate = settings.old_bitrate;
    total_queue_occupancy = 0;
    total_cycles = 0;
    messages =
        register "server_packet_sending" time_series
        ∷ register "server_bitrate_queue_occupancy" xy_data
        ∷ [];
  }

  -- What a round meets, for a socket with this descriptor.
  pub record Meets : Type 0 where
    pub ioctl : Ioctl
    pub quit : Option Bool
    pub frame : Option (Image × ℕ)
    pub bitrate : ℕ

  unfoldable pub ticks : Option ℕ → List Meets → List (Tick Image)
  unfolding bytes_in_send_queue
  ticks fd [] = []
  ticks fd (m ∷ ms) =
      record {
        queued = bytes_in_send_queue m.ioctl fd;
        quit = m.quit;
        frame = m.frame;
        bitrate = m.bitrate;
      }
      ∷ ticks fd ms

  -- `LVPackager::new`, which fails when the file `cap.h264` cannot be created or the erasure encoder
  -- cannot be made.
  abbrev pub create_packager : Bool → Settings → Encoder → Option S
  create_packager can_create settings encoder =
      if can_create then some (begun settings encoder) else none

  -- `start_send_loop`: the descriptor of the socket that could be bound, and the encoder that could
  -- be made, and whether the packager can be. `none` is the panic of an `expect`.
  unfoldable pub start_send_loop :
      Settings → Option ℕ → Option Encoder → Bool → List Meets → Option (Ran S (Unit {0}))
  unfolding ticks
  start_send_loop settings none encoder can_create ms = none
  start_send_loop settings (some fd) none can_create ms = none
  start_send_loop settings (some fd) (some encoder) can_create ms =
      elim (create_packager can_create settings encoder) [
        | none ↦ none
        | some s ↦ some (stream_loop code rtp host video means (ticks (some fd) ms) s)
      ]

  abbrev Any : (Meets → Type 0) → List Meets → Type 0
  Any Q [] = ⊥
  Any Q (m ∷ ms) = Q m ⊎ Any Q ms

  abbrev last_bitrate : ℕ → List Meets → ℕ
  last_bitrate b [] = b
  last_bitrate b (m ∷ ms) = last_bitrate m.bitrate ms

  -- How the loop over these rounds can end, with this descriptor, from this bitrate on.
  abbrev pub Runs : ℕ → ℕ → List Meets → Ran S (Unit {0}) → Type 0
  Runs fd b ms (done u s) =
      Any (λ m. is_quit m.quit ≡ true) ms
      ⊎ ((s.old_bitrate ≡ last_bitrate b ms) × (s.packager.rtp_queue ≡ []))
  Runs fd b ms (failed e s) = (e ≡ queue_ioctl) × Any (λ m. m.ioctl fd ≡ none) ms
  Runs fd b ms (panicked s) = Unit {0}

  later :
      (fd b : ℕ) (m : Meets) (ms : List Meets) (r : Ran S (Unit {0}))
      → Runs fd m.bitrate ms r
      → Runs fd b (m ∷ ms) r
  later fd b m ms (done u s) (inl quit) = inl (inr quit)
  later fd b m ms (done u s) (inr served) = inr served
  later fd b m ms (failed e s) (known, broken) = (known, inr broken)
  later fd b m ms (panicked s) v = tt

  rounds-Runs :
      (fd b : ℕ) (ms : List Meets) (s : S)
      → s.old_bitrate ≡ b
      → s.packager.rtp_queue ≡ []
      → Runs fd b ms (stream_loop code rtp host video means (ticks (some fd) ms) s)
  unfolding stream_loop ticks bytes_in_send_queue
  rounds-Runs fd b [] s same empty = inr (same, empty)
  rounds-Runs fd b (m ∷ ms) s same empty =
      ended (stream_round code rtp host video means t s)
        (stream_round-Ends code rtp host video means t s) (rounds-Runs fd m.bitrate ms)
    where
      t : Tick Image
      t = record { queued = m.ioctl fd; quit = m.quit; frame = m.frame; bitrate = m.bitrate }

      ended :
          (r : Ran S Bool)
          → Ends code rtp host video means t s r
          → ((s' : S)
              → s'.old_bitrate ≡ m.bitrate
              → s'.packager.rtp_queue ≡ []
              → Runs fd m.bitrate ms
                  (stream_loop code rtp host video means (ticks (some fd) ms) s'))
          → Runs fd b (m ∷ ms) (
              and_then r (λ e.
                if e
                then return tt
                else stream_loop code rtp host video means (ticks (some fd) ms)))
      ended (failed e s') (broken, known, kept) rest = (known, inl broken)
      ended (panicked s') v rest = tt
      ended (done true s') v rest = inl (inl v.0)
      ended (done false s') v rest = later fd b m ms _ (rest s' v.1 v.2)

  -- From a socket that could be bound, with an encoder and a packager that could be made, on any run
  -- of rounds, the
  -- streaming loop returns no error but that of the ioctl, and only when the ioctl has failed; when
  -- it is over without an error, a quit signal came in some round, or all rounds have been served:
  -- then no packet is left in the queue, and the bitrate is the one that stood behind the mutex in
  -- the last round, or the one of `new` when there was no round.
  pub start_send_loop-Runs :
      (fps width height bitrate fd : ℕ) (encoder : Encoder) (ms : List Meets)
      → (r : Ran S (Unit {0})) × (start_send_loop
            (new fps width height bitrate)
            (some fd)
            (some encoder)
            true
            ms
          ≡ some r)
        × Runs fd bitrate ms r
  unfolding start_send_loop new new_packager
  start_send_loop-Runs fps width height bitrate fd encoder ms =
      (_, refl, rounds-Runs fd bitrate ms (begun (new fps width height bitrate) encoder) refl refl)
