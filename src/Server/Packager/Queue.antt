-- ===== src/Server/Packager/Queue.antt =====
-- The queue of server/src/packager/mod.rs: packets go in at the front and come out at the back.
use lightvideo.Prelude.{
  ℕ, suc, ◌/◌, ◌≡◌, ◌≢◌, inl, inr, refl, ap, sym, ◌∙◌, List, [], ◌∷◌, ◌++◌, length, Option, none,
  some, Bool, true, false, ◌==◌, if◌then◌else◌, append-nil, append_assoc, length-append, Bool-cases,
  Option-cases, arith,
}
use lightvideo.Prelude.Runs.{Ran, done, panicked, final, and_then, ◌>>=◌, ◌>>◌, modify}
use lightvideo.Codec.{ErasureCode}
use lightvideo.Rtp.{Rtp}
use lightvideo.Server.ErasureManager.{Host}
use lightvideo.Server.Packager.{
  Encoding, LvPackager, pop_back, push_all, process_frame, encode, packets_of, measure,
  write_encoded, sample_rate,
}

module _ {A : Type 0} where
  -- The queue that holds these packets, the oldest named first.
  abbrev pub backwards : List A → List A
  backwards [] = []
  backwards (p ∷ ps) = backwards ps ++ (p ∷ [])

  pub pop_back-append : (q : List A) (p : A) → pop_back (q ++ (p ∷ [])) ≡ some (p, q)
  unfolding pop_back
  pop_back-append [] p = refl
  pop_back-append (x ∷ q) p = rw (pop_back-append q p) refl

  -- A queue with packets gives one, and is shorter by it.
  pub pop_back_cases :
      (x : A) (q : List A)
      → (p : A) × (rest : List A) × (pop_back (x ∷ q) ≡ some (p, rest)) × (length rest ≡ length q)
  unfolding pop_back
  pop_back_cases x [] = (x, [], refl, refl)
  pop_back_cases x (y ∷ q) =
      let (p, rest, e, n) = pop_back_cases y q in (p, x ∷ rest, rw e refl, ap suc n)

  pub length-backwards : (ps : List A) → length (backwards ps) ≡ length ps
  length-backwards [] = refl
  length-backwards (p ∷ ps) =
      omega (arith, length-append (backwards ps) (p ∷ []), length-backwards ps)

  backwards-append : (qs : List A) (p : A) → backwards (qs ++ (p ∷ [])) ≡ p ∷ backwards qs
  backwards-append [] p = refl
  backwards-append (q ∷ qs) p = ap (λ r. r ++ (q ∷ [])) (backwards-append qs p)

  pub push_all-backwards : (ps qs : List A) → push_all ps (backwards qs) ≡ backwards (qs ++ ps)
  unfolding push_all
  push_all-backwards [] qs = ap backwards (sym (append-nil qs))
  push_all-backwards (p ∷ ps) qs =
      ap (push_all ps) (sym (backwards-append qs p))
      ∙ push_all-backwards ps (qs ++ (p ∷ []))
      ∙ ap backwards (append_assoc qs (p ∷ []) ps)

  abbrev pub or_none : Option (List A) → List A
  or_none none = []
  or_none (some ps) = ps

module _ (code : ErasureCode) (rtp : Rtp) (host : Host) (video : Encoding rtp.Packet) where
  open code use {Enc}
  open rtp use {Packet}
  open video use {Image, Yuv, Encoder, convert_frame, encode_frame, packetize}

  abbrev P : Type 0
  P = LvPackager Packet Enc video

  abbrev answered : ℕ → Option (Encoder × Yuv) → Option (Bool × Encoder × List ℕ)
  answered timestamp none = none
  answered timestamp (some (e, yuv)) = encode_frame e yuv timestamp

  -- What the encoder answers for a frame, `none` if it panics: whether it worked, its new state, and
  -- the bytes.
  abbrev pub encoded : Image → ℕ → P → Option (Bool × Encoder × List ℕ)
  encoded image timestamp s = answered timestamp (convert_frame s.encoder image s.yuv_buffer)

  abbrev packets_from : P → Option (Bool × Encoder × List ℕ) → Option (List Packet)
  packets_from s none = none
  packets_from s (some (fine, e, bits)) =
      if fine
      then (if s.fps == 0
          then none
          else (packetize s.packetizer (s.h264_bitstream_writer ++ bits) (sample_rate / s.fps)).0)
      else none

  abbrev left_by : P → Option (Bool × Encoder × List ℕ) → List ℕ
  left_by s none = s.h264_bitstream_writer
  left_by s (some (fine, e, bits)) = if fine then [] else s.h264_bitstream_writer ++ bits

  -- The packets of a frame: those of all bytes in the bitstream, if all went well.
  abbrev pub payloads : Image → ℕ → P → Option (List Packet)
  payloads image timestamp s = packets_from s (encoded image timestamp s)

  -- The bitstream behind the frame.
  abbrev pub written_behind : Image → ℕ → P → List ℕ
  written_behind image timestamp s = left_by s (encoded image timestamp s)

  abbrev pub Succeeds : Option (List Packet) → Ran P (Unit {0}) → Type 0
  Succeeds none r = (s' : P) → r ≢ done tt s'
  Succeeds (some ps) r = r ≡ done tt (final r)

  -- The rest of `process_frame` behind the encoder.
  abbrev packed : P → Ran P (Unit {0})
  packed = do
    payloads ← packets_of code rtp host video
    measure code rtp host video "server_packetization"
    modify λ s. record s { rtp_queue = push_all payloads s.rtp_queue }
    measure code rtp host video "server_queuing"

  -- What the queue is, how the run ends, and what is in the bitstream.
  abbrev Queues : List Packet → Option (List Packet) → List ℕ → Ran P (Unit {0}) → Type 0
  Queues qs ps bits r =
      ((final r).rtp_queue ≡ backwards (qs ++ or_none ps))
      × Succeeds ps r
      × ((final r).h264_bitstream_writer ≡ bits)

  packed-Queues :
      (s : P) (qs : List Packet)
      → s.rtp_queue ≡ backwards qs
      → Queues qs
          (if s.fps == 0
            then none
            else (packetize s.packetizer s.h264_bitstream_writer (sample_rate / s.fps)).0)
          []
          (packed s)
  unfolding packets_of
  packed-Queues s qs h =
      let kept = h ∙ ap backwards (sym (append-nil qs)) in
      elim (Bool-cases (s.fps == 0)) [
        | inl stop ↦ rw stop (kept, (λ s' e. cc), refl)
        | inr go ↦
            elim (Option-cases
              ((packetize s.packetizer s.h264_bitstream_writer (sample_rate / s.fps)).0)) [
                | inl none_out ↦ rw go (rw none_out (kept, (λ s' e. cc), refl))
                | inr (ps, some_out) ↦
                    rw go (rw some_out (ap (push_all ps) h ∙ push_all-backwards ps qs, refl, refl))
              ]
      ]

  -- From a queue that holds `qs`, the oldest first, `process_frame` leaves a queue that holds `qs`
  -- and behind them the packets of the frame in their order, and exactly `qs` on an error or a
  -- panic; it succeeds exactly when the encoder and the packetizer did and `fps` is not 0. The
  -- bitstream is then empty, but a failing encoder's bytes stay in it for the next frame, and it is
  -- as it was when the encoder panics.
  pub process_frame_queues :
      (image : Image) (timestamp : ℕ) (s : P) (qs : List Packet)
      → s.rtp_queue ≡ backwards qs
      → let r = process_frame code rtp host video image timestamp s in
        ((final r).rtp_queue ≡ backwards (qs ++ or_none (payloads image timestamp s)))
        × Succeeds (payloads image timestamp s) r
        × ((final r).h264_bitstream_writer ≡ written_behind image timestamp s)
  unfolding process_frame encode
  process_frame_queues image timestamp s qs h =
      converted (convert_frame s.encoder image s.yuv_buffer)
    where
      kept : s.rtp_queue ≡ backwards (qs ++ [])
      kept = h ∙ ap backwards (sym (append-nil qs))

      written :
          (e : Encoder) (yuv : Yuv) (o : Option (Bool × Encoder × List ℕ))
          → Queues qs (packets_from s o) (left_by s o) (
              and_then
                (write_encoded code rtp host video o (record s { encoder = e; yuv_buffer = yuv }))
                (λ u. packed))
      written e yuv none = (kept, (λ s' e. cc), refl)
      written e yuv (some (false, e', bits)) = (kept, (λ s' e. cc), refl)
      written e yuv (some (true, e', bits)) =
          packed-Queues
            (record s {
              encoder = e';
              yuv_buffer = yuv;
              h264_bitstream_writer = s.h264_bitstream_writer ++ bits;
            })
            qs h

      converted :
          (o : Option (Encoder × Yuv))
          → Queues qs (packets_from s (answered timestamp o)) (left_by s (answered timestamp o)) (
              and_then
                (elim o [
                  | none ↦ panicked s
                  | some (e, yuv) ↦
                      write_encoded code rtp host video
                        (encode_frame e yuv timestamp)
                        (record s { encoder = e; yuv_buffer = yuv })
                ])
                (λ u. packed))
      converted none = (kept, (λ s' e. cc), refl)
      converted (some (e, yuv)) = written e yuv (encode_frame e yuv timestamp)
