-- ===== src/System/VideoPath.antt =====
-- The video channel: the datagrams of server/src/packager/packet.rs, block by block, on their way
-- through a network that loses some to client/src/decoder/video.rs.
pub mod Padding
pub mod Headers
pub mod Loss
pub mod Delivery
use lightvideo.Prelude.{
  ℕ, suc, ◌+◌, ◌*◌, ap₂, ◌-◌, ◌≤◌, ◌%◌, ◌⊎◌, ◌≡◌, refl, ap, sym, ◌∙◌, List, [], ◌∷◌, ◌++◌, length,
  map, append_assoc, length-append, eq→==, some, arith, All,
}
use lightvideo.Codec.{ErasureCode, EncoderLaws}
use lightvideo.System.VideoPath.Padding.{chunk_size}
use lightvideo.Rtp.{Rtp, RtpLaws}
use lightvideo.Client.Video.{Arrival}
use lightvideo.Server.ErasureManager.{Host}
use lightvideo.Server.ErasureManager.Blocks.{
  Block, regular_datagram, recovery_datagrams, shard, largest,
}
use lightvideo.Server.Packager.{Encoding}
use lightvideo.Server.StreamingServer.Drain.{stream}

-- The network loses at most so many of these datagrams, keeps the others in order, and the ioctl
-- for the length of the receiver's queue succeeds at each.
pub data Delivers : ℕ → List (List ℕ) → List Arrival → Type 0 where
  nothing : {n : ℕ} → Delivers n [] []
  delivered :
      {n : ℕ} {d : List ℕ} {ds : List (List ℕ)} {a : Arrival} {rest : List Arrival} {q : ℕ}
      → a.datagram ≡ d
      → a.queued ≡ some q
      → Delivers n ds rest
      → Delivers n (d ∷ ds) (a ∷ rest)
  dropped :
      {n : ℕ} {d : List ℕ} {ds : List (List ℕ)} {rest : List Arrival}
      → Delivers n ds rest
      → Delivers (suc n) (d ∷ ds) rest

-- The groups one after the other.
abbrev pub joined {ℓ} : {A : Type ℓ} → List (List A) → List A
joined [] = []
joined (xs ∷ xss) = xs ++ joined xss

module _ (code : ErasureCode) (rtp : Rtp) (host : Host) (enc_laws : EncoderLaws code)
    (rtp_laws : RtpLaws rtp) where
  open rtp use {Packet}
  open enc_laws use {recovery}

  abbrev B : Type 0
  B = Block code rtp host enc_laws rtp_laws

  -- The originals of the block, behind those of `front`.
  abbrev pub regulars : ℕ → List Packet → List Packet → ℕ → List (List ℕ)
  regulars id front [] t = []
  regulars id front (p ∷ ps) t =
      regular_datagram code rtp host enc_laws rtp_laws (record { id = id; packets = front }) p
        (host.now t)
      ∷ regulars id (front ++ (p ∷ [])) ps (t + 1)

  abbrev pub recoveries_of : ℕ → List Packet → ℕ → List (List ℕ)
  recoveries_of id g t =
      recovery_datagrams code rtp host enc_laws rtp_laws (record { id = id; packets = g }) t 0
        (recovery (map (shard code rtp host enc_laws rtp_laws) g))

  -- The six datagrams of a block.
  abbrev pub block_wire : ℕ → List Packet → ℕ → List (List ℕ)
  block_wire id g t = regulars id [] g t ++ recoveries_of id g (t + 4)

  -- Those of one block after the other, with ids from `id` on.
  abbrev pub wires : ℕ → List (List Packet) → ℕ → List (List (List ℕ))
  wires id [] t = []
  wires id (g ∷ gs) t = block_wire id g t ∷ wires (id + 1) gs (t + 6)

  -- What comes of the block through the network, which loses at most two of its datagrams: the
  -- originals, at most `lost` of them lost, and then the recovery datagrams, at most `missed` of
  -- them lost. If an original is lost, the length of the block's largest packet, at which the server
  -- cuts the recovery shards off, is a multiple of the code's chunk.
  pub record Crosses (id : ℕ) (g : List Packet) (t : ℕ) (xs : List Arrival) : Type 0 where
    pub lost : ℕ
    pub missed : ℕ
    pub few : lost + missed ≤ 2
    pub first : List Arrival
    pub second : List Arrival
    pub split : xs ≡ first ++ second
    pub regular : Delivers lost (regulars id [] g t) first
    pub repair : Delivers missed (recoveries_of id g (t + 4)) second
    pub aligned : (lost ≡ 0) ⊎ (largest code rtp host enc_laws rtp_laws g % chunk_size ≡ 0)

  -- One block after the other, with ids from `id` on.
  abbrev pub Transmits : ℕ → List (List Packet) → ℕ → List Arrival → Type 0
  Transmits id [] t xs = xs ≡ []
  Transmits id (g ∷ gs) t xs =
      (now later : List Arrival) × (xs ≡ now ++ later)
      × Crosses id g t now
      × Transmits (id + 1) gs (t + 6) later

  module _ (video : Encoding Packet) where
    abbrev stream_of : B → List Packet → ℕ → List (List ℕ)
    stream_of = stream code rtp host video enc_laws rtp_laws

    stream_full :
        (b : B) (ps : List Packet) (t : ℕ)
        → length b.packets ≡ 4
        → 1 ≤ length ps
        → stream_of b ps t
          ≡ recoveries_of b.id b.packets t
            ++ stream_of (record { id = b.id + 1; packets = [] }) ps (t + 2)
    stream_full b [] t full some_left = absurd (omega arith)
    stream_full b (p ∷ rest) t full some_left =
        let later : t + 3 ≡ t + 2 + 1 = omega arith in
        rw (eq→== (length b.packets) 4 full)
          (append_assoc (recoveries_of b.id b.packets t) _ _ ∙ rw later refl)

    stream_block :
        (id : ℕ) (g ps : List Packet) (t : ℕ)
        → length g ≡ 4
        → 1 ≤ length ps
        → stream_of (record { id = id; packets = [] }) (g ++ ps) t
          ≡ block_wire id g t ++ stream_of (record { id = id + 1; packets = [] }) ps (t + 6)
    stream_block id [] ps t e some_left = absurd (omega arith)
    stream_block id (a ∷ []) ps t e some_left = absurd (omega arith)
    stream_block id (a ∷ b ∷ []) ps t e some_left = absurd (omega arith)
    stream_block id (a ∷ b ∷ c ∷ []) ps t e some_left = absurd (omega arith)
    stream_block id (a ∷ b ∷ c ∷ d ∷ f ∷ g) ps t e some_left = absurd (omega arith)
    stream_block id (a ∷ b ∷ c ∷ d ∷ []) ps t e some_left =
        let g : List Packet = a ∷ b ∷ c ∷ d ∷ [] in
        let fourth : t + 1 + 1 + 1 + 1 ≡ t + 4 = omega arith in
        let sixth : t + 1 + 1 + 1 + 1 + 2 ≡ t + 6 = omega arith in
        ap (λ x. regulars id [] g t ++ x)
          (stream_full (record { id = id; packets = g }) ps (t + 1 + 1 + 1 + 1) refl some_left
            ∙ ap₂
                (λ u v.
                  recoveries_of id g u ++ stream_of (record { id = id + 1; packets = [] }) ps v)
                fourth sixth)
        ∙ sym (append_assoc (regulars id [] g t) (recoveries_of id g (t + 4)) _)

    -- The packets of full groups, with others behind them, go out as the groups' blocks.
    pub stream-joined :
        (gs : List (List Packet)) (id : ℕ) (ps : List Packet) (t : ℕ)
        → All (λ g. length g ≡ 4) gs
        → 1 ≤ length ps
        → stream_of (record { id = id; packets = [] }) (joined gs ++ ps) t
          ≡ joined (wires id gs t)
            ++ stream_of (record { id = id + length gs; packets = [] }) ps (t + 6 * length gs)
    stream-joined [] id ps t v some_left =
        ap₂ (λ i u. stream_of (record { id = i; packets = [] }) ps u) (omega arith) (omega arith)
    stream-joined (g ∷ gs) id ps t v some_left =
        ap (λ xs. stream_of (record { id = id; packets = [] }) xs t) (append_assoc g (joined gs) ps)
        ∙ stream_block id g (joined gs ++ ps) t v.0 (omega (arith, length-append (joined gs) ps))
        ∙ ap (λ xs. block_wire id g t ++ xs)
            (stream-joined gs (id + 1) ps (t + 6) v.1 some_left
              ∙ ap₂
                  (λ i u.
                    joined (wires (id + 1) gs (t + 6))
                    ++ stream_of (record { id = i; packets = [] }) ps u)
                  (omega arith) (omega arith))
        ∙ sym (append_assoc (block_wire id g t) _ _)
