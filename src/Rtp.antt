-- ===== src/Rtp.antt =====
-- The crates `rtp` and `webrtc_util`, which are not part of the repository: RTP packets and their
-- byte form are a parameter.
use lightvideo.Prelude.{ℕ, ◌≡◌, List, length, Option, some, Bool, true}

pub record Rtp : Type 1 where
  pub Packet : Type 0
  pub marshal_size : Packet → ℕ
  -- What `marshal_to` makes of a slice, and whether it succeeds.
  pub marshal_to : Packet → List ℕ → Bool × List ℕ
  pub unmarshal : List ℕ → Option Packet
  pub sequence_number : Packet → ℕ
  pub payload : Packet → List ℕ
  pub default_packet : Packet

module _ (rtp : Rtp) where
  open rtp use {Packet, marshal_size, marshal_to, unmarshal}

  -- `marshal_to` fills a slice of `marshal_size` bytes, and `unmarshal` reads it back.
  pub record RtpLaws : Type 0 where
    pub wire : Packet → List ℕ
    pub length-wire : (p : Packet) → length (wire p) ≡ marshal_size p
    pub marshal_to_wire :
        (p : Packet) (s : List ℕ) → length s ≡ marshal_size p → marshal_to p s ≡ (true, wire p)
    pub unmarshal-wire : (p : Packet) → unmarshal (wire p) ≡ some p
