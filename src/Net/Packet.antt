-- ===== src/Net/Packet.antt =====
-- net/src/packet.rs: the header in front of every datagram of the video stream. A byte buffer is a
-- list of numbers; the sizes of the integer types are written out at each field.
pub mod Layout
pub mod RoundTrip
use lightvideo.Prelude.{
  ℕ, zero, suc, ◌+◌, ◌-◌, ◌*◌, ◌/◌, ◌^◌, ◌<◌, ◌≡◌, Bool, true, false, not, List, [], ◌∷◌, ◌++◌,
  length, All, ◌==◌, if◌then◌else◌, Outcome, ok, ◌>>=◌, slice, index,
}
use lightvideo.Prelude.Bytes.{to_be_bytes, from_be_bytes, write_bytes}

abbrev pub mtu_size : ℕ
mtu_size = 1200

abbrev pub ec_ratio_recovery_packets : ℕ
ec_ratio_recovery_packets = 2

abbrev pub ec_ratio_regular_packets : ℕ
ec_ratio_regular_packets = 4

-- 3 * size_of::<u32>() + size_of::<bool>() + size_of::<[u16; 4]>() + size_of::<u128>()
abbrev pub no_bytes : ℕ
no_bytes = 3 * 4 + 1 + 2 * ec_ratio_regular_packets + 16

abbrev pub simd_packet_size : ℕ
simd_packet_size = (mtu_size - no_bytes + 63) / 64 * 64

-- `pkt_sizes` is the array of four u16.
pub record LvErasureInformation : Type 0 where
  pub block_id : ℕ
  pub min_fragment_size : ℕ
  pub recovery_pkt : Bool
  pub fragment_index : ℕ
  pub pkt_sizes : List ℕ
  pub send_timestamp : ℕ

-- What the field types of the struct guarantee.
pub record IsHeader (h : LvErasureInformation) : Type 0 where
  pub block_id_u32 : h.block_id < 2 ^ 32
  pub min_fragment_size_u32 : h.min_fragment_size < 2 ^ 32
  pub fragment_index_u32 : h.fragment_index < 2 ^ 32
  pub four_sizes : length h.pkt_sizes ≡ 4
  pub sizes_u16 : All (λ p. p < 2 ^ 16) h.pkt_sizes
  pub send_timestamp_u128 : h.send_timestamp < 2 ^ 128

-- `recovery_pkt as u8`
abbrev pub flag_byte : Bool → ℕ
flag_byte true = 1
flag_byte false = 0

-- `for pksz in self.pkt_sizes { … }`
unfoldable pub write_sizes : List ℕ → List ℕ × ℕ → Outcome (List ℕ × ℕ)
write_sizes [] s = ok s
write_sizes (p ∷ ps) s = write_bytes (to_be_bytes 2 p) s >>= write_sizes ps

unfoldable pub to_bytes : LvErasureInformation → List ℕ → Outcome (List ℕ)
unfolding write_sizes
to_bytes h buf = do
  s ← write_bytes (to_be_bytes 4 h.block_id) (buf, 0)
  s ← write_bytes (to_be_bytes 4 h.min_fragment_size) s
  s ← write_bytes (flag_byte h.recovery_pkt ∷ []) s
  s ← write_bytes (to_be_bytes 4 h.fragment_index) s
  s ← write_sizes h.pkt_sizes s
  s ← write_bytes (to_be_bytes 16 h.send_timestamp) s
  ok s.0

-- `for i in 0..EC_RATIO_REGULAR_PACKETS`, with the rounds left and `i`.
unfoldable pub read_sizes : ℕ → ℕ → List ℕ → Outcome (List ℕ)
read_sizes zero i buf = ok []
read_sizes (suc left) i buf = do
  b ← slice buf (13 + i * 2) (15 + i * 2)
  ps ← read_sizes left (i + 1) buf
  ok (from_be_bytes b ∷ ps)

unfoldable pub from_bytes : List ℕ → Outcome LvErasureInformation
unfolding read_sizes
from_bytes buf = do
  sizes ← read_sizes ec_ratio_regular_packets 0 buf
  block ← slice buf 0 4
  fragments ← slice buf 4 8
  flag ← index buf 8
  fragment ← slice buf 9 13
  stamp ← slice buf (13 + 2 * ec_ratio_regular_packets) (13 + 2 * ec_ratio_regular_packets + 16)
  ok (record {
    block_id = from_be_bytes block;
    min_fragment_size = from_be_bytes fragments;
    recovery_pkt = not (flag == 0);
    fragment_index = from_be_bytes fragment;
    pkt_sizes = sizes;
    send_timestamp = from_be_bytes stamp;
  })
