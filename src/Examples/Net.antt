-- ===== src/Examples/Net.antt =====
-- The theorems on net/ at concrete values.
use lightvideo.Prelude.{
  ℕ, ◌≡◌, refl, List, [], ◌∷◌, length, drop, replicate, some, true, ok, panic, arith,
}
use lightvideo.Net.Input.{released, forward, new_click, get_button, get_element_state}
use lightvideo.Net.Input.Codes.{get_button-new_click}
use lightvideo.Net.Packet.{LvErasureInformation, IsHeader, to_bytes, from_bytes, no_bytes}
use lightvideo.Net.Packet.RoundTrip.{from_bytes-to_bytes, short_buffer}

abbrev header : LvErasureInformation
header = record {
  block_id = 70000;
  min_fragment_size = 4;
  recovery_pkt = true;
  fragment_index = 1;
  pkt_sizes = 1100 ∷ 300 ∷ 1187 ∷ 12 ∷ [];
  send_timestamp = 1700000000000;
}

header-IsHeader : IsHeader header
header-IsHeader = record {
  block_id_u32 = omega arith;
  min_fragment_size_u32 = omega arith;
  fragment_index_u32 = omega arith;
  four_sizes = refl;
  sizes_u16 = (omega arith, (omega arith, (omega arith, (omega arith, tt))));
  send_timestamp_u128 = omega arith;
}

abbrev ones : List ℕ
ones = replicate 40 1

from_bytes-to_bytes_example :
    (out : List ℕ) × (to_bytes header ones ≡ ok out)
    × (length out ≡ length ones)
    × (drop no_bytes out ≡ drop no_bytes ones)
    × (from_bytes out ≡ ok header)
from_bytes-to_bytes_example = from_bytes-to_bytes header ones header-IsHeader (omega arith)

short_buffer_example :
    (to_bytes header (replicate 36 1) ≡ panic) × (from_bytes (replicate 36 1) ≡ panic)
short_buffer_example = short_buffer header (replicate 36 1) header-IsHeader (omega arith)

get_button-new_click_example :
    (get_button (new_click forward released) ≡ some forward)
    × (get_element_state (new_click forward released).state ≡ some released)
get_button-new_click_example = get_button-new_click forward released
