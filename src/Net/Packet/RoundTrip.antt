-- ===== src/Net/Packet/RoundTrip.antt =====
-- `LVErasureInformation::from_bytes` of net/src/packet.rs reads back what `to_bytes` wrote.
use lightvideo.Prelude.{
  ℕ, ◌≤◌, ◌<◌, ◌≡◌, refl, ap, ◌∙◌, sym, List, [], ◌∷◌, ◌++◌, length, drop, take, length-append,
  arith, ok, panic, slice, slice-ok, Bool, drop-append, index-ok, get_or, not, ◌==◌, true, false,
  length-drop,
}
use lightvideo.Prelude.Bytes.{from_be_bytes, from_be_bytes-to_be_bytes}
use lightvideo.Net.Packet.{
  LvErasureInformation, IsHeader, flag_byte, read_sizes, from_bytes, to_bytes, no_bytes,
}
use lightvideo.Net.Packet.Layout.{layout, to_bytes_lem, to_bytes-panic, length-layout}

-- The fields of the header at their offsets.
abbrev pub parse : List ℕ → LvErasureInformation
parse buf = record {
  block_id = from_be_bytes (take 4 buf);
  min_fragment_size = from_be_bytes (take 4 (drop 4 buf));
  recovery_pkt = not (get_or buf 8 0 == 0);
  fragment_index = from_be_bytes (take 4 (drop 9 buf));
  pkt_sizes =
      from_be_bytes (take 2 (drop 13 buf))
      ∷ from_be_bytes (take 2 (drop 15 buf))
      ∷ from_be_bytes (take 2 (drop 17 buf))
      ∷ from_be_bytes (take 2 (drop 19 buf))
      ∷ [];
  send_timestamp = from_be_bytes (take 16 (drop 21 buf));
}

-- No slice of `from_bytes` is out of range from 37 bytes on.
pub from_bytes-parse : (buf : List ℕ) → no_bytes ≤ length buf → from_bytes buf ≡ ok (parse buf)
unfolding from_bytes read_sizes
from_bytes-parse buf h = rw (
  slice-ok buf 13 15 (omega arith) (omega arith),
  slice-ok buf 15 17 (omega arith) (omega arith),
  slice-ok buf 17 19 (omega arith) (omega arith),
  slice-ok buf 19 21 (omega arith) (omega arith),
  slice-ok buf 0 4 (omega arith) (omega arith),
  slice-ok buf 4 8 (omega arith) (omega arith),
  index-ok buf 8 0 (omega arith),
  slice-ok buf 9 13 (omega arith) (omega arith),
  slice-ok buf 21 37 (omega arith) (omega arith),
)

-- A buffer shorter than the header: the last slice, if no earlier one, is out of range.
pub from_bytes-panic : (buf : List ℕ) → length buf < no_bytes → from_bytes buf ≡ panic
unfolding from_bytes read_sizes slice
from_bytes-panic buf h = ground arith

flag_byte_lem : (b : Bool) → not (flag_byte b == 0) ≡ b
flag_byte_lem true = refl
flag_byte_lem false = refl

parse-layout :
    (h : LvErasureInformation) (ps rest : List ℕ)
    → IsHeader (record h { pkt_sizes = ps })
    → parse (layout (record h { pkt_sizes = ps }) ++ rest) ≡ record h { pkt_sizes = ps }
parse-layout h [] rest v = absurd (omega arith)
parse-layout h (p ∷ []) rest v = absurd (omega arith)
parse-layout h (p ∷ q ∷ []) rest v = absurd (omega arith)
parse-layout h (p ∷ q ∷ r ∷ []) rest v = absurd (omega arith)
parse-layout h (p ∷ q ∷ r ∷ s ∷ t ∷ ts) rest v = absurd (omega arith)
parse-layout h (p ∷ q ∷ r ∷ s ∷ []) rest v = λ i. record {
  block_id = from_be_bytes-to_be_bytes 4 h.block_id (omega arith) i;
  min_fragment_size = from_be_bytes-to_be_bytes 4 h.min_fragment_size (omega arith) i;
  recovery_pkt = flag_byte_lem h.recovery_pkt i;
  fragment_index = from_be_bytes-to_be_bytes 4 h.fragment_index (omega arith) i;
  pkt_sizes =
      from_be_bytes-to_be_bytes 2 p (omega arith) i
      ∷ from_be_bytes-to_be_bytes 2 q (omega arith) i
      ∷ from_be_bytes-to_be_bytes 2 r (omega arith) i
      ∷ from_be_bytes-to_be_bytes 2 s (omega arith) i
      ∷ [];
  send_timestamp = from_be_bytes-to_be_bytes 16 h.send_timestamp (omega arith) i;
}

pub from_bytes-layout :
    (h : LvErasureInformation) (rest : List ℕ) → IsHeader h → from_bytes (layout h ++ rest) ≡ ok h
from_bytes-layout h rest v =
    from_bytes-parse (layout h ++ rest)
      (omega (arith, length-append (layout h) rest, length-layout h v.four_sizes))
    ∙ ap ok (parse-layout h h.pkt_sizes rest v)

-- On every header whose fields lie in the ranges of their types and every buffer of at least 37
-- bytes, `to_bytes` succeeds, keeps the length of the buffer and all bytes from 37 on, and
-- `from_bytes` reads the same header back.
pub from_bytes-to_bytes :
    (h : LvErasureInformation) (buf : List ℕ)
    → IsHeader h
    → no_bytes ≤ length buf
    → (out : List ℕ) × (to_bytes h buf ≡ ok out)
      × (length out ≡ length buf)
      × (drop no_bytes out ≡ drop no_bytes buf)
      × (from_bytes out ≡ ok h)
from_bytes-to_bytes h buf v fits =
    let kept = drop no_bytes buf in
    let width = length-layout h v.four_sizes in
    (
      layout h ++ kept,
      to_bytes_lem h buf v.four_sizes fits,
      omega (arith, length-append (layout h) kept, width, length-drop no_bytes buf),
      ap (λ n. drop n (layout h ++ kept)) (sym width) ∙ drop-append (layout h) kept,
      from_bytes-layout h kept v,
    )

-- On a buffer shorter than the 37 bytes of a header both functions panic, whatever the header and
-- the bytes are.
pub short_buffer :
    (h : LvErasureInformation) (buf : List ℕ)
    → IsHeader h
    → length buf < no_bytes
    → (to_bytes h buf ≡ panic) × (from_bytes buf ≡ panic)
short_buffer h buf v short = (to_bytes-panic h buf v.four_sizes short, from_bytes-panic buf short)
