-- ===== src/Net/Packet/Layout.antt =====
-- `LVErasureInformation::to_bytes` of net/src/packet.rs against the layout of the header.
use lightvideo.Prelude.{
  ℕ, ◌*◌, ◌≤◌, ◌<◌, ◌≡◌, refl, ap, ◌∙◌, sym, List, [], ◌∷◌, ◌++◌, length, drop, length-append,
  arith, ok, panic, ◌>>=◌, bind_assoc,
}
use lightvideo.Prelude.Bytes.{
  to_be_bytes, write_bytes, write_bytes-cons, write_bytes-append, write_bytes-panic, write_bytes-++,
  length-to_be_bytes,
}
use mathlib.Core.Path.{fun_ext}
use lightvideo.Net.Packet.{LvErasureInformation, flag_byte, write_sizes, to_bytes, no_bytes}

abbrev pub size_bytes : List ℕ → List ℕ
size_bytes [] = []
size_bytes (p ∷ ps) = to_be_bytes 2 p ++ size_bytes ps

-- The fields in order, big-endian.
abbrev pub layout : LvErasureInformation → List ℕ
layout h =
    to_be_bytes 4 h.block_id
    ++ (to_be_bytes 4 h.min_fragment_size
        ++ (flag_byte h.recovery_pkt
            ∷ (to_be_bytes 4 h.fragment_index
                ++ (size_bytes h.pkt_sizes ++ to_be_bytes 16 h.send_timestamp))))

write_sizes-bytes :
    (ps : List ℕ) (s : List ℕ × ℕ) → write_sizes ps s ≡ write_bytes (size_bytes ps) s
unfolding write_sizes write_bytes
write_sizes-bytes [] s = refl
write_sizes-bytes (p ∷ ps) s =
    ap (λ f. write_bytes (to_be_bytes 2 p) s >>= f) (fun_ext (write_sizes-bytes ps))
    ∙ sym (write_bytes-++ (to_be_bytes 2 p) (size_bytes ps) s)

-- `to_bytes` is one run of writes of the whole layout.
to_bytes-write :
    (h : LvErasureInformation) (buf : List ℕ)
    → to_bytes h buf ≡ (write_bytes (layout h) (buf, 0) >>= λ s. ok s.0)
unfolding to_bytes
to_bytes-write h buf = simp (
  write_bytes-++,
  write_sizes-bytes,
  bind_assoc,
  write_bytes-cons (flag_byte h.recovery_pkt) (
      to_be_bytes 4 h.fragment_index
      ++ (size_bytes h.pkt_sizes ++ to_be_bytes 16 h.send_timestamp)),
)

length-size_bytes : (ps : List ℕ) → length (size_bytes ps) ≡ 2 * length ps
length-size_bytes [] = omega arith
length-size_bytes (p ∷ ps) = omega (
  arith,
  length-append (to_be_bytes 2 p) (size_bytes ps),
  length-to_be_bytes 2 p,
  length-size_bytes ps,
)

pub length-layout :
    (h : LvErasureInformation) → length h.pkt_sizes ≡ 4 → length (layout h) ≡ no_bytes
length-layout h e =
    omega (arith, length-append {0}, length-to_be_bytes, length-size_bytes h.pkt_sizes)

-- On a buffer that holds the header, `to_bytes` puts the layout in front and keeps the rest.
pub to_bytes_lem :
    (h : LvErasureInformation) (buf : List ℕ)
    → length h.pkt_sizes ≡ 4
    → no_bytes ≤ length buf
    → to_bytes h buf ≡ ok (layout h ++ drop no_bytes buf)
to_bytes_lem h buf e fits =
    to_bytes-write h buf
    ∙ ap (λ m. m >>= λ s. ok s.0)
        (write_bytes-append (layout h) [] buf 0 refl (omega (arith, length-layout h e)))
    ∙ ap (λ n. ok (layout h ++ drop n buf)) (length-layout h e)

pub to_bytes-panic :
    (h : LvErasureInformation) (buf : List ℕ)
    → length h.pkt_sizes ≡ 4
    → length buf < no_bytes
    → to_bytes h buf ≡ panic
to_bytes-panic h buf e short =
    to_bytes-write h buf
    ∙ ap (λ m. m >>= λ s. ok s.0)
        (write_bytes-panic (layout h) buf 0 (omega arith) (omega (arith, length-layout h e)))
