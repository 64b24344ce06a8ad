-- ===== src/System/VideoPath/Padding.antt =====
-- What a server cuts off a recovery shard in server/src/packager/packet.rs, and what the client
-- fills up in client/src/decoder/video.rs.
use lightvideo.Prelude.{
  ℕ, ◌*◌, ◌≤◌, List, zero, suc, ◌-◌, ◌≡◌, refl, ap, ap₂, sym, ◌∙◌, [], ◌∷◌, ◌++◌, length, take,
  drop, replicate, All, arith,
}
use lightvideo.Net.Packet.{simd_packet_size}
use lightvideo.Codec.{Shard}
use lightvideo.Client.Video.Block.{filled}

-- The code works on chunks of this many bytes.
abbrev pub chunk_size : ℕ
chunk_size = 64

-- Nothing but zeros from the `n`-th byte on.
abbrev pub ZeroFrom : ℕ → Shard → Type 0
ZeroFrom n s = All (λ b. b ≡ 0) (drop n s)

zeros : (s : Shard) (n : ℕ) → All (λ b. b ≡ 0) s → n ≡ length s → replicate n 0 ≡ s
zeros [] n v e = rw e refl
zeros (x ∷ s) n v e = rw e (ap₂ ◌∷◌ (sym v.0) (zeros s (length s) v.1 refl))

refilled :
    (n : ℕ) (s : Shard) (m : ℕ)
    → ZeroFrom n s
    → length s ≡ m
    → take n s ++ replicate (m - length (take n s)) 0 ≡ s
refilled zero s m v e = zeros s (m - 0) v (omega (arith, e))
refilled (suc n) [] m v e = let none_left : m - 0 ≡ 0 = omega (arith, e) in rw none_left refl
refilled (suc n) (x ∷ s) m v e =
    let less : m - suc (length (take n s)) ≡ length s - length (take n s) = omega (arith, e) in
    ap (λ xs. x ∷ xs) (ap (λ k. take n s ++ replicate k 0) less ∙ refilled n s (length s) v refl)

-- A shard of which only zeros are cut off is the shard again once it is filled up.
pub filled-take :
    (n : ℕ) (s : Shard) → ZeroFrom n s → length s ≡ simd_packet_size → filled (take n s) ≡ s
filled-take n s v e = refilled n s simd_packet_size v e

pub zeros-ZeroFrom : (n k : ℕ) → ZeroFrom n (replicate k 0)
zeros-ZeroFrom zero zero = tt
zeros-ZeroFrom zero (suc k) = (refl, zeros-ZeroFrom zero k)
zeros-ZeroFrom (suc n) zero = tt
zeros-ZeroFrom (suc n) (suc k) = zeros-ZeroFrom n k

-- Bytes with zeros behind them.
pub padded-ZeroFrom : (xs : List ℕ) (k n : ℕ) → length xs ≤ n → ZeroFrom n (xs ++ replicate k 0)
padded-ZeroFrom [] k n le = zeros-ZeroFrom n k
padded-ZeroFrom (x ∷ xs) k zero le = absurd (omega arith)
padded-ZeroFrom (x ∷ xs) k (suc n) le = padded-ZeroFrom xs k n (omega arith)

-- Of a code that works chunk by chunk and is linear: chunks of zeros in all originals have chunks of
-- zeros as their code.
abbrev pub ChunkWise : (List Shard → List Shard) → Type 0
ChunkWise recovery =
    (n : ℕ) (ds : List Shard)
    → All (ZeroFrom (chunk_size * n)) ds
    → All (ZeroFrom (chunk_size * n)) (recovery ds)
