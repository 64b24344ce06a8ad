-- ===== src/Codec.antt =====
-- The crate `reed_solomon_simd`, which is not part of the repository: its encoder and its decoder
-- are a parameter, with the behaviour that its documentation states and the program relies on.
use lightvideo.Prelude.{
  ℕ, ◌+◌, ◌≤◌, ◌<◌, ◌≡◌, ◌≢◌, List, [], ◌∷◌, ◌++◌, length, get_elem?, All, Option, none, some, Bool,
  false, ◌==◌, ◌||◌, if◌then◌else◌,
}
use lightvideo.Net.Packet.{simd_packet_size, ec_ratio_regular_packets, ec_ratio_recovery_packets}

abbrev pub Shard : Type 0
Shard = List ℕ

-- Shards under their indices.
abbrev pub Indexed : Type 0
Indexed = List (ℕ × Shard)

abbrev pub has_index : ℕ → Indexed → Bool
has_index k [] = false
has_index k ((j, s) ∷ xs) = j == k || has_index k xs

-- The operations. `none` is an `Err`, which leaves the encoder or decoder as it was. The value of
-- `encode` borrows the encoder, which is empty again once that value is dropped: the second part.
pub record ErasureCode : Type 1 where
  pub Enc : Type 0
  pub new_encoder : Enc
  pub add_original : Enc → Shard → Option Enc
  pub encode : Enc → Option (List Shard × Enc)
  pub ShardDecoder : Type 0
  pub new_decoder : ShardDecoder
  pub add_original_shard : ShardDecoder → ℕ → Shard → Option ShardDecoder
  pub add_recovery_shard : ShardDecoder → ℕ → Shard → Option ShardDecoder
  pub decode : ShardDecoder → Option Indexed × ShardDecoder
  pub reset : ShardDecoder → Option ShardDecoder

module _ (code : ErasureCode) where
  open code use {Enc, new_encoder, add_original, encode}

  -- The encoder, made for 4 original shards and 2 recovery shards of `simd_packet_size` bytes.
  -- `originals` is what it has been given, `recovery` the code.
  pub record EncoderLaws : Type 0 where
    pub originals : Enc → List Shard
    pub recovery : List Shard → List Shard
    pub length-recovery : (d : List Shard) → length (recovery d) ≡ ec_ratio_recovery_packets
    pub shards-recovery : (d : List Shard) → All (λ s. length s ≡ simd_packet_size) (recovery d)
    pub new_is_empty : originals new_encoder ≡ []
    pub add_accepts :
        (e : Enc) (s : Shard)
        → length (originals e) < ec_ratio_regular_packets
        → length s ≡ simd_packet_size
        → (e' : Enc) × (add_original e s ≡ some e') × (originals e' ≡ originals e ++ s ∷ [])
    pub encode_full :
        (e : Enc)
        → length (originals e) ≡ ec_ratio_regular_packets
        → (e' : Enc) × (encode e ≡ some (recovery (originals e), e')) × (originals e' ≡ [])
    pub encode_partial :
        (e : Enc) → length (originals e) ≢ ec_ratio_regular_packets → encode e ≡ none

-- Every shard stands under its index in the data.
abbrev pub Agrees : Indexed → List Shard → Type 0
Agrees [] data' = Unit {0}
Agrees ((k, s) ∷ xs) data' = (get_elem? data' k ≡ some s) × Agrees xs data'

-- The shards from index `k` on that are not among those received.
abbrev pub missing : Indexed → ℕ → List Shard → Indexed
missing got k [] = []
missing got k (s ∷ data') =
    if has_index k got then missing got (k + 1) data' else (k, s) ∷ missing got (k + 1) data'

module _ (code : ErasureCode) (recovery : List Shard → List Shard) where
  open code use {ShardDecoder, new_decoder, add_original_shard, add_recovery_shard, decode, reset}

  -- The decoder for the same code. `originals` and `recoveries` are what it has been given. From
  -- any four shards of a block it restores the missing original ones, in the order of their indices.
  pub record DecoderLaws : Type 0 where
    pub originals : ShardDecoder → Indexed
    pub recoveries : ShardDecoder → Indexed
    pub new_originals : originals new_decoder ≡ []
    pub new_recoveries : recoveries new_decoder ≡ []
    pub reset_empties :
        (d : ShardDecoder)
        → (d' : ShardDecoder) × (reset d ≡ some d') × (originals d' ≡ []) × (recoveries d' ≡ [])
    pub original_accepted :
        (d : ShardDecoder) (k : ℕ) (s : Shard)
        → k < ec_ratio_regular_packets
        → length s ≡ simd_packet_size
        → has_index k (originals d) ≡ false
        → (d' : ShardDecoder) × (add_original_shard d k s ≡ some d')
          × (originals d' ≡ originals d ++ ((k, s) ∷ []))
          × (recoveries d' ≡ recoveries d)
    pub recovery_accepted :
        (d : ShardDecoder) (k : ℕ) (s : Shard)
        → k < ec_ratio_recovery_packets
        → length s ≡ simd_packet_size
        → has_index k (recoveries d) ≡ false
        → (d' : ShardDecoder) × (add_recovery_shard d k s ≡ some d')
          × (originals d' ≡ originals d)
          × (recoveries d' ≡ recoveries d ++ ((k, s) ∷ []))
    pub decode_restores :
        (d : ShardDecoder) (data' : List Shard)
        → length data' ≡ ec_ratio_regular_packets
        → All (All (λ b. b < 256)) data'
        → All (λ s. length s ≡ simd_packet_size) data'
        → Agrees (originals d) data'
        → Agrees (recoveries d) (recovery data')
        → ec_ratio_regular_packets ≤ length (originals d) + length (recoveries d)
        → 1 ≤ length (recoveries d)
        → (decode d).0 ≡ some (missing (originals d) 0 data')
    pub decode_refuses :
        (d : ShardDecoder)
        → length (originals d) + length (recoveries d) < ec_ratio_regular_packets
        → (decode d).0 ≡ none
