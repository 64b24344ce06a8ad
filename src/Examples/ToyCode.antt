-- ===== src/Examples/ToyCode.antt =====
-- A small erasure code that meets the laws: a recovery shard holds all four original shards, packed
-- digit by digit.
use lightvideo.Prelude.{
  ℕ, zero, suc, ◌+◌, ◌*◌, ◌/◌, ◌%◌, ◌<◌, ◌≤◌, ◌≡◌, refl, ap, ap₂, sym, ◌∙◌, List, [], ◌∷◌, ◌++◌,
  length, Option, none, some, ltb, leb, ◌==◌, ◌&&◌, if◌then◌else◌, arith, All, lt→ltb, le→leb,
  lt→leb, eq→==, ne→==, not, get_elem?,
}
use lightvideo.Net.Packet.{simd_packet_size}
use lightvideo.Codec.{
  ErasureCode, Shard, Indexed, EncoderLaws, has_index, DecoderLaws, missing, Agrees,
}

abbrev pub rest : Shard → Shard
rest [] = []
rest (x ∷ xs) = xs

abbrev pub first : Shard → ℕ
first [] = 0
first (x ∷ xs) = x

abbrev pub column : List Shard → ℕ
column [] = 0
column (s ∷ ds) = first s + 256 * column ds

abbrev pub rests : List Shard → List Shard
rests [] = []
rests (s ∷ ds) = rest s ∷ rests ds

unfoldable pub mixed : ℕ → List Shard → Shard
mixed zero ds = []
mixed (suc n) ds = column ds ∷ mixed n (rests ds)

pub length-mixed : (n : ℕ) (ds : List Shard) → length (mixed n ds) ≡ n
unfolding mixed
length-mixed zero ds = refl
length-mixed (suc n) ds = ap suc (length-mixed n (rests ds))

-- The digit `k` of each entry.
unfoldable pub digit : ℕ → ℕ → ℕ
digit zero x = x % 256
digit (suc k) x = digit k (x / 256)

unfoldable pub unmixed : ℕ → Shard → Shard
unmixed k [] = []
unmixed k (x ∷ xs) = digit k x ∷ unmixed k xs

pub record ToyDecoder : Type 0 where
  pub given : Indexed
  pub recovered : Indexed

unfoldable pub restored : Indexed → ℕ → ℕ → Shard → Indexed
restored got k zero r = []
restored got k (suc n) r =
    if has_index k got
    then restored got (k + 1) n r
    else (k, unmixed k r) ∷ restored got (k + 1) n r

unfoldable pub decode_toy : ToyDecoder → Option Indexed
unfolding restored unmixed digit
decode_toy d =
    if leb 4 (length d.given + length d.recovered)
    then elim d.recovered [ [] ↦ none | r ∷ more ↦ some (restored d.given 0 4 r.1) ]
    else none

abbrev pub toy : ErasureCode
toy = record {
  Enc = List Shard;
  new_encoder = [];
  add_original = λ e s.
      if ltb (length e) 4 && (length s == simd_packet_size) then some (e ++ (s ∷ [])) else none;
  encode = λ e.
      if length e == 4
      then some (mixed simd_packet_size e ∷ mixed simd_packet_size e ∷ [], [])
      else none;
  ShardDecoder = ToyDecoder;
  new_decoder = record { given = []; recovered = [] };
  add_original_shard = λ d k s.
      if ltb k 4 && (length s == simd_packet_size && not (has_index k d.given))
      then some (record d { given = d.given ++ ((k, s) ∷ []) })
      else none;
  add_recovery_shard = λ d k s.
      if ltb k 2 && (length s == simd_packet_size && not (has_index k d.recovered))
      then some (record d { recovered = d.recovered ++ ((k, s) ∷ []) })
      else none;
  decode = λ d. (decode_toy d, record { given = []; recovered = [] });
  reset = λ d. some (record { given = []; recovered = [] });
}

abbrev pub toy_recovery : List Shard → List Shard
toy_recovery d = mixed simd_packet_size d ∷ mixed simd_packet_size d ∷ []

abbrev pub toy_encoder_laws : EncoderLaws toy
toy_encoder_laws = record {
  originals = λ e. e;
  recovery = toy_recovery;
  length-recovery = λ d. refl;
  shards-recovery = λ d. (length-mixed simd_packet_size d, (length-mixed simd_packet_size d, tt));
  new_is_empty = refl;
  add_accepts = λ e s h k.
      (e ++ (s ∷ []), rw (lt→ltb (length e) 4 h, eq→== (length s) simd_packet_size k), refl);
  encode_full = λ e h. ([], rw (eq→== (length e) 4 h), refl);
  encode_partial = λ e h. rw (ne→== (length e) 4 h);
}

abbrev Bytes : List Shard → Type 0
Bytes = All (All (λ b. b < 256))

abbrev Sized : ℕ → List Shard → Type 0
Sized n = All (λ s. length s ≡ n)

rests-Bytes : (ds : List Shard) → Bytes ds → Bytes (rests ds)
rests-Bytes [] v = tt
rests-Bytes ([] ∷ ds) v = (tt, rests-Bytes ds v.1)
rests-Bytes ((x ∷ s) ∷ ds) v = (v.0.1, rests-Bytes ds v.1)

rests-Sized : (n : ℕ) (ds : List Shard) → Sized (suc n) ds → Sized n (rests ds)
rests-Sized n [] v = tt
rests-Sized n ([] ∷ ds) v = absurd (omega arith)
rests-Sized n ((x ∷ s) ∷ ds) v = (omega arith, rests-Sized n ds v.1)

get-rests :
    (k : ℕ) (ds : List Shard) (x : ℕ) (s : Shard)
    → get_elem? ds k ≡ some (x ∷ s)
    → get_elem? (rests ds) k ≡ some s
get-rests k [] x s h = cc
get-rests zero (d ∷ ds) x s h = ap (λ o. elim o [ none ↦ none | some t ↦ some (rest t) ]) h
get-rests (suc k) (d ∷ ds) x s h = get-rests k ds x s h

first-lt : (s : Shard) → All (λ b. b < 256) s → first s < 256
first-lt [] v = omega arith
first-lt (x ∷ s) v = v.0

digit-column :
    (k : ℕ) (ds : List Shard) (s : Shard)
    → Bytes ds
    → get_elem? ds k ≡ some s
    → digit k (column ds) ≡ first s
unfolding digit
digit-column k [] s v h = cc
digit-column zero (d ∷ ds) s v h =
    omega (arith, first-lt d v.0, ap {B = ℕ} (λ o. elim o [ none ↦ 0 | some t ↦ first t ]) h)
digit-column (suc k) (d ∷ ds) s v h =
    ap (digit k) (omega (arith, first-lt d v.0)) ∙ digit-column k ds s v.1 h

get-Sized :
    (n k : ℕ) (ds : List Shard) (s : Shard) → Sized n ds → get_elem? ds k ≡ some s → length s ≡ n
get-Sized n k [] s v h = cc
get-Sized n zero (d ∷ ds) s v h =
    omega (arith, v.0, ap {B = ℕ} (λ o. elim o [ none ↦ 0 | some t ↦ length t ]) h)
get-Sized n (suc k) (d ∷ ds) s v h = get-Sized n k ds s v.1 h

unmixed-mixed :
    (n k : ℕ) (ds : List Shard) (s : Shard)
    → Bytes ds
    → Sized n ds
    → get_elem? ds k ≡ some s
    → unmixed k (mixed n ds) ≡ s
unfolding unmixed mixed
unmixed-mixed zero k ds [] v w h = refl
unmixed-mixed zero k ds (x ∷ s) v w h = absurd (omega (arith, get-Sized 0 k ds (x ∷ s) w h))
unmixed-mixed (suc n) k ds [] v w h = absurd (omega (arith, get-Sized (suc n) k ds [] w h))
unmixed-mixed (suc n) k ds (x ∷ s) v w h =
    ap₂ ◌∷◌ (digit-column k ds (x ∷ s) v h) (
      unmixed-mixed n k (rests ds) s (rests-Bytes ds v) (rests-Sized n ds w) (get-rests k ds x s h))

abbrev Matches : Shard → ℕ → List Shard → Type 0
Matches r k [] = Unit {0}
Matches r k (s ∷ suffix) = (unmixed k r ≡ s) × Matches r (k + 1) suffix

restored-missing :
    (got : Indexed) (k : ℕ) (suffix : List Shard) (r : Shard)
    → Matches r k suffix
    → restored got k (length suffix) r ≡ missing got k suffix
unfolding restored
restored-missing got k [] r m = refl
restored-missing got k (s ∷ suffix) r m = rw (m.0, restored-missing got (k + 1) suffix r m.1)

all_match :
    (ds : List Shard)
    → length ds ≡ 4
    → Bytes ds
    → Sized simd_packet_size ds
    → Matches (mixed simd_packet_size ds) 0 ds
all_match [] n v w = tt
all_match (a ∷ []) n v w = absurd (omega arith)
all_match (a ∷ b ∷ []) n v w = absurd (omega arith)
all_match (a ∷ b ∷ c ∷ []) n v w = absurd (omega arith)
all_match (a ∷ b ∷ c ∷ d ∷ e ∷ es) n v w = absurd (omega arith)
all_match (a ∷ b ∷ c ∷ d ∷ []) n v w =
    let ds : List Shard = a ∷ b ∷ c ∷ d ∷ [] in
    (
      unmixed-mixed simd_packet_size 0 ds a v w refl,
      (
        unmixed-mixed simd_packet_size 1 ds b v w refl,
        (
          unmixed-mixed simd_packet_size 2 ds c v w refl,
          (unmixed-mixed simd_packet_size 3 ds d v w refl, tt),
        ),
      ),
    )

only_mix : (j : ℕ) (m r : Shard) → get_elem? (m ∷ m ∷ []) j ≡ some r → r ≡ m
only_mix zero m r h = cc
only_mix (suc zero) m r h = cc
only_mix (suc (suc j)) m r h = cc

decode_toy-restores :
    (given recovered : Indexed) (ds : List Shard)
    → length ds ≡ 4
    → Bytes ds
    → Sized simd_packet_size ds
    → Agrees recovered (toy_recovery ds)
    → 4 ≤ length given + length recovered
    → 1 ≤ length recovered
    → decode_toy (record { given = given; recovered = recovered }) ≡ some (missing given 0 ds)
unfolding decode_toy
decode_toy-restores given [] ds n v w a enough more = absurd (omega arith)
decode_toy-restores given ((j, r) ∷ rs) ds n v w a enough more =
    rw (le→leb 4 (length given + suc (length rs)) enough) (
      ap some (
        ap (λ x. restored given 0 4 x) (only_mix j (mixed simd_packet_size ds) r a.0)
        ∙ ap (λ k. restored given 0 k (mixed simd_packet_size ds)) (sym n)
        ∙ restored-missing given 0 ds (mixed simd_packet_size ds) (all_match ds n v w)))

decode_toy-refuses :
    (d : ToyDecoder) → length d.given + length d.recovered < 4 → decode_toy d ≡ none
unfolding decode_toy
decode_toy-refuses d h = rw (lt→leb 4 (length d.given + length d.recovered) h)

pub toy_decoder_laws : DecoderLaws toy toy_recovery
toy_decoder_laws = record {
  originals = λ d. d.given;
  recoveries = λ d. d.recovered;
  new_originals = refl;
  new_recoveries = refl;
  reset_empties = λ d. (record { given = []; recovered = [] }, refl, refl, refl);
  original_accepted = λ d k s hk hs fresh. (
    record d { given = d.given ++ ((k, s) ∷ []) },
    rw (lt→ltb k 4 hk, eq→== (length s) simd_packet_size hs, fresh),
    refl,
    refl,
  );
  recovery_accepted = λ d k s hk hs fresh. (
    record d { recovered = d.recovered ++ ((k, s) ∷ []) },
    rw (lt→ltb k 2 hk, eq→== (length s) simd_packet_size hs, fresh),
    refl,
    refl,
  );
  decode_restores =
      λ d ds n v w a b enough more. decode_toy-restores d.given d.recovered ds n v w b enough more;
  decode_refuses = λ d h. decode_toy-refuses d h;
}
