-- ===== src/Statistics/Laws.antt =====
-- What the statistics of statistics/src/statistics.rs and statistics/src/collector.rs keep.
use Prim.Native.String.{String}
use text.Mathlib.Text.{◌==◌}
use text.Mathlib.TextEquality.{eq_iff}
use mathlib.Core.List.{foldl}
use lightvideo.Prelude.{
  ℕ, ◌+◌, ◌≡◌, inl, inr, refl, ◌∙◌, List, [], ◌∷◌, ◌++◌, map, All, Bool, true, false, ◌||◌, some,
  if◌then◌else◌, arith, ok, Bool-cases, Option-cases,
}
use lightvideo.Statistics.{
  LvDataPoint, time_elapsed, float_value, LvStoredData, stored_xy, stored_series, stored_count,
  LvStatistics, lookup, insert, fresh, register_data, update_data, store_point, Line,
  index_time_header, index_value_header, xy_header, index_nanos, index_float, total, xy_row,
}
use lightvideo.Statistics.Collector.{
  LvStatisticsMessage, register, update, quit, receiving, collect,
}

-- A map answers with the entry put in last.
pub lookup-insert :
    (added asked : String) (data' : LvStoredData) (stat : LvStatistics)
    → lookup asked (insert added data' stat)
      ≡ (if added == asked then some data' else lookup asked stat)
unfolding lookup insert
lookup-insert added asked data' [] = refl
lookup-insert added asked data' (entry ∷ rest) =
    let later = lookup-insert added asked data' rest in
    ground (arith, later, eq_iff (entry.0) added, eq_iff (entry.0) asked, eq_iff added asked)

-- An update of `k` changes what `k` holds and nothing else.
lookup-update_data :
    (k j : String) (p : LvDataPoint) (v : LvStoredData) (m : LvStatistics)
    → lookup j m ≡ some v
    → lookup j (update_data k p m) ≡ some (if k == j then store_point v p else v)
unfolding update_data
lookup-update_data k j p v m h = elim (Bool-cases (k == j)) [
  | inl same ↦
      let at : lookup k m ≡ some v = rw ((eq_iff k j).0 same) h in
      rw (at, update_data) (lookup-insert k j (store_point v p) m ∙ rw same)
  | inr other ↦ elim (Option-cases (lookup k m)) [
    | inl missing ↦ rw (missing, update_data) (rw other h)
    | inr (w, found) ↦ rw (found, update_data) (lookup-insert k j (store_point w p) m ∙ rw other h)
  ]
]

-- The points that a run of messages sends to `name`, in order.
abbrev pub points : String → List LvStatisticsMessage → List LvDataPoint
points name [] = []
points name (update k p ∷ ms) = if k == name then p ∷ points name ms else points name ms
points name (register k t ∷ ms) = points name ms
points name (quit ∷ ms) = points name ms

-- A message that neither ends the thread nor registers `name` anew.
abbrev pub Plain : String → LvStatisticsMessage → Type 0
Plain name (register k t) = (k == name) ≡ false
Plain name (update k p) = Unit {0}
Plain name quit = ⊥

-- Over any run of messages without `Quit` and without a new registration of `name`, the thread
-- does not panic and keeps receiving, and `name`, which held `v`, holds `v` with exactly the points
-- of its own updates stored in order.
pub collect_lem :
    (name : String) (ms : List LvStatisticsMessage) (v : LvStoredData) (stat : LvStatistics)
    → lookup name stat ≡ some v
    → All (Plain name) ms
    → (stat' : LvStatistics) × (collect ms stat ≡ ok (receiving stat'))
      × (lookup name stat' ≡ some (foldl store_point v (points name ms)))
unfolding collect
collect_lem name [] v stat h plain = (stat, refl, h)
collect_lem name (quit ∷ ms) v stat h plain = absurd plain.0
collect_lem name (register k t ∷ ms) v stat h plain =
    collect_lem name ms v (register_data k t stat)
      (lookup-insert k name (fresh t) stat ∙ rw (plain.0) h) plain.1
collect_lem name (update k p ∷ ms) v stat h plain = elim (Bool-cases (k == name)) [
  | inl same ↦ rw same (
      collect_lem name ms (store_point v p) (update_data k p stat)
        (lookup-update_data k name p v stat h ∙ rw same) plain.1)
  | inr other ↦ rw other (
      collect_lem name ms v (update_data k p stat) (lookup-update_data k name p v stat h ∙ rw other)
        plain.1)
]

-- All points of a series are durations, or all are floats.
abbrev pub all_elapsed : List LvDataPoint → Bool
all_elapsed [] = true
all_elapsed (time_elapsed d ∷ ps) = all_elapsed ps
all_elapsed (p ∷ ps) = false

abbrev pub all_float : List LvDataPoint → Bool
all_float [] = true
all_float (float_value v ∷ ps) = all_float ps
all_float (p ∷ ps) = false

abbrev pub is_uniform : LvStoredData → Bool
is_uniform (stored_series ps) = all_elapsed ps || all_float ps
is_uniform (stored_xy ps) = true
is_uniform (stored_count n) = true

-- The header that belongs to the first point, and the line of the point at an index; points of
-- another kind have none.
abbrev header_of : LvDataPoint → List Line
header_of (time_elapsed d) = index_time_header ∷ []
header_of (float_value v) = index_value_header ∷ []
header_of p = []

abbrev row_of : ℕ → LvDataPoint → List Line
row_of i (time_elapsed d) = index_nanos i d ∷ []
row_of i (float_value v) = index_float i v ∷ []
row_of i p = []

abbrev rows_of : ℕ → List LvDataPoint → List Line
rows_of i [] = []
rows_of i (p ∷ ps) = row_of i p ++ rows_of (i + 1) ps

abbrev pair_row : ℕ × ℕ → Line
pair_row (x, y) = xy_row x y

-- A header and a line for each point, if there is one.
abbrev pub written : LvStoredData → List Line
written (stored_series []) = []
written (stored_series (p ∷ ps)) = header_of p ++ rows_of 0 (p ∷ ps)
written (stored_xy []) = []
written (stored_xy (p ∷ ps)) = xy_header ∷ map pair_row (p ∷ ps)
written (stored_count n) = total n ∷ []
