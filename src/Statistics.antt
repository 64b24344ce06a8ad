-- ===== src/Statistics.antt =====
-- The crate `statistics`: statistics/src/statistics.rs here, statistics/src/collector.rs in the
-- child `Collector`. An f32 is its bit pattern, a `Duration` its number of nanoseconds.
pub mod Collector
pub mod Laws
use Prim.Native.String.{String}
use text.Mathlib.Text.{◌==◌}
use lightvideo.Prelude.{
  ℕ, zero, suc, ◌+◌, ◌≡◌, List, [], ◌∷◌, ◌++◌, Option, none, some, if◌then◌else◌, Outcome, ok,
  panic, ◌>>=◌,
}

pub data LvDataType : Type 0 where
  xy_data time_series aggregate : LvDataType

pub data LvDataPoint : Type 0 where
  xy_value : ℕ → ℕ → LvDataPoint
  time_elapsed float_value : ℕ → LvDataPoint
  increment : LvDataPoint

pub data LvStoredData : Type 0 where
  stored_xy : List (ℕ × ℕ) → LvStoredData
  stored_series : List LvDataPoint → LvStoredData
  stored_count : ℕ → LvStoredData

-- The hash map, as an association list with one entry to a key.
abbrev pub LvStatistics : Type 0
LvStatistics = List (String × LvStoredData)

unfoldable pub lookup : String → LvStatistics → Option LvStoredData
lookup name [] = none
lookup name (entry ∷ rest) = if entry.0 == name then some (entry.1) else lookup name rest

unfoldable pub insert : String → LvStoredData → LvStatistics → LvStatistics
insert name data' [] = (name, data') ∷ []
insert name data' (entry ∷ rest) =
    if entry.0 == name then (name, data') ∷ rest else entry ∷ insert name data' rest

abbrev pub fresh : LvDataType → LvStoredData
fresh xy_data = stored_xy []
fresh time_series = stored_series []
fresh aggregate = stored_count 0

unfoldable pub register_data : String → LvDataType → LvStatistics → LvStatistics
unfolding insert
register_data name t m = insert name (fresh t) m

-- What an update makes of the stored value; a point that does not fit is logged and dropped. A
-- counter is a `usize`, which does not reach its limit.
unfoldable pub store_point : LvStoredData → LvDataPoint → LvStoredData
store_point (stored_series s) increment = stored_series s
store_point (stored_series s) p = stored_series (s ++ (p ∷ []))
store_point (stored_count n) increment = stored_count (n + 1)
store_point (stored_count n) p = stored_count n
store_point (stored_xy s) (xy_value x y) = stored_xy (s ++ ((x, y) ∷ []))
store_point (stored_xy s) p = stored_xy s

unfoldable pub update_data : String → LvDataPoint → LvStatistics → LvStatistics
unfolding lookup insert store_point
update_data name p m = elim (lookup name m) [ none ↦ m | some v ↦ insert name (store_point v p) m ]

-- A line of an output file.
pub data Line : Type 0 where
  index_time_header index_value_header xy_header : Line
  index_nanos index_float xy_row : ℕ → ℕ → Line
  total : ℕ → Line

-- The loops over a series, `i` being the index; a point of another kind is a panic.
unfoldable pub time_lines : ℕ → List LvDataPoint → Outcome (List Line)
time_lines i [] = ok []
time_lines i (time_elapsed d ∷ ps) = time_lines (i + 1) ps >>= λ rest. ok (index_nanos i d ∷ rest)
time_lines i (xy_value x y ∷ ps) = panic
time_lines i (float_value v ∷ ps) = panic
time_lines i (increment ∷ ps) = panic

unfoldable pub float_lines : ℕ → List LvDataPoint → Outcome (List Line)
float_lines i [] = ok []
float_lines i (float_value v ∷ ps) = float_lines (i + 1) ps >>= λ rest. ok (index_float i v ∷ rest)
float_lines i (xy_value x y ∷ ps) = panic
float_lines i (time_elapsed d ∷ ps) = panic
float_lines i (increment ∷ ps) = panic

unfoldable pub xy_lines : List (ℕ × ℕ) → List Line
xy_lines [] = []
xy_lines ((x, y) ∷ ps) = xy_row x y ∷ xy_lines ps

-- The lines of one entry's file: the first point of a series decides its format.
unfoldable pub file_lines : LvStoredData → Outcome (List Line)
unfolding time_lines float_lines xy_lines
file_lines (stored_series []) = ok []
file_lines (stored_series (time_elapsed d ∷ ps)) = do
  rows ← time_lines 0 (time_elapsed d ∷ ps)
  ok (index_time_header ∷ rows)
file_lines (stored_series (float_value v ∷ ps)) = do
  rows ← float_lines 0 (float_value v ∷ ps)
  ok (index_value_header ∷ rows)
file_lines (stored_series (xy_value x y ∷ ps)) = panic
file_lines (stored_series (increment ∷ ps)) = panic
file_lines (stored_count n) = ok (total n ∷ [])
file_lines (stored_xy []) = ok []
file_lines (stored_xy (p ∷ ps)) = ok (xy_header ∷ xy_lines (p ∷ ps))

-- `aggregate`: a file for each entry. The file system takes every write.
unfoldable pub aggregate_files : LvStatistics → Outcome (List (String × List Line))
unfolding file_lines
aggregate_files [] = ok []
aggregate_files ((name, v) ∷ m) = do
  lines ← file_lines v
  files ← aggregate_files m
  ok ((name, lines) ∷ files)
