-- ===== src/Statistics/Collector.antt =====
-- statistics/src/collector.rs: the channel to the thread that owns the statistics.
use Prim.Native.String.{String}
use lightvideo.Prelude.{List, [], ◌∷◌, Outcome, ok, ◌>>=◌}
use lightvideo.Statistics.{
  LvDataType, LvDataPoint, LvStatistics, Line, register_data, update_data, aggregate_files,
}

pub data LvStatisticsMessage : Type 0 where
  register : String → LvDataType → LvStatisticsMessage
  update : String → LvDataPoint → LvStatisticsMessage
  quit : LvStatisticsMessage

-- Where the thread stands after a run of messages: still receiving, or done, having written its
-- files and sent the quit signal.
pub data Collector : Type 0 where
  receiving : LvStatistics → Collector
  finished : List (String × List Line) → Collector

-- One message. `aggregate` returns no error here, and a panic ends the thread.
unfoldable pub receive : LvStatisticsMessage → LvStatistics → Outcome Collector
unfolding register_data update_data aggregate_files
receive (register s t) stat = ok (receiving (register_data s t stat))
receive (update s p) stat = ok (receiving (update_data s p stat))
receive quit stat = aggregate_files stat >>= λ files. ok (finished files)

-- The loop of `LVStatisticsCollector::start` over the messages that have been sent.
unfoldable pub collect : List LvStatisticsMessage → LvStatistics → Outcome Collector
unfolding receive
collect [] stat = ok (receiving stat)
collect (m ∷ ms) stat = do
  next ← receive m stat
  elim next [ finished files ↦ ok (finished files) | receiving stat' ↦ collect ms stat' ]
