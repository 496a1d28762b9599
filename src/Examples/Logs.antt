-- ===== src/Examples/Logs.antt =====
-- The theorems on the log store, at lines of a small run.
use go_web_search.Prelude.{◌≡◌, refl, true, List, [], ◌∷◌}
use go_web_search.Strings.{runes}
use go_web_search.Log.{
  LogEntry, LogStore, open_log_store, write, receive, flush_tick, close, has_room, line_at,
}
use go_web_search.Log.Kept.{IsSound, lines, accept}
use go_web_search.Log.Closing.{
  Run, opened, wrote, received, ticked, IsClosed, Run-IsSound, close_lem,
}
use go_web_search.Log.Lost.{flush_tick_loses}
use go_web_search.Examples.Data.{world}

-- Two lines are written; the goroutine has received the first, and the ticker has flushed it.
abbrev store0 : LogStore
store0 = open_log_store world

abbrev store1 : LogStore
store1 = write (runes "r") (runes "info") (runes "job") (runes "one") store0

abbrev store2 : LogStore
store2 = write (runes "r") (runes "info") (runes "job") (runes "two") (flush_tick (receive store1))

abbrev accepted_lines : List LogEntry
accepted_lines =
    accept (has_room (flush_tick (receive store1)))
      (line_at (runes "r") (runes "info") (runes "job") (runes "two") (flush_tick (receive store1)))
      (accept (has_room store0)
        (line_at (runes "r") (runes "info") (runes "job") (runes "one") store0) [])

two_lines : Run world 2 accepted_lines store2
unfolding open_log_store write flush_tick receive
two_lines =
    wrote
      (ticked (received (wrote opened (runes "r") (runes "info") (runes "job") (runes "one") refl)))
      (runes "r") (runes "info") (runes "job") (runes "two") refl

Run-IsSound_example : IsSound (lines world) 2 accepted_lines store2
Run-IsSound_example = Run-IsSound world 2 accepted_lines store2 refl two_lines

close_lem_example : IsClosed (lines world) 2 accepted_lines (close store2)
close_lem_example = close_lem world 2 accepted_lines store2 refl two_lines

-- A line that was received, over a driver that fails next.
abbrev failing : LogStore
failing = record store0 {
  batch =
      record {
        run_id = [];
        level = runes "info";
        source = runes "job";
        message = runes "one";
        at = record { secs = 5; tail = [] };
      }
      ∷ [];
  db = record world { faults = true ∷ [] };
}

flush_tick_loses_example :
    ((flush_tick failing).batch ≡ [])
    × ((flush_tick failing).entries ≡ failing.entries)
    × (lines (flush_tick failing).db ≡ lines failing.db)
    × ((flush_tick failing).dropped ≡ failing.dropped)
unfolding open_log_store
flush_tick_loses_example = flush_tick_loses failing _ [] [] refl refl refl
