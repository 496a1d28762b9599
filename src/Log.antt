-- ===== src/Log.antt =====
-- logstore.go: the log lines on their way to the log database. Callers put lines into a bounded
-- channel, and one goroutine takes them out and inserts them in batches.
--
-- The log store has a database of its own: the world in its state is that database's, of whose tables
-- only `logs` is used. A nullable text that is NULL is the empty text.
pub mod Kept
pub mod Closing
pub mod Lost
use go_web_search.Prelude.{
  ℕ, ◌+◌, Bool, true, false, not, ◌&&◌, ◌||◌, List, [], ◌∷◌, ◌++◌, String, if◌then◌else◌, ltb, leb,
  ◌==◌, length, take, drop, ℤ,
}
use go_web_search.Clock.{Stamp, format, text_lt}
use go_web_search.Strings.{Text, runes, text_eq, contains}
use go_web_search.Rows.{LogRow, Tables}
use go_web_search.Sql.{select, order_by}
use go_web_search.Store.{
  Result, World, M, ◌>>=◌, ◌>>◌, pure, exec, query, new_id, tick_from, transaction, clamp_page,
}

pub record LogEntry : Type 0 where
  pub run_id : Text
  pub level : Text
  pub source : Text
  pub message : Text
  pub at : Stamp

-- The channel `entries`, the goroutine's batch, and whether the goroutine has returned.
pub record LogStore : Type 0 where
  pub entries : List LogEntry
  pub closed : Bool
  pub dropped : ℕ
  pub batch : List LogEntry
  pub finished : Bool
  pub db : World

abbrev pub log_buffer_size : ℕ
log_buffer_size = 4096

abbrev pub log_batch_size : ℕ
log_batch_size = 128

-- openLogStore
unfoldable pub open_log_store : World → LogStore
open_log_store w = record {
  entries = [];
  closed = false;
  dropped = 0;
  batch = [];
  finished = false;
  db = w;
}

unfoldable pub log_row : String → LogEntry → LogRow
log_row id e = record {
  id = id;
  run_id = e.run_id;
  level = e.level;
  source = e.source;
  message = e.message;
  created_at = e.at;
}

abbrev pub add_line : LogRow → Tables → Tables × ℕ
add_line r t = (record t { logs = t.logs ++ r ∷ [] }, 1)

unfoldable pub insert_lines : List LogEntry → M (Unit {0})
unfolding log_row
insert_lines [] = pure tt
insert_lines (e ∷ es) = do id ← new_id; exec (add_line (log_row id e)); insert_lines es

-- flush: what the transaction returns is not looked at.
unfoldable pub flush : List LogEntry → World → World
unfolding insert_lines
flush [] w = w
flush (e ∷ es) w = (transaction (insert_lines (e ∷ es)) w).1

-- `l.flush(batch); batch = batch[:0]`
unfoldable pub flush_batch : LogStore → LogStore
flush_batch s = record s { batch = []; db = flush s.batch s.db }

-- A line that was received: the batch is flushed once it is full.
unfoldable pub keep_line : LogEntry → LogStore → LogStore
unfolding flush_batch
keep_line e s =
    let s' = record s { batch = s.batch ++ e ∷ [] } in
    if leb log_batch_size (length s'.batch) then flush_batch s' else s'

-- The receive of `run`: it blocks on an empty open channel, and ends on an empty closed one.
unfoldable pub receive_from : List LogEntry → LogStore → LogStore
unfolding keep_line flush_batch
receive_from [] s = if s.closed then record (flush_batch s) { finished = true } else s
receive_from (e ∷ es) s = keep_line e (record s { entries = es })

unfoldable pub receive : LogStore → LogStore
unfolding receive_from
receive s = if s.finished then s else receive_from s.entries s

-- The ticker of `run`; an empty batch is not flushed.
unfoldable pub flush_tick : LogStore → LogStore
unfolding flush_batch
flush_tick s = if s.finished then s else flush_batch s

abbrev pub has_room : LogStore → Bool
has_room s = ltb (length s.entries) log_buffer_size

unfoldable pub offer : LogEntry → LogStore → LogStore
offer e s =
    if has_room s
    then record s { entries = s.entries ++ e ∷ [] }
    else record s { dropped = s.dropped + 1 }

-- The line that Write sends, and the store whose clock it has read.
abbrev pub read_clock : LogStore → LogStore
read_clock s = record s { db = tick_from s.db.ticks s.db }

abbrev pub line_at : Text → Text → Text → Text → LogStore → LogEntry
line_at run_id level source message s = record {
  run_id = run_id;
  level = level;
  source = source;
  message = message;
  at = format (read_clock s).db.clock;
}

-- LogStore.Write. (On a closed channel the send would panic.)
unfoldable pub write : Text → Text → Text → Text → LogStore → LogStore
unfolding offer
write run_id level source message s = offer (line_at run_id level source message s) (read_clock s)

-- Close, while nothing writes: the goroutine takes what is buffered and ends.
unfoldable pub drain : List LogEntry → LogStore → LogStore
unfolding receive_from
drain [] s = receive_from [] s
drain (e ∷ es) s = drain es (receive_from (e ∷ es) s)

unfoldable pub close : LogStore → ℕ × LogStore
unfolding drain
close s =
    let s' = drain s.entries (record s { closed = true }) in
    if s.finished then (s.dropped, s) else (s'.dropped, s')

-- LogQuery; an empty field is not filtered on.
pub record LogQuery : Type 0 where
  pub run_id : Text
  pub level : Text
  pub source : Text
  pub limit : ℤ
  pub offset : ℤ

abbrev pub field_matches : Text → Text → Bool
field_matches [] v = true
field_matches (c ∷ s) v = text_eq v (c ∷ s)

unfoldable pub query_matches : LogQuery → LogRow → Bool
query_matches q r =
    field_matches q.run_id r.run_id
    && field_matches q.level r.level
    && field_matches q.source r.source

-- `id_lt` is the order of the identifiers as texts.
module _ (id_lt : String → String → Bool) where
  abbrev pub newer : LogRow → LogRow → Bool
  newer a b =
      text_lt b.created_at a.created_at
      || (not (text_lt a.created_at b.created_at) && id_lt b.id a.id)

  -- LogStore.Query
  unfoldable pub query_logs : LogQuery → World → Result (List LogRow) × World
  unfolding clamp_page query_matches
  query_logs q =
      let (n, skip) = clamp_page q.limit q.offset in
      query λ t. take n (drop skip (order_by newer (select (query_matches q) t.logs)))

-- levelOf
unfoldable pub level_of : Text → Text
unfolding contains
level_of message =
    if contains (runes "ERROR") message
    then runes "error"
    else if contains (runes "WARNING") message
    then runes "warn"
    else if contains (runes "NOTE") message
    then runes "notice"
    else runes "info"

-- strings.TrimRight(s, "\n")
abbrev keep_char : ℕ → Text → Text
keep_char c [] = if c == 10 then [] else c ∷ []
keep_char c (d ∷ s) = c ∷ d ∷ s

unfoldable pub trim_newlines : Text → Text
trim_newlines [] = []
trim_newlines (c ∷ s) = keep_char c (trim_newlines s)

-- dbLogWriter.Write, with the run that setRun has set.
unfoldable pub write_line : Text → Text → LogStore → LogStore
unfolding write level_of trim_newlines
write_line run_id p s =
    let message = trim_newlines p in write run_id (level_of message) (runes "harvester") message s
