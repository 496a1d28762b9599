-- ===== src/Log/Lost.antt =====
-- logstore.go, `flush`: what a flush that fails leaves.
use go_web_search.Prelude.{◌≡◌, refl, Bool, true, false, List, [], ◌∷◌, map, ◌∙◌, ap, arith}
use go_web_search.Rows.{Tables}
use go_web_search.Store.{World, transaction, query}
use go_web_search.Log.{LogEntry, LogStore, flush, flush_batch, flush_tick}
use go_web_search.Log.Kept.{lines, entry_of}

flush_fails :
    (e : LogEntry) (es : List LogEntry) (w : World) (later : List Bool)
    → w.faults ≡ true ∷ later
    → (flush (e ∷ es) w).tables ≡ w.tables
unfolding flush transaction query
flush_fails e es w later bad = ground arith

-- Where the flush of a tick fails at its first statement: the lines of the batch are gone from the
-- store, none of them is in the database, and none of them is counted as dropped.
pub flush_tick_loses :
    (s : LogStore) (e : LogEntry) (es : List LogEntry) (later : List Bool)
    → s.finished ≡ false
    → s.batch ≡ e ∷ es
    → s.db.faults ≡ true ∷ later
    → ((flush_tick s).batch ≡ [])
      × ((flush_tick s).entries ≡ s.entries)
      × (lines (flush_tick s).db ≡ lines s.db)
      × ((flush_tick s).dropped ≡ s.dropped)
unfolding flush_tick flush_batch
flush_tick_loses s e es later running full bad = rw running (
  refl,
  refl,
  ap (λ b. lines (flush b s.db)) full
      ∙ ap (λ (t : Tables). map entry_of t.logs) (flush_fails e es s.db later bad),
  refl,
)
