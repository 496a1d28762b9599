-- ===== src/Log/Closing.antt =====
-- logstore.go: the callers of Write, the goroutine of `run` and its ticker in any order, and Close.
use mathlib.Core.List.{append-nil}
use go_web_search.Prelude.{
  ℕ, zero, suc, ◌+◌, ◌≡◌, refl, true, false, List, [], ◌∷◌, ◌++◌, length, if-holds, sym, ap, ◌∙◌,
  arith,
}
use go_web_search.Strings.{Text}
use go_web_search.Store.{World}
use go_web_search.Log.{
  LogEntry, LogStore, open_log_store, receive_from, keep_line, receive, flush_tick, flush_batch,
  write, has_room, line_at, drain, close,
}
use go_web_search.Log.Kept.{
  IsSound, lines, accept, clash, flush_tick-IsSound, receive-IsSound, receive_from-IsSound,
  write-IsSound,
}

-- `Run start n accepted s`: the store was opened on the database `start`, and is now at `s`, after n
-- calls of Write, of whose lines the channel accepted those listed. Nothing writes once the channel
-- is closed.
pub data Run (start : World) : ℕ → List LogEntry → LogStore → Type 0 where
  opened : Run start zero [] (open_log_store start)
  wrote :
      {n : ℕ} {accepted : List LogEntry} {s : LogStore}
      → Run start n accepted s
      → (run_id level source message : Text) → s.closed ≡ false
      → Run start
          (suc n)
          (accept (has_room s) (line_at run_id level source message s) accepted)
          (write run_id level source message s)
  received :
      {n : ℕ} {accepted : List LogEntry} {s : LogStore}
      → Run start n accepted s
      → Run start n accepted (receive s)
  ticked :
      {n : ℕ} {accepted : List LogEntry} {s : LogStore}
      → Run start n accepted s
      → Run start n accepted (flush_tick s)
  closing :
      {n : ℕ} {accepted : List LogEntry} {s : LogStore}
      → Run start n accepted s
      → Run start n accepted (record s { closed = true })

close_channel :
    (old : List LogEntry) (n : ℕ) (accepted : List LogEntry) (s : LogStore)
    → IsSound old n accepted s
    → IsSound old n accepted (record s { closed = true })
close_channel old n accepted s h = record {
  calm = h.calm;
  kept = h.kept;
  counted = h.counted;
  buffered = h.buffered;
  batched = h.batched;
  ended = λ over. let (batch, entries, shut) = h.ended over in (batch, entries, refl);
}

-- Over a driver that performs its statements, whatever the order of the writers, the goroutine and
-- the ticker: the lines stored, batched and buffered are, in this order, the old ones and those that
-- the channel accepted; every other line is counted as dropped; the channel holds at most 4096 lines
-- and the batch fewer than 128; and the goroutine ends only with nothing left.
pub Run-IsSound :
    (start : World) (n : ℕ) (accepted : List LogEntry) (s : LogStore)
    → start.faults ≡ []
    → Run start n accepted s
    → IsSound (lines start) n accepted s
unfolding open_log_store
Run-IsSound start n accepted s calm opened = record {
  calm = calm;
  kept = refl;
  counted = omega arith;
  buffered = omega arith;
  batched = omega arith;
  ended = λ over. absurd (never over);
}
  where
    never : false ≡ true → ⊥
    never e = cc
Run-IsSound start n accepted s calm (wrote r run_id level source message still_open) =
    write-IsSound (lines start) _ _ _ (Run-IsSound start _ _ _ calm r) run_id level source message
      still_open
Run-IsSound start n accepted s calm (received r) =
    receive-IsSound (lines start) n accepted _ (Run-IsSound start n accepted _ calm r)
Run-IsSound start n accepted s calm (ticked r) =
    flush_tick-IsSound (lines start) n accepted _ (Run-IsSound start n accepted _ calm r)
Run-IsSound start n accepted s calm (closing r) =
    close_channel (lines start) n accepted _ (Run-IsSound start n accepted _ calm r)

-- A received line leaves the rest of the channel, and the goroutine running.
keep_line_fields :
    (e : LogEntry) (s : LogStore)
    → ((keep_line e s).entries ≡ s.entries)
      × ((keep_line e s).finished ≡ s.finished)
      × ((keep_line e s).closed ≡ s.closed)
unfolding keep_line flush_batch
keep_line_fields e s = ground arith

module _ (old : List LogEntry) (n : ℕ) (accepted : List LogEntry) where
  drain-IsSound :
      (es : List LogEntry) (s : LogStore)
      → IsSound old n accepted s
      → s.entries ≡ es
      → s.finished ≡ false
      → s.closed ≡ true
      → IsSound old n accepted (drain es s) × ((drain es s).finished ≡ true)
  unfolding drain receive_from
  drain-IsSound [] s h split running shut =
      (receive_from-IsSound old n accepted s h [] split running, ends)
    where
      ends : (receive_from [] s).finished ≡ true
      ends =
          if-holds (λ x. x.finished ≡ true) s.closed _ s (λ _. refl)
            (λ open_still. absurd (clash open_still shut))
  drain-IsSound (e ∷ es) s h split running shut =
      let s' : LogStore = record s { entries = es } in
      let (left, still, closed) = keep_line_fields e s' in
      drain-IsSound es (keep_line e s')
        (receive_from-IsSound old n accepted s h (e ∷ es) split running) left (still ∙ running)
        (closed ∙ shut)

-- What Close returns, with the store that it leaves.
abbrev pub IsClosed : List LogEntry → ℕ → List LogEntry → ℕ × LogStore → Type 0
IsClosed old n accepted (dropped, s) =
    (s.finished ≡ true) × (lines s.db ≡ old ++ accepted) × (length accepted + dropped ≡ n)

ended-IsClosed :
    (old : List LogEntry) (n : ℕ) (accepted : List LogEntry) (s : LogStore)
    → IsSound old n accepted s
    → s.finished ≡ true
    → IsClosed old n accepted (s.dropped, s)
ended-IsClosed old n accepted s h over =
    let (batch, entries, shut) = h.ended over in
    (
      over,
      sym (append-nil (lines s.db))
          ∙ ap (λ ls. lines s.db ++ ls) (sym (ap (λ ls. ls ++ s.entries) batch ∙ entries))
          ∙ h.kept,
      h.counted,
    )

-- Over a driver that performs its statements: Close ends the goroutine after finitely many receives;
-- then the database holds the old lines and, in order, every line that the channel accepted, and the
-- number that Close returns is that of the other lines written.
pub close_lem :
    (start : World) (n : ℕ) (accepted : List LogEntry) (s : LogStore)
    → start.faults ≡ []
    → Run start n accepted s
    → IsClosed (lines start) n accepted (close s)
unfolding close
close_lem start n accepted s calm r =
    let h = Run-IsSound start n accepted s calm r in
    if-holds (IsClosed (lines start) n accepted) s.finished (s.dropped, s) _
      (ended-IsClosed (lines start) n accepted s h)
      (λ running.
        let (sound, over) =
          drain-IsSound (lines start) n accepted s.entries (record s { closed = true })
            (close_channel (lines start) n accepted s h) refl running refl in
        ended-IsClosed (lines start) n accepted _ sound over)
