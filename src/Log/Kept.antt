-- ===== src/Log/Kept.antt =====
-- logstore.go: no line is lost between Write and the log database but those that are counted as
-- dropped.
use mathlib.Core.List.{append_assoc, append-nil}
use go_web_search.Prelude.{
  ℕ, suc, ◌+◌, ◌≤◌, ◌<◌, ◌≡◌, refl, Bool, true, false, List, [], ◌∷◌, ◌++◌, map, map-snoc, length,
  length-append, arith, sym, ap, ◌∙◌, String, Bool-cases, if-holds, inl, inr, leb,
}
use go_web_search.Strings.{Text}
use go_web_search.Rows.{LogRow}
use go_web_search.Store.{ok, World, exec, new_id}
use go_web_search.Store.Laws.{exec_calm, transaction_calm, bind_ok, tick_from_same}
use go_web_search.Log.{
  LogEntry, LogStore, log_row, add_line, insert_lines, flush, flush_batch, keep_line, receive_from,
  receive, flush_tick, has_room, offer, line_at, write, log_buffer_size, log_batch_size,
}

-- The line that a row was made of.
abbrev pub entry_of : LogRow → LogEntry
entry_of r = record {
  run_id = r.run_id;
  level = r.level;
  source = r.source;
  message = r.message;
  at = r.created_at;
}

abbrev pub lines : World → List LogEntry
lines w = map entry_of w.tables.logs

entry_of-log_row : (id : String) (e : LogEntry) → entry_of (log_row id e) ≡ e
unfolding log_row
entry_of-log_row id e = refl

insert_lines_calm :
    (es : List LogEntry) (w : World)
    → w.faults ≡ []
    → (w' : World) × (insert_lines es w ≡ (ok tt, w'))
      × (w'.faults ≡ [])
      × (lines w' ≡ lines w ++ es)
unfolding insert_lines new_id
insert_lines_calm [] w calm = (w, refl, calm, sym (append-nil (lines w)))
insert_lines_calm (e ∷ es) w calm =
    let r : LogRow = log_row (w.uuid w.issued) e in
    let w1 : World = record w { issued = suc w.issued } in
    let w2 : World = record w1 { tables = (add_line r w.tables).0 } in
    let (w', run, calm', kept) = insert_lines_calm es w2 calm in
    (
      w',
      bind_ok (exec (add_line r)) (λ _. insert_lines es) w1 1 w2 (exec_calm (add_line r) w1 calm)
          ∙ run,
      calm',
      kept
          ∙ ap (λ ls. ls ++ es) (map-snoc entry_of w.tables.logs r)
          ∙ ap (λ x. (lines w ++ x ∷ []) ++ es) (entry_of-log_row (w.uuid w.issued) e)
          ∙ append_assoc (lines w) (e ∷ []) es,
    )

-- A flush that the driver performs adds the batch behind the stored lines.
flush_calm :
    (es : List LogEntry) (w : World)
    → w.faults ≡ []
    → ((flush es w).faults ≡ []) × (lines (flush es w) ≡ lines w ++ es)
unfolding flush
flush_calm [] w calm = (calm, sym (append-nil (lines w)))
flush_calm (e ∷ es) w calm =
    let (w', run, calm', kept) = insert_lines_calm (e ∷ es) w calm in
    let done = transaction_calm (insert_lines (e ∷ es)) w tt w' calm calm' run in
    (ap (λ o. o.1.faults) done ∙ calm', ap (λ o. lines o.1) done ∙ kept)

-- Where each of the accepted lines is: stored, in the batch, or in the channel, in this order.
abbrev pub on_the_way : LogStore → List LogEntry
on_the_way s = lines s.db ++ (s.batch ++ s.entries)

-- The line goes into the channel where there is room.
abbrev pub accept : Bool → LogEntry → List LogEntry → List LogEntry
accept true e accepted = accepted ++ e ∷ []
accept false e accepted = accepted

-- What holds between the steps: `n` lines were written since the store was opened over the lines
-- `old`, and `accepted` of them went into the channel.
pub record IsSound (old : List LogEntry) (n : ℕ) (accepted : List LogEntry) (s : LogStore)
    : Type 0 where
  pub calm : s.db.faults ≡ []
  pub kept : on_the_way s ≡ old ++ accepted
  pub counted : length accepted + s.dropped ≡ n
  pub buffered : length s.entries ≤ log_buffer_size
  pub batched : length s.batch < log_batch_size
  pub ended : s.finished ≡ true → (s.batch ≡ []) × (s.entries ≡ []) × (s.closed ≡ true)

pub clash : {b : Bool} → b ≡ false → b ≡ true → ⊥
clash p q = cc

module _ (old : List LogEntry) (n : ℕ) (accepted : List LogEntry) (s : LogStore) where
  flush_batch-IsSound :
      s.db.faults ≡ []
      → on_the_way s ≡ old ++ accepted
      → length accepted + s.dropped ≡ n
      → length s.entries ≤ log_buffer_size
      → s.finished ≡ false
      → IsSound old n accepted (flush_batch s)
  unfolding flush_batch
  flush_batch-IsSound calm kept counted buffered running =
      let (calm', stored) = flush_calm s.batch s.db calm in
      record {
        calm = calm';
        kept =
            ap (λ ls. ls ++ s.entries) stored ∙ append_assoc (lines s.db) s.batch s.entries ∙ kept;
        counted = counted;
        buffered = buffered;
        batched = omega arith;
        ended = λ e. absurd (clash running e);
      }

module _ (old : List LogEntry) (n : ℕ) (accepted : List LogEntry) (s : LogStore)
    (h : IsSound old n accepted s) where
  pub flush_tick-IsSound : IsSound old n accepted (flush_tick s)
  unfolding flush_tick
  flush_tick-IsSound =
      if-holds (IsSound old n accepted) s.finished s _ (λ over. h)
        (flush_batch-IsSound old n accepted s h.calm h.kept h.counted h.buffered)

  keep_line-IsSound :
      (e : LogEntry) (es : List LogEntry)
      → s.entries ≡ e ∷ es
      → s.finished ≡ false
      → IsSound old n accepted (keep_line e (record s { entries = es }))
  unfolding keep_line
  keep_line-IsSound e es split running =
      let s' : LogStore = record s { entries = es; batch = s.batch ++ e ∷ [] } in
      let kept : on_the_way s' ≡ old ++ accepted =
        ap (λ ls. lines s.db ++ ls)
          (append_assoc s.batch (e ∷ []) es ∙ ap (λ ls. s.batch ++ ls) (sym split))
        ∙ h.kept in
      let fits : length es ≤ log_buffer_size = omega (arith, h.buffered, ap length split) in
      if-holds (IsSound old n accepted) (leb log_batch_size (length (s.batch ++ e ∷ []))) _ s'
        (λ full. flush_batch-IsSound old n accepted s' h.calm kept h.counted fits running)
        (λ partial. record {
          calm = h.calm;
          kept = kept;
          counted = h.counted;
          buffered = fits;
          batched = ground (arith, partial);
          ended = λ over. absurd (clash running over);
        })

  pub receive_from-IsSound :
      (es : List LogEntry)
      → s.entries ≡ es
      → s.finished ≡ false
      → IsSound old n accepted (receive_from es s)
  unfolding receive_from
  receive_from-IsSound [] split running =
      if-holds (IsSound old n accepted) s.closed _ s
        (λ shut.
          (let f =
              flush_batch-IsSound old n accepted s h.calm h.kept h.counted h.buffered running in
            unfold flush_batch in
            record {
              calm = f.calm;
              kept = f.kept;
              counted = f.counted;
              buffered = f.buffered;
              batched = omega arith;
              ended = λ over. (refl, split, shut);
            }))
        (λ still_open. h)
  receive_from-IsSound (e ∷ es) split running = keep_line-IsSound e es split running

  pub receive-IsSound : IsSound old n accepted (receive s)
  unfolding receive
  receive-IsSound =
      if-holds (IsSound old n accepted) s.finished s _ (λ over. h)
        (receive_from-IsSound s.entries refl)

  pub write-IsSound :
      (run_id level source message : Text)
      → s.closed ≡ false
      → IsSound old
          (suc n)
          (accept (has_room s) (line_at run_id level source message s) accepted)
          (write run_id level source message s)
  unfolding write offer
  write-IsSound run_id level source message still_open =
      let (calm', same) = tick_from_same s.db.ticks s.db in
      let e : LogEntry = line_at run_id level source message s in
      elim (Bool-cases (has_room s)) [
        | inl room ↦ rw room (record {
          calm = calm' ∙ h.calm;
          kept = rw same (
              (ap (λ ls. lines s.db ++ ls) (sym (append_assoc s.batch s.entries (e ∷ [])))
                ∙ sym (append_assoc (lines s.db) (s.batch ++ s.entries) (e ∷ []))
                ∙ ap (λ ls. ls ++ e ∷ []) h.kept
                ∙ append_assoc old accepted (e ∷ [])));
          counted = omega (arith, h.counted, length-append {0} accepted (e ∷ []));
          buffered = ground (arith, room, length-append {0} s.entries (e ∷ []));
          batched = h.batched;
          ended = λ over. absurd (clash still_open (h.ended over).2);
        })
        | inr full ↦ rw full (record {
          calm = calm' ∙ h.calm;
          kept = rw same h.kept;
          counted = omega (arith, h.counted);
          buffered = h.buffered;
          batched = h.batched;
          ended = λ over. absurd (clash still_open (h.ended over).2);
        })
      ]
