-- ===== src/Jobs/Enqueue.antt =====
-- EnqueueJob, where the driver performs its statement.
use go_web_search.Prelude.{ℕ, suc, ◌≡◌, [], ◌∷◌, ◌++◌, ◌∙◌}
use go_web_search.Clock.{format}
use go_web_search.Rows.{Tables, JobType, Payload, JobRow}
use go_web_search.Store.{ok, World, pure, exec, now, new_id, now_rfc3339}
use go_web_search.Store.Laws.{bind_ok, exec_calm, now_tables}
use go_web_search.Jobs.{enqueue_job, fresh_job, insert_job, on_jobs}

-- The world after an enqueued job.
abbrev pub enqueued : JobType → Payload → World → World
enqueued ty p w =
    let w1 = record w { issued = suc w.issued } in
    let w2 = (now w1).1 in
    record w2 {
      tables =
          on_jobs (λ rows. rows ++ fresh_job (w.uuid w.issued) ty p (format w2.clock) ∷ [])
            w2.tables;
    }

pub enqueue_job_calm :
    (ty : JobType) (p : Payload) (w : World)
    → w.faults ≡ []
    → enqueue_job ty p w ≡ (ok (w.uuid w.issued), enqueued ty p w)
unfolding enqueue_job new_id now_rfc3339 insert_job
enqueue_job_calm ty p w calm =
    let w1 : World = record w { issued = suc w.issued } in
    let row : JobRow = fresh_job (w.uuid w.issued) ty p (format (now w1).1.clock) in
    let step : Tables → Tables × ℕ = λ t. (on_jobs (λ rows. rows ++ row ∷ []) t, 1) in
    bind_ok (exec step) (λ _. pure (w.uuid w.issued)) (now w1).1 1 (enqueued ty p w)
      (exec_calm step (now w1).1 ((now_tables w1).1 ∙ calm))
