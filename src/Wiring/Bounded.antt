-- ===== src/Wiring/Bounded.antt =====
-- wiring.go and jobs.go together: the runner as the program wires it.
use go_web_search.Prelude.{
  ◌≡◌, ◌<◌, List, Option, ℤ, pos, All, negsuc, zero, suc, arith, sym, refl, subst,
}
use go_web_search.Clock.{Duration}
use go_web_search.Strings.{Text}
use go_web_search.Rows.{JobType, Payload, JobRow}
use go_web_search.Tier.{TierConfig}
use go_web_search.Llm.{LlmClient}
use go_web_search.Memory.{MemoryConfig}
use go_web_search.Cleanup.{RetentionConfig}
use go_web_search.Distill.{ExtractedFact}
use go_web_search.Jobs.Runner.{JobRunner, new_job_runner, register, register_recurring}
use go_web_search.Jobs.Pool.{Pool, Reach}
use go_web_search.Jobs.Pool.Bounded.{FewAttempts, IsTame, attempts_bounded}
use go_web_search.Wiring.{register_jobs}
use go_web_search.Wiring.Handlers.{
  embed_handler-Queue, reembed_handler-Queue, distill_handler-Queue,
}
use go_web_search.Wiring.Sweep.{cleanup_handler-Queue}

module _ (llm : LlmClient) (cfg : TierConfig) (mem : MemoryConfig) (ret : RetentionConfig)
    (unmarshal : Text → Option (List ExtractedFact)) (interval : Duration) (workers : ℤ)
    (poll stale_after : Duration) where
  abbrev wired : JobRunner
  wired = register_jobs llm cfg mem ret unmarshal interval (new_job_runner workers poll stale_after)

  abbrev AllTame : JobRunner → Type 0
  AllTame r = All (λ e. IsTame r.max_attempts e.1) r.handlers

  register_recurring-AllTame :
      (t : JobType) (p : Payload) (d : ℤ) (r : JobRunner)
      → AllTame r
      → AllTame (register_recurring t p d r)
  unfolding register_recurring
  register_recurring-AllTame t p (pos zero) r h = h
  register_recurring-AllTame t p (pos (suc n)) r h = h
  register_recurring-AllTame t p (negsuc n) r h = h

  abbrev Few : List JobRow → Type 0
  Few = All (λ r. r.attempts < 5)

  handlers-AllTame : AllTame wired
  unfolding register_jobs register new_job_runner
  handlers-AllTame = register_recurring-AllTame _ _ interval _ (
    cleanup_handler-Queue Few ret,
    (
      distill_handler-Queue Few llm cfg mem unmarshal,
      (reembed_handler-Queue Few llm, (embed_handler-Queue Few llm, tt)),
    ),
  )

  register_recurring-max :
      (t : JobType) (p : Payload) (d : ℤ) (r : JobRunner)
      → (register_recurring t p d r).max_attempts ≡ r.max_attempts
  unfolding register_recurring
  register_recurring-max t p (pos zero) r = refl
  register_recurring-max t p (pos (suc n)) r = refl
  register_recurring-max t p (negsuc n) r = refl

  max_attempts_lem : wired.max_attempts ≡ 5
  unfolding register_jobs register new_job_runner
  max_attempts_lem = register_recurring-max _ _ interval _

  -- In the runner as it is wired, for any settings, any chat and embedding service, any faults of the
  -- driver and any order of the poller's, the workers', the reaper's and the schedules' steps and of
  -- restarts: if every job has fewer than five attempts at the start, then every job still has.
  pub wired_attempts_bounded :
      {s t : Pool} → FewAttempts 5 s.world.tables → Reach wired s t → FewAttempts 5 t.world.tables
  wired_attempts_bounded {s = s} {t = t} h reach =
      subst (λ n. FewAttempts n t.world.tables) max_attempts_lem
        (attempts_bounded wired handlers-AllTame
          (subst (λ n. 0 < n) (sym max_attempts_lem) (omega arith))
          (subst (λ n. FewAttempts n s.world.tables) (sym max_attempts_lem) h) reach)
