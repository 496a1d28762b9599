-- ===== src/Wiring.antt =====
-- wiring.go: which handler runs which job type, and the recurring cleanup.
pub mod Tame
pub mod Handlers
pub mod Sweep
pub mod Bounded
use go_web_search.Prelude.{List, [], Option}
use go_web_search.Clock.{Duration}
use go_web_search.Strings.{Text}
use go_web_search.Rows.{embed_job, distill_job, reembed_job, cleanup_job, plain}
use go_web_search.Tier.{TierConfig}
use go_web_search.Llm.{LlmClient}
use go_web_search.Memory.{MemoryConfig}
use go_web_search.Cleanup.{RetentionConfig, cleanup_handler}
use go_web_search.Embed.{embed_handler}
use go_web_search.Reembed.{reembed_handler}
use go_web_search.Distill.{ExtractedFact, distill_handler}
use go_web_search.Jobs.Runner.{JobRunner, register, register_recurring}

module _ (llm : LlmClient) (cfg : TierConfig) (mem : MemoryConfig) (ret : RetentionConfig)
    (unmarshal : Text → Option (List ExtractedFact)) (cleanup_interval : Duration) where
  unfoldable pub register_jobs : JobRunner → JobRunner
  unfolding register register_recurring
  register_jobs r =
      let r1 = register embed_job (embed_handler llm) r in
      let r2 = register reembed_job (reembed_handler llm) r1 in
      let r3 = register distill_job (distill_handler llm cfg mem unmarshal) r2 in
      let r4 = register cleanup_job (cleanup_handler ret) r3 in
      register_recurring cleanup_job (plain []) cleanup_interval r4
