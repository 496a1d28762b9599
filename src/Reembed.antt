-- ===== src/Reembed.antt =====
-- reembed.go: generations of the vector table, the check at boot, and the migration job. The rows of
-- a migration are embedded one after another here (the code keeps up to `concurrency` in flight).
pub mod Switch
pub mod Migrate
pub mod Generations
pub mod Finished
use go_web_search.Prelude.{
  ℕ, zero, suc, ◌+◌, Bool, true, false, not, ◌&&◌, ◌||◌, List, [], ◌∷◌, ◌++◌, map, Option, none,
  some, String, if◌then◌else◌, ℤ, pos, negsuc,
}
use go_web_search.Strings.{Text, runes, text_eq, trim_space}
use go_web_search.Decimal.{itoa, itoa_nat, atoi_or_zero}
use go_web_search.Rows.{
  OwnerKind, memory, search, Payload, embed, distill, reembed, plain, ReembedPayload, Tables,
  embed_model, embed_dim, vector_migration, vector_table, vector_gen, reembed_job, VectorTable,
}
use go_web_search.Store.{
  Error, Result, ok, err, World, M, ◌>>=◌, ◌>>◌, pure, lift, fail, ignore, or_default, exec, query,
}
use go_web_search.Meta.{meta_get, meta_set}
use go_web_search.Vectors.{ensure_vector_table, upsert_vector, on_vectors}
use go_web_search.Jobs.{enqueue_job}
use go_web_search.Llm.{LlmClient}

-- Sprintf("vectors_g%d", gen)
unfoldable pub generation_name : ℕ → Text
generation_name gen = runes "vectors_g" ++ itoa_nat gen

unfoldable pub set_vector_meta : Text → Text → ℤ → M (Unit {0})
unfolding meta_set
set_vector_meta table model dim = do
  meta_set vector_table table
  meta_set embed_model model
  meta_set embed_dim (itoa dim)
  meta_set vector_migration []
  pure tt

unfoldable pub without_table : Text → List VectorTable → List VectorTable
without_table name [] = []
without_table name (t ∷ ts) =
    let rest = without_table name ts in if text_eq t.name name then rest else t ∷ rest

-- DROP TABLE IF EXISTS
unfoldable pub drop_table : Text → M ℕ
unfolding without_table
drop_table name = exec (λ t. (on_vectors (without_table name) t, 0))

abbrev pub text_or_empty : Option Text → Text
text_or_empty none = []
text_or_empty (some s) = s

abbrev pub is_empty : Text → Bool
is_empty [] = true
is_empty (c ∷ s) = false

-- What bootVectors does, by the state that it finds.
pub data Boot : Type 0 where
  first_run unchanged changed : Boot

unfoldable pub boot_case : Text → Text → Text → Text → ℤ → Boot
boot_case cur_table cur_model cur_dim model dim =
    if is_empty cur_table
    then first_run
    else if text_eq cur_model model && text_eq cur_dim (itoa dim)
    then unchanged
    else changed

unfoldable pub boot_first : Text → ℤ → M (Unit {0})
boot_first model dim = do
  let name = generation_name 1
  ensure_vector_table name dim
  meta_set vector_gen (itoa_nat 1)
  set_vector_meta name model dim

unfoldable pub boot_migrate : Text → Text → ℤ → M (Unit {0})
boot_migrate cur_table model dim = do
  gen_text ← ignore none (meta_get vector_gen)
  let gen = atoi_or_zero (text_or_empty gen_text)
  let name = generation_name (suc gen)
  ensure_vector_table name dim
  meta_set vector_gen (itoa_nat (suc gen))
  meta_set vector_migration name
  enqueue_job reembed_job
      (reembed (record { old_table = cur_table; new_table = name; model = model; dim = dim }))
  pure tt

abbrev pub boot_from : Text → Text → ℤ → Boot → M (Unit {0})
boot_from cur_table model dim first_run = boot_first model dim
boot_from cur_table model dim unchanged = do ensure_vector_table cur_table dim; pure tt
boot_from cur_table model dim changed = boot_migrate cur_table model dim

abbrev pub is_configured : Text → ℤ → Bool
is_configured [] dim = false
is_configured (c ∷ s) (pos zero) = false
is_configured (c ∷ s) (pos (suc n)) = true
is_configured (c ∷ s) (negsuc n) = false

abbrev pub require_configured : Bool → M (Unit {0}) → M (Unit {0})
require_configured true m = m
require_configured false m = fail Error.not_configured

module _ (llm : LlmClient) where
  unfoldable pub boot_vectors : M (Unit {0})
  unfolding boot_case boot_first boot_migrate
  boot_vectors = require_configured (is_configured llm.embed_model_name llm.embed_dim) (do
    cur_table ← meta_get vector_table
    cur_model ← ignore none (meta_get embed_model)
    cur_dim ← ignore none (meta_get embed_dim)
    let table = text_or_empty cur_table
    boot_from table llm.embed_model_name llm.embed_dim (
        boot_case table (text_or_empty cur_model) (text_or_empty cur_dim) llm.embed_model_name
          llm.embed_dim))

  -- The items of one owner kind; blank texts are passed over, and the first error stops the pass.
  unfoldable pub reembed_items : Text → OwnerKind → List (String × Text) → M (Unit {0})
  reembed_items table kind [] = pure tt
  reembed_items table kind ((id, text) ∷ items) =
      let rest = reembed_items table kind items in
      if is_empty (trim_space text) then rest else (do
        vec ← lift (llm.embed false text)
        upsert_vector table kind id vec llm.embed_model_name llm.embed_dim
        rest)

  unfoldable pub reembed_owner : Text → OwnerKind → (Tables → List (String × Text)) → M (Unit {0})
  unfolding reembed_items
  reembed_owner table kind items = do rows ← query items; reembed_items table kind rows

  abbrev pub fact_items : Tables → List (String × Text)
  fact_items t = map (λ r. (r.id, r.text)) t.memory_facts

  abbrev pub search_items : Tables → List (String × Text)
  search_items t = map (λ r. (r.id, r.query)) t.search_cache

  abbrev pub drop_old : Bool → Text → M (Unit {0})
  drop_old true table = do drop_table table; pure tt
  drop_old false table = pure tt

  unfoldable pub reembed_handler : Payload → M (Unit {0})
  unfolding reembed_owner
  reembed_handler (reembed p) = do
    ensure_vector_table p.new_table p.dim
    reembed_owner p.new_table memory fact_items
    reembed_owner p.new_table search search_items
    set_vector_meta p.new_table p.model p.dim
    drop_old (not (is_empty p.old_table) && not (text_eq p.old_table p.new_table)) p.old_table
  reembed_handler _ = fail Error.decode
