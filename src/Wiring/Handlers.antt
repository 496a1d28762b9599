-- ===== src/Wiring/Handlers.antt =====
-- embed.go, reembed.go and distill.go: the handlers and the rows of the queue.
use go_web_search.Prelude.{
  Bool, true, false, List, [], ◌∷◌, Option, none, some, String, ℤ, if◌then◌else◌,
}
use go_web_search.Strings.{Text, trim_space}
use go_web_search.Rows.{
  Tables, JobRow, OwnerKind, Payload, Tier, ScrapeRow, embed, distill, reembed, EmbedPayload,
  DistillPayload,
}
use go_web_search.Store.{M, ◌>>=◌, ◌>>◌, Error, pure, fail, lift}
use go_web_search.Store.Keeps.{Keeps, keeps_rules, Keeps-bind, Keeps-if, Keeps-lift}
use go_web_search.Tier.{TierConfig}
use go_web_search.Llm.{LlmClient}
use go_web_search.Memory.{MemoryConfig, store_fact}
use go_web_search.Vectors.{upsert_vector}
use go_web_search.Embed.{embed_handler, embed_into}
use go_web_search.Reembed.{
  reembed_handler, reembed_owner, reembed_items, set_vector_meta, drop_table, drop_old, is_empty,
}
use go_web_search.Distill.{
  ExtractedFact, distill_handler, distill_scrape, extract_facts, parse_facts, store_facts,
  json_array, is_blank,
}
use go_web_search.Wiring.Tame.{
  Queue, meta_get-Queue, meta_set-Queue, upsert_vector-Queue, ensure_vector_table-Queue,
  store_fact-Queue,
}

module _ (Q : List JobRow → Type 0) where
  set_vector_meta-Queue : (t model : Text) (dim : ℤ) → Keeps (Queue Q) (set_vector_meta t model dim)
  unfolding set_vector_meta
  set_vector_meta-Queue t model dim = search (keeps_rules, meta_set-Queue) depth 8

  drop_table-Queue : (t : Text) → Keeps (Queue Q) (drop_table t)
  unfolding drop_table
  drop_table-Queue t = search keeps_rules

  module _ (llm : LlmClient) where
    embed_into-Queue : (p : EmbedPayload) (o : Option Text) → Keeps (Queue Q) (embed_into llm p o)
    embed_into-Queue p none = search keeps_rules
    embed_into-Queue p (some []) = search keeps_rules
    embed_into-Queue p (some (c ∷ s)) = search (keeps_rules, upsert_vector-Queue)

    pub embed_handler-Queue : (p : Payload) → Keeps (Queue Q) (embed_handler llm p)
    unfolding embed_handler
    embed_handler-Queue (embed p) = search (keeps_rules, meta_get-Queue, embed_into-Queue)
    embed_handler-Queue p = search keeps_rules

    reembed_item-Queue :
        (t : Text) (k : OwnerKind) (id : String) (text : Text) (rest : M (Unit {0}))
        → Keeps (Queue Q) rest
        → Keeps (Queue Q) (
            if is_empty (trim_space text) then rest else (do
              vec ← lift (llm.embed false text)
              upsert_vector t k id vec llm.embed_model_name llm.embed_dim
              rest))
    reembed_item-Queue t k id text rest h =
        Keeps-if (Queue Q) (is_empty (trim_space text)) rest _ h (
          Keeps-bind (Queue Q) (lift (llm.embed false text)) _ (Keeps-lift (Queue Q) _) λ vec.
            Keeps-bind (Queue Q) (upsert_vector t k id vec llm.embed_model_name llm.embed_dim)
              (λ _. rest) (upsert_vector-Queue Q t k id vec llm.embed_model_name llm.embed_dim)
              λ _. h)

    reembed_items-Queue :
        (t : Text) (k : OwnerKind) (items : List (String × Text))
        → Keeps (Queue Q) (reembed_items llm t k items)
    unfolding reembed_items
    reembed_items-Queue t k [] = search keeps_rules
    reembed_items-Queue t k ((id, text) ∷ items) =
        reembed_item-Queue t k id text _ (reembed_items-Queue t k items)

    reembed_owner-Queue :
        (t : Text) (k : OwnerKind) (items : Tables → List (String × Text))
        → Keeps (Queue Q) (reembed_owner llm t k items)
    unfolding reembed_owner
    reembed_owner-Queue t k items = search (keeps_rules, reembed_items-Queue)

    drop_old-Queue : (b : Bool) (t : Text) → Keeps (Queue Q) (drop_old llm b t)
    drop_old-Queue true t = search (keeps_rules, drop_table-Queue)
    drop_old-Queue false t = search keeps_rules

    pub reembed_handler-Queue : (p : Payload) → Keeps (Queue Q) (reembed_handler llm p)
    unfolding reembed_handler
    reembed_handler-Queue (reembed p) =
        search
          (
            keeps_rules, ensure_vector_table-Queue, reembed_owner-Queue, set_vector_meta-Queue,
            drop_old-Queue,
          )
          depth 9
    reembed_handler-Queue p = search keeps_rules

    module _ (cfg : TierConfig) (mem : MemoryConfig) (un : Text → Option (List ExtractedFact)) where
      parse_facts-Queue : (s : Text) → Keeps (Queue Q) (parse_facts llm cfg mem un s)
      parse_facts-Queue [] = search keeps_rules
      parse_facts-Queue (c ∷ s) = go (un (c ∷ s))
        where
          go :
              (o : Option (List ExtractedFact))
              → Keeps (Queue Q) (elim o as (λ _. M (List ExtractedFact)) [
                | none ↦ fail Error.decode
                | some facts ↦ pure facts
              ])
          go none = search keeps_rules
          go (some facts) = search keeps_rules

      extract_facts-Queue :
          (prompt text : Text) → Keeps (Queue Q) (extract_facts llm cfg mem un prompt text)
      unfolding extract_facts
      extract_facts-Queue prompt text =
          Keeps-bind (Queue Q) (lift (llm.chat prompt text)) _ (Keeps-lift (Queue Q) _)
            λ raw. parse_facts-Queue (json_array raw)

      store_fact_then-Queue :
          (f : ExtractedFact) (url : Text) (tier : Tier) (rest : M (Unit {0}))
          → Keeps (Queue Q) rest
          → Keeps (Queue Q) (
              if is_blank llm cfg mem un f.text
              then rest
              else (do store_fact cfg mem llm f.text url f.volatility tier; rest))
      store_fact_then-Queue f url tier rest h =
          Keeps-if (Queue Q) (is_blank llm cfg mem un f.text) rest _ h (
            Keeps-bind (Queue Q) (store_fact cfg mem llm f.text url f.volatility tier) (λ _. rest)
              (store_fact-Queue Q cfg mem llm f.text url f.volatility tier) λ _. h)

      store_facts-Queue :
          (url : Text) (tier : Tier) (fs : List ExtractedFact)
          → Keeps (Queue Q) (store_facts llm cfg mem un url tier fs)
      unfolding store_facts
      store_facts-Queue url tier [] = search keeps_rules
      store_facts-Queue url tier (f ∷ fs) =
          store_fact_then-Queue f url tier _ (store_facts-Queue url tier fs)

      distill_scrape-Queue :
          (p : DistillPayload) (o : Option ScrapeRow)
          → Keeps (Queue Q) (distill_scrape llm cfg mem un p o)
      distill_scrape-Queue p none = search keeps_rules
      distill_scrape-Queue p (some r) = search (keeps_rules, extract_facts-Queue, store_facts-Queue)

      pub distill_handler-Queue : (p : Payload) → Keeps (Queue Q) (distill_handler llm cfg mem un p)
      unfolding distill_handler
      distill_handler-Queue (distill p) = search (keeps_rules, distill_scrape-Queue)
      distill_handler-Queue p = search keeps_rules
