-- ===== src/Gate.antt =====
-- gate.go: the confidence gates that decide whether memory answers a question.
pub mod Sound
pub mod Answer
use go_web_search.Prelude.{
  ℕ, zero, suc, Bool, true, false, not, ◌&&◌, ◌||◌, List, [], ◌∷◌, ◌++◌, Option, none, some,
  if◌then◌else◌,
}
use go_web_search.Strings.{Text, runes, trim_space, to_upper, text_eq, has_prefix}
use go_web_search.Rows.{Vec}
use go_web_search.Store.{
  Result, ok, err, World, M, continue, ◌>>=◌, ◌>>◌, pure, lift, ignore, or_default,
}
use go_web_search.Tier.{TierConfig}
use go_web_search.Freshness.{fresh_enough, volatility_max_age}
use go_web_search.Vectors.{active_vector_table}
use go_web_search.Llm.{LlmClient}
use go_web_search.Memory.{MemoryConfig, MemoryFact, retrieve_facts, touch_memory_fact}

-- Gate 2: the loop over the retrieved facts.
unfoldable pub fresh_facts : List MemoryFact → M (List MemoryFact)
fresh_facts [] = pure []
fresh_facts (f ∷ fs) = do
  fresh ← fresh_enough f.expires_at f.fetched_at (volatility_max_age f.volatility)
  rest ← fresh_facts fs
  pure (if fresh then f ∷ rest else rest)

unfoldable pub join_facts : List MemoryFact → Text
join_facts [] = []
join_facts (f ∷ []) = runes "- " ++ f.text
join_facts (f ∷ g ∷ fs) = runes "- " ++ f.text ++ b'\n' ∷ join_facts (g ∷ fs)

-- The user prompt of the adjudication, one line for each fact.
unfoldable pub fact_lines : List MemoryFact → Text
fact_lines [] = []
fact_lines (f ∷ fs) = runes "- " ++ f.text ++ b'\n' ∷ fact_lines fs

unfoldable pub adjudicate_prompt : Text → List MemoryFact → Text
unfolding fact_lines
adjudicate_prompt question facts =
    runes "Question: " ++ question ++ b'\n' ∷ b'\n' ∷ runes "Facts:" ++ b'\n' ∷ fact_lines facts

-- Whether the model's trimmed answer says that the facts do not suffice.
unfoldable pub is_insufficient : Text → Bool
unfolding to_upper
is_insufficient [] = true
is_insufficient (c ∷ s) =
    text_eq (to_upper (c ∷ s)) (runes "INSUFFICIENT")
    || has_prefix (runes "INSUFFICIENT") (to_upper (c ∷ s))

-- none: not sufficient.
unfoldable pub verdict : Text → Option Text
unfolding is_insufficient trim_space
verdict out = let answer = trim_space out in if is_insufficient answer then none else some answer

-- The facts as the hits leave them; errors of the store are dropped.
unfoldable pub record_memory_hits : TierConfig → List MemoryFact → M (List MemoryFact)
record_memory_hits cfg [] = pure []
record_memory_hits cfg (f ∷ fs) = do
  touched ← touch_memory_fact cfg f
  rest ← record_memory_hits cfg fs
  pure (touched.0 ∷ rest)

abbrev pub adjudicate_system_prompt : Text
adjudicate_system_prompt =
    runes
      "You answer a question strictly and only from the provided facts.\n- If the facts contain enough to answer, respond with the answer and nothing else.\n- If they do not, respond with exactly: INSUFFICIENT\nDo not use outside knowledge. Do not guess."

module _ (llm : LlmClient) where
  unfoldable pub adjudicate : Text → List MemoryFact → M (Option Text)
  unfolding adjudicate_prompt verdict
  adjudicate question facts = do
    out ← lift (llm.chat adjudicate_system_prompt (adjudicate_prompt question facts))
    pure (verdict out)

module _ (llm : LlmClient) (cfg : TierConfig) (mem : MemoryConfig) where
  abbrev pub accept : List MemoryFact → Option Text → M (Option (Text × List MemoryFact))
  accept facts none = pure none
  accept facts (some answer) = do used ← record_memory_hits cfg facts; pure (some (answer, used))

  -- Gate 3, over the facts that passed the others.
  unfoldable pub answer_from : Text → List MemoryFact → M (Option (Text × List MemoryFact))
  answer_from question [] = pure none
  answer_from question (f ∷ fs) =
      if not mem.gate3_enabled
      then accept (f ∷ fs) (some (join_facts (f ∷ fs)))
      else (do answer ← adjudicate llm question (f ∷ fs); accept (f ∷ fs) answer)

  abbrev pub answer_with : Text → Text × Bool → M (Option (Text × List MemoryFact))
  answer_with question (table, false) = pure none
  answer_with question ([], true) = pure none
  answer_with question (c ∷ s, true) = do
    query_vec ← lift (llm.embed true question)
    facts ← retrieve_facts cfg mem llm (c ∷ s) query_vec
    fresh ← fresh_facts facts
    answer_from question fresh

  -- MemoryAnswer: none where `ok` is false.
  unfoldable pub memory_answer : Text → M (Option (Text × List MemoryFact))
  unfolding answer_from
  memory_answer question = do active ← active_vector_table; answer_with question active
