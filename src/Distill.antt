-- ===== src/Distill.antt =====
-- distill.go: the extraction of facts from a stored page by the chat model.
pub mod Array
use go_web_search.Prelude.{
  ℕ, zero, suc, ◌+◌, ◌-◌, Bool, true, false, not, ◌&&◌, List, [], ◌∷◌, ◌++◌, Option, none, some,
  String, str_eq, if◌then◌else◌, ltb, leb, ◌==◌, ℤ,
}
use go_web_search.Strings.{Text, runes, text_eq, text_len, rune_len, trim_space, to_lower}
use go_web_search.Rows.{
  DistillPayload, Payload, embed, distill, reembed, plain, Tables, ScrapeRow, JobType, distill_job,
  Tier,
}
use go_web_search.Sql.{first}
use go_web_search.Store.{Error, Result, ok, err, World, M, ◌>>=◌, ◌>>◌, pure, lift, fail, query}
use go_web_search.Tier.{TierConfig, normalize_tier}
use go_web_search.Jobs.{enqueue_job}
use go_web_search.Llm.{LlmClient}
use go_web_search.Memory.{MemoryConfig, store_fact}

abbrev pub distill_max_chars : ℕ
distill_max_chars = 8000

pub record ExtractedFact : Type 0 where
  pub text : Text
  pub volatility : Text

pub data Detail : Type 0 where
  brief normal thorough : Detail

unfoldable pub distill_detail : Text → Detail
unfolding to_lower trim_space
distill_detail detail =
    let level = to_lower (trim_space detail) in
    if text_eq level (runes "brief")
    then brief
    else if text_eq level (runes "thorough")
    then thorough
    else normal

unfoldable pub enqueue_distill : String → Tier → Text → Text → M String
enqueue_distill scrape_id tier detail focus =
    enqueue_job distill_job
      (distill (record { scrape_id = scrape_id; tier = tier; detail = detail; focus = focus }))

-- text[:n]: the runes that fit in n bytes (a rune that the cut would split is left out).
unfoldable pub byte_prefix : ℕ → Text → Text
byte_prefix n [] = []
byte_prefix n (c ∷ s) =
    let rest = byte_prefix (n - rune_len c) s in if ltb n (rune_len c) then [] else c ∷ rest

-- The text behind the first `[`, that one included; none if there is no `[`.
unfoldable pub from_bracket : Text → Option Text
from_bracket [] = none
from_bracket (c ∷ s) = if c == b'[' then some (c ∷ s) else from_bracket s

-- The text up to its last `]`, that one included; none if there is no `]`.
unfoldable pub to_bracket : Text → Option Text
to_bracket [] = none
to_bracket (c ∷ s) = elim (to_bracket s) [
  | some front ↦ some (c ∷ front)
  | none ↦ if c == b']' then some (c ∷ []) else none
]

abbrev pub text_or_none : Option Text → Text
text_or_none none = []
text_or_none (some s) = s

-- jsonArray: "" where no `]` stands behind the first `[`.
abbrev pub array_in : Option Text → Text
array_in none = []
array_in (some s) = text_or_none (to_bracket s)

unfoldable pub json_array : Text → Text
unfolding from_bracket to_bracket
json_array s = array_in (from_bracket s)

-- The parts of the prompt that depend on the two knobs.
unfoldable pub detail_rule : Detail → Text
detail_rule brief =
    runes
      "\n- Be highly selective: return only the few most important, high-value facts (roughly 5-15). Consolidate lists and tables into a handful of summary facts; never emit one fact per row or cell."
detail_rule thorough =
    runes "\n- Be exhaustive: split compound statements and extract every distinct fact."
detail_rule normal =
    runes
      "\n- Extract the key facts and skip trivia. Consolidate repetitive list/table rows into concise summary facts rather than one fact per row; avoid near-duplicate facts."

unfoldable pub focus_rule : Text → Text
focus_rule [] = []
focus_rule (c ∷ s) =
    runes "\n- Focus on: "
    ++ (c ∷ s)
    ++ runes ". Prioritise facts relevant to this and skip unrelated content."

unfoldable pub distill_system_prompt : Text → Text → Text
unfolding distill_detail detail_rule focus_rule trim_space
distill_system_prompt detail focus =
    runes
      "You extract atomic, self-contained facts from web page text.\nRules:\n- Each fact must stand alone: no pronouns, no \"the article\", no references to other facts.\n- Label each fact's volatility as \"stable\" (rarely changes) or \"time-sensitive\" (schedules, prices, standings, current office-holders, anything that can change soon).\n- Ignore navigation, boilerplate and opinion."
    ++ detail_rule (distill_detail detail)
    ++ focus_rule (trim_space focus)
    ++ runes
        "\nRespond with ONLY a JSON array, no prose:\n[{\"text\":\"...\",\"volatility\":\"stable|time-sensitive\"}]"

module _ (llm : LlmClient) (cfg : TierConfig) (mem : MemoryConfig)
    -- json.Unmarshal into `[]extractedFact`
    (unmarshal : Text → Option (List ExtractedFact)) where
  abbrev pub parse_facts : Text → M (List ExtractedFact)
  parse_facts [] = pure []
  parse_facts (c ∷ s) = elim (unmarshal (c ∷ s)) [
    | none ↦ fail Error.decode
    | some facts ↦ pure facts
  ]

  unfoldable pub extract_facts : Text → Text → M (List ExtractedFact)
  extract_facts prompt text = do raw ← lift (llm.chat prompt text); parse_facts (json_array raw)

  abbrev pub is_blank : Text → Bool
  is_blank s = elim (trim_space s) [ [] ↦ true | c ∷ r ↦ false ]

  unfoldable pub store_facts : Text → Tier → List ExtractedFact → M (Unit {0})
  store_facts url tier [] = pure tt
  store_facts url tier (f ∷ fs) =
      let rest = store_facts url tier fs in
      if is_blank f.text
      then rest
      else (do store_fact cfg mem llm f.text url f.volatility tier; rest)

  abbrev pub truncated : Text → Text
  truncated text =
      if ltb distill_max_chars (text_len text) then byte_prefix distill_max_chars text else text

  abbrev pub distill_scrape : DistillPayload → Option ScrapeRow → M (Unit {0})
  distill_scrape p none = fail Error.no_rows
  distill_scrape p (some r) = if is_blank r.text_content then pure tt else (do
    facts ← extract_facts (distill_system_prompt p.detail p.focus) (truncated r.text_content)
    store_facts r.url (normalize_tier p.tier mem.remember_default) facts)

  unfoldable pub distill_handler : Payload → M (Unit {0})
  unfolding extract_facts store_facts
  distill_handler (distill p) = do
    row ← query (λ t. first (λ (r : ScrapeRow). str_eq r.id p.scrape_id) t.scrape_cache)
    distill_scrape p row
  distill_handler _ = fail Error.decode
