-- ===== src/Gate/Sound.antt =====
-- gate.go: the facts that pass the gates.
use go_web_search.Prelude.{
  ◌≡◌, ◌≤◌, refl, ◌∙◌, Bool, true, false, List, [], ◌∷◌, Option, none, some, ℤ, ◌≤ℤ◌, ltb_ℤ,
  if◌then◌else◌, All, arith, subst,
}
use go_web_search.Clock.{Time}
use go_web_search.Strings.{Text}
use go_web_search.Rows.{Vec, memory}
use go_web_search.Store.{M, ◌>>=◌, pure, now}
use go_web_search.Store.Laws.{now_tables}
use go_web_search.Store.Forward.{
  Forward, Forward-pure, Forward-query, Forward-if, Forward-bind, Since, Since-Yields, Since-bind,
}
use go_web_search.Store.Yields.{
  Yields, Yields-pure, Yields-bind, Yields-if, Yields-any, ok-injective,
}
use go_web_search.Tier.{TierConfig}
use go_web_search.Freshness.{fresh_at, fresh_enough, volatility_max_age}
use go_web_search.Vectors.{VectorHit, vector_search}
use go_web_search.Vectors.Forward.{vector_search-Forward}
use go_web_search.Llm.{LlmClient}
use go_web_search.Memory.{
  MemoryConfig, MemoryFact, retrieve_loop, retrieve_facts, scan_fact, similarity_of,
  with_similarity, touch_memory_fact,
}
use go_web_search.Gate.{fresh_facts, record_memory_hits}

not_ltb_ℤ : (a b : ℤ) → ltb_ℤ a b ≡ false → b ≤ℤ a
not_ltb_ℤ a b e = ground (arith, e)

module _ (mem : MemoryConfig) where
  -- Gate 1
  abbrev pub IsClose : MemoryFact → Type 0
  IsClose f = mem.similarity_threshold ≤ℤ f.similarity

  -- Gates 1 and 2: the fact is close enough, and fresh at a reading of the clock that is not earlier
  -- than the given instant.
  abbrev pub Passed : Time → MemoryFact → Type 0
  Passed from f =
      (mem.similarity_threshold ≤ℤ f.similarity)
      × (t : Time) × (from ≤ t)
      × (fresh_at t f.expires_at f.fetched_at (volatility_max_age f.volatility) ≡ true)

  with_similarity-IsClose :
      (sim : ℤ) (found : Option MemoryFact) (fs : List MemoryFact)
      → mem.similarity_threshold ≤ℤ sim
      → All IsClose fs
      → All IsClose (with_similarity sim found fs)
  with_similarity-IsClose sim none fs le h = h
  with_similarity-IsClose sim (some f) fs le h = (le, h)

  module _ (cfg : TierConfig) (llm : LlmClient) where
    retrieve_hit-IsClose :
        (h : VectorHit) (rest : M (List MemoryFact))
        → Yields (All IsClose) rest
        → ltb_ℤ (similarity_of h.distance) mem.similarity_threshold ≡ false
        → Yields (All IsClose) (do
          found ← scan_fact h.id
          facts ← rest
          pure (with_similarity (similarity_of h.distance) found facts))
    retrieve_hit-IsClose h rest y e =
        Yields-bind (λ _. Unit) (All IsClose) (scan_fact h.id) _ (Yields-any _ _ (λ a. tt))
          λ found u. Yields-bind (All IsClose) (All IsClose) rest _ y λ facts all.
            Yields-pure (All IsClose) _ (
              with_similarity-IsClose (similarity_of h.distance) found facts
                (not_ltb_ℤ (similarity_of h.distance) mem.similarity_threshold e) all)

    retrieve_loop-IsClose :
        (hs : List VectorHit) → Yields (All IsClose) (retrieve_loop cfg mem llm hs)
    unfolding retrieve_loop
    retrieve_loop-IsClose [] = Yields-pure (All IsClose) [] tt
    retrieve_loop-IsClose (h ∷ hs) =
        Yields-if (All IsClose) (ltb_ℤ (similarity_of h.distance) mem.similarity_threshold) _ _
          (λ _. Yields-pure (All IsClose) [] tt)
          (λ e. retrieve_hit-IsClose h (retrieve_loop cfg mem llm hs) (retrieve_loop-IsClose hs) e)

    pub retrieve_facts-IsClose :
        (table : Text) (v : Vec) → Yields (All IsClose) (retrieve_facts cfg mem llm table v)
    unfolding retrieve_facts
    retrieve_facts-IsClose table v =
        Yields-bind (λ _. Unit) (All IsClose) _ _ (Yields-any _ _ (λ a. tt))
          λ hits u. retrieve_loop-IsClose hits

  pub retrieve_facts-Forward :
      (cfg : TierConfig) (llm : LlmClient) (table : Text) (v : Vec)
      → Forward (retrieve_facts cfg mem llm table v)
  unfolding retrieve_facts retrieve_loop scan_fact
  retrieve_facts-Forward cfg llm table v =
      Forward-bind (vector_search table memory v mem.top_k) (retrieve_loop cfg mem llm)
        (vector_search-Forward table memory v mem.top_k) loop
    where
      loop : (hs : List VectorHit) → Forward (retrieve_loop cfg mem llm hs)
      loop [] = Forward-pure []
      loop (h ∷ hs) =
          Forward-if (ltb_ℤ (similarity_of h.distance) mem.similarity_threshold) (pure []) _
            (Forward-pure [])
            (Forward-bind (scan_fact h.id) _ (Forward-query _) λ found.
              Forward-bind (retrieve_loop cfg mem llm hs) _ (loop hs)
                λ facts. Forward-pure (with_similarity (similarity_of h.distance) found facts))

  module _ (from : Time) where
    -- Gate 2, passed at a reading of the clock.
    abbrev WasFresh : MemoryFact → Bool → Type 0
    WasFresh f b =
        b ≡ true
        → (t : Time) × (from ≤ t)
          × (fresh_at t f.expires_at f.fetched_at (volatility_max_age f.volatility) ≡ true)

    fresh_enough-fresh :
        (f : MemoryFact)
        → Since from
            (WasFresh f)
            (fresh_enough f.expires_at f.fetched_at (volatility_max_age f.volatility))
    unfolding fresh_enough now
    fresh_enough-fresh f = record {
      at = λ w b le e h.
          ((now w).1.clock, omega (arith, le, (now_tables w).2), ok-injective _ b e ∙ h);
    }

    fresh_enough-Forward :
        (f : MemoryFact)
        → Forward (fresh_enough f.expires_at f.fetched_at (volatility_max_age f.volatility))
    unfolding fresh_enough
    fresh_enough-Forward f =
        Forward-bind now _ (record { at = λ w. (now_tables w).2 })
          λ t. Forward-pure (fresh_at t f.expires_at f.fetched_at (volatility_max_age f.volatility))

    keep_fresh :
        (f : MemoryFact) (b : Bool) (rest : List MemoryFact)
        → IsClose f
        → WasFresh f b
        → All (Passed from) rest
        → All (Passed from) (if b then f ∷ rest else rest)
    keep_fresh f true rest c h all = let (t, le, e) = h refl in ((c, t, le, e), all)
    keep_fresh f false rest c h all = all

    pub fresh_facts-Forward : (fs : List MemoryFact) → Forward (fresh_facts fs)
    unfolding fresh_facts
    fresh_facts-Forward [] = Forward-pure []
    fresh_facts-Forward (f ∷ fs) =
        Forward-bind (fresh_enough f.expires_at f.fetched_at (volatility_max_age f.volatility)) _
          (fresh_enough-Forward f)
          λ b.
            Forward-bind (fresh_facts fs) _ (fresh_facts-Forward fs)
              λ rest. Forward-pure (if b then f ∷ rest else rest)

    pub fresh_facts-Passed :
        (fs : List MemoryFact) → All IsClose fs → Since from (All (Passed from)) (fresh_facts fs)
    unfolding fresh_facts
    fresh_facts-Passed [] h =
        Since-Yields from (All (Passed from)) (pure []) (Yields-pure (All (Passed from)) [] tt)
    fresh_facts-Passed (f ∷ fs) h =
        Since-bind from (WasFresh f) (All (Passed from))
          (fresh_enough f.expires_at f.fetched_at (volatility_max_age f.volatility)) _
          (fresh_enough-Forward f) (fresh_enough-fresh f)
          λ b e.
            Since-bind from (All (Passed from)) (All (Passed from)) (fresh_facts fs) _
              (fresh_facts-Forward fs) (fresh_facts-Passed fs h.1)
              λ rest all.
                Since-Yields from _ (pure (if b then f ∷ rest else rest))
                  (Yields-pure (All (Passed from)) _ (keep_fresh f b rest h.0 e all))

  -- The facts that a hit was recorded on have the texts of those that passed, in order, and passed.
  abbrev pub Touched : List MemoryFact → List MemoryFact → Type 0
  Touched [] [] = Unit
  Touched (g ∷ gs) (f ∷ fs) =
      (g.text ≡ f.text) × ((from : Time) → Passed from f → Passed from g) × Touched gs fs
  Touched _ _ = ⊥

  touch-text :
      (cfg : TierConfig) (f : MemoryFact)
      → Yields
          (λ out. (out.0.text ≡ f.text) × ((from : Time) → Passed from f → Passed from (out.0)))
          (touch_memory_fact cfg f)
  unfolding touch_memory_fact
  touch-text cfg f = record {
    at = λ w a e.
        subst (λ out. (out.0.text ≡ f.text) × ((from : Time) → Passed from f → Passed from (out.0)))
          (ok-injective _ a e) (refl, λ from p. p);
  }

  pub record_memory_hits-Touched :
      (cfg : TierConfig) (fs : List MemoryFact)
      → Yields (λ used. Touched used fs) (record_memory_hits cfg fs)
  unfolding record_memory_hits
  record_memory_hits-Touched cfg [] = Yields-pure _ [] tt
  record_memory_hits-Touched cfg (f ∷ fs) =
      Yields-bind _ _ (touch_memory_fact cfg f) _ (touch-text cfg f) λ touched h.
        Yields-bind _ _ (record_memory_hits cfg fs) _ (record_memory_hits-Touched cfg fs)
          λ rest all. Yields-pure _ _ (h.0, h.1, all)
