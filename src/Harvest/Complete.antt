-- ===== src/Harvest/Complete.antt =====
-- harvest.go, `SearchTerms`: what is recorded of a harvest.
use go_web_search.Prelude.{
  ℕ, suc, ◌≡◌, refl, Bool, true, false, List, [], ◌∷◌, Option, none, some, String, All, ℤ,
  if◌then◌else◌,
}
use go_web_search.Strings.{Text, join}
use go_web_search.Rows.{Tables}
use go_web_search.Store.{Result, ok, err, World, M, ◌>>=◌, ◌>>◌, pure, lift}
use go_web_search.Store.Keeps.{Keeps, Keeps-pure, Keeps-bind, Keeps-lift, Keeps-if}
use go_web_search.Store.Triple.{Triple, Triple-pure, Triple-bind, Triple-weaken}
use go_web_search.Runs.{save_search}
use go_web_search.Runs.Links.{IsLinked}
use go_web_search.Runs.Saved.{save_search_lem}
use go_web_search.Engines.{EngineDef, engines_by_names, parse_engine_set}
use go_web_search.Harvest.{
  SearchConfig, Web, Visit, no_tab, failed, landed, EngineOutcome, visited, query_engine, started,
  search_one_term, save_outcomes, unless_last, search_from, search_terms,
}
use go_web_search.Harvest.Recorded.{Asked, Grows, Asked-grow, save_search-Asked}

-- Every engine was asked for the term.
abbrev pub AllAsked : String → List EngineDef → Text → Tables → Type 0
AllAsked run_id engines term t = All (λ (e : EngineDef). Asked run_id term e.name t) engines

module _ (cfg : SearchConfig) (web : Web) where
  -- What is saved is linked, wherever the driver fails.
  save_outcomes-Keeps : (os : List EngineOutcome) → Keeps IsLinked (save_outcomes cfg web os)
  unfolding save_outcomes
  save_outcomes-Keeps [] = Keeps-pure IsLinked tt
  save_outcomes-Keeps (o ∷ os) =
      Keeps-bind IsLinked (save_search web.hostname o.rec) _
        (record { at = λ w h. (save_search_lem web.hostname o.rec w h).0 })
        λ id. save_outcomes-Keeps os

  unless_last-Keeps :
      (n : ℕ) (terms : List Text) (more : M Bool)
      → Keeps IsLinked more
      → Keeps IsLinked (unless_last cfg web n terms more)
  unless_last-Keeps n [] more h = Keeps-pure IsLinked true
  unless_last-Keeps n (t ∷ ts) more h = by_wait (web.waits n)
    where
      by_wait : (b : Bool) → Keeps IsLinked (if b then more else pure false)
      by_wait true = h
      by_wait false = Keeps-pure IsLinked false

  search_from-Keeps :
      (n : ℕ) (run_id : String) (engines : List EngineDef) (typed terms : List Text)
      → Keeps IsLinked (search_from cfg web n run_id engines typed terms)
  unfolding search_from
  search_from-Keeps n run_id engines typed [] = Keeps-pure IsLinked true
  search_from-Keeps n run_id engines typed (term ∷ terms) =
      Keeps-if IsLinked (web.begins n) _ _
        (Keeps-bind IsLinked (save_outcomes cfg web _) _ (save_outcomes-Keeps _)
          λ u. unless_last-Keeps n terms _ (search_from-Keeps (suc n) run_id engines typed terms))
        (Keeps-pure IsLinked false)

  search_terms-Keeps :
      (run_id : String) (terms : List Text) → Keeps IsLinked (search_terms cfg web run_id terms)
  unfolding search_terms
  search_terms-Keeps run_id terms =
      Keeps-bind IsLinked (lift _) _ (Keeps-lift IsLinked _)
        λ engines. search_from-Keeps 0 run_id engines _ terms

  -- Each outcome is recorded, and what was recorded stays so.
  save_outcomes-Asked :
      (os : List EngineOutcome) (P : Tables → Type 0)
      → ((t t' : Tables) → Grows t t' → P t → P t')
      → Triple P (save_outcomes cfg web os) (λ _ t.
        P t × All (λ (o : EngineOutcome). Asked o.rec.run_id o.rec.term o.rec.engine t) os)
  unfolding save_outcomes
  save_outcomes-Asked [] P grow = Triple-pure P tt _ λ t h. (h, tt)
  save_outcomes-Asked (o ∷ os) P grow =
      Triple-bind P (λ _ t. Both t) _ (save_search web.hostname o.rec) _
        (save_search-Asked web.hostname P grow o.rec)
        λ id.
          Triple-weaken Both _ _ (save_outcomes cfg web os)
            (save_outcomes-Asked os Both
              (λ t t' g b. (grow t t' g b.0, Asked-grow _ _ _ t t' g b.1)))
            λ u t h. (h.0.0, (h.0.1, h.1))
    where
      Both : Tables → Type 0
      Both t = P t × Asked o.rec.run_id o.rec.term o.rec.engine t

  module _ (run_id : String) (term : Text) where
    visited_names :
        (e : EngineDef) (typed : Bool) (count : ℤ) (v : Visit × ℕ) (t : Tables)
        → let rec = (visited cfg web run_id term e typed count v).rec in
          Asked rec.run_id rec.term rec.engine t → Asked run_id term e.name t
    unfolding visited
    visited_names e typed count (no_tab x, ms) t h = h
    visited_names e true count (failed x, ms) t h = h
    visited_names e false count (failed x, ms) t h = h
    visited_names e true count (landed x, ms) t h = h
    visited_names e false count (landed x, ms) t h = h

    started_names :
        (typed : List Text) (e : EngineDef) (cut : Option Text) (t : Tables)
        → cut ≡ none
        → let rec = (started cfg web run_id term typed e cut).rec in
          Asked rec.run_id rec.term rec.engine t → Asked run_id term e.name t
    unfolding query_engine started
    started_names typed e none t k h = visited_names e _ _ (web.visit e term _ _) t h
    started_names typed e (some x) t k h = absurd (not_both k)
      where
        not_both : some x ≡ none → ⊥
        not_both k = cc

  module _ (whole : (n : ℕ) (e : EngineDef) → web.cut_short n e ≡ none) where
    outcomes_names :
        (n : ℕ) (run_id : String) (term : Text) (engines : List EngineDef) (typed : List Text)
        (t : Tables)
        → All
            (λ (o : EngineOutcome). Asked o.rec.run_id o.rec.term o.rec.engine t)
            (search_one_term cfg web n run_id term engines typed)
        → AllAsked run_id engines term t
    unfolding search_one_term
    outcomes_names n run_id term [] typed t h = tt
    outcomes_names n run_id term (e ∷ engines) typed t h = (
      started_names run_id term typed e (web.cut_short n e) t (whole n e) h.0,
      outcomes_names n run_id term engines typed t h.1,
    )

    module _ (run_id : String) (engines : List EngineDef) (typed : List Text) where
      abbrev Done : (Tables → Type 0) → List Text → Bool → Tables → Type 0
      Done P terms done t = P t × (done ≡ true → All (λ term. AllAsked run_id engines term t) terms)

      grow_asked :
          (term : Text) (es : List EngineDef) (t t' : Tables)
          → Grows t t'
          → AllAsked run_id es term t
          → AllAsked run_id es term t'
      grow_asked term [] t t' g h = tt
      grow_asked term (e ∷ es) t t' g h =
          (Asked-grow run_id term e.name t t' g h.0, grow_asked term es t t' g h.1)

      stopped : (P : Tables → Type 0) (terms : List Text) → Triple P (pure false) (Done P terms)
      stopped P terms = Triple-pure P false _ λ t h. (h, λ e. absurd (not_done e))
        where
          not_done : false ≡ true → ⊥
          not_done e = cc

      -- The rest of the terms, behind one that is recorded.
      behind :
          (n : ℕ) (term : Text) (terms : List Text) (P : Tables → Type 0) (more : M Bool)
          → Triple
              (λ t. P t × AllAsked run_id engines term t)
              more
              (Done (λ t. P t × AllAsked run_id engines term t) terms)
          → Triple
              (λ t. P t × AllAsked run_id engines term t)
              (unless_last cfg web n terms more)
              (Done P (term ∷ terms))
      behind n term [] P more k = Triple-pure _ true _ λ t h. (h.0, λ e. (h.1, tt))
      behind n term (x ∷ terms) P more k = by_wait (web.waits n)
        where
          by_wait :
              (b : Bool)
              → Triple
                  (λ t. P t × AllAsked run_id engines term t)
                  (if b then more else pure false)
                  (Done P (term ∷ x ∷ terms))
          by_wait true = Triple-weaken _ _ _ more k λ d t h. (h.0.0, λ e. (h.0.1, h.1 e))
          by_wait false =
              Triple-weaken _ _ _ (pure false) (stopped _ (term ∷ x ∷ terms)) λ d t h. (h.0.0, h.1)

      search_from-Done :
          (n : ℕ) (terms : List Text) (P : Tables → Type 0)
          → ((t t' : Tables) → Grows t t' → P t → P t')
          → Triple P (search_from cfg web n run_id engines typed terms) (Done P terms)
      unfolding search_from
      search_from-Done n [] P grow = Triple-pure P true _ λ t h. (h, λ e. tt)
      search_from-Done n (term ∷ terms) P grow = by_begin n term terms P grow (web.begins n) (
          search_from-Done (suc n) terms (λ t. P t × AllAsked run_id engines term t)
            λ t t' g h. (grow t t' g h.0, grow_asked term engines t t' g h.1))
        where
          by_begin :
              (n : ℕ) (term : Text) (terms : List Text) (P : Tables → Type 0)
              → ((t t' : Tables) → Grows t t' → P t → P t')
              → (b : Bool) → {more : M Bool}
              → Triple
                  (λ t. P t × AllAsked run_id engines term t)
                  more
                  (Done (λ t. P t × AllAsked run_id engines term t) terms)
              → Triple P
                  (if b
                    then (do
                      save_outcomes cfg web (search_one_term cfg web n run_id term engines typed)
                      unless_last cfg web n terms more)
                    else pure false)
                  (Done P (term ∷ terms))
          by_begin n term terms P grow true k =
              Triple-bind P (λ _ t. P t × AllAsked run_id engines term t) _
                (save_outcomes cfg web (search_one_term cfg web n run_id term engines typed)) _
                (Triple-weaken P _ _ _ (save_outcomes-Asked _ P grow)
                  λ u t h. (h.0, outcomes_names n run_id term engines typed t h.1))
                λ u. behind n term terms P _ k
          by_begin n term terms P grow false k = stopped P (term ∷ terms)

    search_terms_whole :
        (run_id : String) (terms : List Text) (w : World)
        → (search_terms cfg web run_id terms w).0 ≡ ok true
        → (engines : List EngineDef) × (engines_by_names (join (44 ∷ []) cfg.engines) ≡ ok engines)
          × All
              (λ term. AllAsked run_id engines term (search_terms cfg web run_id terms w).1.tables)
              terms
    unfolding search_terms lift
    search_terms_whole run_id terms w =
        by_engines (engines_by_names (join (44 ∷ []) cfg.engines)) refl
      where
        by_engines :
            (r : Result (List EngineDef))
            → engines_by_names (join (44 ∷ []) cfg.engines) ≡ r
            → let out =
                (lift r >>= λ engines.
                search_from cfg web 0 run_id engines
                  (parse_engine_set (join (44 ∷ []) cfg.typed))
                  terms)
                  w in
              out.0 ≡ ok true
              → (engines : List EngineDef) × (r ≡ ok engines)
                × All (λ term. AllAsked run_id engines term out.1.tables) terms
        by_engines (err x) e k = absurd (not_both k)
          where
            not_both : err x ≡ ok true → ⊥
            not_both k = cc
        by_engines (ok engines) e k = (
          engines,
          refl,
          ((search_from-Done run_id engines _ 0 terms (λ t. Unit {0}) (λ t t' g u. tt)).at w true tt
                k).1
              refl,
        )

  -- Wherever the driver fails and whatever the browser brings, over tables where every link has its
  -- search and its URL: a harvest leaves them so; and if no engine's start is cut short and the
  -- harvest reports that it is complete, a search of the run is stored for each term and each of the
  -- configured engines.
  pub search_terms_lem :
      (run_id : String) (terms : List Text) (w : World)
      → IsLinked w.tables
      → IsLinked (search_terms cfg web run_id terms w).1.tables
        × (((n : ℕ) (e : EngineDef) → web.cut_short n e ≡ none)
            → (search_terms cfg web run_id terms w).0 ≡ ok true
            → (engines : List EngineDef) × (engines_by_names (join (44 ∷ []) cfg.engines)
                ≡ ok engines)
              × All
                  (λ term.
                    AllAsked run_id engines term (search_terms cfg web run_id terms w).1.tables)
                  terms)
  search_terms_lem run_id terms w h =
      ((search_terms-Keeps run_id terms).at w h, λ whole. search_terms_whole whole run_id terms w)
