-- ===== src/Gate/Answer.antt =====
-- gate.go, `MemoryAnswer`: what holds of an answer, and of the facts that it is said to rest on.
use go_web_search.Prelude.{
  ◌≡◌, ◌≢◌, refl, Bool, true, false, not, List, [], ◌∷◌, ◌++◌, Option, none, some, All, ap, ◌∙◌,
  sym, arith,
}
use go_web_search.Strings.{Text, trim_space, runes}
use go_web_search.Store.{World, ok, lift}
use go_web_search.Clock.{Time}
use go_web_search.Store.Forward.{Since, Since-Yields, Since-bind, Forward-lift}
use go_web_search.Vectors.Forward.{active_vector_table-Forward}
use go_web_search.Store.Yields.{Yields, Yields-pure, Yields-bind, Yields-if, Yields-any}
use go_web_search.Tier.{TierConfig}
use go_web_search.Vectors.{active_vector_table}
use go_web_search.Llm.{LlmClient}
use go_web_search.Memory.{MemoryConfig, MemoryFact, retrieve_facts}
use go_web_search.Gate.{
  fresh_facts, join_facts, is_insufficient, verdict, record_memory_hits, adjudicate, accept,
  answer_from, answer_with, memory_answer,
}
use go_web_search.Gate.Sound.{
  IsClose, Passed, Touched, retrieve_facts-IsClose, retrieve_facts-Forward, fresh_facts-Passed,
  fresh_facts-Forward, record_memory_hits-Touched,
}

verdict_lem :
    (out answer : Text)
    → verdict out ≡ some answer
    → (is_insufficient answer ≡ false) × (answer ≡ trim_space out)
unfolding verdict
verdict_lem out answer e = ground arith

abbrev text_of : Option Text → Text
text_of none = []
text_of (some s) = s

some-injective : (a b : Text) → some a ≡ some b → a ≡ b
some-injective a b e = ap text_of e

module _ (mem : MemoryConfig) (from : Time) where
  Touched-Passed :
      (gs fs : List MemoryFact)
      → Touched mem gs fs
      → All (Passed mem from) fs
      → All (Passed mem from) gs
  Touched-Passed [] [] t h = tt
  Touched-Passed [] (f ∷ fs) t h = absurd t
  Touched-Passed (g ∷ gs) [] t h = absurd t
  Touched-Passed (g ∷ gs) (f ∷ fs) t h = (t.1 from h.0, Touched-Passed gs fs t.2 h.1)

  Touched-join : (gs fs : List MemoryFact) → Touched mem gs fs → join_facts gs ≡ join_facts fs
  unfolding join_facts
  Touched-join [] [] t = refl
  Touched-join [] (f ∷ fs) t = absurd t
  Touched-join (g ∷ gs) [] t = absurd t
  Touched-join (g ∷ []) (f ∷ []) t = ap (λ x. runes "- " ++ x) (t.0)
  Touched-join (g ∷ []) (f ∷ f' ∷ fs) t = absurd (t.2)
  Touched-join (g ∷ g' ∷ gs) (f ∷ []) t = absurd (t.2)
  Touched-join (g ∷ g' ∷ gs) (f ∷ f' ∷ fs) t =
      ap (λ x. runes "- " ++ x ++ b'\n' ∷ join_facts (g' ∷ gs)) (t.0)
      ∙ ap (λ x. runes "- " ++ f.text ++ b'\n' ∷ x) (Touched-join (g' ∷ gs) (f' ∷ fs) (t.2))

  -- What an answer with the facts that it used has to do with the gates.
  pub record IsSound (answer : Text) (used : List MemoryFact) : Type 0 where
    pub some_fact : used ≢ []
    pub passed : All (Passed mem from) used
    pub adjudicated : mem.gate3_enabled ≡ true → is_insufficient answer ≡ false
    pub verbatim : mem.gate3_enabled ≡ false → answer ≡ join_facts used

  abbrev pub SoundIfAny : Option (Text × List MemoryFact) → Type 0
  SoundIfAny none = Unit
  SoundIfAny (some (answer, used)) = IsSound answer used

  cons_nil : (f : MemoryFact) (gs fs : List MemoryFact) → Touched mem gs (f ∷ fs) → gs ≢ []
  cons_nil f [] fs t e = t
  cons_nil f (g ∷ gs) fs t e = absurd cc

  module _ (llm : LlmClient) (cfg : TierConfig) where
    accept-Sound :
        (f : MemoryFact) (fs : List MemoryFact) (o : Option Text)
        → All (Passed mem from) (f ∷ fs)
        → ((answer : Text)
            → o ≡ some answer
            → mem.gate3_enabled ≡ true
            → is_insufficient answer ≡ false)
        → ((answer : Text)
            → o ≡ some answer
            → mem.gate3_enabled ≡ false
            → answer ≡ join_facts (f ∷ fs))
        → Yields SoundIfAny (accept llm cfg mem (f ∷ fs) o)
    accept-Sound f fs none h a v = Yields-pure SoundIfAny none tt
    accept-Sound f fs (some answer) h a v =
        Yields-bind (λ used. Touched mem used (f ∷ fs)) SoundIfAny (record_memory_hits cfg (f ∷ fs))
          _ (record_memory_hits-Touched mem cfg (f ∷ fs))
          λ used t. Yields-pure SoundIfAny (some (answer, used)) (record {
            some_fact = cons_nil f used fs t;
            passed = Touched-Passed used (f ∷ fs) t h;
            adjudicated = a answer refl;
            verbatim = λ e. v answer refl e ∙ sym (Touched-join used (f ∷ fs) t);
          })

    adjudicate_verdict :
        (q : Text) (facts : List MemoryFact)
        → Yields
            (λ o. (answer : Text) → o ≡ some answer → is_insufficient answer ≡ false)
            (adjudicate llm q facts)
    unfolding adjudicate
    adjudicate_verdict q facts =
        Yields-bind (λ _. Unit) _ _ _ (Yields-any _ _ (λ a. tt))
          λ out u. Yields-pure _ (verdict out) (λ answer e. (verdict_lem out answer e).0)

    answer_from-Sound :
        (q : Text) (fs : List MemoryFact)
        → All (Passed mem from) fs
        → Yields SoundIfAny (answer_from llm cfg mem q fs)
    unfolding answer_from
    answer_from-Sound q [] h = Yields-pure SoundIfAny none tt
    answer_from-Sound q (f ∷ fs) h =
        Yields-if SoundIfAny (not mem.gate3_enabled) _ _
          (λ off.
            accept-Sound f fs (some (join_facts (f ∷ fs))) h (λ a e on. absurd (off_on off on))
              (λ a e _. sym (some-injective _ _ e)))
          (λ on.
            Yields-bind _ SoundIfAny (adjudicate llm q (f ∷ fs)) _ (adjudicate_verdict q (f ∷ fs))
              λ o sound.
                accept-Sound f fs o h (λ a e _. sound a e) (λ a e off. absurd (on_off on off)))
      where
        off_on : not mem.gate3_enabled ≡ true → mem.gate3_enabled ≡ true → ⊥
        off_on e e' = ground arith

        on_off : not mem.gate3_enabled ≡ false → mem.gate3_enabled ≡ false → ⊥
        on_off e e' = ground arith

    answer_with-Sound :
        (q : Text) (active : Text × Bool) → Since from SoundIfAny (answer_with llm cfg mem q active)
    answer_with-Sound q (table, false) = Since-Yields from _ _ (Yields-pure SoundIfAny none tt)
    answer_with-Sound q ([], true) = Since-Yields from _ _ (Yields-pure SoundIfAny none tt)
    answer_with-Sound q (c ∷ s, true) =
        Since-bind from (λ _. Unit) SoundIfAny (lift (llm.embed true q)) _
          (Forward-lift (llm.embed true q)) (Since-Yields from _ _ (Yields-any _ _ (λ a. tt)))
          λ v u.
            Since-bind from (All (IsClose mem)) SoundIfAny (retrieve_facts cfg mem llm (c ∷ s) v) _
              (retrieve_facts-Forward mem cfg llm (c ∷ s) v)
              (Since-Yields from _ _ (retrieve_facts-IsClose mem cfg llm (c ∷ s) v))
              λ facts close.
                Since-bind from (All (Passed mem from)) SoundIfAny (fresh_facts facts) _
                  (fresh_facts-Forward mem from facts) (fresh_facts-Passed mem from facts close)
                  λ fresh passed. Since-Yields from _ _ (answer_from-Sound q fresh passed)

    memory_answer-Sound : (q : Text) → Since from SoundIfAny (memory_answer llm cfg mem q)
    unfolding memory_answer
    memory_answer-Sound q =
        Since-bind from (λ _. Unit) SoundIfAny active_vector_table _ active_vector_table-Forward
          (Since-Yields from _ _ (Yields-any _ _ (λ a. tt))) λ active u. answer_with-Sound q active

-- Whatever the model, the vectors and the driver do: when memory answers a question, the answer rests
-- on at least one fact, every fact used is at least as similar as the threshold asks and is fresh by
-- its expiry and by its volatility at an instant that is not before the call; with the third gate the
-- answer is neither empty nor INSUFFICIENT, and without it the answer is the facts themselves.
pub memory_answer_sound :
    (mem : MemoryConfig) (llm : LlmClient) (cfg : TierConfig) (q : Text) (w : World) (answer : Text)
    (used : List MemoryFact)
    → (memory_answer llm cfg mem q w).0 ≡ ok (some (answer, used))
    → (used ≢ [])
      × All (Passed mem w.clock) used
      × (mem.gate3_enabled ≡ true → is_insufficient answer ≡ false)
      × (mem.gate3_enabled ≡ false → answer ≡ join_facts used)
memory_answer_sound mem llm cfg q w answer used e =
    let s : SoundIfAny mem w.clock (some (answer, used)) =
      (memory_answer-Sound mem w.clock llm cfg q).at w (some (answer, used)) (omega arith) e in
    (s.some_fact, s.passed, s.adjudicated, s.verbatim)
