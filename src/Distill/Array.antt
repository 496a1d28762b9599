-- ===== src/Distill/Array.antt =====
-- jsonArray: the text between the outermost brackets.
use go_web_search.Prelude.{
  ℕ, ◌≡◌, refl, inl, inr, false, [], ◌∷◌, ◌++◌, Option, none, some, ◌==◌, arith, ap, ◌∙◌, In,
  Bool-cases,
}
use go_web_search.Strings.{Text}
use go_web_search.Distill.{from_bracket, to_bracket, array_in, text_or_none, json_array}

differs : (c d : ℕ) (s : Text) → ¬ In d (c ∷ s) → (c == d) ≡ false
differs c d s h = elim (Bool-cases (c == d)) [
  | inl e ↦ absurd (h (inl (ground (arith, e))))
  | inr e ↦ e
]

from_bracket-append :
    (front rest : Text) → ¬ In b'[' front → from_bracket (front ++ b'[' ∷ rest) ≡ some (b'[' ∷ rest)
unfolding from_bracket
from_bracket-append [] rest h = refl
from_bracket-append (c ∷ s) rest h =
    rw (differs c b'[' s h) (from_bracket-append s rest (λ i. h (inr i)))

from_bracket-none : (s : Text) → ¬ In b'[' s → from_bracket s ≡ none
unfolding from_bracket
from_bracket-none [] h = refl
from_bracket-none (c ∷ s) h = rw (differs c b'[' s h) (from_bracket-none s (λ i. h (inr i)))

to_bracket-none : (s : Text) → ¬ In b']' s → to_bracket s ≡ none
unfolding to_bracket
to_bracket-none [] h = refl
to_bracket-none (c ∷ s) h = rw (to_bracket-none s (λ i. h (inr i))) (rw (differs c b']' s h) refl)

to_bracket-append :
    (body back : Text)
    → ¬ In b']' back
    → to_bracket (body ++ b']' ∷ back) ≡ some (body ++ b']' ∷ [])
unfolding to_bracket
to_bracket-append [] back h = rw (to_bracket-none back h) refl
to_bracket-append (c ∷ s) back h = rw (to_bracket-append s back h) refl

unopened : (s : Text) → ¬ In b']' s → ¬ In b']' (b'[' ∷ s)
unopened s h (inl e) = absurd (omega (arith, e))
unopened s h (inr i) = h i

array_from : (s : Text) (o : Option Text) → from_bracket s ≡ o → json_array s ≡ array_in o
unfolding json_array
array_from s o e = ap array_in e

array_in-some : (s : Text) (o : Option Text) → to_bracket s ≡ o → array_in (some s) ≡ text_or_none o
array_in-some s o e = ap text_or_none e

-- Whatever prose the model puts around it, the array is taken from the first opening bracket to the
-- last closing one; where no closing bracket stands behind the first opening one, or none opens,
-- nothing is taken.
pub json_array_lem :
    (front body back : Text)
    → ¬ In b'[' front
    → ¬ In b']' back
    → (json_array (front ++ b'[' ∷ (body ++ b']' ∷ back)) ≡ b'[' ∷ body ++ b']' ∷ [])
      × (json_array (front ++ b'[' ∷ back) ≡ [])
      × (json_array front ≡ [])
json_array_lem front body back h k = (
  array_from _ _ (from_bracket-append front (body ++ b']' ∷ back) h)
      ∙ array_in-some _ _ (to_bracket-append (b'[' ∷ body) back k),
  array_from _ _ (from_bracket-append front back h)
      ∙ array_in-some _ _ (to_bracket-none (b'[' ∷ back) (unopened back k)),
  array_from _ _ (from_bracket-none front h),
)
