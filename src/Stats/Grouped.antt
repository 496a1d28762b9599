-- ===== src/Stats/Grouped.antt =====
-- stats.go, `cacheStats`: the rows of each tier.
use go_web_search.Prelude.{
  ℕ, suc, ◌≡◌, refl, sym, ap, ◌∙◌, subst, inl, inr, true, false, List, [], ◌∷◌, Option, none, some,
  if◌then◌else◌, Bool-cases, Option-cases, arith, eq_iff, eq_refl,
}
use go_web_search.Rows.{Tier, short, long, permanent, other}
use go_web_search.Sql.{count}
use go_web_search.Tier.{tier_eq}
use go_web_search.Stats.{TierCounts, count_tier, group_tiers, record_tiers, no_tiers}

pub tier_eq-≡ : (t u : Tier) → tier_eq t u ≡ true → t ≡ u
tier_eq-≡ short short e = refl
tier_eq-≡ long long e = refl
tier_eq-≡ permanent permanent e = refl
tier_eq-≡ (other a) (other b) e = ap other ((eq_iff a b).0 e)
tier_eq-≡ t u e = cc

tier_eq_refl : (t : Tier) → tier_eq t t ≡ true
tier_eq_refl short = refl
tier_eq_refl long = refl
tier_eq_refl permanent = refl
tier_eq_refl (other a) = eq_refl a

tier_eq_comm : (t u : Tier) → tier_eq t u ≡ false → tier_eq u t ≡ false
tier_eq_comm t u e = elim (Bool-cases (tier_eq u t)) [
  | inr e' ↦ e'
  | inl e' ↦
      subst (λ x. tier_eq u x ≡ false) (tier_eq-≡ u t e')
        (subst (λ x. tier_eq x u ≡ false) (sym (tier_eq-≡ u t e')) e)
]

-- The count that stands with the tier.
found : Tier → List (Tier × ℕ) → Option ℕ
found t [] = none
found t ((u, n) ∷ gs) = if tier_eq t u then some n else found t gs

Unique : List (Tier × ℕ) → Type 0
Unique [] = Unit
Unique ((u, n) ∷ gs) = (found u gs ≡ none) × Unique gs

abbrev pub or_zero : Option ℕ → ℕ
or_zero none = 0
or_zero (some n) = n

found-record_none :
    (m : TierCounts) (gs : List (Tier × ℕ)) (t : Tier)
    → found t gs ≡ none
    → record_tiers m gs t ≡ m t
unfolding found record_tiers
found-record_none m [] t e = refl
found-record_none m ((u, n) ∷ gs) t e = elim (Bool-cases (tier_eq t u)) [
  | inl same ↦ ground arith
  | inr differs ↦
      found-record_none (λ x. if tier_eq x u then some n else m x) gs t (ground arith)
      ∙ ground arith
]

found-count_tier :
    (s t : Tier) (gs : List (Tier × ℕ))
    → found t (count_tier s gs)
      ≡ (if tier_eq t s then some (suc (or_zero (found t gs))) else found t gs)
unfolding found count_tier
found-count_tier s t [] = refl
found-count_tier s t ((u, n) ∷ gs) = elim (Bool-cases (tier_eq s u)) [
  | inl same ↦ ground (arith, tier_eq-≡ s u same)
  | inr differs ↦ elim (Bool-cases (tier_eq t u)) [
    | inl here ↦ ground (
      arith,
      subst (λ x. tier_eq x s ≡ false) (sym (tier_eq-≡ t u here)) (tier_eq_comm s u differs),
    )
    | inr there ↦ ground (arith, found-count_tier s t gs)
  ]
]

found-record :
    (m : TierCounts) (gs : List (Tier × ℕ)) (t : Tier) (n : ℕ)
    → Unique gs
    → found t gs ≡ some n
    → record_tiers m gs t ≡ some n
unfolding found record_tiers Unique
found-record m [] t n h e = cc
found-record m ((u, k) ∷ gs) t n (fresh, rest) e = elim (Bool-cases (tier_eq t u)) [
  | inl same ↦
      found-record_none (λ x. if tier_eq x u then some k else m x) gs t
        (subst (λ x. found x gs ≡ none) (sym (tier_eq-≡ t u same)) fresh)
      ∙ ground arith
  | inr differs ↦ found-record (λ x. if tier_eq x u then some k else m x) gs t n rest (ground arith)
]

count_tier-Unique : (s : Tier) (gs : List (Tier × ℕ)) → Unique gs → Unique (count_tier s gs)
unfolding count_tier Unique found
count_tier-Unique s [] h = (refl, tt)
count_tier-Unique s ((u, n) ∷ gs) (fresh, rest) = elim (Bool-cases (tier_eq s u)) [
  | inl same ↦ rw same (fresh, rest)
  | inr differs ↦ rw differs (
    ground (arith, found-count_tier s u gs, tier_eq_comm s u differs),
    count_tier-Unique s gs rest,
  )
]

group_tiers-Unique : (ts : List Tier) → Unique (group_tiers ts)
unfolding group_tiers Unique
group_tiers-Unique [] = tt
group_tiers-Unique (t ∷ ts) = count_tier-Unique t (group_tiers ts) (group_tiers-Unique ts)

found-group_tiers :
    (ts : List Tier) (t : Tier) → or_zero (found t (group_tiers ts)) ≡ count (tier_eq t) ts
unfolding group_tiers found count
found-group_tiers [] t = refl
found-group_tiers (s ∷ ts) t = elim (Bool-cases (tier_eq t s)) [
  | inl same ↦
      ap or_zero (found-count_tier s t (group_tiers ts)) ∙ rw same (ap suc (found-group_tiers ts t))
  | inr differs ↦
      ap or_zero (found-count_tier s t (group_tiers ts)) ∙ rw differs (found-group_tiers ts t)
]

no_tiers_zero : (t : Tier) → or_zero (no_tiers t) ≡ 0
no_tiers_zero short = refl
no_tiers_zero long = refl
no_tiers_zero permanent = refl
no_tiers_zero (other s) = refl

-- Each tier has the count of its rows.
pub record_tiers-count :
    (ts : List Tier) (t : Tier)
    → or_zero (record_tiers no_tiers (group_tiers ts) t) ≡ count (tier_eq t) ts
record_tiers-count ts t = elim (Option-cases (found t (group_tiers ts))) [
  | inl e ↦
      ap or_zero (found-record_none no_tiers (group_tiers ts) t e)
      ∙ no_tiers_zero t
      ∙ sym (ap or_zero e)
      ∙ found-group_tiers ts t
  | inr (n, e) ↦
      ap or_zero (found-record no_tiers (group_tiers ts) t n (group_tiers-Unique ts) e)
      ∙ sym (ap or_zero e)
      ∙ found-group_tiers ts t
]
