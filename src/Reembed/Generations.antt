-- ===== src/Reembed/Generations.antt =====
-- The names of the vector tables' generations.
use go_web_search.Prelude.{ℕ, ◌≡◌, [], ◌∷◌, ◌++◌, ap}
use go_web_search.Decimal.{itoa_nat, itoa_nat-injective}
use go_web_search.Strings.{Text, runes}
use go_web_search.Reembed.{generation_name}

cancel : (p a b : Text) → p ++ a ≡ p ++ b → a ≡ b
cancel [] a b e = e
cancel (x ∷ p) a b e = cancel p a b (ap tail e)
  where
    tail : Text → Text
    tail [] = []
    tail (c ∷ s) = s

-- Two generations never share a table, so a migration's new table is not the old one.
generation_name-injective : (a b : ℕ) → generation_name a ≡ generation_name b → a ≡ b
unfolding generation_name
generation_name-injective a b e =
    itoa_nat-injective a b (cancel (runes "vectors_g") (itoa_nat a) (itoa_nat b) e)
