-- ===== src/Examples/Texts.antt =====
-- The theorems on timestamps, tiers, numbers and texts at concrete values.
use go_web_search.Prelude.{
  ℕ, ◌<◌, ◌+◌, ◌*◌, ◌≤◌, ◌≡◌, ◌↔◌, true, [], ◌∷◌, ◌++◌, pos, negsuc, arith, In, inl, inr,
}
use go_web_search.Clock.{second, format, text_lt, stamp, empty, malformed}
use go_web_search.Clock.Order.{whole_second_sorts_last}
use go_web_search.Strings.{runes}
use go_web_search.Freshness.{fresh_at}
use go_web_search.Freshness.Window.{fresh_at_window}
use go_web_search.Distill.{json_array}
use go_web_search.Distill.Array.{json_array_lem}
use go_web_search.Examples.Data.{at_noon, noon}

whole_second_sorts_last_example :
    text_lt (format (noon * second + 500000000)) (format (noon * second)) ≡ true
whole_second_sorts_last_example = whole_second_sorts_last noon 500000000 (omega arith) (omega arith)

fresh_at_window_example :
    ((fresh_at (at_noon + 5) (stamp (format (at_noon + 9))) (stamp (format at_noon)) (pos 3) ≡ true)
      ↔ ((at_noon + 5 ≤ at_noon + 9) × (0 < 3 → at_noon + 5 ≤ at_noon + 3)))
    × ((fresh_at (at_noon + 5) (stamp (format (at_noon + 9))) (stamp (format at_noon)) (negsuc 3)
          ≡ true)
        ↔ (at_noon + 5 ≤ at_noon + 9))
    × ((fresh_at (at_noon + 5) empty (stamp (format at_noon)) (pos 3) ≡ true)
        ↔ (0 < 3 → at_noon + 5 ≤ at_noon + 3))
    × ((fresh_at (at_noon + 5) malformed (stamp (format at_noon)) (pos 3) ≡ true)
        ↔ (0 < 3 → at_noon + 5 ≤ at_noon + 3))
    × ((fresh_at (at_noon + 5) (stamp (format (at_noon + 9))) empty (pos 3) ≡ true)
        ↔ (at_noon + 5 ≤ at_noon + 9))
    × ((fresh_at (at_noon + 5) (stamp (format (at_noon + 9))) malformed (pos 3) ≡ true)
        ↔ (at_noon + 5 ≤ at_noon + 9))
    × (fresh_at (at_noon + 5) empty empty (pos 3) ≡ true)
    × (fresh_at (at_noon + 5) malformed malformed (pos 3) ≡ true)
fresh_at_window_example = fresh_at_window (at_noon + 5) (at_noon + 9) at_noon 3

abbrev seven : ℕ
seven = 7

no_bracket : (b : ℕ) → 0 < b → ¬ In b (0 ∷ [])
no_bracket b h (inl e) = absurd (omega (arith, e))
no_bracket b h (inr i) = i

json_array_lem_example :
    (json_array ((0 ∷ []) ++ b'[' ∷ (runes "1" ++ b']' ∷ 0 ∷ [])) ≡ b'[' ∷ runes "1" ++ b']' ∷ [])
    × (json_array ((0 ∷ []) ++ b'[' ∷ 0 ∷ []) ≡ [])
    × (json_array (0 ∷ []) ≡ [])
json_array_lem_example =
    json_array_lem (0 ∷ []) (runes "1") (0 ∷ []) (no_bracket b'[' (omega arith))
      (no_bracket b']' (omega arith))
