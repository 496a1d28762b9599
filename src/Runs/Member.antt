-- ===== src/Runs/Member.antt =====
-- Membership of a text in a list of texts, as the code tests it.
use go_web_search.Prelude.{◌≡◌, refl, inl, inr, true, List, [], ◌∷◌, In, sym, arith}
use go_web_search.Strings.{Text, text_eq, text_eq_iff}
use go_web_search.Runs.Listing.{member}

pub member_of_In : (x : Text) (ys : List Text) → In x ys → member text_eq x ys ≡ true
unfolding member
member_of_In x [] i = absurd i
member_of_In x (y ∷ ys) (inl e) = rw ((text_eq_iff x y).1 (sym e)) refl
member_of_In x (y ∷ ys) (inr i) = ground (arith, member_of_In x ys i)
