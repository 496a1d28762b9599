-- ===== src/Strings.antt =====
-- Texts that the code walks, as lists of runes, and the functions of Go's `strings` package that it
-- calls on them. Texts that are only compared as a whole are native strings.
--
-- Case is folded for the ASCII letters; a rune outside them is its own lower case.
use mathlib.Core.Path.{subst}
use Prim.Native.Char.{code}
use go_web_search.Prelude.{
  ℕ, ◌+◌, ◌-◌, ◌≡◌, ◌↔◌, refl, Bool, true, false, ◌&&◌, ◌||◌, List, [], ◌∷◌, ◌++◌, map, String, ltb,
  leb, ◌==◌, if◌then◌else◌, arith,
}

abbrev pub Text : Type 0
Text = List ℕ

-- The runes of a literal.
abbrev pub runes : String → Text
runes String.[] = []
runes (String.◌∷◌ c s) = code c ∷ runes s

unfoldable pub text_eq : Text → Text → Bool
text_eq [] [] = true
text_eq (x ∷ xs) (y ∷ ys) = x == y && text_eq xs ys
text_eq _ _ = false

pub text_eq→eq : (a b : Text) → text_eq a b ≡ true → a ≡ b
unfolding text_eq
text_eq→eq [] [] h = refl
text_eq→eq [] (y ∷ b) h = ground arith
text_eq→eq (x ∷ a) [] h = ground arith
text_eq→eq (x ∷ a) (y ∷ b) h = ground (arith, text_eq→eq a b)

pub text_eq_refl : (a : Text) → text_eq a a ≡ true
unfolding text_eq
text_eq_refl [] = refl
text_eq_refl (x ∷ a) = ground (arith, text_eq_refl a)

pub text_eq_iff : (a b : Text) → (text_eq a b ≡ true) ↔ (a ≡ b)
text_eq_iff a b = (text_eq→eq a b, λ e. subst (λ x. text_eq a x ≡ true) e (text_eq_refl a))

-- unicode.IsSpace
unfoldable pub is_space : ℕ → Bool
is_space c =
    (leb 9 c && leb c 13)
    || c == 32
    || c == 0x85
    || c == 0xA0
    || c == 0x1680
    || (leb 0x2000 c && leb c 0x200a)
    || c == 0x2028
    || c == 0x2029
    || c == 0x202f
    || c == 0x205f
    || c == 0x3000

-- The bytes of a rune in UTF-8, and of a text: `len(s)`.
abbrev pub rune_len : ℕ → ℕ
rune_len c = if ltb c 0x80 then 1 else if ltb c 0x800 then 2 else if ltb c 0x10000 then 3 else 4

unfoldable pub text_len : Text → ℕ
text_len [] = 0
text_len (c ∷ s) = rune_len c + text_len s

-- unicode.ToLower
unfoldable pub lower : ℕ → ℕ
lower c = if leb b'A' c && leb c b'Z' then c + 32 else c

unfoldable pub to_lower : Text → Text
unfolding lower
to_lower s = map lower s

-- strings.TrimSpace, as TrimLeft after TrimRight.
unfoldable pub trim_left : Text → Text
unfolding is_space
trim_left [] = []
trim_left (c ∷ s) = let rest = trim_left s in if is_space c then rest else c ∷ s

-- A rune in front of a text whose trailing space is gone.
keep_rune : ℕ → Text → Text
unfolding is_space
keep_rune c [] = if is_space c then [] else c ∷ []
keep_rune c (d ∷ s) = c ∷ d ∷ s

unfoldable pub trim_right : Text → Text
unfolding keep_rune
trim_right [] = []
trim_right (c ∷ s) = keep_rune c (trim_right s)

unfoldable pub trim_space : Text → Text
unfolding trim_left trim_right
trim_space s = trim_left (trim_right s)

unfoldable pub has_prefix : Text → Text → Bool
has_prefix [] s = true
has_prefix (x ∷ p) [] = false
has_prefix (x ∷ p) (y ∷ s) = x == y && has_prefix p s

-- strings.Contains(s, sub), with the searched text first as in `contains sub s`.
unfoldable pub contains : Text → Text → Bool
unfolding has_prefix
contains sub [] = has_prefix sub []
contains sub (c ∷ s) = has_prefix sub (c ∷ s) || contains sub s

-- unicode.ToUpper
unfoldable pub upper : ℕ → ℕ
upper c = if leb b'a' c && leb c b'z' then c - 32 else c

unfoldable pub to_upper : Text → Text
unfolding upper
to_upper s = map upper s

-- SQLite's LIKE on folded texts: `%` stands for any text and `_` for one rune.
unfoldable pub like_match : Text → Text → Bool
like_match [] [] = true
like_match [] (c ∷ s) = false
like_match (p ∷ ps) [] = p == b'%' && like_match ps []
like_match (p ∷ ps) (c ∷ s) = elim (p == b'%') [
  | true ↦ elim (like_match ps (c ∷ s)) [ true ↦ true | false ↦ like_match (p ∷ ps) s ]
  | false ↦ elim (p == b'_' || p == c) [ true ↦ like_match ps s | false ↦ false ]
]

-- `column LIKE '%' || q || '%'`
unfoldable pub like : Text → Text → Bool
unfolding like_match to_lower
like q s = like_match ((b'%' ∷ to_lower q) ++ b'%' ∷ []) (to_lower s)

-- A rune in front of the words of `s`: it joins the first word if `s` starts with one.
unfoldable pub push_word : ℕ → Text → List Text → List Text
unfolding is_space
push_word c [] ws = (c ∷ []) ∷ ws
push_word c (d ∷ s) [] = (c ∷ []) ∷ []
push_word c (d ∷ s) (w ∷ ws) = if is_space d then (c ∷ []) ∷ w ∷ ws else (c ∷ w) ∷ ws

-- strings.Fields
unfoldable pub fields : Text → List Text
unfolding is_space push_word
fields [] = []
fields (c ∷ s) = if is_space c then fields s else push_word c s (fields s)

-- strings.Join
unfoldable pub join : Text → List Text → Text
join sep [] = []
join sep (w ∷ []) = w
join sep (w ∷ v ∷ ws) = w ++ sep ++ join sep (v ∷ ws)
