-- ===== src/Decimal.antt =====
-- strconv.Itoa and strconv.Atoi, as far as reembed.go uses them: the dimension is printed, and the
-- generation counter is printed and read back.
use go_web_search.Prelude.{
  ℕ, zero, suc, ◌+◌, ◌-◌, ◌*◌, ◌/◌, ◌%◌, ◌<◌, ◌≡◌, Bool, false, ◌&&◌, [], ◌∷◌, ◌++◌, Option, none,
  some, if◌then◌else◌, ltb, leb, ℤ, pos, negsuc, arith, sym, ap, ◌∙◌, Bool-cases, inl, inr,
}
use go_web_search.Strings.{Text}

-- The decimal digits of n, with fuel; a number has no more digits than its value plus one.
unfoldable pub digits : ℕ → ℕ → Text
digits zero n = []
digits (suc f) n =
    let front = digits f (n / 10) in
    let last = b'0' + n % 10 in if ltb n 10 then last ∷ [] else front ++ last ∷ []

unfoldable pub itoa_nat : ℕ → Text
itoa_nat n = digits (suc n) n

unfoldable pub itoa : ℤ → Text
unfolding itoa_nat
itoa (pos n) = itoa_nat n
itoa (negsuc n) = b'-' ∷ itoa_nat (suc n)

abbrev pub is_digit : ℕ → Bool
is_digit c = leb b'0' c && leb c b'9'

-- none: a character that is no digit.
unfoldable pub read_digits : ℕ → Text → Option ℕ
read_digits acc [] = some acc
read_digits acc (c ∷ s) =
    let rest = read_digits (acc * 10 + (c - b'0')) s in if is_digit c then rest else none

-- Atoi of a text without a sign; an error counts as 0, as `gen, _ := strconv.Atoi(...)` has it for a
-- text that is no number. (Out of the range of an int64 Go gives the nearest one; the texts read here
-- are the ones that the code wrote with Itoa.)
unfoldable pub atoi_or_zero : Text → ℕ
atoi_or_zero [] = 0
atoi_or_zero (c ∷ s) = elim (read_digits 0 (c ∷ s)) [ none ↦ 0 | some n ↦ n ]

read_digits-append :
    (acc : ℕ) (s : Text) (m c : ℕ)
    → read_digits acc s ≡ some m
    → c < 10
    → read_digits acc (s ++ (b'0' + c) ∷ []) ≡ some (m * 10 + c)
unfolding read_digits
read_digits-append acc [] m c h lt = ground arith
read_digits-append acc (d ∷ s) m c h lt =
    ground (arith, read_digits-append (acc * 10 + (d - b'0')) s m c)

read_digits-digits : (f n : ℕ) → n < f → read_digits 0 (digits f n) ≡ some n
unfolding digits
read_digits-digits zero n h = absurd (omega arith)
read_digits-digits (suc f) n h = elim (Bool-cases (ltb n 10)) [
  | inl small ↦ rw small (unfold read_digits in ground arith)
  | inr large ↦ rw large (
      read_digits-append 0 (digits f (n / 10)) (n / 10) (n % 10)
        (read_digits-digits f (n / 10) (ground arith)) (omega arith)
      ∙ ap some (omega arith))
]

digits-ne-nil : (f n : ℕ) → (c : ℕ) × (s : Text) × (digits (suc f) n ≡ c ∷ s)
unfolding digits
digits-ne-nil f n = elim (Bool-cases (ltb n 10)) [
  | inl small ↦ (b'0' + n % 10, [], rw small)
  | inr large ↦ front_ne_nil (digits f (n / 10)) (b'0' + n % 10) large
]
  where
    front_ne_nil :
        (front : Text) (d : ℕ)
        → ltb n 10 ≡ false
        → (c : ℕ) × (s : Text) × ((if ltb n 10 then d ∷ [] else front ++ d ∷ []) ≡ c ∷ s)
    front_ne_nil [] d large = (d, [], rw large)
    front_ne_nil (x ∷ front) d large = (x, front ++ d ∷ [], rw large)

-- Reading a printed number gives it back.
pub atoi-itoa : (n : ℕ) → atoi_or_zero (itoa_nat n) ≡ n
unfolding atoi_or_zero itoa_nat
atoi-itoa n =
    let (c, s, e) = digits-ne-nil n n in
    let read : read_digits 0 (c ∷ s) ≡ some n =
      rw e at (read_digits-digits (suc n) n (omega arith)) in
    rw e (rw (read, atoi_or_zero))

-- So no two numbers are printed alike.
pub itoa_nat-injective : (m n : ℕ) → itoa_nat m ≡ itoa_nat n → m ≡ n
itoa_nat-injective m n e = sym (atoi-itoa m) ∙ ap atoi_or_zero e ∙ atoi-itoa n
