-- ===== src/Measure/Digits.antt =====
-- Numbers that are printed in decimal are read by `scan_int`.
use portable_tls_ra.Base.{
  ℕ, zero, suc, ◌+◌, ◌-◌, ◌*◌, ◌/◌, ◌%◌, ◌<◌, ◌≤◌, ◌≡◌, refl, ap, sym, ◌∙◌, true, false, some, [],
  ◌∷◌, ◌++◌, append_assoc, Str, ltb, ◌==◌, arith, Bool-cases, inl, inr,
}
use portable_tls_ra.Measure.Libs.{isspace, print_digits, digit_char}
use portable_tls_ra.Measure.Status.{isdigit, read_digits, read_number, read_signed, scan_int}

-- The text does not go on with a digit.
abbrev pub Ends : Str → Type 0
Ends [] = Unit
Ends (c ∷ s) = isdigit c ≡ false

read_digits_end : (v : ℕ) (rest : Str) → Ends rest → read_digits v rest ≡ (v, rest)
unfolding read_digits
read_digits_end v [] h = refl
read_digits_end v (c ∷ s) h = rw h refl

-- The number has at most `n` digits.
abbrev pub HasDigits : ℕ → ℕ → Type 0
HasDigits zero v = v ≡ 0
HasDigits (suc n) v = HasDigits n (v / 10)

read_digits-digit_char :
    (acc d : ℕ) (rest : Str)
    → d < 10
    → read_digits acc (digit_char d ∷ rest) ≡ read_digits (acc * 10 + d) rest
unfolding read_digits
read_digits-digit_char acc d rest h =
    let small : ltb d 10 ≡ true = ground arith in
    let digit : isdigit (48 + d) ≡ true = ground arith in
    let value : acc * 10 + (48 + d - 48) ≡ acc * 10 + d = omega arith in
    rw (small, digit, value) refl

print_last : (n v : ℕ) → ltb v 10 ≡ true → print_digits 10 (suc n) v ≡ digit_char v ∷ []
unfolding print_digits
print_last n v e = rw (print_digits, e) refl

print_more :
    (n v : ℕ)
    → ltb v 10 ≡ false
    → print_digits 10 (suc n) v ≡ print_digits 10 n (v / 10) ++ digit_char (v % 10) ∷ []
unfolding print_digits
print_more n v e = rw (print_digits, e) refl

-- Printed digits add up to the number that was printed.
read_digits-print_digits :
    (n v : ℕ) (rest : Str)
    → HasDigits n v
    → read_digits 0 (print_digits 10 n v ++ rest) ≡ read_digits v rest
unfolding print_digits
read_digits-print_digits zero v rest h = ap (λ k. read_digits k rest) (omega (arith, h))
read_digits-print_digits (suc n) v rest h = elim (Bool-cases (ltb v 10)) [
  | inl e ↦
      ap (λ t. read_digits 0 (t ++ rest)) (print_last n v e)
      ∙ read_digits-digit_char 0 v rest (ground (arith, e))
      ∙ ap (λ k. read_digits k rest) (omega arith)
  | inr e ↦
      let dc = digit_char (v % 10) in
      let front = print_digits 10 n (v / 10) in
      let value : v / 10 * 10 + v % 10 ≡ v = omega arith in
      ap (λ t. read_digits 0 (t ++ rest)) (print_more n v e)
      ∙ ap (read_digits 0) (append_assoc front (dc ∷ []) rest)
      ∙ read_digits-print_digits n (v / 10) (dc ∷ rest) h
      ∙ read_digits-digit_char (v / 10) (v % 10) rest (omega arith)
      ∙ ap (λ k. read_digits k rest) value
]

-- The first character printed is a digit.
abbrev BeginsWithDigit : Str → Type 0
BeginsWithDigit t = (c : ℕ) × (s : Str) × (t ≡ c ∷ s) × (48 ≤ c) × (c ≤ 57)

digit_char-bounds : (d : ℕ) → d < 10 → (48 ≤ digit_char d) × (digit_char d ≤ 57)
digit_char-bounds d h = ground arith

first_last :
    (n v : ℕ) (rest : Str) → ltb v 10 ≡ true → BeginsWithDigit (print_digits 10 (suc n) v ++ rest)
first_last n v rest e =
    let range = digit_char-bounds v (ground (arith, e)) in
    (digit_char v, rest, ap (λ t. t ++ rest) (print_last n v e), range.0, range.1)

print_digits-first : (n v : ℕ) (rest : Str) → BeginsWithDigit (print_digits 10 (suc n) v ++ rest)
unfolding print_digits
print_digits-first zero v rest = elim (Bool-cases (ltb v 10)) [
  | inl e ↦ first_last zero v rest e
  | inr e ↦
      let range = digit_char-bounds (v % 10) (omega arith) in
      (digit_char (v % 10), rest, ap (λ t. t ++ rest) (print_more zero v e), range.0, range.1)
]
print_digits-first (suc m) v rest = elim (Bool-cases (ltb v 10)) [
  | inl e ↦ first_last (suc m) v rest e
  | inr e ↦
      let dc = digit_char (v % 10) in
      let first = print_digits-first m (v / 10) (dc ∷ rest) in
      let regroup = append_assoc (print_digits 10 (suc m) (v / 10)) (dc ∷ []) rest in
      (
        first.0,
        first.1,
        ap (λ t. t ++ rest) (print_more (suc m) v e) ∙ regroup ∙ first.2,
        first.3,
        first.4,
      )
]

scan_digit : (c : ℕ) (s : Str) → 48 ≤ c → c ≤ 57 → scan_int (c ∷ s) ≡ some (read_digits 0 (c ∷ s))
unfolding scan_int read_signed read_number
scan_digit c s low high =
    let space : isspace c ≡ false = ground arith in
    let minus : (c == 45) ≡ false = ground arith in
    let plus : (c == 43) ≡ false = ground arith in
    let digit : isdigit c ≡ true = ground arith in rw (space, minus, plus, digit) refl

scan_tab : (s : Str) → scan_int (9 ∷ s) ≡ scan_int s
unfolding scan_int
scan_tab s = refl

-- A number behind a tab, with at most 20 digits.
pub scan_int-print_digits :
    (v : ℕ) (rest : Str)
    → HasDigits 20 v
    → Ends rest
    → scan_int (9 ∷ (print_digits 10 20 v ++ rest)) ≡ some (v, rest)
scan_int-print_digits v rest h ends =
    let text = print_digits 10 20 v ++ rest in
    let first = print_digits-first 19 v rest in
    scan_tab text
    ∙ ap scan_int first.2
    ∙ scan_digit first.0 first.1 first.3 first.4
    ∙ ap (λ t. some (read_digits 0 t)) (sym first.2)
    ∙ ap some (read_digits-print_digits 20 v rest h ∙ read_digits_end v rest ends)
