-- ===== src/Text/Decimal.antt =====
-- Decimal printing can be read back, so different numbers print differently.
use catalyst_svm.Prelude.{
  ℕ, zero, suc, ◌+◌, ◌-◌, ◌*◌, ◌/◌, ◌%◌, ◌≤◌, ◌<◌, ◌≡◌, inl, inr, [], ◌∷◌, arith, ltb, All,
  Bool-cases, ltb→lt, ltb→ge, ap, ◌∙◌, sym,
}
use catalyst_svm.Text.{Text, hex_digit, digits_before, decimal}

-- Reads decimal digits on from a value.
unfoldable pub read_from : ℕ → Text → ℕ
read_from v [] = v
read_from v (c ∷ s) = read_from (v * 10 + (c - 48)) s

abbrev pub IsDigit : ℕ → Type 0
IsDigit c = (48 ≤ c) × (c < 58)

read_from-digits_before :
    (fuel n : ℕ) (rest : Text)
    → n < fuel
    → read_from 0 (digits_before 10 fuel n rest) ≡ read_from n rest
unfolding read_from digits_before
read_from-digits_before zero n rest h = elim h [ ]
read_from-digits_before (suc fuel) n rest h = elim (Bool-cases (ltb n 10)) [
  | inl small ↦ rw small (ap (λ v. read_from v rest) (omega arith))
  | inr large ↦
      let rank : n / 10 < fuel = (let ge = ltb→ge n 10 large in omega arith) in
      let ih = read_from-digits_before fuel (n / 10) (hex_digit (n % 10) ∷ rest) rank in
      rw large (ih ∙ ap (λ v. read_from v rest) (ground arith))
]

-- A printed number is read back.
pub read_from-decimal : (n : ℕ) → read_from 0 (decimal n) ≡ n
unfolding decimal read_from
read_from-decimal n = read_from-digits_before (suc n) n [] (omega arith)

pub decimal-injective : (m n : ℕ) → decimal m ≡ decimal n → m ≡ n
decimal-injective m n e = sym (read_from-decimal m) ∙ ap (read_from 0) e ∙ read_from-decimal n

digits_before-IsDigit :
    (fuel n : ℕ) (rest : Text) → All IsDigit rest → All IsDigit (digits_before 10 fuel n rest)
unfolding digits_before
digits_before-IsDigit zero n rest h = h
digits_before-IsDigit (suc fuel) n rest h = elim (Bool-cases (ltb n 10)) [
  | inl small ↦ let lt = ltb→lt n 10 small in rw small (ground arith, h)
  | inr large ↦
      rw large (digits_before-IsDigit fuel (n / 10) (hex_digit (n % 10) ∷ rest) (ground arith, h))
]

-- A printed number is made of digits.
pub decimal-IsDigit : (n : ℕ) → All IsDigit (decimal n)
unfolding decimal
decimal-IsDigit n = digits_before-IsDigit (suc n) n [] tt
