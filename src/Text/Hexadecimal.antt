-- ===== src/Text/Hexadecimal.antt =====
-- Hexadecimal printing can be read back, so different numbers print differently; zeros in front do not
-- change what is read.
use catalyst_svm.Prelude.{
  ℕ, zero, suc, ◌+◌, ◌-◌, ◌*◌, ◌/◌, ◌%◌, ◌<◌, ◌≡◌, refl, inl, inr, [], ◌∷◌, ◌++◌, arith, ltb,
  Bool-cases, ltb→lt, ltb→ge, ap, ◌∙◌, sym, if◌then◌else◌, length, replicate, append-injective,
}
use catalyst_svm.Text.{Text, hex_digit, digits_before, decimal, hexadecimal, zero_padded}
use catalyst_svm.Text.Decimal.{read_from, read_from-decimal}

-- The value of a digit, and of digits read on from a value.
abbrev pub hex_value : ℕ → ℕ
hex_value c = if ltb c 58 then c - 48 else c - 87

unfoldable pub read_hex : ℕ → Text → ℕ
read_hex v [] = v
read_hex v (c ∷ s) = read_hex (v * 16 + hex_value c) s

pub hex_value-hex_digit : (n : ℕ) → n < 16 → hex_value (hex_digit n) ≡ n
hex_value-hex_digit n h = ground arith

read_hex-digits_before :
    (fuel n : ℕ) (rest : Text)
    → n < fuel
    → read_hex 0 (digits_before 16 fuel n rest) ≡ read_hex n rest
unfolding read_hex digits_before
read_hex-digits_before zero n rest h = elim h [ ]
read_hex-digits_before (suc fuel) n rest h = elim (Bool-cases (ltb n 16)) [
  | inl small ↦
      rw small
        (ap (λ v. read_hex v rest) (omega (arith, hex_value-hex_digit n (ltb→lt n 16 small))))
  | inr large ↦
      let rank : n / 16 < fuel = (let ge = ltb→ge n 16 large in omega arith) in
      let ih = read_hex-digits_before fuel (n / 16) (hex_digit (n % 16) ∷ rest) rank in
      rw large
        (ih ∙ ap (λ v. read_hex v rest) (omega (arith, hex_value-hex_digit (n % 16) (omega arith))))
]

-- A printed number is read back.
pub read_hex-hexadecimal : (n : ℕ) → read_hex 0 (hexadecimal n) ≡ n
unfolding hexadecimal read_hex
read_hex-hexadecimal n = read_hex-digits_before (suc n) n [] (omega arith)

read_hex-zeros : (n : ℕ) (s : Text) → read_hex 0 (replicate n 48 ++ s) ≡ read_hex 0 s
unfolding read_hex
read_hex-zeros zero s = refl
read_hex-zeros (suc n) s = read_hex-zeros n s

read_from-zeros : (n : ℕ) (s : Text) → read_from 0 (replicate n 48 ++ s) ≡ read_from 0 s
unfolding read_from
read_from-zeros zero s = refl
read_from-zeros (suc n) s = read_from-zeros n s

-- A prefix, and a number padded with zeros: the number is known from the text.
pub padded_hex-injective :
    (prefix : Text) (w m n : ℕ)
    → prefix ++ zero_padded w (hexadecimal m) ≡ prefix ++ zero_padded w (hexadecimal n)
    → m ≡ n
unfolding zero_padded
padded_hex-injective prefix w m n e =
    let (_, same) =
      append-injective prefix prefix (zero_padded w (hexadecimal m)) (zero_padded w (hexadecimal n))
        refl e in
    sym (read_hex-zeros (w - length (hexadecimal m)) (hexadecimal m) ∙ read_hex-hexadecimal m)
    ∙ ap (read_hex 0) same
    ∙ read_hex-zeros (w - length (hexadecimal n)) (hexadecimal n)
    ∙ read_hex-hexadecimal n

pub padded_decimal-injective :
    (prefix : Text) (w m n : ℕ)
    → prefix ++ zero_padded w (decimal m) ≡ prefix ++ zero_padded w (decimal n)
    → m ≡ n
unfolding zero_padded
padded_decimal-injective prefix w m n e =
    let (_, same) =
      append-injective prefix prefix (zero_padded w (decimal m)) (zero_padded w (decimal n)) refl
        e in
    sym (read_from-zeros (w - length (decimal m)) (decimal m) ∙ read_from-decimal m)
    ∙ ap (read_from 0) same
    ∙ read_from-zeros (w - length (decimal n)) (decimal n)
    ∙ read_from-decimal n
