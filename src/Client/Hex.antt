-- ===== src/Client/Hex.antt =====
-- The data of a submission, from its hexadecimal text.
use catalyst_svm.Prelude.{
  ℕ, zero, suc, ◌+◌, ◌*◌, ◌/◌, ◌%◌, ◌<◌, ◌≡◌, refl, ap, ◌∙◌, List, [], ◌∷◌, none, some, Option,
  true, false, Bool, arith, All, ◌&&◌, ◌==◌, if◌then◌else◌, length, Bool-cases, inl, inr,
}
use catalyst_svm.Text.{Text, hex_digit}
use catalyst_svm.Client.{
  to_digit, from_str_radix, trim_hex, continues, kept_if_sliced, sliced_bytes, hex_to_bytes,
  submitted, submitted_data, run_command, submit,
}

-- The usual text of bytes: two digits of lower case each, and any number of prefixes `0x`.
abbrev pub hex_text : List ℕ → Text
hex_text [] = []
hex_text (b ∷ bs) = hex_digit (b / 16) ∷ hex_digit (b % 16) ∷ hex_text bs

abbrev pub prefixed : ℕ → Text → Text
prefixed zero text = text
prefixed (suc n) text = 48 ∷ 120 ∷ prefixed n text

to_digit-hex_digit : (n : ℕ) → n < 16 → to_digit (hex_digit n) ≡ some n
unfolding to_digit
to_digit-hex_digit n h = ground arith

-- A digit's byte is no sign, no `x` and not within a character.
hex_digit-IsPlain :
    (n : ℕ) → n < 16 → ((hex_digit n == 43) ≡ false) × ((hex_digit n == 120) ≡ false)
hex_digit-IsPlain n h = (ground arith, ground arith)

pair_parses : (b : ℕ) → b < 256 → from_str_radix (hex_digit (b / 16)) (hex_digit (b % 16)) ≡ some b
unfolding from_str_radix
pair_parses b h =
    let high : b / 16 < 16 = omega arith in
    let low : b % 16 < 16 = omega arith in
    let whole : b / 16 * 16 + b % 16 ≡ b = omega arith in
    rw
      (
        (hex_digit-IsPlain (b / 16) high).0,
        to_digit-hex_digit (b / 16) high,
        to_digit-hex_digit (b % 16) low,
      )
      (ap some whole)

digit_no_continue : (n : ℕ) (rest : Text) → n < 16 → continues (hex_digit n ∷ rest) ≡ false
digit_no_continue n rest h = ground arith

text_no_continue : (bs : List ℕ) → All (λ b. b < 256) bs → continues (hex_text bs) ≡ false
text_no_continue [] h = refl
text_no_continue (b ∷ bs) (h, _) =
    digit_no_continue (b / 16) (hex_digit (b % 16) ∷ hex_text bs) (omega arith)

sliced-hex_text : (bs : List ℕ) → All (λ b. b < 256) bs → sliced_bytes (hex_text bs) ≡ some bs
unfolding sliced_bytes
sliced-hex_text [] h = refl
sliced-hex_text (b ∷ bs) (h, hs) =
    rw (text_no_continue bs hs, pair_parses b h, sliced-hex_text bs hs) refl

unless_both : {A : Type 0} (x y : A) (p q : Bool) → q ≡ false → (if p && q then x else y) ≡ y
unless_both x y true q e = rw e refl
unless_both x y false q e = refl

trim-hex_text : (bs : List ℕ) → All (λ b. b < 256) bs → trim_hex (hex_text bs) ≡ hex_text bs
unfolding trim_hex
trim-hex_text [] h = refl
trim-hex_text (b ∷ bs) (h, hs) =
    let plain : (hex_digit (b % 16) == 120) ≡ false =
      (hex_digit-IsPlain (b % 16) (omega arith)).1 in
    unless_both (trim_hex (hex_text bs)) (hex_text (b ∷ bs)) (hex_digit (b / 16) == 48)
      (hex_digit (b % 16) == 120) plain

trim-prefixed : (n : ℕ) (text : Text) → trim_hex (prefixed n text) ≡ trim_hex text
unfolding trim_hex
trim-prefixed zero text = refl
trim-prefixed (suc n) text = trim-prefixed n text

-- Bytes are read back from their hexadecimal text, with any number of `0x` in front.
pub hex_to_bytes-hex_text :
    (n : ℕ) (bs : List ℕ)
    → All (λ b. b < 256) bs
    → hex_to_bytes (prefixed n (hex_text bs)) ≡ some bs
unfolding hex_to_bytes
hex_to_bytes-hex_text n bs h =
    ap sliced_bytes (trim-prefixed n (hex_text bs) ∙ trim-hex_text bs h) ∙ sliced-hex_text bs h

length-trim : (text : Text) → length (trim_hex text) % 2 ≡ length text % 2
unfolding trim_hex
length-trim [] = refl
length-trim (a ∷ []) = refl
length-trim (a ∷ b ∷ rest) = elim (Bool-cases (a == 48 && b == 120)) [
  | inl prefix ↦ rw prefix (length-trim rest ∙ omega arith)
  | inr plain ↦ rw plain refl
]

not_sliced : (stops : Bool) (byte : Option ℕ) → kept_if_sliced stops byte none ≡ none
not_sliced true byte = refl
not_sliced false byte = refl

sliced_odd : (text : Text) → length text % 2 ≡ 1 → sliced_bytes text ≡ none
unfolding sliced_bytes
sliced_odd [] odd = absurd (omega arith)
sliced_odd (a ∷ []) odd = refl
sliced_odd (a ∷ b ∷ rest) odd =
    rw (sliced_odd rest (omega arith)) (not_sliced (continues rest) (from_str_radix a b))

-- A text of an odd number of bytes is not skipped or refused: the slice at its end is out of range, and
-- the client panics before it sends anything.
pub odd_data_panics :
    (sender program text priority : Text) (count : ℕ)
    → length text % 2 ≡ 1
    → run_command (submit sender program text priority count) ≡ record { calls = []; panics = true }
unfolding run_command submitted_data hex_to_bytes submitted
odd_data_panics sender program [] priority count odd = absurd (omega arith)
odd_data_panics sender program (a ∷ rest) priority count odd =
    let trimmed = length-trim (a ∷ rest) in rw (sliced_odd (trim_hex (a ∷ rest)) (omega arith)) refl
