-- ===== src/Text.antt =====
-- Text, as the program's `String`s: the list of the UTF-8 bytes. Rust orders strings by their
-- bytes, and `format!` and `join` put byte strings together.
pub mod Order
pub mod Decimal
pub mod Hexadecimal
use Prim.Native.Char.{code}
use Prim.Native.String.{String}
use catalyst_svm.Prelude.{
  ℕ, zero, suc, ◌+◌, ◌-◌, ◌/◌, ◌%◌, ◌<◌, List, [], ◌∷◌, ◌++◌, Bool, true, false, Ordering, compare,
  if◌then◌else◌, ltb, length, replicate,
}
use Prim.Native.Nat.Ordering.{lt, eq, gt}

abbrev pub Text : Type 0
Text = List ℕ

-- The bytes of a literal, which is ASCII throughout the program.
abbrev pub codes : String → Text
codes String.[] = []
codes (String.◌∷◌ c s) = code c ∷ codes s

-- `Ord for str`: lexicographic by bytes.
abbrev pub cmp_text : Text → Text → Ordering
cmp_text [] [] = eq
cmp_text [] (_ ∷ _) = lt
cmp_text (_ ∷ _) [] = gt
cmp_text (x ∷ xs) (y ∷ ys) = elim (compare x y) [ lt ↦ lt | gt ↦ gt | eq ↦ cmp_text xs ys ]

-- `==` of strings.
unfoldable pub text_eq : Text → Text → Bool
text_eq s t = elim (cmp_text s t) [ eq ↦ true | _ ↦ false ]

-- `join`
unfoldable pub join : Text → List Text → Text
join sep [] = []
join sep (x ∷ []) = x
join sep (x ∷ y ∷ rest) = x ++ sep ++ join sep (y ∷ rest)

-- The digit of a value below sixteen, in `hex` and in `{:x}`.
abbrev pub hex_digit : ℕ → ℕ
hex_digit n = if ltb n 10 then 48 + n else 87 + n

-- The digits of a number in a base, before what is given; the fuel bounds their number.
unfoldable pub digits_before : ℕ → ℕ → ℕ → Text → Text
digits_before base zero n rest = rest
digits_before base (suc fuel) n rest =
    let more = digits_before base fuel (n / base) (hex_digit (n % base) ∷ rest) in
    if ltb n base then hex_digit n ∷ rest else more

-- `{}` of an unsigned integer. A number has fewer digits than one more than itself.
unfoldable pub decimal : ℕ → Text
unfolding digits_before
decimal n = digits_before 10 (suc n) n []

-- `{:x}` of an unsigned integer.
unfoldable pub hexadecimal : ℕ → Text
unfolding digits_before
hexadecimal n = digits_before 16 (suc n) n []

-- `{:0w}`: zeros in front, up to the width.
unfoldable pub zero_padded : ℕ → Text → Text
zero_padded width s = replicate (width - length s) 48 ++ s

-- `{}` of a `bool`.
abbrev pub show_bool : Bool → Text
show_bool true = codes "true"
show_bool false = codes "false"
