-- ===== src/Ingress/Words.antt =====
-- The operands that the generator writes are those that the executor reads.
use catalyst_svm.Prelude.{
  ℕ, zero, suc, ◌/◌, ◌^◌, ◌<◌, ◌≡◌, refl, ap, ◌∙◌, List, ◌++◌, arith, length, from_le_bytes, take,
  drop, u64_mod,
}
use native.Mathlib.Nat.{pow-suc}
use catalyst_svm.Executor.{first_word, second_word}
use catalyst_svm.Executor.Validity.{IsBytes}
use catalyst_svm.Ingress.{to_le_bytes}

from_le_bytes-to_le_bytes :
    (width n : ℕ) → n < 256 ^ width → from_le_bytes (to_le_bytes width n) ≡ n
unfolding to_le_bytes
from_le_bytes-to_le_bytes zero n h = omega arith
from_le_bytes-to_le_bytes (suc width) n h =
    let p = pow-suc 256 width in
    omega (arith, from_le_bytes-to_le_bytes width (n / 256) (omega (arith, p, h)))

pub length-to_le_bytes : (width n : ℕ) → length (to_le_bytes width n) ≡ width
unfolding to_le_bytes
length-to_le_bytes zero n = refl
length-to_le_bytes (suc width) n = omega (arith, length-to_le_bytes width (n / 256))

pub to_le_bytes-IsBytes : (width n : ℕ) → IsBytes (to_le_bytes width n)
unfolding to_le_bytes
to_le_bytes-IsBytes zero n = tt
to_le_bytes-IsBytes (suc width) n = (omega arith, to_le_bytes-IsBytes width (n / 256))

take_word : (a : ℕ) (rest : List ℕ) → take 8 (to_le_bytes 8 a ++ rest) ≡ to_le_bytes 8 a
unfolding to_le_bytes
take_word a rest = refl

drop_word : (a b : ℕ) → take 8 (drop 8 (to_le_bytes 8 a ++ to_le_bytes 8 b)) ≡ to_le_bytes 8 b
unfolding to_le_bytes
drop_word a b = refl

-- Two 64-bit operands are read back from the bytes that the generator writes for them.
pub operands_read_back :
    (a b : ℕ)
    → a < u64_mod
    → b < u64_mod
    → (first_word (to_le_bytes 8 a ++ to_le_bytes 8 b) ≡ a)
      × (second_word (to_le_bytes 8 a ++ to_le_bytes 8 b) ≡ b)
operands_read_back a b ha hb = (
  ap from_le_bytes (take_word a (to_le_bytes 8 b)) ∙ from_le_bytes-to_le_bytes 8 a ha,
  ap from_le_bytes (drop_word a b) ∙ from_le_bytes-to_le_bytes 8 b hb,
)
