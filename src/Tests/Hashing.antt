-- ===== src/Tests/Hashing.antt =====
-- Roots over small inputs.
use catalyst_svm.Prelude.{ℕ, ◌≡◌, refl, ◌⊎◌, List, [], ◌∷◌}
use catalyst_svm.Text.{Text, codes}
use catalyst_svm.Text.Order.{text_ord}
use catalyst_svm.OrderedMap.{OrderedMap, insert}
use catalyst_svm.Common.Hashing.{Collision}
use catalyst_svm.Common.Merkle.{merkle_root}
use catalyst_svm.Common.Merkle.Binding.{merkle_root_binds}
use catalyst_svm.Common.Merkle.Accounts.{state_root_binds}
use catalyst_svm.Common.Merkle.Doubling.{merkle_root_doubled}
use catalyst_svm.Tests.Fixtures.{padding, padded, length-padded}

abbrev leaves : List Text
leaves = padded (codes "a") ∷ padded (codes "b") ∷ padded (codes "c") ∷ []

abbrev accounts : OrderedMap Text ℕ
accounts = (codes "alice", 100) ∷ (codes "bob", 200) ∷ []

-- The order of the writes does not matter.
accounts_sorted :
    insert (insert {K = Text} {V = ℕ} [] (codes "bob") 200) (codes "alice") 100 ≡ accounts
unfolding insert text_ord
accounts_sorted = refl

merkle_root_binds_example : (leaves ≡ leaves) ⊎ Collision padding
merkle_root_binds_example =
    merkle_root_binds leaves leaves refl
      (length-padded (codes "a"), (length-padded (codes "b"), (length-padded (codes "c"), tt)))
      (length-padded (codes "a"), (length-padded (codes "b"), (length-padded (codes "c"), tt))) refl

state_root_binds_example : (accounts ≡ accounts) ⊎ Collision padding
state_root_binds_example = state_root_binds accounts accounts refl refl

merkle_root_doubled_example :
    merkle_root (codes "a" ∷ codes "b" ∷ codes "c" ∷ [])
    ≡ merkle_root (codes "a" ∷ codes "b" ∷ codes "c" ∷ codes "c" ∷ [])
merkle_root_doubled_example = merkle_root_doubled 1 (codes "a") (codes "b") [] (codes "c") refl
