-- ===== src/Common/Hashing.antt =====
-- What the program takes from the crates `sha2` and `hex`: the SHA-256 digest in hexadecimal.
use catalyst_svm.Prelude.{ℕ, ◌≡◌, ◌≢◌, List, length}
use catalyst_svm.Text.{Text}

-- The digest is not under the repository's sources. Of it the proofs use its documented length.
pub record Hasher : Type 0 where
  pub sha256_hex : List ℕ → Text
  pub length_sha256_hex : (bytes : List ℕ) → length (sha256_hex bytes) ≡ 64

-- `hash_bytes`
unfoldable pub hash_bytes : ⦃h : Hasher⦄ → List ℕ → Text
hash_bytes ⦃h⦄ bytes = h.sha256_hex bytes

-- `hash_str`
unfoldable pub hash_str : ⦃h : Hasher⦄ → Text → Text
unfolding hash_bytes
hash_str s = hash_bytes s

-- Two different inputs with one digest.
abbrev pub Collision : Hasher → Type 0
Collision h = (x : List ℕ) × (y : List ℕ) × (x ≢ y) × (h.sha256_hex x ≡ h.sha256_hex y)
