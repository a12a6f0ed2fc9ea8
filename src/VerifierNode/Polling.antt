-- ===== src/VerifierNode/Polling.antt =====
-- The polling of the proofs' directory (`poll_proof_directory`), whose loop never ends: the passes
-- that it has made are a list.
use catalyst_svm.Prelude.{
  List, [], ◌∷◌, Option, none, some, Result, ok, err, Bool, true, false, ◌||◌, ◌≡◌, refl, ◌∙◌,
  subst, ap, if◌then◌else◌, All, Bool-cases, inl, inr, map,
}
use catalyst_svm.Text.{Text, codes, text_eq}
use catalyst_svm.Text.Order.{text_eq_refl}
use catalyst_svm.Common.Hashing.{Hasher}
use catalyst_svm.Host.{Host}
use catalyst_svm.VerifierNode.{VerifierNode, VerifierState, Readings, verify_proof_file}

-- `processed_set`, a `HashSet`: its elements, and `contains`.
unfoldable pub contains : List Text → Text → Bool
unfolding text_eq
contains [] id = false
contains (x ∷ xs) id = text_eq x id || contains xs id

-- The batch that a path names: the stem of a file whose extension is `proof`.
abbrev pub proof_extension : Option Text → Bool
proof_extension none = false
proof_extension (some e) = text_eq e (codes "proof")

unfoldable pub batch_of_path : Host → Text → Option Text
batch_of_path host path =
    if proof_extension (host.extension path) then host.file_stem path else none

-- An entry of the directory, and what its verification would read.
abbrev pub Entry : Type 0
Entry = Text × Readings

module _ ⦃h : Hasher⦄ (node : VerifierNode) where
  -- The body for a batch: it is marked as processed whatever the verification says.
  unfoldable pub poll_batch :
      Readings → Option Text → List Text × VerifierState → List Text × VerifierState
  unfolding contains verify_proof_file
  poll_batch r none (seen, s) = (seen, s)
  poll_batch r (some id) (seen, s) =
      if contains seen id then (seen, s) else (id ∷ seen, (verify_proof_file node r id s).1)

  -- `while let Ok(Some(entry))`
  unfoldable pub poll_pass : List Entry → List Text × VerifierState → List Text × VerifierState
  unfolding poll_batch batch_of_path
  poll_pass [] p = p
  poll_pass ((path, r) ∷ rest) p = poll_pass rest (poll_batch r (batch_of_path node.host path) p)

  -- The outer loop over the passes that were made; `read_dir` may have failed.
  unfoldable pub poll_proof_directory :
      List (Result Text (List Entry)) → List Text × VerifierState → List Text × VerifierState
  unfolding poll_pass
  poll_proof_directory [] p = p
  poll_proof_directory (err _ ∷ passes) p = poll_proof_directory passes p
  poll_proof_directory (ok entries ∷ passes) p = poll_proof_directory passes (poll_pass entries p)

  -- The batch is marked, where there is one.
  abbrev pub IsSeen : List Text → Option Text → Type 0
  IsSeen seen none = Unit
  IsSeen seen (some id) = contains seen id ≡ true

  IsSeen-cons :
      (x : Text) (seen : List Text) (o : Option Text) → IsSeen seen o → IsSeen (x ∷ seen) o
  unfolding contains
  IsSeen-cons x seen none i = tt
  IsSeen-cons x seen (some id) i = elim (Bool-cases (text_eq x id)) [
    | inl same ↦ rw same refl
    | inr other ↦ rw (other, i) refl
  ]

  poll_batch-IsSeen :
      (r : Readings) (o : Option Text) (seen : List Text) (s : VerifierState)
      → IsSeen (poll_batch r o (seen, s)).0 o
  unfolding poll_batch contains
  poll_batch-IsSeen r none seen s = tt
  poll_batch-IsSeen r (some id) seen s = elim (Bool-cases (contains seen id)) [
    | inl old ↦ rw (old, contains) old
    | inr new ↦ rw (new, text_eq_refl id) refl
  ]

  poll_batch_keeps :
      (r : Readings) (o : Option Text) (seen : List Text) (s : VerifierState) (q : Option Text)
      → IsSeen seen q
      → IsSeen (poll_batch r o (seen, s)).0 q
  unfolding poll_batch
  poll_batch_keeps r none seen s q i = i
  poll_batch_keeps r (some id) seen s q i = elim (Bool-cases (contains seen id)) [
    | inl old ↦ rw old i
    | inr new ↦ rw new (IsSeen-cons id seen q i)
  ]

  poll_pass_keeps :
      (entries : List Entry) (p : List Text × VerifierState) (q : Option Text)
      → IsSeen p.0 q
      → IsSeen (poll_pass entries p).0 q
  unfolding poll_pass
  poll_pass_keeps [] p q i = i
  poll_pass_keeps ((path, r) ∷ rest) (seen, s) q i =
      poll_pass_keeps rest (poll_batch r (batch_of_path node.host path) (seen, s)) q
        (poll_batch_keeps r (batch_of_path node.host path) seen s q i)

  abbrev AllSeen : List Text → List Text → Type 0
  AllSeen paths seen = All (λ path. IsSeen seen (batch_of_path node.host path)) paths

  -- A pass marks the batch of each of its paths.
  poll_pass-AllSeen :
      (entries : List Entry) (p : List Text × VerifierState)
      → AllSeen (map (λ e. e.0) entries) (poll_pass entries p).0
  unfolding poll_pass
  poll_pass-AllSeen [] p = tt
  poll_pass-AllSeen ((path, r) ∷ rest) (seen, s) =
      let p' = poll_batch r (batch_of_path node.host path) (seen, s) in
      (
        poll_pass_keeps rest p' (batch_of_path node.host path)
            (poll_batch-IsSeen r (batch_of_path node.host path) seen s),
        poll_pass-AllSeen rest p',
      )

  poll_batch_seen :
      (r : Readings) (o : Option Text) (p : List Text × VerifierState)
      → IsSeen p.0 o
      → poll_batch r o p ≡ p
  unfolding poll_batch
  poll_batch_seen r none (seen, s) i = refl
  poll_batch_seen r (some id) (seen, s) i = rw i refl

  poll_pass_seen :
      (entries : List Entry) (p : List Text × VerifierState)
      → AllSeen (map (λ e. e.0) entries) p.0
      → poll_pass entries p ≡ p
  unfolding poll_pass
  poll_pass_seen [] p i = refl
  poll_pass_seen ((path, r) ∷ rest) p i =
      ap (poll_pass rest) (poll_batch_seen r (batch_of_path node.host path) p i.0)
      ∙ poll_pass_seen rest p i.1

  -- A second pass over the same paths changes nothing, whatever their files hold by then: a batch is
  -- verified once, and one whose verification failed is not tried again.
  pub poll_pass_once :
      (first second : List Entry) (p : List Text × VerifierState)
      → map (λ e. e.0) first ≡ map (λ e. e.0) second
      → poll_pass second (poll_pass first p) ≡ poll_pass first p
  poll_pass_once first second p same =
      poll_pass_seen second (poll_pass first p)
        (subst (λ paths. AllSeen paths (poll_pass first p).0) same (poll_pass-AllSeen first p))
