-- ===== src/Host.antt =====
-- What the crates `tokio`, `bincode` and `serde_json` and paths do for the two nodes
-- (examples/validator/src/main.rs and examples/verifier-node/src/main.rs).
use catalyst_svm.Prelude.{
  ℕ, List, [], ◌∷◌, ◌++◌, Option, Result, ok, ◌≡◌, ◌≢◌, refl, Bool, true, false, not, ◌==◌,
  if◌then◌else◌, append-injective,
}
use catalyst_svm.Text.{Text, text_eq, codes}
use catalyst_svm.Common.Types.{ExecutionTrace, Proof}

abbrev starts_at_root : Text → Bool
starts_at_root [] = false
starts_at_root (c ∷ _) = c == 47

abbrev needs_separator : Text → Bool
needs_separator [] = false
needs_separator (c ∷ []) = not (c == 47)
needs_separator (_ ∷ c ∷ rest) = needs_separator (c ∷ rest)

-- What `PathBuf::push` leaves of a path before it puts the name behind it: nothing, where the name is
-- absolute, and else the path and a separator, unless it is empty or ends in one.
abbrev pub front : Text → Bool → Text
front dir true = []
front dir false = if needs_separator dir then dir ++ codes "/" else dir

-- `dir.join(name)`
unfoldable pub join_path : Text → Text → Text
join_path dir name = front dir (starts_at_root name) ++ name

-- Two names that differ in their ends are different paths in every directory.
pub join_path-differ :
    (dir shared : Text) (c : ℕ) (s t : Text)
    → s ≢ t
    → join_path dir (shared ++ (c ∷ s)) ≢ join_path dir (shared ++ (c ∷ t))
unfolding join_path
join_path-differ dir [] c s t differ e =
    let before = front dir (c == 47) in
    let names = (append-injective before before (c ∷ s) (c ∷ t) refl e).1 in differ (cc names)
join_path-differ dir (x ∷ shared) c s t differ e =
    let before = front dir (x == 47) in
    let first = x ∷ shared in
    let names = (append-injective before before (first ++ (c ∷ s)) (first ++ (c ∷ t)) refl e).1 in
    let ends = (append-injective first first (c ∷ s) (c ∷ t) refl names).1 in differ (cc ends)

-- The names of files, and the encodings of the two files of a batch.
pub record Host : Type 0 where
  -- `path.extension()`, and `path.file_stem().and_then(|s| s.to_str())`
  pub extension : Text → Option Text
  pub file_stem : Text → Option Text
  -- `bincode::serialize` and `bincode::deserialize`
  pub serialize_proof : Proof → Result Text (List ℕ)
  pub deserialize_proof : List ℕ → Result Text Proof
  -- `serde_json::to_vec_pretty` and `serde_json::from_slice`
  pub trace_to_vec_pretty : ExecutionTrace → Result Text (List ℕ)
  pub trace_from_slice : List ℕ → Result Text ExecutionTrace

-- What the nodes rely on: what was encoded is decoded.
pub record RoundTrips (host : Host) : Type 0 where
  pub proof :
      (p : Proof) (bytes : List ℕ)
      → host.serialize_proof p ≡ ok bytes
      → host.deserialize_proof bytes ≡ ok p
  pub trace :
      (t : ExecutionTrace) (bytes : List ℕ)
      → host.trace_to_vec_pretty t ≡ ok bytes
      → host.trace_from_slice bytes ≡ ok t

-- The files: what `tokio::fs::read` of a path returns.
abbrev pub Disk : Type 0
Disk = Text → Result Text (List ℕ)

-- The files after a write that succeeded.
unfoldable pub write_file : Text → List ℕ → Disk → Disk
unfolding text_eq
write_file path bytes disk p = if text_eq p path then ok bytes else disk p
