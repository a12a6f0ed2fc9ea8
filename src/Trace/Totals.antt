-- ===== src/Trace/Totals.antt =====
-- The totals of a trace builder are those of its entries, and the entries' state hashes form a
-- chain.
use catalyst_svm.Prelude.{
  ℕ, suc, ◌+◌, ◌≡◌, refl, List, [], ◌∷◌, ◌++◌, Bool, not, arith, length, count_if, wrap64,
  if◌then◌else◌,
}
use catalyst_svm.Text.{Text}
use catalyst_svm.Common.Types.{TraceEntry}
use catalyst_svm.Trace.{TraceBuilder, add_entry}

abbrev pub compute_sum : List TraceEntry → ℕ
compute_sum [] = 0
compute_sum (e ∷ es) = e.compute_used + compute_sum es

abbrev pub successes : List TraceEntry → ℕ
successes = count_if (λ e. e.success)

abbrev pub failures : List TraceEntry → ℕ
failures = count_if (λ e. not e.success)

-- The counts and the sum that a builder carries, against its entries.
pub record IsBalanced (b : TraceBuilder) : Type 0 where
  pub succeeded : b.success_count ≡ successes b.entries
  pub failed : b.failure_count ≡ failures b.entries
  pub computed : b.total_compute ≡ wrap64 (compute_sum b.entries)

-- Each entry starts from the state hash that the entry before it ended with.
abbrev pub IsChained : Text → List TraceEntry → Text → Type 0
IsChained pre [] post = pre ≡ post
IsChained pre (e ∷ es) post = (pre ≡ e.pre_state_hash) × IsChained e.post_state_hash es post

compute_sum-snoc :
    (es : List TraceEntry) (e : TraceEntry)
    → compute_sum (es ++ e ∷ []) ≡ compute_sum es + e.compute_used
compute_sum-snoc [] e = omega arith
compute_sum-snoc (d ∷ es) e = omega (arith, compute_sum-snoc es e)

count_if-snoc :
    (p : TraceEntry → Bool) (es : List TraceEntry) (e : TraceEntry)
    → count_if p (es ++ e ∷ []) ≡ (if p e then suc (count_if p es) else count_if p es)
count_if-snoc p [] e = ground arith
count_if-snoc p (d ∷ es) e = ground (arith, count_if-snoc p es e)

-- Adding an entry keeps the totals those of the entries.
pub add_entry-IsBalanced :
    (e : TraceEntry) (b : TraceBuilder) → IsBalanced b → IsBalanced (add_entry e b)
unfolding add_entry
add_entry-IsBalanced e b v = record {
  succeeded = ground (arith, v.succeeded, count_if-snoc (λ e. e.success) b.entries e);
  failed = ground (arith, v.failed, count_if-snoc (λ e. not e.success) b.entries e);
  computed = omega (arith, v.computed, compute_sum-snoc b.entries e);
}

-- The chain goes on with the next entry.
pub IsChained-snoc :
    (pre : Text) (es : List TraceEntry) (e : TraceEntry)
    → IsChained pre es e.pre_state_hash
    → IsChained pre (es ++ e ∷ []) e.post_state_hash
IsChained-snoc pre [] e c = (c, refl)
IsChained-snoc pre (d ∷ es) e c = (c.0, IsChained-snoc d.post_state_hash es e c.1)

-- Every entry is a success or a failure.
pub successes_add_failures : (es : List TraceEntry) → successes es + failures es ≡ length es
successes_add_failures [] = omega arith
successes_add_failures (e ∷ es) = ground (arith, successes_add_failures es)
