-- ===== src/Client/Benchmark.antt =====
-- The calls of the client's benchmark: the submissions, and a seal after each full batch and at the end.
use native.Mathlib.Nat.{suc-mod, mod-lt, mod-eq_of_lt, mod_self, suc-mul, zero-mod}
use catalyst_svm.Prelude.{
  ℕ, zero, suc, ◌+◌, ◌*◌, ◌%◌, ◌<◌, ◌≤◌, ◌≡◌, refl, sym, ap, ◌∙◌, List, [], ◌∷◌, ◌++◌, true, false,
  Bool, Bool-cases, ◌⊎◌, inl, inr, ltb→lt, ltb→ge, not, count_if, arith, ◌==◌, ltb,
}
use catalyst_svm.Text.{codes, text_eq}
use catalyst_svm.Client.{
  Call, bench_call, seal_if, status_call, bench_loop, bench_calls, run_command, benchmark,
}

-- The calls of a method.
unfoldable pub is_seal : Call → Bool
unfolding text_eq
is_seal (peer, request) = text_eq request.method (codes "forceSeal")

unfoldable pub is_submission : Call → Bool
unfolding text_eq
is_submission (peer, request) = text_eq request.method (codes "submitTransaction")

count_if-append :
    {A : Type 0} (p : A → Bool) (xs ys : List A)
    → count_if p (xs ++ ys) ≡ count_if p xs + count_if p ys
count_if-append p [] ys = omega arith
count_if-append p (x ∷ xs) ys = ground (arith, count_if-append p xs ys)

-- The next remainder starts again at 0 after the last, and grows by one before.
next_mod : (i b : ℕ) → 0 < b → ((suc i % b ≡ 0) × (suc (i % b) ≡ b)) ⊎ (suc i % b ≡ suc (i % b))
next_mod i b pos = elim (Bool-cases (ltb (suc (i % b)) b)) [
  | inl less ↦ inr (suc-mod i b ∙ mod-eq_of_lt (ltb→lt (suc (i % b)) b less))
  | inr not_less ↦
      let last : suc (i % b) ≡ b =
        (let above = mod-lt i pos in let below = ltb→ge (suc (i % b)) b not_less in omega arith) in
      inl (suc-mod i b ∙ ap (λ r. r % b) last ∙ mod_self b, last)
]

-- The number of seals after a round, by whether the batch is full.
seals_step :
    (full : Bool) (rest : List Call) (b n r r' m : ℕ)
    → full ≡ (r' == 0)
    → ((r' ≡ 0) × (suc r ≡ b)) ⊎ (r' ≡ suc r)
    → count_if is_seal rest * b + m ≡ n + r'
    → count_if is_seal (seal_if full rest) * b + m ≡ suc n + r
unfolding is_seal
seals_step true rest b n r r' m is_full (inl (start, last)) counted =
    omega (arith, suc-mul (count_if is_seal rest) b)
seals_step true rest b n r r' m is_full (inr grows) counted = absurd (ground arith)
seals_step false rest b n r r' m is_full (inl (start, last)) counted = absurd (ground arith)
seals_step false rest b n r r' m is_full (inr grows) counted = omega arith

loop_seals : (b n i : ℕ) → 0 < b → count_if is_seal (bench_loop b n i) * b + (i + n) % b ≡ n + i % b
unfolding bench_loop is_seal bench_call
loop_seals b zero i pos =
    let same : i + 0 ≡ i = omega arith in ap (λ k. 0 * b + k % b) same ∙ omega arith
loop_seals b (suc n) i pos =
    let sum : i + suc n ≡ suc i + n = omega arith in
    ap (λ k. count_if is_seal (bench_loop b (suc n) i) * b + k % b) sum
    ∙ seals_step (suc i % b == 0) (bench_loop b n (suc i)) b n (i % b) (suc i % b) ((suc i + n) % b)
        refl (next_mod i b pos) (loop_seals b n (suc i) pos)

seal_no_submission :
    (full : Bool) (rest : List Call)
    → count_if is_submission (seal_if full rest) ≡ count_if is_submission rest
unfolding is_submission
seal_no_submission true rest = refl
seal_no_submission false rest = refl

loop_submissions : (b n i : ℕ) → count_if is_submission (bench_loop b n i) ≡ n
unfolding bench_loop is_submission bench_call
loop_submissions b zero i = refl
loop_submissions b (suc n) i =
    ap suc
      (seal_no_submission (suc i % b == 0) (bench_loop b n (suc i)) ∙ loop_submissions b n (suc i))

final_seals :
    (rest_is_zero : Bool) (r : ℕ)
    → rest_is_zero ≡ (r == 0)
    → ((r ≡ 0) × (count_if is_seal (seal_if (not rest_is_zero) (status_call ∷ [])) ≡ 0))
      ⊎ ((0 < r) × (count_if is_seal (seal_if (not rest_is_zero) (status_call ∷ [])) ≡ 1))
unfolding is_seal
final_seals true r e = inl (ground arith, refl)
final_seals false r e = inr (ground arith, refl)

-- As many seals as batches are needed.
rounded_up :
    (b count seals last r : ℕ)
    → seals * b + r ≡ count
    → r < b
    → ((r ≡ 0) × (last ≡ 0)) ⊎ ((0 < r) × (last ≡ 1))
    → (count ≤ (seals + last) * b) × ((seals + last) * b < count + b)
rounded_up b count seals last r sum less (inl (none_left, no_seal)) =
    let same : seals + last ≡ seals = omega arith in rw same (omega arith, omega arith)
rounded_up b count seals last r sum less (inr (left, one_seal)) =
    let same : seals + last ≡ suc seals = omega arith in
    rw same (omega (arith, suc-mul seals b), omega (arith, suc-mul seals b))

-- The benchmark submits as many transactions as it is told to, and for a size of a batch above 0 it
-- asks for a seal as often as batches of that size are needed for them; it does not panic.
pub benchmark_calls :
    (count b : ℕ)
    → 0 < b
    → (count_if is_submission (run_command (benchmark count b)).calls ≡ count)
      × (count ≤ count_if is_seal (run_command (benchmark count b)).calls * b)
      × (count_if is_seal (run_command (benchmark count b)).calls * b < count + b)
      × ((run_command (benchmark count b)).panics ≡ false)
unfolding run_command bench_calls is_submission
benchmark_calls count zero pos = absurd (omega arith)
benchmark_calls count (suc b) pos =
    let loop = bench_loop (suc b) count 0 in
    let end = seal_if (not (count % suc b == 0)) (status_call ∷ []) in
    let seals = count_if-append is_seal loop end in
    let start : 0 % suc b ≡ 0 = zero-mod (suc b) in
    let looped = loop_seals (suc b) count 0 pos in
    let same : 0 + count ≡ count = omega arith in
    let total : count_if is_seal loop * suc b + count % suc b ≡ count =
      ap (λ k. count_if is_seal loop * suc b + k % suc b) (sym same)
      ∙ looped
      ∙ omega (arith, start) in
    let ends : count_if is_submission end ≡ 0 =
      seal_no_submission (not (count % suc b == 0)) (status_call ∷ []) in
    let (enough, needed) =
      rounded_up (suc b) count (count_if is_seal loop) (count_if is_seal end) (count % suc b) total
        (mod-lt count pos) (final_seals (count % suc b == 0) (count % suc b) refl) in
    (
      count_if-append is_submission loop end
          ∙ omega (arith, loop_submissions (suc b) count 0, ends),
      rw seals enough,
      rw seals needed,
      refl,
    )
