-- ===== src/Validator/Connection.antt =====
-- A connection to the validator (`handle_connection`), line by line, and the timer of `run_validator`.
use catalyst_svm.Prelude.{
  ℕ, suc, ◌+◌, ◌≡◌, List, [], ◌∷◌, ◌++◌, append_assoc, append-nil, map, length, arith, Bool, true,
  false, sym, ap, ◌∙◌, subst, if◌then◌else◌,
}
use catalyst_svm.Prelude.Float.{Float}
use catalyst_svm.Text.{Text}
use catalyst_svm.Common.Hashing.{Hasher}
use catalyst_svm.Host.{Disk}
use catalyst_svm.Rpc.{Json, RpcResponse}
use catalyst_svm.Validator.{Validator, ValidatorState}
use catalyst_svm.Validator.Batches.{Readings, check_and_seal_batch}
use catalyst_svm.Validator.Service.{Reply, Parser, handle_line}
use catalyst_svm.Validator.Steps.{World, Reaches, stay, step}
use catalyst_svm.Validator.Requests.{
  Leads, Content, kept_content, stays, submissions_of, seals_of, handle_line-Leads,
  check_and_seal_batch-Leads,
}

-- A line that is read, what its handling reads from outside, and whether its answer is written.
pub record Line : Type 0 where
  pub text : Text
  pub readings : Readings
  pub written : Bool

-- The answers so far, the files and the state.
abbrev pub Served : Type 0
Served = List (RpcResponse Reply) × Disk × ValidatorState

abbrev pub after_answer : Bool → RpcResponse Reply → Disk → ValidatorState → Served → Served
after_answer true response disk s (responses, disk', t) = (response ∷ responses, disk', t)
after_answer false response disk s rest = ([], disk, s)

module _ ⦃h : Hasher⦄ ⦃f : Float⦄ (v : Validator) where
  -- The timer of `run_validator`: one call for each tick so far.
  unfoldable pub seal_loop : List Readings → Disk → ValidatorState → Disk × ValidatorState
  unfolding check_and_seal_batch
  seal_loop [] disk s = (disk, s)
  seal_loop (r ∷ ticks) disk s =
      let (sealed, disk', s') = check_and_seal_batch v r disk s in seal_loop ticks disk' s'

  -- Two paths, one after the other.
  Reaches-trans : {w u t : World} → Reaches v w u → Reaches v u t → Reaches v w t
  Reaches-trans p stay = p
  Reaches-trans p (step q s) = step (Reaches-trans p q) s

  Leads-trans :
      {xs ys : List Content} {m n : ℕ} (w : World) (s t : ValidatorState) (a : Leads v xs m w s)
      → Leads v ys n a.target t
      → Leads v (xs ++ ys) (m + n) w t
  Leads-trans {xs} {ys} w s t a b = record {
    target = b.target;
    path = Reaches-trans a.path b.path;
    state = b.state;
    submitted =
        b.submitted
        ∙ ap (λ c. c ++ ys) a.submitted
        ∙ append_assoc (map kept_content w.submitted) xs ys;
    sealed = omega (arith, a.sealed, b.sealed);
  }

  -- The ticks of the timer seal at most one batch each.
  loop-Leads :
      (ticks : List Readings) (disk : Disk) (w : World)
      → Leads v [] (length ticks) w (seal_loop ticks disk w.state).1
  unfolding seal_loop
  loop-Leads [] disk w = stays v w
  loop-Leads (r ∷ ticks) disk w =
      let (sealed, disk', s') = check_and_seal_batch v r disk w.state in
      let a = check_and_seal_batch-Leads v r disk w in
      let b = loop-Leads ticks disk' a.target in
      let t = (seal_loop ticks disk' s').1 in
      let one_more : 1 + length ticks ≡ suc (length ticks) = omega arith in
      subst (λ n. Leads v [] n w t) one_more
        (Leads-trans w s' t a
          (subst (λ s. Leads v [] (length ticks) a.target (seal_loop ticks disk' s).1) a.state b))

  module _ (json : Json) where
    -- The loop over the lines until the connection ends.
    unfoldable pub handle_connection : Parser v json → List Line → Disk → ValidatorState → Served
    unfolding handle_line
    handle_connection parser [] disk s = ([], disk, s)
    handle_connection parser (line ∷ lines) disk s =
        let (response, disk', s') = handle_line v json parser line.readings line.text disk s in
        after_answer line.written response disk' s' (handle_connection parser lines disk' s')

    -- What the lines ask for, up to the first whose answer cannot be written.
    abbrev pub all_submissions : Parser v json → List Line → List Content
    all_submissions parser [] = []
    all_submissions parser (line ∷ lines) =
        submissions_of v json parser line.readings.now (parser.request line.text)
        ++ (if line.written then all_submissions parser lines else [])

    abbrev pub all_seals : Parser v json → List Line → ℕ
    all_seals parser [] = 0
    all_seals parser (line ∷ lines) =
        seals_of v json (parser.request line.text)
        + (if line.written then all_seals parser lines else 0)

    answered-Leads :
        {xs ys : List Content} {m n : ℕ} (written : Bool) (response : RpcResponse Reply)
        (disk : Disk) (w : World) (s' : ValidatorState) (rest : Served) (a : Leads v xs m w s')
        → Leads v ys n a.target rest.2
        → Leads v
            (xs ++ (if written then ys else []))
            (m + (if written then n else 0))
            w
            (after_answer written response disk s' rest).2
    answered-Leads true response disk w s' (responses, disk', t) a b = Leads-trans w s' t a b
    answered-Leads {xs} {m = m} false response disk w s' rest a b =
        let no_more : m ≡ m + 0 = omega arith in
        subst (λ c. Leads v c (m + 0) w s') (sym (append-nil xs))
          (subst (λ n. Leads v xs n w s') no_more a)

    -- Whatever lines a client sends, its connection is a path of steps (submissions, sealings, and batches
    -- that are processed), from any world, and the state after it is the state at the end of the path.
    -- On it, exactly the transactions of the lines with the method "submitTransaction" whose parameters
    -- can be read are submitted, in the order of the lines, with their senders, programs, data,
    -- priorities and times of arrival; and no more batches are sealed than there are lines with the
    -- method "forceSeal". Only the lines up to the first whose answer cannot be written count.
    pub connection-Leads :
        (parser : Parser v json) (lines : List Line) (disk : Disk) (w : World)
        → Leads v
            (all_submissions parser lines)
            (all_seals parser lines)
            w
            (handle_connection parser lines disk w.state).2
    unfolding handle_connection
    connection-Leads parser [] disk w = stays v w
    connection-Leads parser (line ∷ lines) disk w =
        let (response, disk', s') =
          handle_line v json parser line.readings line.text disk w.state in
        let a = handle_line-Leads v json parser line.readings line.text disk w in
        let b = connection-Leads parser lines disk' a.target in
        answered-Leads line.written response disk' w s' (handle_connection parser lines disk' s') a
          (subst
            (λ s.
              Leads v (all_submissions parser lines) (all_seals parser lines) a.target
                (handle_connection parser lines disk' s).2)
            a.state b)
