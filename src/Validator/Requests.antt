-- ===== src/Validator/Requests.antt =====
-- Every request to the validator is a path of steps.
use catalyst_svm.Prelude.{
  ◌+◌, ◌≤◌, Bool-cases, inl, inr, ◌++◌, map, map-append, append-nil, length-append, sym, subst,
  arith, wrap64, if◌then◌else◌, ℕ, List, [], ◌∷◌, Option, none, some, ◌≡◌, refl, Bool, true, false,
  Result, ok, err, length, ◌-◌,
}
use catalyst_svm.Prelude.Float.{Float}
use catalyst_svm.Text.{Text, text_eq, codes}
use catalyst_svm.Text.Order.{text_eq_iff}
use catalyst_svm.Common.Types.{Transaction, TransactionPriority}
use catalyst_svm.Common.Hashing.{Hasher}
use catalyst_svm.Host.{Disk}
use catalyst_svm.Rpc.{Json, RpcRequest}
use catalyst_svm.Policy.Engine.{should_seal}
use catalyst_svm.Validator.{
  Validator, ValidatorState, SubmitTxParams, SealedBatch, drain, drained_if, seal_queue, seal,
  priority_of, submitted_tx,
}
use catalyst_svm.Validator.Batches.{Readings, after_seal, check_and_seal_batch}
use catalyst_svm.Validator.Steps.{World, Reaches, submit, seals, process, stay, step}
use catalyst_svm.Validator.Service.{
  Method, Parser, answer_submit, answer_force_seal, answer_method, method_of, handle_rpc,
  answer_line, handle_line,
}

abbrev is_submit : Method → Bool
is_submit Method.submit = true
is_submit _ = false

abbrev is_force_seal : Method → Bool
is_force_seal Method.force_seal = true
is_force_seal _ = false

-- The methods are told apart by their texts.
is_submit-method_of : (m : Text) → is_submit (method_of m) ≡ text_eq m (codes "submitTransaction")
unfolding method_of
is_submit-method_of m = ground arith

-- One text is not another.
other_text : (m s t : Text) → text_eq s t ≡ false → text_eq m s ≡ true → text_eq m t ≡ false
other_text m s t differ same = rw ((text_eq_iff m s).0 same) differ

is_force_seal-method_of : (m : Text) → is_force_seal (method_of m) ≡ text_eq m (codes "forceSeal")
unfolding method_of text_eq
is_force_seal-method_of m =
    let not_submit = other_text m (codes "submitTransaction") (codes "forceSeal") refl in
    let not_status = other_text m (codes "getStatus") (codes "forceSeal") refl in
    let not_proofs = other_text m (codes "getProofs") (codes "forceSeal") refl in
    elim (Bool-cases (text_eq m (codes "submitTransaction"))) [
      | inl a ↦ rw (a, not_submit a) refl
      | inr a ↦ elim (Bool-cases (text_eq m (codes "getStatus"))) [
        | inl b ↦ rw (a, b, not_status b) refl
        | inr b ↦ elim (Bool-cases (text_eq m (codes "getProofs"))) [
          | inl c ↦ rw (a, b, c, not_proofs c) refl
          | inr c ↦ elim (Bool-cases (text_eq m (codes "forceSeal"))) [
            | inl d ↦ rw (a, b, c, d) refl
            | inr d ↦ rw (a, b, c, d) refl
          ]
        ]
      ]
    ]

-- What a submission says, and what a transaction keeps of it, with the time of its arrival.
abbrev pub Content : Type 0
Content = ℕ × Text × Text × List ℕ × TransactionPriority

abbrev pub kept_content : Transaction → Content
kept_content t = (t.arrival_ts, t.sender, t.program_id, t.instruction_data, t.priority)

abbrev pub asked_content : ℕ → SubmitTxParams → Content
asked_content now p = (now, p.sender, p.program_id, p.instruction_data, priority_of p.priority)

module _ ⦃h : Hasher⦄ ⦃f : Float⦄ (v : Validator) where
  -- A path of steps to a world whose state is the given one. On it, transactions of the given contents
  -- are submitted, in this order and no others, and at most the given number of batches is sealed.
  pub record Leads (asked : List Content) (seals : ℕ) (w : World) (s : ValidatorState)
      : Type 0 where
    pub target : World
    pub path : Reaches v w target
    pub state : target.state ≡ s
    pub submitted : map kept_content target.submitted ≡ map kept_content w.submitted ++ asked
    pub sealed : length target.sealed ≤ length w.sealed + seals

  pub stays : (w : World) → Leads [] 0 w w.state
  stays w = record {
    target = w;
    path = stay;
    state = refl;
    submitted = sym (append-nil (map kept_content w.submitted));
    sealed = omega arith;
  }

  if_not_drained : (b : Bool) (s s' : ValidatorState) → drained_if v b s ≡ (none, s') → s ≡ s'
  unfolding drain
  if_not_drained false s s' e = cc e
  if_not_drained true s s' e = cc e

  queue_not_drained :
      (q : List Transaction) (now : ℕ) (s s' : ValidatorState)
      → seal_queue v q now s ≡ (none, s')
      → s ≡ s'
  unfolding drain should_seal
  queue_not_drained [] now s s' e = cc e
  queue_not_drained (t ∷ q) now s s' e =
      if_not_drained (should_seal v.policy (length (t ∷ q)) (now - t.arrival_ts) (f.literal 0 0)) s
        s' e

  after_seal-Leads :
      (r : Readings) (disk : Disk) (w : World) (o : Option SealedBatch × ValidatorState)
      → seal v r.now w.state ≡ o
      → Leads [] 1 w (after_seal v r o disk).2
  unfolding drain seal after_seal
  after_seal-Leads r disk w (none, s) e = record {
    target = w;
    path = stay;
    state = queue_not_drained w.state.pending_txs r.now w.state s e;
    submitted = sym (append-nil (map kept_content w.submitted));
    sealed = omega arith;
  }
  after_seal-Leads r disk w (some (id, txs), s) e = record {
    target = _;
    path =
        step (step stay (seals r.now (id, txs) s w e))
          (process r (id, txs) disk w.in_flight [] _ refl);
    state = refl;
    submitted = sym (append-nil (map kept_content w.submitted));
    sealed = omega (arith, length-append w.sealed ((id, txs) ∷ []));
  }

  pub check_and_seal_batch-Leads :
      (r : Readings) (disk : Disk) (w : World)
      → Leads [] 1 w (check_and_seal_batch v r disk w.state).2
  unfolding check_and_seal_batch
  check_and_seal_batch-Leads r disk w = after_seal-Leads r disk w (seal v r.now w.state) refl

  abbrev asked_by : ℕ → Result Text SubmitTxParams → List Content
  asked_by now (err _) = []
  asked_by now (ok p) = asked_content now p ∷ []

  answer_submit-Leads :
      (id now : ℕ) (o : Result Text SubmitTxParams) (w : World)
      → Leads (asked_by now o) 0 w (answer_submit id now o w.state).1
  unfolding answer_submit submitted_tx
  answer_submit-Leads id now (err e) w = stays w
  answer_submit-Leads id now (ok p) w = record {
    target = _;
    path = step stay (submit now p w);
    state = refl;
    submitted =
        map-append kept_content w.submitted
          (submitted_tx (wrap64 (w.state.tx_counter + 1)) now p ∷ []);
    sealed = omega arith;
  }

  module _ (json : Json) where
    -- What a line asks for, by the text of its method: the submissions, and the number of seals.
    abbrev pub submissions_of :
        Parser v json → ℕ → Result Text (RpcRequest json.Value) → List Content
    submissions_of parser now (err _) = []
    submissions_of parser now (ok req) =
        if text_eq req.method (codes "submitTransaction")
        then asked_by now (parser.submit_params req.params)
        else []

    abbrev pub seals_of : Result Text (RpcRequest json.Value) → ℕ
    seals_of (err _) = 0
    seals_of (ok req) = if text_eq req.method (codes "forceSeal") then 1 else 0

    answer_method-Leads :
        (m : Method) (parser : Parser v json) (r : Readings) (req : RpcRequest json.Value)
        (disk : Disk) (w : World)
        → Leads
            (if is_submit m then asked_by r.now (parser.submit_params req.params) else [])
            (if is_force_seal m then 1 else 0)
            w
            (answer_method v json m parser r req disk w.state).2
    unfolding answer_method answer_force_seal
    answer_method-Leads Method.submit parser r req disk w =
        answer_submit-Leads req.id r.now (parser.submit_params req.params) w
    answer_method-Leads Method.get_status parser r req disk w = stays w
    answer_method-Leads Method.get_proofs parser r req disk w = stays w
    answer_method-Leads Method.force_seal parser r req disk w = check_and_seal_batch-Leads r disk w
    answer_method-Leads Method.unknown parser r req disk w = stays w

    answer_line-Leads :
        (parser : Parser v json) (r : Readings) (o : Result Text (RpcRequest json.Value))
        (disk : Disk) (w : World)
        → Leads
            (submissions_of parser r.now o)
            (seals_of o)
            w
            (answer_line v json parser r o disk w.state).2
    unfolding handle_rpc
    answer_line-Leads parser r (err e) disk w = stays w
    answer_line-Leads parser r (ok req) disk w =
        let a = answer_method-Leads (method_of req.method) parser r req disk w in
        let s' = (answer_method v json (method_of req.method) parser r req disk w.state).2 in
        let asked = asked_by r.now (parser.submit_params req.params) in
        subst (λ b. Leads (if b then asked else []) (seals_of (ok req)) w s')
          (is_submit-method_of req.method)
          (subst
            (λ b.
              Leads (if is_submit (method_of req.method) then asked else []) (if b then 1 else 0) w
                s')
            (is_force_seal-method_of req.method) a)

    -- What a line of a connection asks for is what is done.
    pub handle_line-Leads :
        (parser : Parser v json) (r : Readings) (line : Text) (disk : Disk) (w : World)
        → Leads
            (submissions_of parser r.now (parser.request line))
            (seals_of (parser.request line))
            w
            (handle_line v json parser r line disk w.state).2
    unfolding handle_line
    handle_line-Leads parser r line disk w = answer_line-Leads parser r (parser.request line) disk w
