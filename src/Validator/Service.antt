-- ===== src/Validator/Service.antt =====
-- The requests to the validator, and the lines of its connections.
use catalyst_svm.Prelude.{ℕ, List, Option, none, some, Result, ok, err, ◌++◌, length, if◌then◌else◌}
use catalyst_svm.Prelude.Float.{Float}
use catalyst_svm.Text.{Text, codes, text_eq}
use catalyst_svm.Common.Hashing.{Hasher}
use catalyst_svm.Host.{Disk}
use catalyst_svm.Policy.Engine.{name}
use catalyst_svm.Rpc.{Json, RpcRequest, RpcResponse, replied, refused}
use catalyst_svm.Validator.{
  Validator, ValidatorState, SubmitTxParams, ProofRecord, submit_transaction,
}
use catalyst_svm.Validator.Batches.{Readings, check_and_seal_batch}

-- The results that the handlers serialise.
pub data Reply : Type 0 where
  tx_id batch_id : Text → Reply
  -- the numbers of pending transactions, of batches and of proofs, and the policy's name
  status : ℕ → ℕ → ℕ → Text → Reply
  proofs : List ProofRecord → Reply

-- The methods, and the strings that name them.
pub data Method : Type 0 where
  submit get_status get_proofs force_seal unknown : Method

unfoldable pub method_of : Text → Method
unfolding text_eq
method_of method =
    if text_eq method (codes "submitTransaction")
    then Method.submit
    else if text_eq method (codes "getStatus")
    then Method.get_status
    else if text_eq method (codes "getProofs")
    then Method.get_proofs
    else if text_eq method (codes "forceSeal")
    then Method.force_seal
    else Method.unknown

abbrev pub answer_submitted : ℕ → Result Text Text → RpcResponse Reply
answer_submitted id (ok tx) = replied id (tx_id tx)
answer_submitted id (err e) = refused id e

unfoldable pub answer_submit :
    ℕ → ℕ → Result Text SubmitTxParams → ValidatorState → RpcResponse Reply × ValidatorState
unfolding submit_transaction
answer_submit id now (err e) s = (refused id (codes "Invalid params: " ++ e), s)
answer_submit id now (ok params) s =
    let (result, s') = submit_transaction now params s in (answer_submitted id result, s')

abbrev pub answer_sealed : ℕ → Option Text → RpcResponse Reply
answer_sealed id (some batch) = replied id (batch_id batch)
answer_sealed id none = refused id (codes "No transactions to seal")

-- What a call of the service returns: its answer, the files and the state.
abbrev pub Answered : Type 0
Answered = RpcResponse Reply × Disk × ValidatorState

module _ ⦃h : Hasher⦄ ⦃f : Float⦄ (v : Validator) where
  unfoldable pub report_status : ℕ → ValidatorState → RpcResponse Reply
  report_status id s =
      replied id
        (status (length s.pending_txs) (length s.batches) (length s.proofs) (name v.policy))

  unfoldable pub answer_force_seal : Readings → ℕ → Disk → ValidatorState → Answered
  unfolding check_and_seal_batch
  answer_force_seal r id disk s =
      let (sealed, disk', s') = check_and_seal_batch v r disk s in
      (answer_sealed id sealed, disk', s')

  module _ (json : Json) where
    -- The two ways in which `serde_json` reads a request.
    pub record Parser : Type 0 where
      -- `from_value`
      pub submit_params : json.Value → Result Text SubmitTxParams
      -- `from_str`
      pub request : Text → Result Text (RpcRequest json.Value)

    -- The arms of the `match` on the method.
    unfoldable pub answer_method :
        Method → Parser → Readings → RpcRequest json.Value → Disk → ValidatorState → Answered
    unfolding answer_submit report_status answer_force_seal
    answer_method Method.submit parser r req disk s =
        let (response, s') = answer_submit req.id r.now (parser.submit_params req.params) s in
        (response, disk, s')
    answer_method Method.get_status parser r req disk s = (report_status req.id s, disk, s)
    answer_method Method.get_proofs parser r req disk s =
        (replied req.id (proofs s.proofs), disk, s)
    answer_method Method.force_seal parser r req disk s = answer_force_seal r req.id disk s
    answer_method Method.unknown parser r req disk s =
        (refused req.id (codes "Unknown method: " ++ req.method), disk, s)

    -- `Validator::handle_rpc`
    unfoldable pub handle_rpc :
        Parser → Readings → RpcRequest json.Value → Disk → ValidatorState → Answered
    unfolding method_of answer_method
    handle_rpc parser r req disk s = answer_method (method_of req.method) parser r req disk s

    abbrev pub answer_line :
        Parser → Readings → Result Text (RpcRequest json.Value) → Disk → ValidatorState → Answered
    unfolding handle_rpc
    answer_line parser r (err e) disk s = (refused 0 (codes "Parse error: " ++ e), disk, s)
    answer_line parser r (ok req) disk s = handle_rpc parser r req disk s

    -- A line of `handle_connection`.
    unfoldable pub handle_line : Parser → Readings → Text → Disk → ValidatorState → Answered
    unfolding handle_rpc
    handle_line parser r line disk s = answer_line parser r (parser.request line) disk s
