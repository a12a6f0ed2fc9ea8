-- ===== src/VerifierNode/Service.antt =====
-- The services of the verifier node: broadcasts of proofs, requests, and the polling of a directory.
use catalyst_svm.Prelude.{
  ℕ, List, [], ◌∷◌, ◌++◌, Option, none, some, Result, ok, err, reverse, take, length, if◌then◌else◌,
}
use catalyst_svm.Text.{Text, codes, text_eq}
use catalyst_svm.Text.Order.{text_ord}
use catalyst_svm.OrderedMap.{insert, remove}
use catalyst_svm.Common.Hashing.{Hasher}
use catalyst_svm.Rpc.{Json, RpcRequest, RpcResponse, replied, refused}
use catalyst_svm.VerifierNode.{
  VerifierNode, VerifierState, VerifiedBatch, ProofMessage, Readings, verify_proof_file,
}

unfoldable pub add_pending : ProofMessage → VerifierState → VerifierState
unfolding insert
add_pending msg s = record s {
  pending_verifications = insert s.pending_verifications msg.batch_id msg;
}

unfoldable pub remove_pending : Text → VerifierState → VerifierState
unfolding remove
remove_pending id s = record s { pending_verifications = remove s.pending_verifications id }

-- The results that the handlers serialise.
pub data Reply : Type 0 where
  verified : VerifiedBatch → Reply
  -- the node's name, the counts of the verified and the failed, the number pending, and the root
  status : Text → ℕ → ℕ → ℕ → Text → Reply
  batches : List VerifiedBatch → Reply
  attestation : Text → Reply

-- The methods, and the strings that name them.
pub data Method : Type 0 where
  verify_batch get_status get_verified_batches get_attestation unknown : Method

unfoldable pub method_of : Text → Method
unfolding text_eq
method_of name =
    if text_eq name (codes "verifyBatch")
    then Method.verify_batch
    else if text_eq name (codes "getStatus")
    then Method.get_status
    else if text_eq name (codes "getVerifiedBatches")
    then Method.get_verified_batches
    else if text_eq name (codes "getAttestation")
    then Method.get_attestation
    else Method.unknown

-- `find(|b| b.batch_id == id)`
unfoldable pub find_batch : Text → List VerifiedBatch → Option VerifiedBatch
unfolding text_eq
find_batch id [] = none
find_batch id (b ∷ bs) =
    let rest = find_batch id bs in if text_eq b.batch_id id then some b else rest

-- `unwrap_or(100)`
abbrev pub limit_of : Option ℕ → ℕ
limit_of none = 100
limit_of (some n) = n

abbrev pub answer_verified : ℕ → Result Text VerifiedBatch → RpcResponse Reply
answer_verified id (ok v) = replied id (verified v)
answer_verified id (err e) = refused id e

abbrev pub answer_attestation : ℕ → Option VerifiedBatch → RpcResponse Reply
answer_attestation id (some b) = replied id (attestation b.attestation)
answer_attestation id none = refused id (codes "Batch not verified")

unfoldable pub report_status : VerifierNode → ℕ → VerifierState → RpcResponse Reply
report_status node id s = replied id (
    status node.node_id s.verification_count s.failed_count (length s.pending_verifications)
      s.current_state_root)

unfoldable pub recent_batches : ℕ → Option ℕ → VerifierState → RpcResponse Reply
recent_batches id limit s =
    replied id (batches (take (limit_of limit) (reverse s.verified_batches)))

unfoldable pub look_up_attestation : ℕ → Option Text → VerifierState → RpcResponse Reply
unfolding find_batch
look_up_attestation id none s = refused id (codes "Missing batch_id")
look_up_attestation id (some batch) s = answer_attestation id (find_batch batch s.verified_batches)

module _ ⦃h : Hasher⦄ (node : VerifierNode) where
  -- The `match` on the verification: the entry goes only when it succeeded.
  unfoldable pub after_broadcast :
      Text → Result Text VerifiedBatch × VerifierState → Result Text (Unit {0}) × VerifierState
  unfolding remove_pending
  after_broadcast id (ok _, s) = (ok tt, remove_pending id s)
  after_broadcast id (err e, s) = (err e, s)

  -- `VerifierNode::handle_proof_broadcast`
  unfoldable pub handle_proof_broadcast :
      Readings → ProofMessage → VerifierState → Result Text (Unit {0}) × VerifierState
  unfolding add_pending verify_proof_file after_broadcast
  handle_proof_broadcast r msg s =
      after_broadcast msg.batch_id (verify_proof_file node r msg.batch_id (add_pending msg s))

  unfoldable pub request_verification :
      Readings → ℕ → Option Text → VerifierState → RpcResponse Reply × VerifierState
  unfolding verify_proof_file
  request_verification r id none s = (refused id (codes "Missing batch_id"), s)
  request_verification r id (some batch) s =
      let (result, s') = verify_proof_file node r batch s in (answer_verified id result, s')

  module _ (json : Json) where
    -- The arms of the `match` on the method.
    unfoldable pub answer_method :
        Method
        → Readings
        → RpcRequest json.Value
        → VerifierState
        → RpcResponse Reply × VerifierState
    unfolding request_verification report_status recent_batches look_up_attestation
    answer_method Method.verify_batch r req s =
        request_verification r req.id (json.str_at req.params (codes "batch_id")) s
    answer_method Method.get_status r req s = (report_status node req.id s, s)
    answer_method Method.get_verified_batches r req s =
        (recent_batches req.id (json.u64_at req.params (codes "limit")) s, s)
    answer_method Method.get_attestation r req s =
        (look_up_attestation req.id (json.str_at req.params (codes "batch_id")) s, s)
    answer_method Method.unknown r req s =
        (refused req.id (codes "Unknown method: " ++ req.method), s)

    -- `VerifierNode::handle_rpc`
    unfoldable pub handle_rpc :
        Readings → RpcRequest json.Value → VerifierState → RpcResponse Reply × VerifierState
    unfolding method_of answer_method
    handle_rpc r req s = answer_method (method_of req.method) r req s

    -- The two ways to read a line, `serde_json::from_str`.
    pub record Parser : Type 0 where
      pub proof_message : Text → Option ProofMessage
      pub request : Text → Result Text (RpcRequest json.Value)

    abbrev pub answer_line :
        Readings
        → Result Text (RpcRequest json.Value)
        → VerifierState
        → Option (RpcResponse Reply) × VerifierState
    unfolding handle_rpc
    answer_line r (err e) s = (some (refused 0 (codes "Parse error: " ++ e)), s)
    answer_line r (ok req) s = let (response, s') = handle_rpc r req s in (some response, s')

    unfoldable pub dispatch_line :
        Readings
        → Option ProofMessage
        → Result Text (RpcRequest json.Value)
        → VerifierState
        → Option (RpcResponse Reply) × VerifierState
    unfolding handle_proof_broadcast text_eq handle_rpc
    dispatch_line r none request s = answer_line r request s
    dispatch_line r (some msg) request s =
        if text_eq msg.msg_type (codes "proof")
        then (none, (handle_proof_broadcast r msg s).1)
        else answer_line r request s

    -- A line of `handle_connection`, and what is written back: nothing for a broadcast.
    unfoldable pub handle_line :
        Parser → Readings → Text → VerifierState → Option (RpcResponse Reply) × VerifierState
    unfolding dispatch_line
    handle_line parser r line s =
        dispatch_line r (parser.proof_message line) (parser.request line) s
