-- ===== src/VerifierNode/Steps.antt =====
-- The writes of the node's handlers as a step relation: each takes the lock on its own, so that the
-- handlers of several connections interleave at these writes.
use catalyst_svm.Prelude.{
  ℕ, List, [], ◌∷◌, Option, none, some, Result, ok, err, Bool-cases, inl, inr,
}
use catalyst_svm.Text.{Text, codes, text_eq}
use catalyst_svm.Common.Types.{ExecutionTrace, Proof}
use catalyst_svm.Common.Hashing.{Hasher}
use catalyst_svm.Rpc.{Json, RpcRequest}
use catalyst_svm.VerifierNode.{
  VerifierNode, VerifierState, VerifiedBatch, ProofMessage, Readings, verify_proof, load,
  after_load, verify_proof_file,
}
use catalyst_svm.VerifierNode.Service.{
  Parser, add_pending, remove_pending, after_broadcast, handle_proof_broadcast,
  request_verification, handle_rpc, answer_line, handle_line, dispatch_line, Method, method_of,
  answer_method,
}
use catalyst_svm.VerifierNode.Polling.{
  Entry, contains, batch_of_path, poll_batch, poll_pass, poll_proof_directory,
}

module _ ⦃h : Hasher⦄ (node : VerifierNode) where
  pub data Step : VerifierState → VerifierState → Type 0 where
    announce : (msg : ProofMessage) (s : VerifierState) → Step s (add_pending msg s)
    conclude :
        (r : Readings) (proof : Proof) (trace : ExecutionTrace) (s : VerifierState)
        → Step s (verify_proof node r proof trace s).1
    forget : (id : Text) (s : VerifierState) → Step s (remove_pending id s)

  pub data Reaches (s : VerifierState) : VerifierState → Type 0 where
    stay : Reaches s s
    step : {t u : VerifierState} → Reaches s t → Step t u → Reaches s u

  pub Reaches-trans : {s t u : VerifierState} → Reaches s t → Reaches t u → Reaches s u
  Reaches-trans a stay = a
  Reaches-trans a (step b c) = step (Reaches-trans a b) c

  after_load-Reaches :
      (r : Readings) (o : Result Text (Proof × ExecutionTrace)) (s : VerifierState)
      → Reaches s (after_load node r o s).1
  unfolding after_load
  after_load-Reaches r (err e) s = stay
  after_load-Reaches r (ok (proof, trace)) s = step stay (conclude r proof trace s)

  verify_proof_file-Reaches :
      (r : Readings) (id : Text) (s : VerifierState) → Reaches s (verify_proof_file node r id s).1
  unfolding verify_proof_file
  verify_proof_file-Reaches r id s = after_load-Reaches r (load node r id) s

  after_broadcast-Reaches :
      (id : Text) (s : VerifierState) (o : Result Text VerifiedBatch × VerifierState)
      → Reaches s o.1
      → Reaches s (after_broadcast node id o).1
  unfolding after_broadcast
  after_broadcast-Reaches id s (ok v, t) p = step p (forget id t)
  after_broadcast-Reaches id s (err e, t) p = p

  broadcast-Reaches :
      (r : Readings) (msg : ProofMessage) (s : VerifierState)
      → Reaches s (handle_proof_broadcast node r msg s).1
  unfolding handle_proof_broadcast
  broadcast-Reaches r msg s =
      after_broadcast-Reaches msg.batch_id s
        (verify_proof_file node r msg.batch_id (add_pending msg s))
        (Reaches-trans (step stay (announce msg s))
          (verify_proof_file-Reaches r msg.batch_id (add_pending msg s)))

  request_verification-Reaches :
      (r : Readings) (id : ℕ) (o : Option Text) (s : VerifierState)
      → Reaches s (request_verification node r id o s).1
  unfolding request_verification
  request_verification-Reaches r id none s = stay
  request_verification-Reaches r id (some batch) s = verify_proof_file-Reaches r batch s

  poll_batch-Reaches :
      (r : Readings) (o : Option Text) (p : List Text × VerifierState)
      → Reaches p.1 (poll_batch node r o p).1
  unfolding poll_batch
  poll_batch-Reaches r none (seen, s) = stay
  poll_batch-Reaches r (some id) (seen, s) = elim (Bool-cases (contains seen id)) [
    | inl old ↦ rw old stay
    | inr new ↦ rw new (verify_proof_file-Reaches r id s)
  ]

  poll_pass-Reaches :
      (entries : List Entry) (p : List Text × VerifierState)
      → Reaches p.1 (poll_pass node entries p).1
  unfolding poll_pass
  poll_pass-Reaches [] p = stay
  poll_pass-Reaches ((path, r) ∷ rest) p =
      let o = batch_of_path node.host path in
      Reaches-trans (poll_batch-Reaches r o p) (poll_pass-Reaches rest (poll_batch node r o p))

  poll-Reaches :
      (passes : List (Result Text (List Entry))) (p : List Text × VerifierState)
      → Reaches p.1 (poll_proof_directory node passes p).1
  unfolding poll_proof_directory
  poll-Reaches [] p = stay
  poll-Reaches (err e ∷ passes) p = poll-Reaches passes p
  poll-Reaches (ok entries ∷ passes) p =
      Reaches-trans (poll_pass-Reaches entries p) (poll-Reaches passes (poll_pass node entries p))

  module _ (json : Json) where
    method-Reaches :
        (m : Method) (r : Readings) (req : RpcRequest json.Value) (s : VerifierState)
        → Reaches s (answer_method node json m r req s).1
    unfolding answer_method
    method-Reaches Method.verify_batch r req s =
        request_verification-Reaches r req.id (json.str_at req.params (codes "batch_id")) s
    method-Reaches Method.get_status r req s = stay
    method-Reaches Method.get_verified_batches r req s = stay
    method-Reaches Method.get_attestation r req s = stay
    method-Reaches Method.unknown r req s = stay

    answer-Reaches :
        (r : Readings) (o : Result Text (RpcRequest json.Value)) (s : VerifierState)
        → Reaches s (answer_line node json r o s).1
    unfolding handle_rpc
    answer-Reaches r (err e) s = stay
    answer-Reaches r (ok req) s = method-Reaches (method_of req.method) r req s

    dispatch-Reaches :
        (r : Readings) (o : Option ProofMessage) (request : Result Text (RpcRequest json.Value))
        (s : VerifierState)
        → Reaches s (dispatch_line node json r o request s).1
    unfolding dispatch_line
    dispatch-Reaches r none request s = answer-Reaches r request s
    dispatch-Reaches r (some msg) request s =
        elim (Bool-cases (text_eq msg.msg_type (codes "proof"))) [
          | inl broadcast ↦ rw broadcast (broadcast-Reaches r msg s)
          | inr other ↦ rw other (answer-Reaches r request s)
        ]

    -- A line of a connection writes only by steps, whatever it says.
    pub line-Reaches :
        (parser : Parser node json) (r : Readings) (line : Text) (s : VerifierState)
        → Reaches s (handle_line node json parser r line s).1
    unfolding handle_line
    line-Reaches parser r line s =
        dispatch-Reaches r (parser.proof_message line) (parser.request line) s
