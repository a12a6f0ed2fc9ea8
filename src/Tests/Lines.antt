-- ===== src/Tests/Lines.antt =====
-- Connections to the two nodes.
use catalyst_svm.Prelude.{[], ◌∷◌, Option, none, some, ok, true, if◌then◌else◌}
use catalyst_svm.Text.{Text, codes, text_eq}
use catalyst_svm.Rpc.{Json, RpcRequest}
use catalyst_svm.VerifierNode.{default_state}
use catalyst_svm.VerifierNode
use catalyst_svm.Validator
use catalyst_svm.VerifierNode.Connection.{connection-IsSound}
use catalyst_svm.VerifierNode.Steps.{stay}
use catalyst_svm.VerifierNode.Invariant.{IsSound}
use catalyst_svm.Validator.Connection.{connection-Leads}
use catalyst_svm.Validator.Steps.{initial_world}
use catalyst_svm.Validator.Requests.{Leads, asked_content}
use catalyst_svm.Tests.Fixtures.{padding, thousandths}
use catalyst_svm.Tests.Nodes.{validator, readings, no_files, first_batch}
use catalyst_svm.Tests.Sealed.{params}
use catalyst_svm.Tests.Checked.{node, present, msg}

-- A value is at most one string.
abbrev json : Json
json = record { Value = Option Text; str_at = λ v key. v; u64_at = λ v key. none }

abbrev request : Text → RpcRequest (Option Text)
request method = record { method = method; params = some first_batch; id = 1 }

-- A line is a broadcast, or the name of a method.
abbrev node_parser : VerifierNode.Service.Parser node json
node_parser = record {
  proof_message = λ line. if text_eq line (codes "proof") then some msg else none;
  request = λ line. ok (request line);
}

abbrev node_line : Text → VerifierNode.Connection.Line
node_line text = record { text = text; readings = present; written = true }

connection-IsSound_example :
    IsSound node
      (VerifierNode.Connection.handle_connection node json node_parser
        (node_line (codes "proof")
          ∷ node_line (codes "verifyBatch")
          ∷ node_line (codes "nothing")
          ∷ [])
        default_state).1
connection-IsSound_example =
    connection-IsSound node json node_parser
      (node_line (codes "proof")
        ∷ node_line (codes "verifyBatch")
        ∷ node_line (codes "nothing")
        ∷ [])
      default_state stay

abbrev validator_parser : Validator.Service.Parser validator json
validator_parser = record {
  submit_params = λ value. ok params;
  request = λ line. ok (request line);
}

abbrev validator_line : Text → Validator.Connection.Line
validator_line text = record { text = text; readings = readings; written = true }

connection-Leads_example :
    Leads validator
      (asked_content 6000 params ∷ [])
      1
      initial_world
      (Validator.Connection.handle_connection validator json validator_parser
        (validator_line (codes "submitTransaction") ∷ validator_line (codes "forceSeal") ∷ [])
        no_files
        initial_world.state).2
unfolding text_eq
connection-Leads_example =
    connection-Leads validator json validator_parser
      (validator_line (codes "submitTransaction") ∷ validator_line (codes "forceSeal") ∷ [])
      no_files initial_world
