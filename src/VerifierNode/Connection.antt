-- ===== src/VerifierNode/Connection.antt =====
-- A connection to the verifier node (`handle_connection`), line by line.
use catalyst_svm.Prelude.{List, [], ◌∷◌, Option, none, some, Bool, true, false}
use catalyst_svm.Text.{Text}
use catalyst_svm.Common.Hashing.{Hasher}
use catalyst_svm.Rpc.{Json, RpcResponse}
use catalyst_svm.VerifierNode.{VerifierNode, VerifierState, Readings, default_state}
use catalyst_svm.VerifierNode.Service.{Reply, Parser, handle_line}
use catalyst_svm.VerifierNode.Steps.{Reaches, stay, Reaches-trans, line-Reaches}
use catalyst_svm.VerifierNode.Invariant.{IsSound, reached-IsSound}

-- A line that is read, what its handling reads from outside, and whether its answer is written.
pub record Line : Type 0 where
  pub text : Text
  pub readings : Readings
  pub written : Bool

-- The answers so far and the state; an answer that cannot be written ends the connection.
abbrev pub Served : Type 0
Served = List (RpcResponse Reply) × VerifierState

abbrev pub after_answer : Bool → Option (RpcResponse Reply) → VerifierState → Served → Served
after_answer written none s rest = rest
after_answer true (some response) s (responses, t) = (response ∷ responses, t)
after_answer false (some response) s rest = ([], s)

module _ ⦃h : Hasher⦄ (node : VerifierNode) (json : Json) where
  -- The loop over the lines until the connection ends.
  unfoldable pub handle_connection : Parser node json → List Line → VerifierState → Served
  unfolding handle_line
  handle_connection parser [] s = ([], s)
  handle_connection parser (line ∷ lines) s =
      let (response, s') = handle_line node json parser line.readings line.text s in
      after_answer line.written response s' (handle_connection parser lines s')

  answer-Reaches :
      (written : Bool) (response : Option (RpcResponse Reply)) (s s' : VerifierState)
      (rest : Served)
      → Reaches node s s'
      → Reaches node s' rest.1
      → Reaches node s (after_answer written response s' rest).1
  answer-Reaches written none s s' rest p q = Reaches-trans node p q
  answer-Reaches true (some response) s s' (responses, t) p q = Reaches-trans node p q
  answer-Reaches false (some response) s s' rest p q = p

  connection-Reaches :
      (parser : Parser node json) (lines : List Line) (s : VerifierState)
      → Reaches node s (handle_connection parser lines s).1
  unfolding handle_connection
  connection-Reaches parser [] s = stay
  connection-Reaches parser (line ∷ lines) s =
      let (response, s') = handle_line node json parser line.readings line.text s in
      answer-Reaches line.written response s s' (handle_connection parser lines s')
        (line-Reaches node json parser line.readings line.text s)
        (connection-Reaches parser lines s')

  -- Whatever was written before, in whatever order, and whatever lines a client sends: after its
  -- connection the count is the number of the verified batches (modulo 2 ^ 64), the root is the one
  -- after the last of them, and each of them was entered after a verification that said valid.
  pub connection-IsSound :
      (parser : Parser node json) (lines : List Line) (s : VerifierState)
      → Reaches node default_state s
      → IsSound node (handle_connection parser lines s).1
  connection-IsSound parser lines s before =
      reached-IsSound node (handle_connection parser lines s).1
        (Reaches-trans node before (connection-Reaches parser lines s))
