-- ===== src/Rpc.antt =====
-- The line protocol that the nodes speak (examples/verifier-node/src/main.rs and
-- examples/validator/src/main.rs): requests and responses, each a line of JSON.
use catalyst_svm.Prelude.{ℕ, Option, none, some}
use catalyst_svm.Text.{Text}

-- `serde_json`: its values, of which the handlers read members by name.
pub record Json : Type 1 where
  pub Value : Type 0
  -- `v.get(key).and_then(|v| v.as_str())`
  pub str_at : Value → Text → Option Text
  -- `v.get(key).and_then(|v| v.as_u64())`
  pub u64_at : Value → Text → Option ℕ

pub record RpcRequest (Value : Type 0) : Type 0 where
  pub method : Text
  pub params : Value
  pub id : ℕ

-- `Value::Null` is `none`, and any other result is what the handler serialises.
pub record RpcResponse (Reply : Type 0) : Type 0 where
  pub result : Option Reply
  pub id : ℕ
  pub error : Option Text

module _ {Reply : Type 0} where
  abbrev pub replied : ℕ → Reply → RpcResponse Reply
  replied id r = record { result = some r; id = id; error = none }

  abbrev pub refused : ℕ → Text → RpcResponse Reply
  refused id message = record { result = none; id = id; error = some message }
