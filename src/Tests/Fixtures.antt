-- ===== src/Tests/Fixtures.antt =====
-- Values for the parameters of the model: a digest and floating-point operations that compute.
use catalyst_svm.Prelude.{
  ℕ, ◌+◌, ◌-◌, ◌*◌, ◌/◌, ◌^◌, ◌≡◌, List, [], ◌∷◌, ◌++◌, ltb, length, length-take, length-append,
  length-replicate, take, replicate, arith, max,
}
use catalyst_svm.Prelude.Float.{Float}
use catalyst_svm.Text.{Text, codes}
use catalyst_svm.Common.Hashing.{Hasher}
use catalyst_svm.Common.Types.{Transaction, new_transaction, Batch, new_batch, ExecutionTrace}

-- The first 64 bytes, filled up with zeros.
abbrev pub padded : List ℕ → Text
padded bytes = take 64 (bytes ++ replicate 64 48)

pub length-padded : (bytes : List ℕ) → length (padded bytes) ≡ 64
length-padded bytes = omega (
  arith,
  length-take 64 (bytes ++ replicate 64 48),
  length-append bytes (replicate 64 48),
  length-replicate {A = ℕ} 64 48,
)

instance abbrev pub padding : Hasher
padding = record { sha256_hex = padded; length_sha256_hex = length-padded }

-- Fixed-point numbers in thousandths, which stop at 0.
instance abbrev pub thousandths : Float
thousandths = record {
  F64 = ℕ;
  of_nat = λ n. n * 1000;
  literal = λ digits places. digits * 1000 / 10 ^ places;
  add = λ a b. a + b;
  sub = λ a b. a - b;
  mul = λ a b. a * b / 1000;
  div = λ a b. a * 1000 / b;
  fmax = λ a b. max a b;
  sqrt = λ a. a;
  less = ltb;
  ceil_nat = λ a. (a + 999) / 1000;
  round_nat = λ a. (a + 500) / 1000;
  floor_nat = λ a. a / 1000;
}

-- Eight little-endian bytes of a small number.
abbrev pub small_word : ℕ → List ℕ
small_word n = n ∷ replicate 7 0

abbrev pub tx : Text → Text → List ℕ → Transaction
tx id sender bytes =
    let t = new_transaction id sender (codes "program") in record t { instruction_data = bytes }

-- A transfer, a write, an increment and a no-op.
abbrev pub good_txs : List Transaction
good_txs =
    tx (codes "tx_1") (codes "alice") (0 ∷ small_word 100 ++ small_word 7)
    ∷ tx (codes "tx_2") (codes "bob") (1 ∷ small_word 5 ++ small_word 9)
    ∷ tx (codes "tx_3") (codes "alice") (2 ∷ small_word 5 ++ small_word 3)
    ∷ tx (codes "tx_4") (codes "bob") (3 ∷ [])
    ∷ []

-- A no-op, and an opcode that is not known.
abbrev pub bad_txs : List Transaction
bad_txs = tx (codes "tx_1") (codes "alice") (3 ∷ []) ∷ tx (codes "tx_2") (codes "bob") (9 ∷ []) ∷ []

abbrev pub batch : Batch
batch = new_batch (codes "batch_000001") 1000

abbrev pub no_trace : ExecutionTrace
no_trace = record {
  batch_id = [];
  entries = [];
  state_root_pre = [];
  state_root_post = [];
  trace_hash = [];
  total_compute = 0;
  success_count = 0;
  failure_count = 0;
}
