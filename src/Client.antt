-- ===== src/Client.antt =====
-- The client (examples/client/src/main.rs): the requests that each command sends. What comes back is
-- only printed, so that no request depends on an answer.
pub mod Hex
pub mod Benchmark
use catalyst_svm.Prelude.{
  ℕ, zero, suc, ◌+◌, ◌*◌, ◌-◌, ◌%◌, List, [], ◌∷◌, ◌++◌, Option, none, some, Bool, true, false,
  ◌&&◌, ltb, leb, ◌==◌, if◌then◌else◌, is_empty, not,
}
use catalyst_svm.Text.{Text, codes, decimal}
use catalyst_svm.Rpc.{RpcRequest}
use catalyst_svm.Validator.{SubmitTxParams}

-- `char::to_digit(16)`, on a byte.
unfoldable pub to_digit : ℕ → Option ℕ
to_digit c =
    if leb 48 c && leb c 57
    then some (c - 48)
    else if leb 97 c && leb c 102
    then some (c - 87)
    else if leb 65 c && leb c 70
    then some (c - 55)
    else none

abbrev pub two_digits : Option ℕ → Option ℕ → Option ℕ
two_digits (some a) (some b) = some (a * 16 + b)
two_digits (some a) none = none
two_digits none b = none

-- `u8::from_str_radix(s, 16).ok()` of two bytes; a sign `+` in front is allowed.
unfoldable pub from_str_radix : ℕ → ℕ → Option ℕ
unfolding to_digit
from_str_radix a b = if a == 43 then to_digit b else two_digits (to_digit a) (to_digit b)

-- `trim_start_matches("0x")`
unfoldable pub trim_hex : Text → Text
trim_hex [] = []
trim_hex (a ∷ []) = a ∷ []
trim_hex (a ∷ b ∷ rest) =
    let trimmed = trim_hex rest in if a == 48 && b == 120 then trimmed else a ∷ b ∷ rest

-- A byte in the middle of a character follows: a slice that ends here panics.
abbrev pub continues : Text → Bool
continues [] = false
continues (c ∷ _) = leb 128 c && ltb c 192

-- `filter_map`
abbrev pub kept : Option ℕ → List ℕ → List ℕ
kept none rest = rest
kept (some b) rest = b ∷ rest

abbrev pub kept_if_sliced : Bool → Option ℕ → Option (List ℕ) → Option (List ℕ)
kept_if_sliced true byte rest = none
kept_if_sliced false byte none = none
kept_if_sliced false byte (some rest) = some (kept byte rest)

-- The slices of two bytes; the last of an odd number is out of range, and the client panics (`none`).
unfoldable pub sliced_bytes : Text → Option (List ℕ)
unfolding from_str_radix
sliced_bytes [] = some []
sliced_bytes (a ∷ []) = none
sliced_bytes (a ∷ b ∷ rest) =
    kept_if_sliced (continues rest) (from_str_radix a b) (sliced_bytes rest)

unfoldable pub hex_to_bytes : Text → Option (List ℕ)
unfolding trim_hex sliced_bytes
hex_to_bytes hex = sliced_bytes (trim_hex hex)

-- The objects that the requests carry.
pub data Params : Type 0 where
  submission : SubmitTxParams → Params
  of_batch : Text → Params
  no_params : Params

pub data Peer : Type 0 where
  validator verifier : Peer

-- A request as `send_rpc` sends it to one of the two addresses.
abbrev pub Call : Type 0
Call = Peer × RpcRequest Params

abbrev pub call : Peer → Text → Params → Call
call peer method params = (peer, record { method = method; params = params; id = 1 })

pub data Command : Type 0 where
  -- the sender, the program, the data, the priority and the count
  submit : Text → Text → Text → Text → ℕ → Command
  status seal : Command
  proofs : ℕ → Command
  verify : Text → Command
  verifier_status : Command
  attestation : Text → Command
  -- the number of transactions and the size of a batch
  benchmark : ℕ → ℕ → Command

-- What a command sends, and whether the client panics after it.
pub record Sent : Type 0 where
  pub calls : List Call
  pub panics : Bool

-- The loop of `Submit` over `i..i + n`.
unfoldable pub submissions : Text → Text → List ℕ → Text → ℕ → ℕ → List Call
unfolding decimal
submissions sender program bytes priority zero i = []
submissions sender program bytes priority (suc n) i =
    call validator (codes "submitTransaction") (
      submission (record {
        sender = sender ++ codes "_" ++ decimal i;
        program_id = program;
        instruction_data = bytes;
        priority = some priority;
      }))
    ∷ submissions sender program bytes priority n (suc i)

-- The data of a submission: a no-op where none is given.
unfoldable pub submitted_data : Text → Option (List ℕ)
unfolding hex_to_bytes
submitted_data text = if is_empty text then some (3 ∷ []) else hex_to_bytes text

unfoldable pub bench_call : ℕ → Call
unfolding decimal
bench_call i = call validator (codes "submitTransaction") (
    submission (record {
      sender = codes "bench_user_" ++ decimal (i % 100);
      program_id = codes "benchmark_program";
      instruction_data = 3 ∷ [];
      priority = some (codes "normal");
    }))

abbrev pub seal_call : Call
seal_call = call validator (codes "forceSeal") no_params

abbrev pub seal_if : Bool → List Call → List Call
seal_if true rest = seal_call ∷ rest
seal_if false rest = rest

-- The loop of `Benchmark` over `i..i + n`.
unfoldable pub bench_loop : ℕ → ℕ → ℕ → List Call
unfolding bench_call
bench_loop batch_size zero i = []
bench_loop batch_size (suc n) i =
    bench_call i ∷ seal_if (suc i % batch_size == 0) (bench_loop batch_size n (suc i))

abbrev pub status_call : Call
status_call = call validator (codes "getStatus") no_params

-- What is sent before a remainder by 0 panics.
unfoldable pub before_panic : ℕ → List Call
unfolding bench_call
before_panic zero = []
before_panic (suc n) = bench_call 0 ∷ []

unfoldable pub bench_calls : ℕ → ℕ → Sent
unfolding bench_loop before_panic
bench_calls count zero = record { calls = before_panic count; panics = true }
bench_calls count (suc b) = record {
  calls = bench_loop (suc b) count 0 ++ seal_if (not (count % suc b == 0)) (status_call ∷ []);
  panics = false;
}

unfoldable pub submitted : Text → Text → Text → ℕ → Option (List ℕ) → Sent
unfolding submissions
submitted sender program priority count none = record { calls = []; panics = true }
submitted sender program priority count (some bytes) = record {
  calls = submissions sender program bytes priority count 0;
  panics = false;
}

abbrev pub one : Call → Sent
one c = record { calls = c ∷ []; panics = false }

-- The `match` of `main`.
unfoldable pub run_command : Command → Sent
unfolding submitted submitted_data bench_calls
run_command (submit sender program text priority count) =
    submitted sender program priority count (submitted_data text)
run_command status = one status_call
run_command seal = one seal_call
run_command (proofs limit) = one (call validator (codes "getProofs") no_params)
run_command (verify id) = one (call verifier (codes "verifyBatch") (of_batch id))
run_command verifier_status = one (call verifier (codes "getStatus") no_params)
run_command (attestation id) = one (call verifier (codes "getAttestation") (of_batch id))
run_command (benchmark count batch_size) = bench_calls count batch_size
