-- ===== src/Tests/Batches.antt =====
-- Batches that run: the examples of the executor's and of the guest's theorems.
use mathlib.Core.Quot
use catalyst_svm.Prelude.{
  ℕ, ◌+◌, ◌≡◌, ◌≢◌, refl, List, [], ◌∷◌, ◌++◌, map, length, arith, u64_mod, Bool, true, false, ◌||◌,
  ok, err, is_ok, ◌≤◌, replicate,
}
use catalyst_svm.Text.{Text, codes, decimal, text_eq}
use catalyst_svm.Text.Order.{text_ord}
use catalyst_svm.OrderedMap.{get}
use catalyst_svm.Common.Types.{Batch, Transaction, ExecutionTrace}
use catalyst_svm.Common.Errors.{ExecError}
use catalyst_svm.Trace.{new_builder, TraceBuilder}
use catalyst_svm.Executor.{
  first_word, State, FullExecutor, new_full_executor, execute, execute_with_transactions, fund,
  balance, execute_transfer, Effects, account_key, second_word, execute_instruction,
}
use catalyst_svm.Executor.Entries.{IsTraceOf, execute_with_transactions-IsTraceOf}
use catalyst_svm.Executor.Frame.{execute_instruction_frame}
use catalyst_svm.Executor.Funding.{senders_of, first_root_of_senders}
use catalyst_svm.Executor.Validity.{IsValid}
use catalyst_svm.Executor.Supply.{supply, transfer_conserves, transfer_overflow}
use catalyst_svm.Guest.{main}
use catalyst_svm.Prover.{serializable, trace_input}
use catalyst_svm.Prover.Agreement.{failure_charges}
use catalyst_svm.Prover.Fallback.{fallback_accepts, made_up}
use catalyst_svm.Prover.Acceptance.{accepts, rejects, claimed_inputs, initial_state}
use catalyst_svm.Tests.Fixtures.{padding, good_txs, bad_txs, batch, no_trace, small_word, tx}

abbrev pub x : FullExecutor
x = new_full_executor 200000

unfoldable pub trace_of : List Transaction → ExecutionTrace
unfolding execute_with_transactions
trace_of txs = elim (execute_with_transactions x batch txs) [ ok t ↦ t | err _ ↦ no_trace ]

pub ran : (txs : List Transaction) → execute_with_transactions x batch txs ≡ ok (trace_of txs)
unfolding execute_with_transactions trace_of
ran txs = refl

pub good_length : length (trace_of good_txs).entries ≡ 4
unfolding trace_of execute_with_transactions
good_length = refl

pub good_uncharged : failure_charges x (initial_state good_txs) good_txs ≡ 0
unfolding failure_charges fund balance
good_uncharged = refl

bad_charged : failure_charges x (initial_state bad_txs) bad_txs ≡ 500
unfolding failure_charges fund balance
bad_charged = refl

accepts_example :
    main (trace_input (trace_of good_txs)) (map serializable good_txs) (initial_state good_txs)
    ≡ ok (claimed_inputs (trace_of good_txs))
accepts_example = accepts x refl (omega arith) batch good_txs (ran good_txs) good_uncharged

rejects_example :
    main (trace_input (trace_of bad_txs)) (map serializable bad_txs) (initial_state bad_txs)
    ≢ ok (claimed_inputs (trace_of bad_txs))
rejects_example =
    rejects x refl (omega arith) batch bad_txs (ran bad_txs) (omega arith)
      (omega (arith, bad_charged)) (claimed_inputs (trace_of bad_txs))

IsTraceOf_example : IsTraceOf x good_txs (trace_of good_txs)
IsTraceOf_example = execute_with_transactions-IsTraceOf x batch good_txs (ran good_txs)

-- 100 units from alice to `account_7`, in which 5 are.
abbrev before : State
before = (codes "account_7", 5) ∷ (codes "alice", 1000) ∷ []

abbrev transfer_bytes : List ℕ
transfer_bytes = small_word 100 ++ small_word 7

abbrev alice : Text
alice = codes "alice"

abbrev moved_effects : Effects
moved_effects = record {
  reads = alice ∷ codes "account_7" ∷ [];
  writes = alice ∷ codes "account_7" ∷ [];
  compute = 5000;
}

transferred : (execute_transfer before alice transfer_bytes).0 ≡ ok moved_effects
unfolding execute_transfer balance account_key
transferred = refl

supply-before : supply before ≡ 1005
unfolding supply
supply-before = refl

target_other : alice ≢ account_key (second_word transfer_bytes)
unfolding account_key decimal
target_other e = cc e

target_before : balance before (account_key (second_word transfer_bytes)) ≡ 5
unfolding balance account_key decimal
target_before = refl

transfer_conserves_example : supply (execute_transfer before alice transfer_bytes).1 ≡ supply before
transfer_conserves_example =
    transfer_conserves before alice transfer_bytes transferred (omega (arith, supply-before))

-- 100 units to an account that is 50 units short of 2^64.
abbrev brim : State
brim = (codes "account_7", 18446744073709551566) ∷ (codes "alice", 1000) ∷ []

brim-IsValid : IsValid brim
unfolding text_ord
brim-IsValid = record { sorted = ((refl, tt), (tt, tt)); words = (omega arith, (omega arith, tt)) }

brim_covered : first_word transfer_bytes ≤ balance brim alice
unfolding balance
brim_covered = omega arith

brim_target : balance brim (account_key (second_word transfer_bytes)) ≡ 18446744073709551566
unfolding balance account_key decimal
brim_target = refl

transfer_overflow_example :
    (is_ok (execute_transfer brim alice transfer_bytes).0 ≡ true)
    × (supply (execute_transfer brim alice transfer_bytes).1 + u64_mod ≡ supply brim)
transfer_overflow_example =
    transfer_overflow brim alice transfer_bytes (omega arith) brim_covered target_other brim-IsValid
      (omega arith) (omega (arith, brim_target))

bob_other : codes "bob" ≢ codes "alice"
bob_other e = cc e

bob_not_target : codes "bob" ≢ codes "account_7"
bob_not_target e = cc e

-- The same transfer as an instruction of the executor.
abbrev transfer_instruction : List ℕ
transfer_instruction = 0 ∷ transfer_bytes

transfer_instruction_done :
    (execute_instruction x.inner before alice transfer_instruction).0 ≡ ok moved_effects
unfolding execute_instruction balance account_key
transfer_instruction_done = refl

execute_instruction_frame_example :
    get (execute_instruction x.inner before alice transfer_instruction).1 (codes "bob")
    ≡ get before (codes "bob")
unfolding execute_instruction balance account_key
execute_instruction_frame_example =
    execute_instruction_frame x.inner before alice transfer_instruction (codes "bob")
      (bob_other, (bob_not_target, tt))

-- A transfer of more than the balance.
abbrev overdraft : List ℕ
overdraft = 0 ∷ replicate 8 200 ++ small_word 7

overdraft_fails :
    (execute_instruction x.inner before alice overdraft).0
    ≡ err (ExecError.insufficient_balance 14468034567615334600 1000)
unfolding execute_instruction balance
overdraft_fails = refl

-- The builder that the batches start from.
abbrev fresh : TraceBuilder
fresh = new_builder batch.batch_id (initial_state bad_txs)

-- Two transactions that are known by their names alone.
abbrev named : Batch
named = record batch { tx_ids = codes "tx_1" ∷ codes "tx_2" ∷ [] }

unfoldable named_trace : ExecutionTrace
unfolding execute
named_trace = elim (execute x.inner named) [ ok t ↦ t | err _ ↦ no_trace ]

named_ran : execute x.inner named ≡ ok named_trace
unfolding execute named_trace
named_ran = refl

fallback_accepts_example :
    main
      (trace_input named_trace)
      (map (λ e. made_up e.tx_id) named_trace.entries)
      (fund [] (map (λ e. codes "sender_" ++ e.tx_id) named_trace.entries))
    ≡ ok (claimed_inputs named_trace)
fallback_accepts_example = fallback_accepts x.inner (omega arith) named named_ran

-- The same senders in another order, and with other instructions.
abbrev swapped_txs : List Transaction
swapped_txs =
    tx (codes "tx_9") (codes "bob") (3 ∷ []) ∷ tx (codes "tx_8") (codes "alice") (3 ∷ []) ∷ []

same_members : (a b : Bool) → a || (b || (a || (b || false))) ≡ b || (a || false)
same_members true true = refl
same_members true false = refl
same_members false true = refl
same_members false false = refl

same_senders : senders_of good_txs ≡ senders_of swapped_txs
same_senders = Quot.sound (λ q. same_members (text_eq q (codes "alice")) (text_eq q (codes "bob")))

first_root_of_senders_example :
    (trace_of good_txs).state_root_pre ≡ (trace_of swapped_txs).state_root_pre
first_root_of_senders_example =
    first_root_of_senders x x batch batch good_txs swapped_txs (ran good_txs) (ran swapped_txs)
      same_senders
