-- ===== src/Tests/Pipelines.antt =====
-- The pipeline over stages that always succeed, and over a prover that fails.
use catalyst_svm.Prelude.{◌≡◌, refl, [], ◌∷◌, true, none, arith, ok, err}
use catalyst_svm.Text.{codes}
use catalyst_svm.Common.Types.{Transaction, Proof, ProofCommitment, new_transaction}
use catalyst_svm.Common.Errors.{ProveError}
use catalyst_svm.Common.Clock.{new_clock}
use catalyst_svm.Executor.{new_full_executor}
use catalyst_svm.Policy.Engine.{hybrid}
use catalyst_svm.Pipeline.{
  Stages, PipelineEngine, new_engine, ingest, ingest_all, flush, run_stages, proved, executed,
  verified,
}
use catalyst_svm.Pipeline.Queues.{IsDrained, flush_ends}
use catalyst_svm.Pipeline.Recorded.{IsRecorded, workload-IsRecorded}
use catalyst_svm.Pipeline.Waiting.{IsOrderly, ingest-IsOrderly}
use catalyst_svm.Tests.Fixtures.{padding, thousandths, good_txs}

abbrev no_commitment : ProofCommitment
no_commitment = record {
  batch_hash = [];
  trace_hash = [];
  state_root_pre = [];
  state_root_post = [];
  total_compute = 0;
  tx_count = 0;
}

abbrev some_proof : Proof
some_proof = record {
  batch_id = [];
  proof_data = [];
  proof_hash = [];
  commitment = no_commitment;
  generated_at = 0;
  proving_time_ms = 4;
  proof_size_bytes = 0;
}

abbrev pub passing : Stages
passing = record {
  prove = λ trace txs clock. (ok some_proof, clock);
  verify = λ proof trace clock. (
    ok (record { batch_id = []; is_valid = true; verification_time_ms = 1; error = none }),
    clock,
  );
}

abbrev failing : Stages
failing = record passing {
  prove = λ trace txs clock. (err (ProveError.internal (codes "setup")), clock);
}

-- Two transactions seal a batch.
abbrev by_two : PipelineEngine
by_two =
    new_engine (hybrid (record { count_threshold = 2; time_threshold_ms = 500 }))
      (new_full_executor 200000) (new_clock 0)

abbrev pub first_tx : Transaction
first_tx = elim good_txs [ [] ↦ new_transaction [] [] [] | t ∷ _ ↦ t ]

-- One transaction waits.
abbrev one_waits : PipelineEngine
one_waits = record by_two { queue = first_tx ∷ [] }

flush_ends_example :
    (flush passing 5 one_waits ≡ flush passing 1 one_waits)
    × IsDrained (flush passing 5 one_waits).1
flush_ends_example = flush_ends passing 4 one_waits

ingested : (ingest_all passing good_txs by_two).0 ≡ ok tt
unfolding ingest_all run_stages proved executed verified
ingested = refl

flushed : (flush passing 1 (ingest_all passing good_txs by_two).1).0 ≡ ok tt
unfolding ingest_all flush run_stages proved executed verified
flushed = refl

workload-IsRecorded_example :
    IsRecorded passing by_two good_txs (flush passing 1 (ingest_all passing good_txs by_two).1).1
workload-IsRecorded_example = workload-IsRecorded passing good_txs by_two ingested flushed

ingest-IsOrderly_example : IsOrderly (ingest passing first_tx by_two).1
ingest-IsOrderly_example =
    ingest-IsOrderly passing first_tx by_two (omega arith) (tt, tt)
      (record { fast = tt; slow = tt; lane_waits = tt; queue_waits = tt })
