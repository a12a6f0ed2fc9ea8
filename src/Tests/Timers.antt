-- ===== src/Tests/Timers.antt =====
-- The timer of the validator at two policies.
use catalyst_svm.Prelude.{◌≡◌, refl, [], ◌∷◌, arith}
use catalyst_svm.Text.{codes}
use catalyst_svm.Rpc.{refused}
use catalyst_svm.Validator.{Validator}
use catalyst_svm.Validator.Connection.{seal_loop}
use catalyst_svm.Validator.Service.{answer_force_seal}
use catalyst_svm.Policy.Engine.{fixed_count}
use catalyst_svm.Validator.Timer.{timer_drains, fixed_count_starves}
use catalyst_svm.Tests.Fixtures.{padding, thousandths}
use catalyst_svm.Tests.Nodes.{validator, readings, no_files}
use catalyst_svm.Tests.Sealed.{waiting}

-- The validator with batches of at most three of the four transactions that wait.
abbrev by_three : Validator
by_three = record validator { batch_size = 3 }

timer_drains_example :
    (seal_loop by_three (readings ∷ readings ∷ []) no_files waiting).1.pending_txs ≡ []
timer_drains_example =
    timer_drains by_three (record { count_threshold = 10; time_threshold_ms = 5000 }) 6000
      (readings ∷ readings ∷ []) no_files waiting refl
      (omega arith, (omega arith, (omega arith, (omega arith, tt))))
      (omega arith, (omega arith, tt)) (omega arith)

-- The validator with the policy of ten transactions.
abbrev by_ten : Validator
by_ten = record validator { policy = fixed_count (record { threshold = 10 }) }

fixed_count_starves_example :
    (seal_loop by_ten (readings ∷ readings ∷ []) no_files waiting ≡ (no_files, waiting))
    × (answer_force_seal by_ten readings 7 no_files waiting
        ≡ (refused 7 (codes "No transactions to seal"), no_files, waiting))
fixed_count_starves_example =
    fixed_count_starves by_ten (record { threshold = 10 }) (readings ∷ readings ∷ []) readings 7
      no_files waiting refl (omega arith)
