-- ===== src/Pipeline/Holding.antt =====
-- The transactions that the pipeline holds: those that wait, and those of the batches that it recorded.
use mathlib.Core.List.{Perm}
use mathlib.Core.List.Perm
use catalyst_svm.Prelude.{
  ◌+◌, ◌≡◌, refl, sym, ◌∙◌, ap, subst, List, [], ◌∷◌, ◌++◌, append_assoc, append-nil, ok, Bool,
  true, false, if◌then◌else◌, wrap64,
}
use catalyst_svm.Prelude.Float.{Float}
use catalyst_svm.Prelude.Perms.{taken, taken_last, taken_end}
use catalyst_svm.Common.Types.{Transaction}
use catalyst_svm.Common.Hashing.{Hasher}
use catalyst_svm.Executor.{FullExecutor}
use catalyst_svm.Metrics.{BatchMetrics}
use catalyst_svm.Pipeline.{Stages, PipelineEngine, sealed_batch, process, arrive, run_stages}
use catalyst_svm.Pipeline.Queues.{IsDrained}
use catalyst_svm.Pipeline.Runs.{IsRunOf, settled}

abbrev pub concat : List (List Transaction) → List Transaction
concat [] = []
concat (g ∷ groups) = g ++ concat groups

concat_snoc :
    (groups : List (List Transaction)) (g : List Transaction)
    → concat (groups ++ (g ∷ [])) ≡ concat groups ++ g
concat_snoc [] g = append-nil g
concat_snoc (k ∷ groups) g =
    ap (λ r. k ++ r) (concat_snoc groups g) ∙ sym (append_assoc k (concat groups) g)

module _ ⦃h : Hasher⦄ ⦃f : Float⦄ (stages : Stages) (x : FullExecutor)
    (old : List BatchMetrics) where
  -- After the old batches, one recorded batch for each group of transactions, a run over the group.
  pub data AreRuns : List (List Transaction) → List BatchMetrics → Type 0 where
    none_yet : AreRuns [] old
    one_more :
        {groups : List (List Transaction)} {ms : List BatchMetrics} (g : List Transaction)
        (m : BatchMetrics)
        → AreRuns groups ms
        → IsRunOf stages x g m
        → AreRuns (groups ++ (g ∷ [])) (ms ++ (m ∷ []))

  -- The given transactions, rearranged: those of the recorded batches, and those that wait.
  pub record Holds (txs : List Transaction) (e : PipelineEngine) : Type 0 where
    pub executor : e.executor ≡ x
    pub groups : List (List Transaction)
    pub runs : AreRuns groups e.metrics.batch_metrics
    pub whole : Perm (concat groups ++ (e.priority_lane ++ e.queue)) txs

  pub arrive-Holds :
      (txs : List Transaction) (tx : Transaction) (e : PipelineEngine)
      → Holds txs e
      → Holds txs (arrive stages tx e)
  arrive-Holds txs tx e i = record {
    executor = i.executor;
    groups = i.groups;
    runs = i.runs;
    whole = i.whole;
  }

  pub enqueued :
      (b : Bool) (txs : List Transaction) (tx : Transaction) (e : PipelineEngine)
      → Holds txs e
      → Holds (txs ++ (tx ∷ [])) (
          if b
          then record e { priority_lane = e.priority_lane ++ (tx ∷ []) }
          else record e { queue = e.queue ++ (tx ∷ []) })
  enqueued true txs tx e i =
      let lane = append-nil e.priority_lane in
      let front =
        subst
          (λ l.
            Perm (concat i.groups ++ ((e.priority_lane ++ (tx ∷ [])) ++ e.queue))
              (tx ∷ (concat i.groups ++ (l ++ e.queue))))
          lane (taken (concat i.groups) e.priority_lane [] e.queue tx) in
      record {
        executor = i.executor;
        groups = i.groups;
        runs = i.runs;
        whole = Perm.trans front (Perm.trans (Perm.cons tx i.whole) (Perm.symm (taken_end txs tx)));
      }
  enqueued false txs tx e i =
      let waiting = e.priority_lane ++ e.queue in
      let last =
        ap (λ r. concat i.groups ++ r) (sym (append_assoc e.priority_lane e.queue (tx ∷ []))) in
      let front =
        subst (λ w. Perm (concat i.groups ++ (waiting ++ (tx ∷ []))) (tx ∷ (concat i.groups ++ w)))
          (append-nil waiting) (taken_last (concat i.groups) waiting [] tx) in
      record {
        executor = i.executor;
        groups = i.groups;
        runs = i.runs;
        whole =
            subst (λ ys. Perm ys (txs ++ (tx ∷ [])))
              (ap (λ r. concat i.groups ++ r) (append_assoc e.priority_lane e.queue (tx ∷ [])))
              (Perm.trans front (Perm.trans (Perm.cons tx i.whole) (Perm.symm (taken_end txs tx))));
      }

  -- A batch of all that waits is recorded with its transactions.
  pub process-Holds :
      (txs group : List Transaction) (e : PipelineEngine) (groups : List (List Transaction))
      → e.executor ≡ x
      → IsDrained e
      → AreRuns groups e.metrics.batch_metrics
      → Perm (concat groups ++ group) txs
      → (process stages group e).0 ≡ ok tt
      → Holds txs (process stages group e).1
  unfolding process
  process-Holds txs [] e groups same d runs whole done = record {
    executor = same;
    groups = groups;
    runs = runs;
    whole = rw (d.lane, d.queue) whole;
  }
  process-Holds txs (t ∷ rest) e groups same d runs whole done =
      let group = t ∷ rest in
      let counter = wrap64 (e.batch_counter + 1) in
      let batch = sealed_batch counter e.clock.current_ms group in
      let counted = record e { batch_counter = counter } in
      let o =
        settled stages e.executor batch group e.clock e.clock.current_ms counted
          (run_stages stages e.executor batch group e.clock) refl refl done in
      let more =
        one_more group o.metrics runs (subst (λ y. IsRunOf stages y group o.metrics) same o.run) in
      record {
        executor = o.executor ∙ same;
        groups = groups ++ (group ∷ []);
        runs = subst (AreRuns (groups ++ (group ∷ []))) (sym o.recorded) more;
        whole =
            rw
              (
                o.lane,
                o.queue,
                d.lane,
                d.queue,
                append-nil (concat (groups ++ (group ∷ []))),
                concat_snoc groups group,
              )
              whole;
      }
