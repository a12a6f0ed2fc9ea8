-- ===== src/Pipeline/Waiting.antt =====
-- Which transactions wait in which queue, and since when.
use catalyst_svm.Prelude.{
  ℕ, ◌≤◌, ◌<◌, sym, subst, List, [], ◌∷◌, All, All-append, arith, u64_mod, Bool-cases, inl, inr,
  leb, if◌then◌else◌, is_empty,
}
use catalyst_svm.Prelude.Float.{Float}
use catalyst_svm.Common.Types.{Transaction, TransactionPriority, rank}
use catalyst_svm.Common.Hashing.{Hasher}
use catalyst_svm.Pipeline.{Stages, PipelineEngine, seal_and_process, enqueue, arrive, ingest}
use catalyst_svm.Pipeline.Queues.{IsDrained, seal_and_process-IsDrained, try_seal-cases}

-- What holds of a transaction that waits, by the oldest arrival and the clock.
pub record Waits (oldest now : ℕ) (t : Transaction) : Type 0 where
  pub not_older : oldest ≤ t.arrival_ts
  pub arrived : t.arrival_ts ≤ now

Waits-later :
    (oldest now now' : ℕ) (ts : List Transaction)
    → now ≤ now'
    → All (Waits oldest now) ts
    → All (Waits oldest now') ts
Waits-later oldest now now' [] later w = tt
Waits-later oldest now now' (t ∷ ts) later w = (
  record { not_older = w.0.not_older; arrived = omega (arith, w.0.arrived) },
  Waits-later oldest now now' ts later w.1,
)

module _ ⦃h : Hasher⦄ ⦃f : Float⦄ where
  pub record IsOrderly (e : PipelineEngine) : Type 0 where
    pub fast : All (λ t. rank TransactionPriority.high ≤ rank t.priority) e.priority_lane
    pub slow : All (λ t. rank t.priority < rank TransactionPriority.high) e.queue
    pub lane_waits : All (Waits e.oldest_arrival e.clock.current_ms) e.priority_lane
    pub queue_waits : All (Waits e.oldest_arrival e.clock.current_ms) e.queue

  drained-IsOrderly : (e : PipelineEngine) → IsDrained e → IsOrderly e
  drained-IsOrderly e d = record {
    fast = subst (All (λ t. rank TransactionPriority.high ≤ rank t.priority)) (sym d.lane) tt;
    slow = subst (All (λ t. rank t.priority < rank TransactionPriority.high)) (sym d.queue) tt;
    lane_waits = subst (All (Waits e.oldest_arrival e.clock.current_ms)) (sym d.lane) tt;
    queue_waits = subst (All (Waits e.oldest_arrival e.clock.current_ms)) (sym d.queue) tt;
  }

  -- The queues of the engine that a transaction arrives at: the oldest arrival is not after it.
  abbrev pub InOrder : Transaction → PipelineEngine → Type 0
  InOrder tx e =
      All (λ t. t.arrival_ts ≤ tx.arrival_ts) e.priority_lane
      × All (λ t. t.arrival_ts ≤ tx.arrival_ts) e.queue

module _ ⦃h : Hasher⦄ ⦃f : Float⦄ (stages : Stages) where
  arrive_clock :
      (tx : Transaction) (e : PipelineEngine)
      → tx.arrival_ts < u64_mod
      → let e' = arrive stages tx e in
        (tx.arrival_ts ≤ e'.clock.current_ms) × (e.clock.current_ms ≤ e'.clock.current_ms)
  arrive_clock tx e small = (ground arith, ground arith)

  -- The oldest arrival after a transaction comes, on the two queues.
  abbrev oldest_of : ℕ → ℕ → List Transaction → List Transaction → ℕ
  oldest_of arrival oldest queue lane =
      if is_empty queue then if is_empty lane then arrival else oldest else oldest

  oldest_bound :
      (arrival oldest now : ℕ) (queue lane : List Transaction)
      → All (Waits oldest now) queue
      → All (Waits oldest now) lane
      → All (λ t. t.arrival_ts ≤ arrival) lane
      → All (λ t. t.arrival_ts ≤ arrival) queue
      → oldest_of arrival oldest queue lane ≤ arrival
  oldest_bound arrival oldest now [] [] wq wl l q = omega arith
  oldest_bound arrival oldest now [] (t ∷ lane) wq wl l q = omega (arith, wl.0.not_older, l.0)
  oldest_bound arrival oldest now (t ∷ queue) lane wq wl l q = omega (arith, wq.0.not_older, q.0)

  oldest_kept :
      (arrival oldest now now' : ℕ) (queue lane : List Transaction)
      → now ≤ now'
      → All (Waits oldest now) queue
      → All (Waits oldest now) lane
      → All (Waits (oldest_of arrival oldest queue lane) now') queue
        × All (Waits (oldest_of arrival oldest queue lane) now') lane
  oldest_kept arrival oldest now now' [] [] later wq wl = (tt, tt)
  oldest_kept arrival oldest now now' [] (t ∷ lane) later wq wl =
      (tt, Waits-later oldest now now' (t ∷ lane) later wl)
  oldest_kept arrival oldest now now' (t ∷ queue) lane later wq wl =
      (Waits-later oldest now now' (t ∷ queue) later wq, Waits-later oldest now now' lane later wl)

  arrived-Waits :
      (tx : Transaction) (e : PipelineEngine)
      → tx.arrival_ts < u64_mod
      → IsOrderly e
      → InOrder tx e
      → let e' = arrive stages tx e in IsOrderly e' × Waits e'.oldest_arrival e'.clock.current_ms tx
  arrived-Waits tx e small v o =
      let e' = arrive stages tx e in
      let (here, later) = arrive_clock tx e small in
      let kept =
        oldest_kept tx.arrival_ts e.oldest_arrival e.clock.current_ms e'.clock.current_ms e.queue
          e.priority_lane later v.queue_waits v.lane_waits in
      (
        record { fast = v.fast; slow = v.slow; lane_waits = kept.1; queue_waits = kept.0 },
        record {
          not_older =
              oldest_bound tx.arrival_ts e.oldest_arrival e.clock.current_ms e.queue e.priority_lane
                v.queue_waits v.lane_waits o.0 o.1;
          arrived = here;
        },
      )

  enqueue-IsOrderly :
      (tx : Transaction) (e : PipelineEngine)
      → IsOrderly e
      → Waits e.oldest_arrival e.clock.current_ms tx
      → IsOrderly (enqueue stages tx e)
  enqueue-IsOrderly tx e v w =
      elim (Bool-cases (leb (rank TransactionPriority.high) (rank tx.priority))) [
        | inl high ↦ rw high (record {
          fast =
              All-append (λ t. rank TransactionPriority.high ≤ rank t.priority) e.priority_lane
                (tx ∷ []) v.fast (ground arith, tt);
          slow = v.slow;
          lane_waits =
              All-append (Waits e.oldest_arrival e.clock.current_ms) e.priority_lane (tx ∷ [])
                v.lane_waits (w, tt);
          queue_waits = v.queue_waits;
        })
        | inr low ↦ rw low (record {
          fast = v.fast;
          slow =
              All-append (λ t. rank t.priority < rank TransactionPriority.high) e.queue (tx ∷ [])
                v.slow (ground arith, tt);
          lane_waits = v.lane_waits;
          queue_waits =
              All-append (Waits e.oldest_arrival e.clock.current_ms) e.queue (tx ∷ []) v.queue_waits
                (w, tt);
        })
      ]

  -- Ingesting a transaction with a 64-bit arrival that is not before those of the waiting ones,
  -- whether or not it seals or fails, keeps the lane to the high priorities and the queue to the low
  -- ones, the oldest arrival not after any that waits, and the clock not before any.
  pub ingest-IsOrderly :
      (tx : Transaction) (e : PipelineEngine)
      → tx.arrival_ts < u64_mod
      → InOrder tx e
      → IsOrderly e
      → IsOrderly (ingest stages tx e).1
  unfolding ingest
  ingest-IsOrderly tx e small o v =
      let a = arrive stages tx e in
      let (orderly, w) = arrived-Waits tx e small v o in
      let e' = enqueue stages tx a in
      elim (try_seal-cases stages e') [
        | inl waits ↦ subst (λ r. IsOrderly r.1) (sym waits) (enqueue-IsOrderly tx a orderly w)
        | inr seals ↦
            subst (λ r. IsOrderly r.1) (sym seals)
              (drained-IsOrderly (seal_and_process stages e').1
                (seal_and_process-IsDrained stages e'))
      ]
