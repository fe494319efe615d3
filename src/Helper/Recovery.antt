-- ===== src/Helper/Recovery.antt =====
-- An item whose handler fails a few times in pkg/util/controller/helper.go.
use loadbalancer_controller.Common.{ℕ, zero, suc, ◌≤◌, ◌<◌, ◌≡◌, ◌∙◌, refl, List, ◌∷◌, arith}
use loadbalancer_controller.Common.Effects.{Error, Exec, ok, err}
use loadbalancer_controller.Cluster.{Cluster, Call, Obj, add_rate_limited, forget, done}
use loadbalancer_controller.Helper.{Helper, max_retries, process_next_work_item}
use loadbalancer_controller.Helper.Retries.{CountsRequeues, after_rounds}

module _ (C : Cluster) (helper : Helper) (obj : Obj) (sync : Obj → Exec Call (Unit {0})) where
  abbrev count : List Call → ℕ
  count h = C.num_requeues h helper.queue obj

  -- The handler fails on the item in a round, and does not requeue it itself.
  pub record Fails (h : List Call) : Type 0 where
    pub error : Error
    pub calls : List Call
    pub fails : sync obj h ≡ (err error, calls)
    pub keeps_count : C.num_requeues calls helper.queue obj ≡ C.num_requeues h helper.queue obj

  failed_round :
      (h : List Call) (f : Fails h)
      → count h < max_retries
      → (process_next_work_item C helper sync obj h).1
        ≡ done helper.queue obj ∷ add_rate_limited helper.queue obj ∷ f.calls
  unfolding process_next_work_item
  failed_round h f lt = rw f.fails (ground (arith, f.keeps_count))

  good_round :
      (h calls : List Call)
      → sync obj h ≡ (ok tt, calls)
      → (process_next_work_item C helper sync obj h).1
        ≡ done helper.queue obj ∷ forget helper.queue obj ∷ calls
  unfolding process_next_work_item
  good_round h calls s = rw s refl

  module _ (counts : CountsRequeues C helper obj) where
    count-failed :
        (k i : ℕ) (h : List Call)
        → ((j : ℕ) → j < k → Fails (after_rounds C helper obj sync j h))
        → k ≤ max_retries
        → count h ≡ 0
        → i ≤ k
        → count (after_rounds C helper obj sync i h) ≡ i
    unfolding after_rounds
    count-failed k zero h f m z l = z
    count-failed k (suc i) h f m z l =
        let before = count-failed k i h f m z (omega arith) in
        let failing = f i (omega arith) in
        rw (failed_round (after_rounds C helper obj sync i h) failing (omega arith))
          (omega (arith, counts.after_done, counts.after_retry, failing.keeps_count))

    -- If the handler fails on an item in its first rounds, at most three, and succeeds in the next,
    -- and the queue counts the requeues of the item, of which there are none yet, then each failed
    -- round leaves the item requeued, and the round that succeeds, which is reached, forgets it,
    -- which leaves no requeues counted.
    pub after_rounds-recovers :
        (k : ℕ) (h calls : List Call)
        → ((j : ℕ) → j < k → Fails (after_rounds C helper obj sync j h))
        → k ≤ max_retries
        → count h ≡ 0
        → sync obj (after_rounds C helper obj sync k h) ≡ (ok tt, calls)
        → ((j : ℕ)
            → j < k
            → (before : List Call) × (after_rounds C helper obj sync (suc j) h
                ≡ done helper.queue obj ∷ add_rate_limited helper.queue obj ∷ before))
          × (after_rounds C helper obj sync (suc k) h
              ≡ done helper.queue obj ∷ forget helper.queue obj ∷ calls)
          × (count (after_rounds C helper obj sync (suc k) h) ≡ 0)
    unfolding after_rounds
    after_rounds-recovers k h calls f m z s =
        let good = good_round (after_rounds C helper obj sync k h) calls s in
        (
          λ j l. (
            (f j l).calls,
            failed_round (after_rounds C helper obj sync j h) (f j l)
                (rw (count-failed k j h f m z (omega arith)) (omega arith)),
          ),
          good,
          rw good (counts.after_done _ ∙ counts.after_forget _),
        )
