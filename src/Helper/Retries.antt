-- ===== src/Helper/Retries.antt =====
-- How often an item is tried again by pkg/util/controller/helper.go.
use loadbalancer_controller.Common.{ℕ, zero, suc, ◌+◌, ◌-◌, ◌≤◌, ◌<◌, ◌≡◌, ◌∙◌, List, ◌∷◌, arith}
use loadbalancer_controller.Common.Effects.{Error, Exec, err}
use loadbalancer_controller.Cluster.{Cluster, Call, Obj, add_rate_limited, forget, done}
use loadbalancer_controller.Helper.{Helper, max_retries, process_next_work_item}

module _ (C : Cluster) (helper : Helper) (obj : Obj) where
  -- The queue counts the rate limited additions of an item since it was last forgotten.
  pub record CountsRequeues : Type 0 where
    pub after_retry :
        (h : List Call)
        → C.num_requeues (add_rate_limited helper.queue obj ∷ h) helper.queue obj
          ≡ suc (C.num_requeues h helper.queue obj)
    pub after_forget :
        (h : List Call) → C.num_requeues (forget helper.queue obj ∷ h) helper.queue obj ≡ 0
    pub after_done :
        (h : List Call)
        → C.num_requeues (done helper.queue obj ∷ h) helper.queue obj
          ≡ C.num_requeues h helper.queue obj

  module _ (sync : Obj → Exec Call (Unit {0})) where
    -- The handler fails on the item whenever it is called, and does not requeue it itself.
    pub record AlwaysFails : Type 0 where
      pub error : List Call → Error
      pub calls : List Call → List Call
      pub fails : (h : List Call) → sync obj h ≡ (err (error h), calls h)
      pub keeps_count :
          (h : List Call)
          → C.num_requeues (calls h) helper.queue obj ≡ C.num_requeues h helper.queue obj

    -- The calls made when the item has been processed so many times.
    unfoldable pub after_rounds : ℕ → List Call → List Call
    after_rounds zero h = h
    after_rounds (suc n) h = (process_next_work_item C helper sync obj (after_rounds n h)).1

    module _ (counts : CountsRequeues) (failing : AlwaysFails) where
      open failing use {calls, fails, keeps_count}

      abbrev count : List Call → ℕ
      count h = C.num_requeues h helper.queue obj

      round_retries :
          (h : List Call)
          → count h < max_retries
          → (process_next_work_item C helper sync obj h).1
            ≡ done helper.queue obj ∷ add_rate_limited helper.queue obj ∷ calls h
      unfolding process_next_work_item
      round_retries h lt = rw fails (ground (arith, keeps_count h))

      round_drops :
          (h : List Call)
          → max_retries ≤ count h
          → (process_next_work_item C helper sync obj h).1
            ≡ done helper.queue obj ∷ forget helper.queue obj ∷ calls h
      unfolding process_next_work_item
      round_drops h le = rw fails (ground (arith, keeps_count h))

      count-after_rounds :
          (n : ℕ) (h : List Call)
          → count h + n ≤ max_retries
          → count (after_rounds n h) ≡ count h + n
      unfolding after_rounds
      count-after_rounds zero h le = omega arith
      count-after_rounds (suc n) h le =
          let before = count-after_rounds n h (omega arith) in
          rw (round_retries (after_rounds n h) (omega arith))
            (omega (arith, counts.after_done, counts.after_retry, keeps_count))

      -- An item whose handler always fails, and that the queue, which counts them, has requeued no
      -- more than three times, is requeued until its count is three. The next round forgets it,
      -- which leaves a count of zero.
      pub after_rounds_lem :
          (h : List Call)
          → count h ≤ max_retries
          → let last = after_rounds (max_retries - count h) h in
            (count last ≡ max_retries)
            × (after_rounds (suc (max_retries - count h)) h
                ≡ done helper.queue obj ∷ forget helper.queue obj ∷ calls last)
            × (count (after_rounds (suc (max_retries - count h)) h) ≡ 0)
      unfolding after_rounds
      after_rounds_lem h le =
          let reached = count-after_rounds (max_retries - count h) h (omega arith) in
          let dropped = round_drops (after_rounds (max_retries - count h) h) (omega arith) in
          (omega arith, dropped, rw dropped (counts.after_done _ ∙ counts.after_forget _))
