-- ===== src/Witnesses/Queue.antt =====
-- Examples for the queue helper, the random names and the additional tolerations.
use Prim.Native.String.{count}
use loadbalancer_controller.Common.{
  ℕ, zero, suc, ◌<◌, String, ◌<>◌, true, List, [], ◌∷◌, ◌≡◌, refl, string_eq, ltb, if◌then◌else◌,
  arith,
}
use loadbalancer_controller.Common.Effects.{message, ok, Exec, fail}
use loadbalancer_controller.Common.Split.{split}
use loadbalancer_controller.Config.{set_tolerations, tolerations_string}
use loadbalancer_controller.Config.Repeated.{set_tolerations_twice}
use loadbalancer_controller.Cluster.{
  Call, Obj, lb_queue, load_balancer, add_rate_limited, forget, done,
}
use loadbalancer_controller.Witnesses.Samples.{cluster, sample_lb}
use loadbalancer_controller.Informers.Factory.{}
use loadbalancer_controller.Controller.Setup.{}
use loadbalancer_controller.Controller.New.Wiring.{}
use loadbalancer_controller.LbUtil.Random.{rand_string_bytes_rmndr}
use loadbalancer_controller.LbUtil.Random.Letters.{
  all_chars, is_letter, is_letter_or_digit, rand_string_bytes_rmndr_lem,
}
use loadbalancer_controller.Helper.{Helper, passthrough_key_func, process_next_work_item}
use loadbalancer_controller.Helper.Retries.{CountsRequeues, after_rounds}
use loadbalancer_controller.Helper.Recovery.{Fails, after_rounds-recovers}

set_tolerations_twice_example :
    let (a, once) = set_tolerations "a,b" ([], "dedicated" ∷ []) in
    (tolerations_string a ≡ "a,b")
    × (once ≡ "dedicated" ∷ "a" ∷ "b" ∷ [])
    × ((set_tolerations "c" (a, once)).1 ≡ "dedicated" ∷ "a" ∷ "b" ∷ "a" ∷ "b" ∷ "c" ∷ [])
unfolding split
set_tolerations_twice_example = set_tolerations_twice "a,b" "c" ("dedicated" ∷ [])

rand_string_bytes_rmndr_lem_example :
    (first rest : String) × (rand_string_bytes_rmndr (λ n. n) 4 ≡ first <> rest)
    × (count first ≡ 1)
    × (count rest ≡ 4)
    × (all_chars is_letter first ≡ true)
    × (all_chars is_letter_or_digit rest ≡ true)
rand_string_bytes_rmndr_lem_example = rand_string_bytes_rmndr_lem (λ n. n) 4

-- A handler that fails until the queue counts a requeue of its item.
abbrev queue_helper : Helper
queue_helper = record { queue = lb_queue; key_func = passthrough_key_func }

abbrev sample : Obj
sample = load_balancer sample_lb

abbrev sometimes : Obj → Exec Call (Unit {0})
sometimes o h =
    if ltb (cluster.num_requeues h lb_queue o) 1 then fail (message "busy") h else (ok tt, h)

counts : CountsRequeues cluster queue_helper sample
counts = record { after_retry = λ h. refl; after_forget = λ h. refl; after_done = λ h. refl }

first-Fails :
    (j : ℕ)
    → j < 1
    → Fails cluster queue_helper sample sometimes
        (after_rounds cluster queue_helper sample sometimes j [])
unfolding after_rounds
first-Fails zero l = record { error = message "busy"; calls = []; fails = refl; keeps_count = refl }
first-Fails (suc j) l = absurd (omega (arith, l))

after_rounds-recovers_example :
    ((j : ℕ)
      → j < 1
      → (before : List Call) × (after_rounds cluster queue_helper sample sometimes (suc j) []
          ≡ done lb_queue sample ∷ add_rate_limited lb_queue sample ∷ before))
    × (after_rounds cluster queue_helper sample sometimes 2 []
        ≡ done lb_queue sample
          ∷ forget lb_queue sample
          ∷ done lb_queue sample
          ∷ add_rate_limited lb_queue sample
          ∷ [])
    × (cluster.num_requeues
          (after_rounds cluster queue_helper sample sometimes 2 [])
          lb_queue
          sample
        ≡ 0)
unfolding after_rounds process_next_work_item
after_rounds-recovers_example =
    after_rounds-recovers cluster queue_helper sample sometimes counts 1 []
      (done lb_queue sample ∷ add_rate_limited lb_queue sample ∷ []) first-Fails (omega arith) refl
      refl
