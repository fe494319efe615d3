-- ===== src/LbUtil/Retry.antt =====
-- UpdateLBWithRetries of pkg/util/lb/lb.go.
pub mod Writes
use loadbalancer_controller.Common.{String}
use loadbalancer_controller.Common.Effects.{precondition_violated, Reply, reply, failed}
use loadbalancer_controller.Common.Effects.{Exec, pure, fail, lift, call, attempt, ◌>>=◌}
use loadbalancer_controller.Api.{LoadBalancer}
use loadbalancer_controller.Cluster.{Cluster, Call, Routines, get_lb, update_lb}

-- A violated precondition is no error. The callers drop the load balancer.
retried : Reply LoadBalancer → Exec Call (Unit {0})
retried (reply lb) = pure tt
retried (failed precondition_violated) = pure tt
retried (failed e) = fail e

module _ (C : Cluster) (R : Routines) (namespace name : String)
    (apply : LoadBalancer → Reply LoadBalancer) where
  -- One attempt: get the live object, change it, and update it.
  unfoldable pub update_once : Exec Call LoadBalancer
  update_once = call (get_lb namespace name) (λ h. C.live_lb h namespace name) >>= λ lb.
      lift (apply lb) >>= λ changed.
      call (update_lb namespace changed) (λ h. C.updated_lb h namespace changed)

  -- `UpdateLBWithRetries`
  unfoldable pub update_lb_with_retries : Exec Call (Unit {0})
  unfolding update_once retried
  update_lb_with_retries = attempt (R.retry_on_conflict update_once) >>= retried
