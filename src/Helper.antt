-- ===== src/Helper.antt =====
-- pkg/util/controller/helper.go
pub mod Retries
pub mod Recovery
use loadbalancer_controller.Common.{
  ℕ, zero, suc, ◌≡◌, Bool, true, false, Option, none, some, List, [], ◌∷◌,
}
use loadbalancer_controller.Common.{if◌then◌else◌, ltb}
use loadbalancer_controller.Common.Effects.{
  Error, Reply, Result, Exec, reply, failed, ok, err, panic, blocked,
}
use loadbalancer_controller.Common.Effects.{pure, post, observe, ◌>>=◌, ◌>>◌}
use loadbalancer_controller.Cluster.{Cluster, Call, Queue, Obj, add, add_rate_limited, add_after}
use loadbalancer_controller.Cluster.{forget, done, other, start_worker, shut_down}
use loadbalancer_controller.Common.{String}

-- `maxRetries`
abbrev pub max_retries : ℕ
max_retries = 3

-- `Helper`: its queue and its key function.
pub record Helper : Type 0 where
  pub queue : Queue
  pub key_func : Obj → Reply Obj

-- `PassthroughKeyFunc`
abbrev pub passthrough_key_func : Obj → Reply Obj
passthrough_key_func obj = reply obj

-- `NewHelperForKeyFunc`, for a key function that is not nil.
abbrev pub new_helper_for_key_func : Queue → (Obj → Reply Obj) → Helper
new_helper_for_key_func queue key_func = record { queue = queue; key_func = key_func }

key_of : Reply String → Reply Obj
key_of (failed e) = failed e
key_of (reply key) = reply (other key)

-- `defaultKeyFunc`, from the vendored `KeyFunc`; an error has the empty key beside it.
unfoldable pub default_key_func : (Obj → Reply String) → Obj → Reply Obj
unfolding key_of
default_key_func key_func_of obj = key_of (key_func_of obj)

-- `NewHelper`, whose key function is nil.
abbrev pub new_helper : (Obj → Reply String) → Queue → Helper
new_helper key_func_of queue = new_helper_for_key_func queue (default_key_func key_func_of)

-- `Run`: so many workers, each in a goroutine.
unfoldable pub run : ℕ → Helper → Exec Call (Unit {0})
run zero helper = pure tt
run (suc workers) helper = post (start_worker helper.queue) >> run workers helper

-- `ShutDown`
abbrev pub shut_down_helper : Helper → Exec Call (Unit {0})
shut_down_helper helper = post (shut_down helper.queue)

-- A key is put on the queue; a failure of the key function is only reported.
put_key : Reply Obj → (Obj → Call) → Exec Call (Unit {0})
put_key (failed e) put = pure tt
put_key (reply key) put = post (put key)

module _ (C : Cluster) (helper : Helper) where
  -- `IsShuttingDown`
  abbrev pub is_shutting_down : List Call → Bool
  is_shutting_down h = C.shutting_down h helper.queue

  -- `enqueue`
  unfoldable pub enqueue : Obj → Exec Call (Unit {0})
  unfolding put_key
  enqueue obj h =
      if is_shutting_down h then (ok tt, h) else put_key (helper.key_func obj) (add helper.queue) h

  -- `enqueueRateLimited`
  unfoldable pub enqueue_rate_limited : Obj → Exec Call (Unit {0})
  unfolding put_key
  enqueue_rate_limited obj h =
      if is_shutting_down h
      then (ok tt, h)
      else put_key (helper.key_func obj) (add_rate_limited helper.queue) h

  -- `enqueueAfter`
  unfoldable pub enqueue_after : Obj → String → Exec Call (Unit {0})
  unfolding put_key
  enqueue_after obj after h =
      if is_shutting_down h
      then (ok tt, h)
      else put_key (helper.key_func obj) (λ key. add_after helper.queue key after) h

  -- `HandleSyncError`; `none` is a nil error.
  unfoldable pub handle_sync_error : Option Error → Obj → Exec Call (Unit {0})
  handle_sync_error none obj h = post (forget helper.queue obj) h
  handle_sync_error (some e) obj h =
      if ltb (C.num_requeues h helper.queue obj) max_retries
      then post (add_rate_limited helper.queue obj) h
      else post (forget helper.queue obj) h

  -- What follows the sync handler, with the deferred `Done`.
  unfoldable pub after_sync : Result (Unit {0}) → Obj → Exec Call (Unit {0})
  unfolding handle_sync_error
  after_sync (ok u) obj h = (handle_sync_error none obj >> post (done helper.queue obj)) h
  after_sync (err e) obj h = (handle_sync_error (some e) obj >> post (done helper.queue obj)) h
  after_sync panic obj h = (panic, done helper.queue obj ∷ h)
  after_sync blocked obj h = (blocked, h)

  -- `processNextWorkItem` for the item that the queue gives.
  unfoldable pub process_next_work_item : (Obj → Exec Call (Unit {0})) → Obj → Exec Call (Unit {0})
  unfolding after_sync
  process_next_work_item sync obj h = let (r, h') = sync obj h in after_sync r obj h'

  -- `worker`: the items that the queue gives until it is shut down. A panic ends it.
  unfoldable pub worker : (Obj → Exec Call (Unit {0})) → List Obj → Exec Call (Unit {0})
  unfolding process_next_work_item
  worker sync [] = pure tt
  worker sync (obj ∷ objs) = process_next_work_item sync obj >> worker sync objs
