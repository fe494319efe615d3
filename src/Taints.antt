-- ===== src/Taints.antt =====
-- pkg/util/taints/taints.go
pub mod Reorganize
use loadbalancer_controller.Common.{ℕ, String, ◌<>◌, Bool, true, false, not, ◌&&◌, ◌||◌, Option}
use loadbalancer_controller.Common.{
  List, [], ◌∷◌, ◌++◌, length, any_of, items, ◌==◌, string_eq, nat_eq,
}
use loadbalancer_controller.Common.{if◌then◌else◌}
use loadbalancer_controller.Common.Effects.{Error, message}
use loadbalancer_controller.Api.{Taint, Node}
use loadbalancer_controller.Cluster.{Library}

module _ (L : Library) where
  overwrite_errors : String → List Taint → List Taint → List Error
  overwrite_errors node old [] = []
  overwrite_errors node old (t ∷ ts) =
      let rest = overwrite_errors node old ts in
      if any_of (λ o. t.key == o.key) old
      then message ("Node '" <> node <> "' already has a taint with key (" <> t.key <> ") ") ∷ rest
      else rest

  -- `ValidateNoTaintOverwrites`
  pub validate_no_taint_overwrites : Node → List Taint → Option Error
  unfolding overwrite_errors
  validate_no_taint_overwrites node ts =
      L.new_aggregate (overwrite_errors node.name (items node.taints) ts)

  -- The loop of `AddTaints`: an old taint that matches none of the list so far is appended.
  unfoldable pub add_taints : List Taint → List Taint → List Taint
  add_taints [] new = new
  add_taints (old ∷ olds) new =
      add_taints olds (if any_of (λ t. L.match_taint t old) new then new else new ++ old ∷ [])

  -- What `AddTaints` returns.
  unfoldable pub has_added : List Taint → List Taint → Bool
  has_added olds new = not (length olds == length new)

  -- One taint of `DeleteTaints`: by key and effect if it has an effect, by key if not.
  unfoldable pub delete_one : Taint → List Taint → List Taint × Bool
  delete_one t ts = if t.effect == "" then L.delete_taints_by_key ts t.key else L.delete_taint ts t

  -- The loop of `DeleteTaints`: the errors, whether the last taint was removed, what is left.
  unfoldable pub delete_taints :
      List Taint → List Error → Bool → List Taint → List Error × Bool × List Taint
  unfolding delete_one
  delete_taints [] errors removed new = (errors, removed, new)
  delete_taints (t ∷ ts) errors _ new =
      let (new', removed) = delete_one t new in
      delete_taints ts
        (if removed
          then errors
          else errors ++ message ("taint " <> L.quote (L.taint_to_string t) <> " not found") ∷ [])
        removed new'

  -- `ReorganizeTaints`
  unfoldable pub reorganize_taints :
      Node → Bool → List Taint → List Taint → String × List Taint × Option Error
  unfolding add_taints has_added delete_taints
  reorganize_taints node overwrite to_add to_remove =
      let old = items node.taints in
      let added_list = add_taints old to_add in
      let added = has_added old added_list in
      let (errors, deleted, new) = delete_taints to_remove [] false added_list in
      if (added && deleted) || overwrite
      then ("modified", new, L.new_aggregate errors)
      else if added
      then ("tainted", new, L.new_aggregate errors)
      else ("untainted", new, L.new_aggregate errors)
