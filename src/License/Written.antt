-- ===== src/License/Written.antt =====
-- What a whole run of the license tool of hack/license/main.go writes, dry or not.
use loadbalancer_controller.Common.{Bool, true, false, Option, none, some, ◌≡◌, refl, ◌∙◌, inl, inr}
use loadbalancer_controller.Common.Effects.{Error}
use loadbalancer_controller.License.{
  Disk, Tree, file, unknown, dir, Forest, leaf, entry, Verdict, next, panicked, stopped, skip_dir,
  visit_file, after, enter, walk, walk_all, finish,
}
use loadbalancer_controller.License.Search.{Bytes, bytes_eq}
use loadbalancer_controller.License.Frame.{visit_file-cases}

-- A dry run writes nothing.
module _ {S : Type 0} (D : Disk S) (license : Bytes) where
  visit_file_dry : (p : Bytes) (s : S) → (visit_file D license true p s).1 ≡ s
  visit_file_dry p s = elim (visit_file-cases D license true p s) [
    | inl (same, idle) ↦ same
    | inr (old, at, wet, go, was, lacks, found, e) ↦ cc
  ]

  enter_dry :
      (skip : Bool) (listing : Option Error) (inside : S → Verdict × S) (s : S)
      → (inside s).1 ≡ s
      → (enter skip listing inside s).1 ≡ s
  enter_dry true listing inside s k = refl
  enter_dry false none inside s k = k
  enter_dry false (some e) inside s k = refl

  after_dry :
      (r : Verdict × S) (rest : S → Verdict × S) (s : S)
      → r.1 ≡ s
      → (rest r.1).1 ≡ r.1
      → (after r rest).1 ≡ s
  after_dry (next, t) rest s k l = l ∙ k
  after_dry (panicked, t) rest s k l = k
  after_dry (stopped e, t) rest s k l = k

  mutual
    unfolding walk

    pub walk_dry : (t : Tree) (s : S) → (walk D license true t s).1 ≡ s
    walk_dry (file p) s = visit_file_dry p s
    walk_dry (unknown p e) s = refl
    walk_dry (dir p listing inside) s =
        enter_dry (skip_dir p) listing (walk_all D license true inside) s (walk_all_dry inside s)

    pub walk_all_dry : (f : Forest) (s : S) → (walk_all D license true f s).1 ≡ s
    walk_all_dry leaf s = refl
    walk_all_dry (entry t others) s =
        after_dry (walk D license true t s) (walk_all D license true others) s (walk_dry t s)
          (walk_all_dry others (walk D license true t s).1)

module _ {S : Type 0} (D : Disk S) where
  pub finish-state : (r : Verdict × S) → (finish D r).1 ≡ r.1
  finish-state (next, s) = refl
  finish-state (stopped e, s) = refl
  finish-state (panicked, s) = refl
