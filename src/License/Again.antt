-- ===== src/License/Again.antt =====
-- A second run of the license tool of hack/license/main.go.
use loadbalancer_controller.Common.{
  Bool, true, false, Option, none, some, ◌≡◌, refl, ◌∙◌, inl, inr, arith,
}
use loadbalancer_controller.Common.Effects.{Error, reply}
use loadbalancer_controller.License.{
  Disk, Tree, file, unknown, dir, Forest, leaf, entry, Verdict, next, panicked, stopped, finished,
  header, skip_dir, is_go, after, enter, walk, walk_all, finish, license_path, run, root_of,
}
use loadbalancer_controller.License.Search.{Bytes, bytes_eq}
use loadbalancer_controller.License.Frame.{
  IsStore, IsWritable, IsFound, wants, Kept, walk-Kept, walk_all-Kept,
}
use loadbalancer_controller.License.Written.{finish-state}
use loadbalancer_controller.License.Work.{wants-Kept, visit_file-eq_of_idle, visit_file-wants}

abbrev Entered : Bool → Option Error → Type 0 → Type 0
Entered true listing Inside = Unit
Entered false none Inside = Inside
Entered false (some e) Inside = ⊥

-- The walk meets no work and no error.
mutual
  Done : {S : Type 0} → Disk S → S → Tree → Type 0
  Done D s (file p) = wants D s p ≡ false
  Done D s (unknown p e) = ⊥
  Done D s (dir p listing inside) = Entered (skip_dir p) listing (DoneAll D s inside)

  DoneAll : {S : Type 0} → Disk S → S → Forest → Type 0
  DoneAll D s leaf = Unit
  DoneAll D s (entry t others) = Done D s t × DoneAll D s others

Entered-mono :
    {P Q : Type 0} (skip : Bool) (listing : Option Error)
    → (P → Q)
    → Entered skip listing P
    → Entered skip listing Q
Entered-mono true listing f d = tt
Entered-mono false none f d = f d
Entered-mono false (some e) f d = d

module _ {S : Type 0} where
  -- Where there is no work, a walk ends with the files as they are.
  enter-eq_of_idle :
      (skip : Bool) (listing : Option Error) {P : Type 0} (inside : S → Verdict × S) (s : S)
      → (P → inside s ≡ (next, s))
      → Entered skip listing P
      → enter skip listing inside s ≡ (next, s)
  enter-eq_of_idle true listing inside s f d = refl
  enter-eq_of_idle false none inside s f d = f d
  enter-eq_of_idle false (some e) inside s f d = absurd d

  enter-Done :
      (skip : Bool) (listing : Option Error) (P : S → Type 0) (inside : S → Verdict × S) (s : S)
      → ((inside s).0 ≡ next → P (inside s).1)
      → (enter skip listing inside s).0 ≡ next
      → Entered skip listing (P (enter skip listing inside s).1)
  enter-Done true listing P inside s f n = tt
  enter-Done false none P inside s f n = f n
  enter-Done false (some e) P inside s f n = cc

  after-Done :
      (P Q : S → Type 0) (r : Verdict × S) (rest : S → Verdict × S)
      → (r.0 ≡ next → P r.1)
      → (P r.1 → P (rest r.1).1)
      → ((rest r.1).0 ≡ next → Q (rest r.1).1)
      → (after r rest).0 ≡ next
      → P (after r rest).1 × Q (after r rest).1
  after-Done P Q (next, s) rest f k g n = (k (f refl), g n)
  after-Done P Q (panicked, s) rest f k g n = cc
  after-Done P Q (stopped e, s) rest f k g n = cc

module _ {S : Type 0} (D : Disk S) (same : Bytes → Bytes → Bool) (license : Bytes) where
  mutual
    unfolding walk Done

    walk-eq_of_idle :
        (dry_run : Bool) (t : Tree) (s : S) → Done D s t → walk D license dry_run t s ≡ (next, s)
    walk-eq_of_idle dry_run (file p) s d = visit_file-eq_of_idle D same license dry_run p s d
    walk-eq_of_idle dry_run (unknown p e) s d = absurd d
    walk-eq_of_idle dry_run (dir p listing inside) s d =
        enter-eq_of_idle (skip_dir p) listing (walk_all D license dry_run inside) s
          (walk_all-eq_of_idle dry_run inside s) d

    walk_all-eq_of_idle :
        (dry_run : Bool) (f : Forest) (s : S)
        → DoneAll D s f
        → walk_all D license dry_run f s ≡ (next, s)
    walk_all-eq_of_idle dry_run leaf s d = refl
    walk_all-eq_of_idle dry_run (entry t others) s d =
        rw (walk-eq_of_idle dry_run t s d.0) (walk_all-eq_of_idle dry_run others s d.1)

  module _ (found : IsFound license) where
    mutual
      unfolding Done

      Done-Kept :
          (s s' : S) (t : Tree)
          → ((q : Bytes) → Kept D same license s s' q)
          → Done D s t
          → Done D s' t
      Done-Kept s s' (file p) k d = wants-Kept D same license found s s' p (k p) d
      Done-Kept s s' (unknown p e) k d = d
      Done-Kept s s' (dir p listing inside) k d =
          Entered-mono (skip_dir p) listing (DoneAll-Kept s s' inside k) d

      DoneAll-Kept :
          (s s' : S) (f : Forest)
          → ((q : Bytes) → Kept D same license s s' q)
          → DoneAll D s f
          → DoneAll D s' f
      DoneAll-Kept s s' leaf k d = tt
      DoneAll-Kept s s' (entry t others) k d =
          (Done-Kept s s' t k d.0, DoneAll-Kept s s' others k d.1)

    module _ (store : IsStore D same) (writable : IsWritable D) where
      mutual
        unfolding walk Done

        -- A walk that comes to its end leaves no work.
        walk-Done :
            (t : Tree) (s : S)
            → (walk D license false t s).0 ≡ next
            → Done D (walk D license false t s).1 t
        walk-Done (file p) s n = visit_file-wants D same license found store writable p s n
        walk-Done (unknown p e) s n = cc
        walk-Done (dir p listing inside) s n =
            enter-Done (skip_dir p) listing (λ s'. DoneAll D s' inside)
              (walk_all D license false inside) s (walk_all-Done inside s) n

        walk_all-Done :
            (f : Forest) (s : S)
            → (walk_all D license false f s).0 ≡ next
            → DoneAll D (walk_all D license false f s).1 f
        walk_all-Done leaf s n = tt
        walk_all-Done (entry t others) s n =
            after-Done (λ s'. Done D s' t) (λ s'. DoneAll D s' others) (walk D license false t s)
              (walk_all D license false others) (walk-Done t s)
              (Done-Kept (walk D license false t s).1
                (walk_all D license false others (walk D license false t s).1).1 t
                (λ q.
                  walk_all-Kept D same license found store false others (walk D license false t s).1
                    q))
              (walk_all-Done others (walk D license false t s).1) n

module _ {S : Type 0} (D : Disk S) where
  finish-finished : (r : Verdict × S) → (finish D r).0 ≡ finished → r.0 ≡ next
  finish-finished (next, s) e = refl
  finish-finished (stopped x, s) e = absurd (ground (arith, e))
  finish-finished (panicked, s) e = absurd (ground (arith, e))

  -- The text of the license stays.
  license_path-Kept :
      (same : Bytes → Bytes → Bool) (license : Bytes) (s s' : S) (root : Bytes)
      → ((p : Bytes) → is_go p ≡ true → same p (license_path D root) ≡ false)
      → Kept D same license s s' (license_path D root)
      → D.read s' (license_path D root) ≡ D.read s (license_path D root)
  license_path-Kept same license s s' root apart (inl stays) = stays
  license_path-Kept same license s s' root apart (inr (w, k)) =
      absurd (ground (arith, w.leads, apart w.path w.go))

  -- After a run that is not dry and ends as a matter of course, a second run, dry or not, ends so too
  -- and changes no file. This holds where Go files that can be read can be written, where what has
  -- been written is read back by every path of its file and leaves all other files alone, and where
  -- no path of a Go file leads to the license, which is one that is found in a file that begins with
  -- it.
  pub run-again :
      (same : Bytes → Bytes → Bool) (store : IsStore D same) (writable : IsWritable D)
      (tree : Bytes → Tree) (root text : Bytes) (dry_run : Bool) (s : S)
      → D.read s (license_path D root) ≡ reply text
      → IsFound (header text)
      → ((p : Bytes) → is_go p ≡ true → same p (license_path D root) ≡ false)
      → (run D tree root false s).0 ≡ finished
      → run D tree root dry_run (run D tree root false s).1
        ≡ (finished, (run D tree root false s).1)
  unfolding run
  run-again same store writable tree root text dry_run s here found apart ends = rw here (
      rw
        (
          finish-state D (walk D (header text) false (tree (root_of D root)) s),
          license_path-Kept same (header text) s
                (walk D (header text) false (tree (root_of D root)) s).1 root apart
                (walk-Kept D same (header text) found store false (tree (root_of D root)) s
                  (license_path D root))
              ∙ here,
          walk-eq_of_idle D same (header text) dry_run (tree (root_of D root)) _ (
              walk-Done D same (header text) found store writable (tree (root_of D root)) s (
                finish-finished (walk D (header text) false (tree (root_of D root)) s)
                  (rw here at ends))),
        )
        refl)
