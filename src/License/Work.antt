-- ===== src/License/Work.antt =====
-- The work that a visit of hack/license/main.go finds and leaves.
use loadbalancer_controller.Common.{ℕ, Bool, true, false, ◌++◌, ◌≡◌, refl, inl, inr, arith}
use loadbalancer_controller.Common.{Bool-cases}
use loadbalancer_controller.Common.Effects.{reply, Reply-cases}
use loadbalancer_controller.License.{Disk, next, need_license, is_go, visit_file}
use loadbalancer_controller.License.Search.{Bytes, bytes_eq, drop}
use loadbalancer_controller.License.Frame.{
  IsStore, IsWritable, IsFound, lacking, wants, Kept, need_license-append, visit_file-cases,
}

module _ {S : Type 0} (D : Disk S) (same : Bytes → Bytes → Bool) (license : Bytes) where
  pub wants-Kept :
      (found : IsFound license) (s s' : S) (q : Bytes)
      → Kept D same license s s' q
      → wants D s q ≡ false
      → wants D s' q ≡ false
  unfolding wants
  wants-Kept found s s' q (inl stays) w = rw stays w
  wants-Kept found s s' q (inr (l, k)) w = ground (arith, w, l.was, l.lacks)

  pub visit_file-eq_of_idle :
      (dry_run : Bool) (p : Bytes) (s : S)
      → wants D s p ≡ false
      → visit_file D license dry_run p s ≡ (next, s)
  unfolding visit_file wants
  visit_file-eq_of_idle dry_run p s w = elim (Bool-cases (is_go p)) [
    | inr other ↦ rw other refl
    | inl go ↦ elim (Reply-cases (D.read s p)) [
      | inr (e, bad) ↦ rw (go, bad) refl
      | inl (old, was) ↦
          let has : need_license old ≡ false = ground (arith, w, go, was) in rw (go, was, has) refl
    ]
  ]

  -- A file that has been written reads as one that needs no license.
  wants-rewritten :
      (found : IsFound license) (store : IsStore D same) (writable : IsWritable D) (p : Bytes)
      (s : S) (old : Bytes) (at : ℕ)
      → is_go p ≡ true
      → D.read s p ≡ reply old
      → wants D (D.write s p (license ++ drop at old)).1 p ≡ false
  unfolding wants
  wants-rewritten found store writable p s old at go was =
      let back : D.read (D.write s p (license ++ drop at old)).1 p
          ≡ reply (license ++ drop at old) =
        store.read_back s p _ (writable s p old _ go was) in
      rw (back, lacking) (ground (arith, need_license-append license (drop at old) found))

  -- A visit that goes on leaves no work at its path.
  pub visit_file-wants :
      (found : IsFound license) (store : IsStore D same) (writable : IsWritable D) (p : Bytes)
      (s : S)
      → (visit_file D license false p s).0 ≡ next
      → wants D (visit_file D license false p s).1 p ≡ false
  visit_file-wants found store writable p s n = elim (Bool-cases (wants D s p)) [
    | inr none' ↦ rw (visit_file-eq_of_idle false p s none') none'
    | inl work ↦ elim (visit_file-cases D license false p s) [
      | inr (old, at, wet, go, was, lacks, here, e) ↦
          rw e (wants-rewritten found store writable p s old at go was)
      | inl (stays, idle) ↦ rw stays (idle refl n)
    ]
  ]
