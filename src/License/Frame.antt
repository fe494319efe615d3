-- ===== src/License/Frame.antt =====
-- What a run of the license tool of hack/license/main.go does to the files.
use mathlib.Core.List.{append_assoc}
use loadbalancer_controller.Common.{
  ℕ, ◌≤◌, Bool, true, false, ◌&&◌, Option, none, some, ◌++◌, ◌≡◌, refl, sym, ◌∙◌, ◌⊎◌, inl, inr,
  length, arith,
}
use loadbalancer_controller.Common.{Bool-cases, Option-cases}
use loadbalancer_controller.Common.Effects.{Error, Reply, reply, failed, Reply-cases}
use loadbalancer_controller.License.{
  Disk, Tree, file, unknown, dir, Forest, leaf, entry, Verdict, next, panicked, stopped, front,
  need_license, skip_dir, is_go, add_license, visit_file, after, enter, walk, walk_all,
}
use loadbalancer_controller.License.Search.{
  Bytes, bytes_eq, codes, drop, replicate, index, take-append,
}

-- What is relied on of the file system, where `same` tells whether two paths lead to the same file,
-- as links do: such paths read alike, what has been written without an error is read back, and a
-- write leaves every other file alone. A write that fails may leave anything in its file.
pub record IsStore {S : Type 0} (D : Disk S) (same : Bytes → Bytes → Bool) : Type 0 where
  pub itself : (p : Bytes) → same p p ≡ true
  pub shared : (s : S) (p q : Bytes) → same p q ≡ true → D.read s p ≡ D.read s q
  pub read_back :
      (s : S) (p new : Bytes)
      → (D.write s p new).0 ≡ none
      → D.read (D.write s p new).1 p ≡ reply new
  pub untouched :
      (s : S) (p q new : Bytes) → same p q ≡ false → D.read (D.write s p new).1 q ≡ D.read s q

-- Go files that can be read can be written.
abbrev pub IsWritable : {S : Type 0} → Disk S → Type 0
IsWritable {S} D =
    (s : S) (p old new : Bytes)
    → is_go p ≡ true
    → D.read s p ≡ reply old
    → (D.write s p new).0 ≡ none

-- A license that the test for the sentinels finds in any file that begins with it.
abbrev pub IsFound : Bytes → Type 0
IsFound license = (150 ≤ length license) × (need_license license ≡ false)

-- A path, of a Go file or leading to the same file as one, that reads as a text which lacks the
-- license and has a first `package`.
pub record Lacks {S : Type 0} (D : Disk S) (same : Bytes → Bytes → Bool) (s : S) (q : Bytes)
    : Type 0 where
  pub path : Bytes
  pub old : Bytes
  pub at : ℕ
  pub leads : same path q ≡ true
  pub go : is_go path ≡ true
  pub was : D.read s q ≡ reply old
  pub lacks : need_license old ≡ true
  pub found : index old (codes "package") ≡ some at

-- The write of this text failed, when the file still read as at first.
abbrev pub Failed : {S : Type 0} → Disk S → S → Bytes → Bytes → Bytes → Type 0
Failed {S} D s path q new =
    (t : S) × (e : Error) × (D.read t q ≡ D.read s q) × ((D.write t path new).0 ≡ some e)

-- A path reads as before, or its file lacked the license and now reads as the license and what stood
-- from the first `package` on, if the write of that did not fail.
abbrev pub Kept : {S : Type 0} → Disk S → (Bytes → Bytes → Bool) → Bytes → S → S → Bytes → Type 0
Kept D same license s s' q =
    (D.read s' q ≡ D.read s q)
    ⊎ ((w : Lacks D same s q) × ((D.read s' q ≡ reply (license ++ drop w.at w.old))
          ⊎ Failed D s w.path q (license ++ drop w.at w.old)))

unfoldable pub lacking : Reply Bytes → Bool
lacking (failed e) = false
lacking (reply content) = need_license content

-- The tool has work at this path: a Go file that can be read and lacks the license.
unfoldable pub wants : {S : Type 0} → Disk S → S → Bytes → Bool
unfolding lacking
wants D s q = is_go q && lacking (D.read s q)

-- A file that begins with the license needs none.
pub need_license-append :
    (license rest : Bytes) → IsFound license → need_license (license ++ rest) ≡ false
unfolding need_license
need_license-append license rest (long, has) =
    let same : front (license ++ rest) ≡ front license =
      rw (append_assoc license rest (replicate 150 0)) (take-append 150 license _ long)
      ∙ sym (take-append 150 license (replicate 150 0) long) in
    rw same has

module _ {S : Type 0} (D : Disk S) (same : Bytes → Bytes → Bool) (license : Bytes)
    (found : IsFound license) where
  earlier : (s s' : S) (q : Bytes) → D.read s' q ≡ D.read s q → Lacks D same s' q → Lacks D same s q
  earlier s s' q a w = record {
    path = w.path;
    old = w.old;
    at = w.at;
    leads = w.leads;
    go = w.go;
    was = sym a ∙ w.was;
    lacks = w.lacks;
    found = w.found;
  }

  -- What is rewritten once is not rewritten again.
  pub Kept-trans :
      (s s' s'' : S) (q : Bytes)
      → Kept D same license s s' q
      → Kept D same license s' s'' q
      → Kept D same license s s'' q
  unfolding earlier
  Kept-trans s s' s'' q (inl a) (inl b) = inl (b ∙ a)
  Kept-trans s s' s'' q (inl a) (inr (w, inl r)) = inr (earlier s s' q a w, inl r)
  Kept-trans s s' s'' q (inl a) (inr (w, inr (t, e, b, x))) =
      inr (earlier s s' q a w, inr (t, e, b ∙ a, x))
  Kept-trans s s' s'' q (inr (w, inr bad)) k = inr (w, inr bad)
  Kept-trans s s' s'' q (inr (w, inl r)) (inl b) = inr (w, inl (b ∙ r))
  Kept-trans s s' s'' q (inr (w, inl r)) (inr (v, k)) =
      absurd
        (ground (arith, need_license-append license (drop w.at w.old) found, r, v.was, v.lacks))

module _ {S : Type 0} (D : Disk S) (license : Bytes) where
  -- A visit leaves the files alone, or rewrites the file that it visits.
  pub visit_file-cases :
      (dry_run : Bool) (p : Bytes) (s : S)
      → (((visit_file D license dry_run p s).1 ≡ s)
          × (dry_run ≡ false → (visit_file D license dry_run p s).0 ≡ next → wants D s p ≡ false))
        ⊎ ((old : Bytes) × (at : ℕ) × (dry_run ≡ false)
            × (is_go p ≡ true)
            × (D.read s p ≡ reply old)
            × (need_license old ≡ true)
            × (index old (codes "package") ≡ some at)
            × (visit_file D license dry_run p s ≡ (next, (D.write s p (license ++ drop at old)).1)))
  unfolding visit_file add_license wants
  visit_file-cases dry_run p s = elim (Bool-cases (is_go p)) [
    | inr other ↦ inl (rw other refl, λ d n. rw other refl)
    | inl go ↦ elim (Reply-cases (D.read s p)) [
      | inr (e, bad) ↦ inl (rw (go, bad) refl, λ d n. rw (go, bad) refl)
      | inl (old, was) ↦ elim (Bool-cases (need_license old)) [
        | inr has ↦ inl (rw (go, was, has) refl, λ d n. rw (go, was, has) refl)
        | inl lacks ↦ elim (Bool-cases dry_run) [
          | inl dry ↦ inl (rw (go, was, lacks, dry) refl, λ d n. cc)
          | inr wet ↦ elim (Option-cases (index old (codes "package"))) [
            | inl none' ↦ inl (
              rw (go, was, lacks, wet, none') refl,
              λ d n. absurd (ground (arith, n, go, was, lacks, wet, none')),
            )
            | inr (at, found) ↦
                inr (old, at, wet, go, was, lacks, found, rw (go, was, lacks, wet, found) refl)
          ]
        ]
      ]
    ]
  ]

module _ {S : Type 0} (D : Disk S) (same : Bytes → Bytes → Bool) (license : Bytes)
    (store : IsStore D same) where
  -- A write changes its own file only, unless it fails.
  write-Kept :
      (p old : Bytes) (at : ℕ) (s : S) (q : Bytes)
      → is_go p ≡ true
      → D.read s p ≡ reply old
      → need_license old ≡ true
      → index old (codes "package") ≡ some at
      → Kept D same license s (D.write s p (license ++ drop at old)).1 q
  write-Kept p old at s q go was lacks found = elim (Bool-cases (same p q)) [
    | inr other ↦ inl (store.untouched s p q _ other)
    | inl leads ↦
        let w : Lacks D same s q = record {
          path = p;
          old = old;
          at = at;
          leads = leads;
          go = go;
          was = sym (store.shared s p q leads) ∙ was;
          lacks = lacks;
          found = found;
        } in
        elim (Option-cases (D.write s p (license ++ drop at old)).0) [
          | inl done ↦ inr (w, inl (sym (store.shared _ p q leads) ∙ store.read_back s p _ done))
          | inr (e, bad) ↦ inr (w, inr (s, e, refl, bad))
        ]
  ]

  pub visit_file-Kept :
      (dry_run : Bool) (p : Bytes) (s : S) (q : Bytes)
      → Kept D same license s (visit_file D license dry_run p s).1 q
  visit_file-Kept dry_run p s q = elim (visit_file-cases D license dry_run p s) [
    | inl (stays, idle) ↦ inl (rw stays refl)
    | inr (old, at, wet, go, was, lacks, found, e) ↦
        rw e (write-Kept p old at s q go was lacks found)
  ]

module _ {S : Type 0} (D : Disk S) (same : Bytes → Bytes → Bool) (license : Bytes) where
  enter-Kept :
      (skip : Bool) (listing : Option Error) (inside : S → Verdict × S) (s : S) (q : Bytes)
      → Kept D same license s (inside s).1 q
      → Kept D same license s (enter skip listing inside s).1 q
  enter-Kept true listing inside s q k = inl refl
  enter-Kept false none inside s q k = k
  enter-Kept false (some e) inside s q k = inl refl

  after-Kept :
      (found : IsFound license) (r : Verdict × S) (rest : S → Verdict × S) (s : S) (q : Bytes)
      → Kept D same license s r.1 q
      → Kept D same license r.1 (rest r.1).1 q
      → Kept D same license s (after r rest).1 q
  after-Kept found (next, t) rest s q k l = Kept-trans D same license found s t (rest t).1 q k l
  after-Kept found (panicked, t) rest s q k l = k
  after-Kept found (stopped e, t) rest s q k l = k

module _ {S : Type 0} (D : Disk S) (same : Bytes → Bytes → Bool) (license : Bytes)
    (found : IsFound license) (store : IsStore D same) (dry_run : Bool) where
  mutual
    unfolding walk

    pub walk-Kept :
        (t : Tree) (s : S) (q : Bytes) → Kept D same license s (walk D license dry_run t s).1 q
    walk-Kept (file p) s q = visit_file-Kept D same license store dry_run p s q
    walk-Kept (unknown p e) s q = inl refl
    walk-Kept (dir p listing inside) s q =
        enter-Kept D same license (skip_dir p) listing (walk_all D license dry_run inside) s q
          (walk_all-Kept inside s q)

    pub walk_all-Kept :
        (f : Forest) (s : S) (q : Bytes)
        → Kept D same license s (walk_all D license dry_run f s).1 q
    walk_all-Kept leaf s q = inl refl
    walk_all-Kept (entry t others) s q =
        after-Kept D same license found (walk D license dry_run t s)
          (walk_all D license dry_run others) s q (walk-Kept t s q)
          (walk_all-Kept others (walk D license dry_run t s).1 q)
