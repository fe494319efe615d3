-- ===== src/Witnesses/Licenses.antt =====
-- Examples for the license tool, on a file system that is a list of files.
use loadbalancer_controller.Common.{
  Bool, if◌then◌else◌, true, false, Option, none, some, List, [], ◌∷◌, ◌++◌, ◌≡◌, refl, inl, inr,
  arith,
}
use loadbalancer_controller.Common.{Bool-cases, ◌==◌}
use loadbalancer_controller.Common.Effects.{not_found, Reply, reply, failed}
use loadbalancer_controller.Common.Table.{find, put, find-put}
use loadbalancer_controller.License.{
  Disk, Tree, file, dir, leaf, entry, finished, crashed, header, need_license, is_go, run,
}
use loadbalancer_controller.License.Search.{Bytes, bytes_eq, codes, ext}
use loadbalancer_controller.License.Frame.{IsStore, IsWritable, IsFound}
use loadbalancer_controller.License.Again.{run-again}

abbrev Files : Type 0
Files = List (Bytes × Bytes)

abbrev read_of : Option Bytes → Reply Bytes
read_of none = failed not_found
read_of (some content) = reply content

abbrev main_go : Bytes
main_go = codes "cmd/main.go"

-- The path by which the tool reads the license.
abbrev license_file : Bytes
license_file = codes ".//LICENSE"

-- A link to a Go file.
abbrev link : Bytes
link = codes "cmd/link.go"

abbrev resolve : Bytes → Bytes
resolve p = if p == license_file then codes "LICENSE" else if p == link then main_go else p

abbrev same : Bytes → Bytes → Bool
same p q = resolve p == resolve q

abbrev memory : Disk Files
memory = record {
  read = λ s p. read_of (find (resolve p) s);
  write = λ s p content. (none, put (resolve p) content s);
}

memory-IsStore : IsStore memory same
memory-IsStore = record {
  itself = λ p. (bytes_eq.equals_iff (resolve p) (resolve p)).1 refl;
  shared = λ s p q leads. rw ((bytes_eq.equals_iff (resolve p) (resolve q)).0 leads) refl;
  read_back = λ s p new done.
      rw
        (
          find-put s (resolve p) (resolve p) new,
          (bytes_eq.equals_iff (resolve p) (resolve p)).1 refl,
        )
        refl;
  untouched = λ s p q new other. rw (find-put s (resolve p) (resolve q) new, other) refl;
}

memory-IsWritable : IsWritable memory
memory-IsWritable s p old new go was = refl

license-apart : (p : Bytes) → is_go p ≡ true → same p license_file ≡ false
unfolding is_go ext
license-apart p go = elim (Bool-cases (p == license_file)) [
  | inl e ↦
      let there : p ≡ license_file = (bytes_eq.equals_iff p license_file).0 e in cc (rw there at go)
  | inr n ↦ elim (Bool-cases (p == link)) [
    | inl e ↦ rw (n, e) refl
    | inr m ↦ elim (Bool-cases (p == codes "LICENSE")) [
      | inl e ↦
          let there : p ≡ codes "LICENSE" = (bytes_eq.equals_iff p (codes "LICENSE")).0 e in
          cc (rw there at go)
      | inr k ↦ rw (n, m) k
    ]
  ]
]

abbrev text : Bytes
text =
    codes "Copyright 2017 Caicloud authors. All rights reserved."
    ++ (10
        ∷ 10
        ∷ (codes "Licensed under the Apache License, Version 2.0 (the \"License\");"
            ++ (10 ∷ codes "you may not use this file except in compliance with the License.")))

text-IsFound : IsFound (header text)
unfolding need_license
text-IsFound = (omega arith, refl)

abbrev files : Files
files =
    (codes "LICENSE", text)
    ∷ (main_go, codes "// +build linux package main")
    ∷ (codes "vendor/lib.go", codes "package lib")
    ∷ (codes "README.md", codes "package of charts")
    ∷ []

abbrev tree : Bytes → Tree
tree root = dir root none (
    entry (file (codes "LICENSE")) (
      entry (dir (codes "cmd") none (entry (file main_go) (entry (file link) leaf))) (
        entry (dir (codes "vendor") none (entry (file (codes "vendor/lib.go")) leaf))
          (entry (file (codes "README.md")) leaf))))

run-again_example :
    run memory tree [] true (run memory tree [] false files).1
    ≡ (finished, (run memory tree [] false files).1)
unfolding run need_license find put
run-again_example =
    run-again memory same memory-IsStore memory-IsWritable tree [] text true files refl text-IsFound
      license-apart refl

-- The build constraint before the package clause is gone.
files_after_run :
    (run memory tree [] false files).1
    ≡ (codes "LICENSE", text)
      ∷ (main_go, header text ++ codes "package main")
      ∷ (codes "vendor/lib.go", codes "package lib")
      ∷ (codes "README.md", codes "package of charts")
      ∷ []
unfolding run need_license find put
files_after_run = refl

-- A Go file without the word stops the program.
run_without_package :
    run memory
      (λ root. file main_go)
      []
      false
      ((codes "LICENSE", text) ∷ (main_go, codes "// empty") ∷ [])
    ≡ (crashed, (codes "LICENSE", text) ∷ (main_go, codes "// empty") ∷ [])
unfolding run need_license find put
run_without_package = refl
