-- ===== src/License.antt =====
-- hack/license/main.go, which puts the license at the head of the repository's Go files.
--
-- A file is a list of bytes. The file system is a parameter: what a path reads as in its state, and
-- the error and the state after a write. A directory and what it holds are a tree, of which each node has the path
-- that `filepath.Walk` reports it by, in the order of the walk. The tool adds and removes no file,
-- so the tree stays. Modes of files and logs are left out, and so is the parsing of the flags.
pub mod Search
pub mod Frame
pub mod Written
pub mod Work
pub mod Again
use mathlib.Core.Option
use loadbalancer_controller.Common.{
  ℕ, String, Bool, true, false, ◌||◌, Option, none, some, List, [], ◌∷◌, ◌++◌, is_empty,
}
use loadbalancer_controller.Common.{◌==◌, if◌then◌else◌}
use loadbalancer_controller.Common.Effects.{Error, Reply, reply, failed}
use loadbalancer_controller.License.Search.{
  Bytes, bytes_eq, codes, take, drop, replicate, index, contains, ext,
}

-- A file system with states `S`.
pub record Disk (S : Type 0) : Type 0 where
  -- `ioutil.ReadFile`
  pub read : S → Bytes → Reply Bytes
  -- `ioutil.WriteFile`: its error, if any, and what it leaves
  pub write : S → Bytes → Bytes → Option Error × S

-- What `filepath.Walk` finds at a path: a file, an entry that `lstat` fails on, or a directory with
-- the error of reading its names and its entries.
mutual
  pub data Tree : Type 0 where
    file : Bytes → Tree
    unknown : Bytes → Error → Tree
    dir : Bytes → Option Error → Forest → Tree

  pub data Forest : Type 0 where
    leaf : Forest
    entry : Tree → Forest → Forest

-- How a part of the walk ends: it goes on, it stops with an error, or the program panics.
pub data Verdict : Type 0 where
  next panicked : Verdict
  stopped : Error → Verdict

-- How the program ends: as a matter of course, by `log.Fatal`, with an error in the log, or by a
-- panic.
pub data Ending : Type 0 where
  finished crashed : Ending
  fatal logged : Error → Ending

abbrev pub sentinels : List Bytes
sentinels =
    codes "Copyright"
    ∷ codes "Caicloud"
    ∷ codes "Licensed under the Apache License, Version 2.0 (the \"License\");"
    ∷ []

-- The license as it stands in a file: `/*`, a line break, the text, `*/` and two line breaks.
abbrev pub header : Bytes → Bytes
header text = codes "/*" ++ (10 ∷ (text ++ (codes "*/" ++ (10 ∷ 10 ∷ []))))

-- The loop over the sentinels.
unfoldable pub missing : Bytes → List Bytes → Bool → Bool
missing src [] need = need
missing src (s ∷ others) need = missing src others (if contains src s then need else true)

-- `allFile[:150]`. The slice is cut within the capacity of the buffer, of which `ReadFile` leaves
-- at least 512 bytes, so that a shorter file is filled up with zeros.
abbrev pub front : Bytes → Bytes
front content = take 150 (content ++ replicate 150 0)

unfoldable pub need_license : Bytes → Bool
unfolding missing contains
need_license content = missing (front content) sentinels false

unfoldable pub skip_dir : Bytes → Bool
unfolding contains
skip_dir path = contains path (codes "vendor") || contains path (codes ".git")

unfoldable pub is_go : Bytes → Bool
unfolding ext
is_go path = ext path == codes ".go"

-- How `filepath.Walk` goes on: after an entry, and into a directory.
module _ {S : Type 0} where
  abbrev pub after : Verdict × S → (S → Verdict × S) → Verdict × S
  after (next, s) rest = rest s
  after (panicked, s) rest = (panicked, s)
  after (stopped e, s) rest = (stopped e, s)

  abbrev pub enter : Bool → Option Error → (S → Verdict × S) → S → Verdict × S
  enter true listing inside s = (next, s)
  enter false (some e) inside s = (stopped e, s)
  enter false none inside s = inside s

module _ {S : Type 0} (D : Disk S) (license : Bytes) (dry_run : Bool) where
  -- `allFile[i:]` panics at -1. The error of the write is dropped.
  rewrite_file : Bytes → Bytes → Option ℕ → S → Verdict × S
  rewrite_file path content none s = (panicked, s)
  rewrite_file path content (some i) s = (next, (D.write s path (license ++ drop i content)).1)

  unfoldable pub add_license : Bytes → Bytes → S → Verdict × S
  unfolding rewrite_file
  add_license path content s =
      if dry_run then (next, s) else rewrite_file path content (index content (codes "package")) s

  visit_content : Bytes → Reply Bytes → S → Verdict × S
  unfolding add_license
  visit_content path (failed e) s = (next, s)
  visit_content path (reply content) s =
      if need_license content then add_license path content s else (next, s)

  -- The function of the walk, at a file.
  unfoldable pub visit_file : Bytes → S → Verdict × S
  unfolding visit_content
  visit_file path s = if is_go path then visit_content path (D.read s path) s else (next, s)

  -- `filepath.Walk` with the function.
  unfoldable mutual
    pub walk : Tree → S → Verdict × S
    walk (file path) s = visit_file path s
    walk (unknown path e) s = (stopped e, s)
    walk (dir path listing inside) s = enter (skip_dir path) listing (walk_all inside) s

    pub walk_all : Forest → S → Verdict × S
    walk_all leaf s = (next, s)
    walk_all (entry t others) s = after (walk t s) (walk_all others)

module _ {S : Type 0} (D : Disk S) where
  abbrev pub finish : Verdict × S → Ending × S
  finish (next, s) = (finished, s)
  finish (stopped e, s) = (logged e, s)
  finish (panicked, s) = (crashed, s)

  abbrev pub with_license : Bool → Tree → S → Reply Bytes → Ending × S
  with_license dry_run t s (failed e) = (fatal e, s)
  with_license dry_run t s (reply text) = finish (walk D (header text) dry_run t s)

  abbrev pub root_of : Bytes → Bytes
  root_of root = if is_empty root then codes "./" else root

  abbrev pub license_path : Bytes → Bytes
  license_path root = root_of root ++ codes "/LICENSE"

  -- `Run`, where `tree` is what stands at a path
  unfoldable pub run : (Bytes → Tree) → Bytes → Bool → S → Ending × S
  unfolding walk skip_dir is_go visit_file need_license
  run tree root dry_run s =
      with_license dry_run (tree (root_of root)) s (D.read s (license_path root))
