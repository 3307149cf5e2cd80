-- ===== src/Core/Module/Inject/Found.antt =====
-- Where `inject_magisk_bins` (native/src/core/module.rs) puts the files of Magisk.
use magisk_t.Prelude.{
  ℕ, ◌≡◌, refl, ◌∙◌, ◌⊎◌, inl, inr, Bool, true, false, Option, none, some, List, [], ◌∷◌,
  Bool-cases, Option-cases, Bytes, codes, bytes_eq, bytes_eq_iff, split,
}
use magisk_t.Core.Module.{
  append_path, FsNode, directory, file, symlink, magisk_link, whiteout, FsNodeMap, empty, World,
}
use magisk_t.Core.Module.Tree.{get, get-insert, insert, find, find-insert}
use magisk_t.Core.Module.Inject.{
  inject, inject_at, path_loop, components, find_candidates, sort_by_count, inject_magisk_bins,
}

-- A directory with everything that is injected.
abbrev pub Injected : Bytes → FsNodeMap → Type 0
Injected magisk_tmp children =
    (get (codes "magisk") children ≡ some (file (append_path magisk_tmp (codes "magisk"))))
    × (get (codes "magiskpolicy") children
        ≡ some (file (append_path magisk_tmp (codes "magiskpolicy"))))
    × (get (codes "su") children ≡ some magisk_link)
    × (get (codes "resetprop") children ≡ some magisk_link)
    × (get (codes "supolicy") children ≡ some magisk_link)

-- A lookup behind an insertion of another name.
get-insert_other :
    (other name : Bytes) (n : FsNode) (m : FsNodeMap) {got : Option FsNode}
    → bytes_eq name other ≡ false
    → get other m ≡ got
    → get other (insert name n m) ≡ got
get-insert_other other name n m miss e = rw (get-insert name other n m, miss) e

get-insert_same : (name : Bytes) (n : FsNode) (m : FsNodeMap) → get name (insert name n m) ≡ some n
get-insert_same name n m = rw (get-insert name name n m, (bytes_eq_iff name name).1 refl) refl

inject-Injected : (magisk_tmp : Bytes) (m : FsNodeMap) → Injected magisk_tmp (inject magisk_tmp m)
unfolding inject
inject-Injected magisk_tmp m =
    let magisk = file (append_path magisk_tmp (codes "magisk")) in
    let policy = file (append_path magisk_tmp (codes "magiskpolicy")) in
    let m1 = insert (codes "magisk") magisk m in
    let m2 = insert (codes "magiskpolicy") policy m1 in
    let m3 = insert (codes "su") magisk_link m2 in
    let m4 = insert (codes "resetprop") magisk_link m3 in
    (
      get-insert_other (codes "magisk") (codes "supolicy") magisk_link m4 refl (
          get-insert_other (codes "magisk") (codes "resetprop") magisk_link m3 refl (
            get-insert_other (codes "magisk") (codes "su") magisk_link m2 refl (
              get-insert_other (codes "magisk") (codes "magiskpolicy") policy m1 refl
                (get-insert_same (codes "magisk") magisk m)))),
      get-insert_other (codes "magiskpolicy") (codes "supolicy") magisk_link m4 refl (
          get-insert_other (codes "magiskpolicy") (codes "resetprop") magisk_link m3 refl (
            get-insert_other (codes "magiskpolicy") (codes "su") magisk_link m2 refl
              (get-insert_same (codes "magiskpolicy") policy m1))),
      get-insert_other (codes "su") (codes "supolicy") magisk_link m4 refl (
          get-insert_other (codes "su") (codes "resetprop") magisk_link m3 refl
            (get-insert_same (codes "su") magisk_link m2)),
      get-insert_other (codes "resetprop") (codes "supolicy") magisk_link m4 refl
          (get-insert_same (codes "resetprop") magisk_link m3),
      get-insert_same (codes "supolicy") magisk_link m4,
    )

-- Some directory of the tree has everything.
abbrev pub Found : Bytes → FsNode → Type 0
Found magisk_tmp system =
    (names : List Bytes) × (inside : FsNodeMap) × (find names system ≡ some (directory inside))
    × Injected magisk_tmp inside

Found-insert :
    (magisk_tmp name : Bytes) (m below : FsNodeMap)
    → Found magisk_tmp (directory below)
    → Found magisk_tmp (directory (insert name (directory below) m))
Found-insert magisk_tmp name m below (names, inside, there, all) =
    (name ∷ names, inside, find-insert name (directory below) m names ∙ there, all)

inject_at-Found :
    (magisk_tmp : Bytes) (names : List Bytes) (m : FsNodeMap)
    → (inject_at magisk_tmp names m).1 ≡ true
    → Found magisk_tmp (directory (inject_at magisk_tmp names m).0)
unfolding inject_at find
inject_at-Found magisk_tmp [] m =
    λ done. ([], inject magisk_tmp m, refl, inject-Injected magisk_tmp m)
inject_at-Found magisk_tmp (name ∷ names) m = elim (Option-cases (get name m)) [
  | inl free ↦
      rw (free, inject_at)
        (λ done.
          Found-insert magisk_tmp name m (inject_at magisk_tmp names empty).0
            (inject_at-Found magisk_tmp names empty done))
  | inr (directory inside, here) ↦
      rw (here, inject_at)
        (λ done.
          Found-insert magisk_tmp name m (inject_at magisk_tmp names inside).0
            (inject_at-Found magisk_tmp names inside done))
  | inr (file src, here) ↦ rw (here, inject_at) (λ done. cc done)
  | inr (symlink to, here) ↦ rw (here, inject_at) (λ done. cc done)
  | inr (magisk_link, here) ↦ rw (here, inject_at) (λ done. cc done)
  | inr (whiteout, here) ↦ rw (here, inject_at) (λ done. cc done)
]

-- A name that is free, or that of a directory.
abbrev pub DirectoryOrFree : Bytes → FsNodeMap → Type 0
DirectoryOrFree name m =
    (get name m ≡ none) ⊎ ((inside : FsNodeMap) × (get name m ≡ some (directory inside)))

DirectoryOrFree-insert :
    (other name : Bytes) (m below : FsNodeMap)
    → DirectoryOrFree other m
    → DirectoryOrFree other (insert name (directory below) m)
DirectoryOrFree-insert other name m below h = elim (Bool-cases (bytes_eq name other)) [
  | inl hit ↦ inr (below, rw (get-insert name other (directory below) m, hit) refl)
  | inr miss ↦ rw (get-insert name other (directory below) m, miss) h
]

-- A walk that fails makes nothing else of such a name.
inject_at_failed :
    (magisk_tmp other : Bytes) (names : List Bytes) (m : FsNodeMap)
    → DirectoryOrFree other m
    → (inject_at magisk_tmp names m).1 ≡ false
    → DirectoryOrFree other (inject_at magisk_tmp names m).0
unfolding inject_at
inject_at_failed magisk_tmp other [] m h = λ failed. cc failed
inject_at_failed magisk_tmp other (name ∷ names) m h = elim (Option-cases (get name m)) [
  | inl free ↦ rw (free, inject_at) (λ failed. DirectoryOrFree-insert other name m _ h)
  | inr (directory inside, here) ↦
      rw (here, inject_at) (λ failed. DirectoryOrFree-insert other name m _ h)
  | inr (file src, here) ↦ rw (here, inject_at) (λ failed. h)
  | inr (symlink to, here) ↦ rw (here, inject_at) (λ failed. h)
  | inr (magisk_link, here) ↦ rw (here, inject_at) (λ failed. h)
  | inr (whiteout, here) ↦ rw (here, inject_at) (λ failed. h)
]

path_loop_lem :
    (magisk_tmp other : Bytes) (candidates : List (Bytes × ℕ)) (m : FsNodeMap)
    → DirectoryOrFree other m
    → let walked = path_loop magisk_tmp candidates m in
      ((walked.1 ≡ true) × Found magisk_tmp (directory walked.0))
      ⊎ ((walked.1 ≡ false) × DirectoryOrFree other walked.0)
unfolding path_loop
path_loop_lem magisk_tmp other [] m h = inr (refl, h)
path_loop_lem magisk_tmp other ((path, count) ∷ candidates) m h =
    let walked = inject_at magisk_tmp (components path) m in
    elim (Bool-cases walked.1) [
      | inl done ↦ rw (done) (inl (done, inject_at-Found magisk_tmp (components path) m done))
      | inr failed ↦ rw (failed) (
          path_loop_lem magisk_tmp other candidates walked.0
            (inject_at_failed magisk_tmp other (components path) m h failed))
    ]

inject_at_bin :
    (magisk_tmp name : Bytes) (m : FsNodeMap)
    → DirectoryOrFree name m
    → (inject_at magisk_tmp (name ∷ []) m).1 ≡ true
unfolding inject_at
inject_at_bin magisk_tmp name m (inl free) = rw (free, inject_at) refl
inject_at_bin magisk_tmp name m (inr (inside, here)) = rw (here, inject_at) refl

-- When the tree has no `bin`, or a directory `bin`, some directory of the tree holds magisk and
-- magiskpolicy from the folder of Magisk and the links su, resetprop and supolicy afterwards,
-- whatever PATH is.
pub inject_magisk_bins-Found :
    (w : World) (magisk_tmp path_env : Bytes) (is_emulator : Bool) (m : FsNodeMap)
    → DirectoryOrFree (codes "bin") m
    → Found magisk_tmp (inject_magisk_bins w magisk_tmp path_env is_emulator (directory m))
unfolding inject_magisk_bins
inject_magisk_bins-Found w magisk_tmp path_env is_emulator m h =
    let candidates = sort_by_count (find_candidates w is_emulator (split b':' path_env)) in
    let walked = path_loop magisk_tmp candidates m in
    elim (path_loop_lem magisk_tmp (codes "bin") candidates m h) [
      | inl (done, found) ↦ rw (done) found
      | inr (failed, still) ↦ rw (failed) (
          inject_at-Found magisk_tmp (codes "bin" ∷ []) walked.0
            (inject_at_bin magisk_tmp (codes "bin") walked.0 still))
    ]
