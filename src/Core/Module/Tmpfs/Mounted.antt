-- ===== src/Core/Module/Tmpfs/Mounted.antt =====
-- What `commit_tmpfs` (native/src/core/module.rs) mounts when no call fails: every file of the tree.
use mathlib.Core.List.{Memᴰ}
use mathlib.Core.List.Memᴰ.{head, append_left, append_right}
use magisk_t.Prelude.{
  ◌≡◌, refl, sym, subst, ◌∙◌, ◌⊎◌, inl, inr, true, false, ◌||◌, none, some, List, [], ◌∷◌,
  if◌then◌else◌, Bool-cases, Bytes, bytes_eq, bytes_eq_iff,
}
use magisk_t.Core.Module.{
  append_path, append_all, MountPaths, FsNode, directory, file, symlink, magisk_link, whiteout,
  FsNodeMap, empty, node, Op, bind_mount_to, create, World,
}
use magisk_t.Core.Module.Tree.{get, get-node, remove, child, find, find-through}
use magisk_t.Core.Module.Tmpfs.{
  Run, ◌>>◌, nothing, perform, bind_mount, mount_dummy, append, replace, priority, prepare, mirror,
  replace_dir, commit_tmpfs, commit_tmpfs_priority, commit_tmpfs_rest,
}

-- The file is bind mounted below a directory, at the path of its names.
abbrev pub Mounted : Bytes → List Bytes → Bytes → Run → Type 0
Mounted base names src run = Memᴰ (bind_mount_to src (append_all base names) false) run.calls

-- No directory on the way is replaced as a whole.
unfoldable pub Merged : List Bytes → FsNode → Type 0
Merged (name ∷ names) (directory m) =
    (get replace m ≡ none) × ((n : FsNode) → get name m ≡ some n → Merged names n)
Merged _ _ = Unit

pub then-first : {op : Op} (a b : Run) → Memᴰ op a.calls → Memᴰ op (a >> b).calls
unfolding ◌>>◌
then-first a b there = elim (Bool-cases a.success) [
  | inl fine ↦ rw (fine) (append_left b.calls there)
  | inr failed ↦ rw (failed) there
]

pub then-success : (a b : Run) → (a >> b).success ≡ true → (a.success ≡ true) × (b.success ≡ true)
unfolding ◌>>◌
then-success a b = elim (Bool-cases a.success) [
  | inl fine ↦ rw (fine) (λ done. (refl, done))
  | inr failed ↦ rw (failed) (λ done. cc done)
]

pub then-second :
    {op : Op} (a b : Run) → (a >> b).success ≡ true → Memᴰ op b.calls → Memᴰ op (a >> b).calls
unfolding ◌>>◌
then-second a b done there = rw ((then-success a b done).0) (append_right a.calls there)

Mounted-mount_dummy :
    (w : World) (path : MountPaths) (src : Bytes)
    → (mount_dummy w src path.worker false).success ≡ true
    → Mounted path.worker [] src (mount_dummy w src path.worker false)
unfolding mount_dummy bind_mount append_all
Mounted-mount_dummy w path src done =
    then-second (perform w (create path.worker)) (bind_mount src path.worker false) done (head refl)

-- The child that a lookup finds at the head of a map, or behind it.
pub same_child :
    (name j : Bytes) (n c : FsNode) (others : FsNodeMap)
    → bytes_eq j name ≡ true
    → get name (node j n others) ≡ some c
    → n ≡ c
same_child name j n c others hit here =
    let first : get name (node j n others) ≡ some n = rw (get-node name j n others, hit) refl in
    cc (first, here)

pub later_child :
    (name j : Bytes) (n c : FsNode) (others : FsNodeMap)
    → bytes_eq j name ≡ false
    → get name (node j n others) ≡ some c
    → get name others ≡ some c
later_child name j n c others miss here =
    let second : get name (node j n others) ≡ get name others =
      rw (get-node name j n others, miss) refl in
    sym second ∙ here

pub not_both :
    (j name other : Bytes)
    → bytes_eq j name ≡ true
    → bytes_eq name other ≡ false
    → bytes_eq j other ≡ false
not_both j name other hit miss =
    subst (λ x. bytes_eq x other ≡ false) (sym ((bytes_eq_iff j name).0 hit)) miss

-- A tree that has the file, with no directory on the way replaced.
abbrev pub Holds : List Bytes → Bytes → FsNode → Type 0
Holds names src n = (find names n ≡ some (file src)) × Merged names n

-- The calls after those that prepare the directory, when it is not replaced.
abbrev pub merged_run : World → MountPaths → FsNodeMap → Run
merged_run w path m =
    mirror w path (remove replace m) (w.open_dir path.real)
    >> commit_tmpfs_priority w path m
    >> commit_tmpfs_rest w path m

pub commit_tmpfs-merged :
    (w : World) (path : MountPaths) (m : FsNodeMap)
    → get replace m ≡ none
    → commit_tmpfs w path (directory m) ≡ (prepare w path >> merged_run w path m)
unfolding commit_tmpfs replace_dir
commit_tmpfs-merged w path m e = rw (e, replace_dir) refl

-- A child is committed by one loop or the other.
Mounted-merged :
    (w : World) (path : MountPaths) (name : Bytes) (names : List Bytes) (src : Bytes)
    (m : FsNodeMap)
    → ((commit_tmpfs_priority w path m).success ≡ true
        → (commit_tmpfs_rest w path m).success ≡ true
        → Mounted path.worker (name ∷ names) src (commit_tmpfs_priority w path m)
          ⊎ Mounted path.worker (name ∷ names) src (commit_tmpfs_rest w path m))
    → (prepare w path >> merged_run w path m).success ≡ true
    → Mounted path.worker (name ∷ names) src (prepare w path >> merged_run w path m)
Mounted-merged w path name names src m h done =
    let first = prepare w path in
    let rest = merged_run w path m in
    let mirrored = mirror w path (remove replace m) (w.open_dir path.real) in
    let a = commit_tmpfs_priority w path m in
    let b = commit_tmpfs_rest w path m in
    let after_first = (then-success first rest done).1 in
    let after_mirror = (then-success mirrored (a >> b) after_first).1 in
    let (done_a, done_b) = then-success a b after_mirror in
    then-second first rest done (
      then-second mirrored (a >> b) after_first (elim (h done_a done_b) [
        | inl there ↦ then-first a b there
        | inr there ↦ then-second a b after_mirror there
      ]))

replace-other :
    (name : Bytes) (m : FsNodeMap) (c : FsNode)
    → get replace m ≡ none
    → get name m ≡ some c
    → bytes_eq name replace ≡ false
replace-other name m c free here = elim (Bool-cases (bytes_eq name replace)) [
  | inl hit ↦ cc (free, here, (bytes_eq_iff name replace).0 hit)
  | inr miss ↦ miss
]

mutual
  unfolding commit_tmpfs append append_all nothing find child get Merged

  pub Mounted-priority :
      (w : World) (path : MountPaths) (names : List Bytes) (src : Bytes) (m : FsNodeMap)
      (c : FsNode)
      → get priority m ≡ some c
      → Holds names src c
      → (commit_tmpfs_priority w path m).success ≡ true
      → Mounted path.worker (priority ∷ names) src (commit_tmpfs_priority w path m)
  Mounted-priority w path names src empty c here h = cc here
  Mounted-priority w path names src (node j n others) c here h =
      elim (Bool-cases (bytes_eq j priority)) [
        | inl hit ↦
            let at_n =
              subst (Holds names src) (sym (same_child priority j n c others hit here)) h in
            rw (hit) (λ done.
              subst
                (λ x.
                  Mounted (append_path path.worker x) names src (commit_tmpfs w (append path j) n))
                ((bytes_eq_iff j priority).0 hit)
                (Mounted-tmpfs w (append path j) names src n at_n done))
        | inr miss ↦ rw (miss) (
            Mounted-priority w path names src others c (later_child priority j n c others miss here)
              h)
      ]

  pub Mounted-rest :
      (w : World) (path : MountPaths) (name : Bytes) (names : List Bytes) (src : Bytes)
      (m : FsNodeMap) (c : FsNode)
      → get name m ≡ some c
      → bytes_eq name priority ≡ false
      → bytes_eq name replace ≡ false
      → Holds names src c
      → (commit_tmpfs_rest w path m).success ≡ true
      → Mounted path.worker (name ∷ names) src (commit_tmpfs_rest w path m)
  Mounted-rest w path name names src empty c here other other' h = cc here
  Mounted-rest w path name names src (node j n others) c here other other' h =
      elim (Bool-cases (bytes_eq j name)) [
        | inl hit ↦
            let at_n = subst (Holds names src) (sym (same_child name j n c others hit here)) h in
            let run = commit_tmpfs w (append path j) n in
            let p = not_both j name priority hit other in
            let q = not_both j name replace hit other' in
            rw (p, q)
              (λ done. then-first run (commit_tmpfs_rest w path others) (
                subst (λ x. Mounted (append_path path.worker x) names src run)
                  ((bytes_eq_iff j name).0 hit)
                  (Mounted-tmpfs w (append path j) names src n at_n
                    (then-success run (commit_tmpfs_rest w path others) done).0)))
        | inr miss ↦ λ done.
            let round =
              if bytes_eq j priority || bytes_eq j replace
              then nothing
              else commit_tmpfs w (append path j) n in
            then-second round (commit_tmpfs_rest w path others) done (
              Mounted-rest w path name names src others c (later_child name j n c others miss here)
                other other' h (then-success round (commit_tmpfs_rest w path others) done).1)
      ]

  pub Mounted-tmpfs :
      (w : World) (path : MountPaths) (names : List Bytes) (src : Bytes) (n : FsNode)
      → Holds names src n
      → (commit_tmpfs w path n).success ≡ true
      → Mounted path.worker names src (commit_tmpfs w path n)
  Mounted-tmpfs w path [] src (file s) (e, merged) =
      let p : s ≡ src = cc e in
      subst
        (λ x.
          (mount_dummy w s path.worker false).success ≡ true
          → Mounted path.worker [] x (mount_dummy w s path.worker false))
        p (Mounted-mount_dummy w path s)
  Mounted-tmpfs w path (name ∷ names) src (directory m) (e, merged) =
      let (free, below) = merged in
      let (c, here, found) = find-through name names m (file src) e in
      let h : Holds names src c = (found, below c here) in
      rw (commit_tmpfs-merged w path m free) (
        Mounted-merged w path name names src m (λ done_a done_b.
          elim (Bool-cases (bytes_eq name priority)) [
            | inl first ↦
                let p = (bytes_eq_iff name priority).0 first in
                let here' : get priority m ≡ some c = subst (λ x. get x m ≡ some c) p here in
                inl (
                  subst (λ x. Mounted path.worker (x ∷ names) src (commit_tmpfs_priority w path m))
                    (sym p) (Mounted-priority w path names src m c here' h done_a))
            | inr other ↦ inr (
                Mounted-rest w path name names src m c here other (replace-other name m c free here)
                  h done_b)
          ]))
  Mounted-tmpfs w path [] src (directory m) (e, merged) = cc e
  Mounted-tmpfs w path [] src (symlink to) (e, merged) = cc e
  Mounted-tmpfs w path [] src magisk_link (e, merged) = cc e
  Mounted-tmpfs w path [] src whiteout (e, merged) = cc e
  Mounted-tmpfs w path (name ∷ names) src (file s) (e, merged) = cc e
  Mounted-tmpfs w path (name ∷ names) src (symlink to) (e, merged) = cc e
  Mounted-tmpfs w path (name ∷ names) src magisk_link (e, merged) = cc e
  Mounted-tmpfs w path (name ∷ names) src whiteout (e, merged) = cc e
