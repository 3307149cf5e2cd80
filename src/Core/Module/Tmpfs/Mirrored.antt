-- ===== src/Core/Module/Tmpfs/Mirrored.antt =====
-- What `commit_tmpfs` (native/src/core/module.rs) keeps of the real directory: every file that no
-- child of the tree stands for.
use mathlib.Core.List.{Memᴰ}
use mathlib.Core.List.Memᴰ.{head}
use magisk_t.Prelude.{
  ◌≡◌, refl, ◌∙◌, Bool, true, false, Option, none, some, List, [], ◌∷◌, arith, Bytes,
}
use magisk_t.Core.Module.{
  append_all, MountPaths, FsNode, directory, FsNodeMap, empty, Entry, dir, other_file, Listing, end,
  broken, entry, bind_mount_to, create, World,
}
use magisk_t.Core.Module.Tree.{get, get-remove, remove}
use magisk_t.Core.Module.Tmpfs.{
  Run, ◌>>◌, nothing, perform, bind_mount, mount_dummy, append, replace, prepare, mirror,
  mirror_entry, commit_tmpfs, commit_tmpfs_priority, commit_tmpfs_rest,
}
use magisk_t.Core.Module.Tmpfs.Mounted.{
  then-first, then-second, then-success, merged_run, commit_tmpfs-merged,
}

-- A file stands at a path in a listing, at any depth.
pub data Stands : List Bytes → Listing → Type 0 where
  here :
      {name : Bytes} {is_file : Bool} {rest : Listing}
      → Stands (name ∷ []) (entry name (other_file is_file) rest)
  inside :
      {name : Bytes} {names : List Bytes} {below rest : Listing}
      → Stands names below
      → Stands (name ∷ names) (entry name (dir below) rest)
  later :
      {name : Bytes} {names : List Bytes} {e : Entry} {rest : Listing}
      → Stands names rest
      → Stands names (entry name e rest)

-- The real file is mounted at the same path of the worker directory.
abbrev pub Mirrored : MountPaths → List Bytes → Run → Type 0
Mirrored path names run =
    Memᴰ (bind_mount_to (append_all path.real names) (append_all path.worker names) false) run.calls

-- The first name is the name of no child.
abbrev pub Free : List Bytes → FsNodeMap → Type 0
Free [] children = Unit
Free (name ∷ names) children = get name children ≡ none

Free-empty : (names : List Bytes) → Free names empty
unfolding get
Free-empty [] = tt
Free-empty (name ∷ names) = refl

Mirrored-file :
    (w : World) (path : MountPaths)
    → (mount_dummy w path.real path.worker false).success ≡ true
    → Mirrored path [] (mount_dummy w path.real path.worker false)
unfolding mount_dummy bind_mount append_all
Mirrored-file w path done =
    then-second (perform w (create path.worker)) (bind_mount path.real path.worker false) done
      (head refl)

-- An entry that is mirrored before the others.
Mirrored-first :
    (path : MountPaths) (names : List Bytes) (o : Option FsNode) (run rest : Run)
    → o ≡ none
    → (run.success ≡ true → Mirrored path names run)
    → ((elim o [ some _ ↦ nothing | none ↦ run ]) >> rest).success ≡ true
    → Mirrored path names ((elim o [ some _ ↦ nothing | none ↦ run ]) >> rest)
Mirrored-first path names none run rest e h done =
    then-first run rest (h (then-success run rest done).0)
Mirrored-first path names (some n) run rest e h done = cc e

pub mirror-Mirrored :
    (w : World) (path : MountPaths) (children : FsNodeMap) (names : List Bytes) (listing : Listing)
    → Stands names listing
    → Free names children
    → (mirror w path children listing).success ≡ true
    → Mirrored path names (mirror w path children listing)
unfolding mirror append append_all
mirror-Mirrored w path children names end l free = elim l [ ]
mirror-Mirrored w path children names broken l free = elim l [ ]
mirror-Mirrored w path children _ (entry name (other_file is_file) rest) here free =
    Mirrored-first path (name ∷ []) (get name children)
      (mirror_entry w (append path name) (other_file is_file)) (mirror w path children rest) free
      (Mirrored-file w (append path name))
mirror-Mirrored w path children _ (entry name (dir below) rest) (inside {names} l) free =
    let inner = append path name in
    Mirrored-first path (name ∷ names) (get name children) (mirror_entry w inner (dir below))
      (mirror w path children rest) free
      (λ done. then-second (prepare w inner) (mirror w inner empty below) done (
        mirror-Mirrored w inner empty names below l (Free-empty names)
          (then-success (prepare w inner) (mirror w inner empty below) done).1))
mirror-Mirrored w path children names (entry name e rest) (later l) free = λ done.
    let round : Run = elim (get name children) [
      | some _ ↦ nothing
      | none ↦ mirror_entry w (append path name) e
    ] in
    then-second round (mirror w path children rest) done (
      mirror-Mirrored w path children names rest l free
        (then-success round (mirror w path children rest) done).1)

-- A directory is rebuilt without an error and has no `.replace`. Every file of the real
-- directory, at any depth, whose first name is the name of no child, is bind mounted at the same
-- path below the worker directory.
pub commit_tmpfs-Mirrored :
    (w : World) (path : MountPaths) (m : FsNodeMap) (name : Bytes) (names : List Bytes)
    → Stands (name ∷ names) (w.open_dir path.real)
    → get name m ≡ none
    → get replace m ≡ none
    → (commit_tmpfs w path (directory m)).success ≡ true
    → Mirrored path (name ∷ names) (commit_tmpfs w path (directory m))
commit_tmpfs-Mirrored w path m name names stands free no_replace =
    let mirrored = mirror w path (remove replace m) (w.open_dir path.real) in
    let rest = commit_tmpfs_priority w path m >> commit_tmpfs_rest w path m in
    rw (commit_tmpfs-merged w path m no_replace) (λ done.
      let after = (then-success (prepare w path) (merged_run w path m) done).1 in
      then-second (prepare w path) (merged_run w path m) done (
        then-first mirrored rest (
          mirror-Mirrored w path (remove replace m) (name ∷ names) (w.open_dir path.real) stands
            (get-remove replace name m ∙ ground (arith, free))
            (then-success mirrored rest after).0)))
