-- ===== src/Core/Module/Commit/Mounted.antt =====
-- What `commit` (native/src/core/module.rs) mounts when no call fails: every file of the tree, over
-- the real file or in a directory that is moved to its real place.
use mathlib.Core.List.Memᴰ.{head, append_left, append_right}
use mathlib.Core.List.{Memᴰ}
use magisk_t.Prelude.{
  ◌≡◌, refl, sym, ap, subst, ◌∙◌, ◌⊎◌, inl, inr, Bool, true, false, not, ◌&&◌, some, List, [], ◌∷◌,
  ◌++◌, append_assoc, if◌then◌else◌, Bool-cases, Bytes, bytes_eq, bytes_eq_iff, split,
}
use magisk_t.Core.Module.{
  append_path, append_all, MountPaths, FsNode, directory, file, symlink, magisk_link, whiteout,
  FsNodeMap, empty, node, Op, bind_mount_to, World,
}
use magisk_t.Core.Module.Tree.{get, child, find, find-through}
use magisk_t.Core.Module.Tmpfs.{Run, ◌>>◌, nothing, bind_mount, append, priority, commit_tmpfs}
use magisk_t.Core.Module.Tmpfs.Mounted.{
  Mounted, Merged, Holds, then-first, then-second, then-success, same_child, later_child, not_both,
  Mounted-tmpfs,
}
use magisk_t.Core.Module.Commit.{needs_tmpfs, retained, commit, commit_priority, commit_rest}
use magisk_t.Core.Module.Commit.Placed.{needs_tmpfs-root}

-- One call of a run, and another behind it.
abbrev pub Before : Op → Op → Run → Type 0
Before a b run =
    (first : List Op) × (later : List Op) × (run.calls ≡ first ++ later)
    × Memᴰ a first
    × Memᴰ b later

-- The file is mounted in the worker directory, and then the worker directory of an entry on the way to
-- it, or of the file itself, is moved to the real path of that entry.
abbrev pub Moved : MountPaths → List Bytes → Bytes → Run → Type 0
Moved path names src run =
    (way : List Bytes) × (rest : List Bytes) × (names ≡ way ++ rest)
    × Before (bind_mount_to src (append_all path.worker names) false)
        (bind_mount_to (append_all path.worker way) (append_all path.real way) true) run

abbrev pub Somewhere : MountPaths → List Bytes → Bytes → Run → Type 0
Somewhere path names src run = Mounted path.real names src run ⊎ Moved path names src run

Before-first : {op other : Op} (a b : Run) → Before op other a → Before op other (a >> b)
unfolding ◌>>◌
Before-first a b (first, later, same, there, behind) = elim (Bool-cases a.success) [
  | inl fine ↦ rw (fine) (
    first,
    later ++ b.calls,
    ap (λ l. l ++ b.calls) same ∙ append_assoc first later b.calls,
    there,
    append_left b.calls behind,
  )
  | inr failed ↦ rw (failed) (first, later, same, there, behind)
]

Before-second :
    {op other : Op} (a b : Run)
    → (a >> b).success ≡ true
    → Before op other b
    → Before op other (a >> b)
unfolding ◌>>◌
Before-second a b done (first, later, same, there, behind) = rw ((then-success a b done).0) (
  a.calls ++ first,
  later,
  ap (λ l. a.calls ++ l) same ∙ sym (append_assoc a.calls first later),
  append_right a.calls there,
  behind,
)

Before-then :
    {op other : Op} (a b : Run)
    → (a >> b).success ≡ true
    → Memᴰ op a.calls
    → Memᴰ other b.calls
    → Before op other (a >> b)
unfolding ◌>>◌
Before-then a b done there behind =
    rw ((then-success a b done).0) (a.calls, b.calls, refl, there, behind)

Somewhere-first :
    (path : MountPaths) (names : List Bytes) (src : Bytes) (a b : Run)
    → Somewhere path names src a
    → Somewhere path names src (a >> b)
Somewhere-first path names src a b (inl there) = inl (then-first a b there)
Somewhere-first path names src a b (inr (way, rest, split, moved)) =
    inr (way, rest, split, Before-first a b moved)

Somewhere-second :
    (path : MountPaths) (names : List Bytes) (src : Bytes) (a b : Run)
    → (a >> b).success ≡ true
    → Somewhere path names src b
    → Somewhere path names src (a >> b)
Somewhere-second path names src a b done (inl there) = inl (then-second a b done there)
Somewhere-second path names src a b done (inr (way, rest, split, moved)) =
    inr (way, rest, split, Before-second a b done moved)

-- From a child to its directory.
Somewhere-child :
    (path : MountPaths) (j name : Bytes) (names : List Bytes) (src : Bytes) (run : Run)
    → bytes_eq j name ≡ true
    → Somewhere (append path j) names src run
    → Somewhere path (name ∷ names) src run
unfolding append append_all
Somewhere-child path j name names src run hit (inl there) = inl (
    subst (λ x. Mounted (append_path path.real x) names src run) ((bytes_eq_iff j name).0 hit)
      there)
Somewhere-child path j name names src run hit (inr (way, rest, split, moved)) = inr (
  name ∷ way,
  rest,
  ap (λ l. name ∷ l) split,
  subst
      (λ x.
        Before (bind_mount_to src (append_all (append_path path.worker x) names) false)
          (bind_mount_to (append_all (append_path path.worker x) way)
            (append_all (append_path path.real x) way) true)
          run)
      ((bytes_eq_iff j name).0 hit) moved,
)

-- What is not a root keeps all its children.
retained_lem : (w : World) (real name : Bytes) (n : FsNode) → retained w real false name n ≡ true
unfolding retained
retained_lem w real name n = refl

-- A child is committed by one loop or the other.
Somewhere-merged :
    (path : MountPaths) (name : Bytes) (names : List Bytes) (src : Bytes) (a b : Run)
    → (name ≡ priority → a.success ≡ true → Somewhere path (name ∷ names) src a)
    → (bytes_eq name priority ≡ false → b.success ≡ true → Somewhere path (name ∷ names) src b)
    → (a >> b).success ≡ true
    → Somewhere path (name ∷ names) src (a >> b)
Somewhere-merged path name names src a b h k done =
    let (done_a, done_b) = then-success a b done in
    elim (Bool-cases (bytes_eq name priority)) [
      | inl first ↦
          Somewhere-first path (name ∷ names) src a b
            (h ((bytes_eq_iff name priority).0 first) done_a)
      | inr other ↦ Somewhere-second path (name ∷ names) src a b done (k other done_b)
    ]

mutual
  unfolding commit append_all nothing find child Merged get bind_mount

  Somewhere-priority :
      (w : World) (path : MountPaths) (is_root_dir : Bool) (names : List Bytes) (src : Bytes)
      (m : FsNodeMap) (c : FsNode)
      → get priority m ≡ some c
      → retained w path.real is_root_dir priority c ≡ true
      → Holds names src c
      → (commit_priority w path is_root_dir m).success ≡ true
      → Somewhere path (priority ∷ names) src (commit_priority w path is_root_dir m)
  Somewhere-priority w path is_root_dir names src empty c here stays h = cc here
  Somewhere-priority w path is_root_dir names src (node j n others) c here stays h =
      elim (Bool-cases (bytes_eq j priority)) [
        | inl hit ↦
            let same = sym (same_child priority j n c others hit here) in
            let at_n = subst (Holds names src) same h in
            let p = sym ((bytes_eq_iff j priority).0 hit) in
            let stays' : retained w path.real is_root_dir j n ≡ true = cc (stays, same, p) in
            rw (hit, stays')
              (λ done.
                Somewhere-child path j priority names src (commit w (append path j) false n) hit
                  (commit-Somewhere w (append path j) names src n at_n done))
        | inr miss ↦ rw (miss) (
            Somewhere-priority w path is_root_dir names src others c
              (later_child priority j n c others miss here) stays h)
      ]

  Somewhere-rest :
      (w : World) (path : MountPaths) (is_root_dir : Bool) (name : Bytes) (names : List Bytes)
      (src : Bytes) (m : FsNodeMap) (c : FsNode)
      → get name m ≡ some c
      → retained w path.real is_root_dir name c ≡ true
      → bytes_eq name priority ≡ false
      → Holds names src c
      → (commit_rest w path is_root_dir m).success ≡ true
      → Somewhere path (name ∷ names) src (commit_rest w path is_root_dir m)
  Somewhere-rest w path is_root_dir name names src empty c here stays other h = cc here
  Somewhere-rest w path is_root_dir name names src (node j n others) c here stays other h =
      let rest = commit_rest w path is_root_dir others in
      let run = commit w (append path j) false n in
      elim (Bool-cases (bytes_eq j name)) [
        | inl hit ↦
            let same = sym (same_child name j n c others hit here) in
            let at_n = subst (Holds names src) same h in
            let p = sym ((bytes_eq_iff j name).0 hit) in
            let stays' : retained w path.real is_root_dir j n ≡ true = cc (stays, same, p) in
            rw (not_both j name priority hit other, stays')
              (λ done. Somewhere-first path (name ∷ names) src run rest (
                Somewhere-child path j name names src run hit (
                  commit-Somewhere w (append path j) names src n at_n
                    (then-success run rest done).0)))
        | inr miss ↦ λ done.
            let round =
              if not (bytes_eq j priority) && retained w path.real is_root_dir j n
              then run
              else nothing in
            Somewhere-second path (name ∷ names) src round rest done (
              Somewhere-rest w path is_root_dir name names src others c
                (later_child name j n c others miss here) stays other h
                (then-success round rest done).1)
      ]

  pub commit-Somewhere :
      (w : World) (path : MountPaths) (names : List Bytes) (src : Bytes) (n : FsNode)
      → Holds names src n
      → (commit w path false n).success ≡ true
      → Somewhere path names src (commit w path false n)
  commit-Somewhere w path [] src (file s) (e, merged) =
      let p : s ≡ src = cc e in λ done. inl (head (cc p))
  commit-Somewhere w path (name ∷ names) src (directory m) (e, merged) =
      let (free, below) = merged in
      elim (Bool-cases (needs_tmpfs w path.real false m)) [
        | inl needed ↦
            let a = commit_tmpfs w path (directory m) in
            let b = bind_mount path.worker path.real true in
            rw (needed) (λ done. inr (
              [],
              name ∷ names,
              refl,
              Before-then a b done
                  (Mounted-tmpfs w path (name ∷ names) src (directory m) (e, merged)
                    (then-success a b done).0)
                  (head refl),
            ))
        | inr none_needed ↦
            let (c, here, found) = find-through name names m (file src) e in
            let h : Holds names src c = (found, below c here) in
            rw (none_needed) (
              Somewhere-merged path name names src (commit_priority w path false m)
                (commit_rest w path false m)
                (λ p done_a.
                  subst (λ x. Somewhere path (x ∷ names) src (commit_priority w path false m))
                    (sym p)
                    (Somewhere-priority w path false names src m c
                      (subst (λ x. get x m ≡ some c) p here) (retained_lem w path.real priority c) h
                      done_a))
                (λ other done_b.
                  Somewhere-rest w path false name names src m c here
                    (retained_lem w path.real name c) other h done_b))
      ]
  commit-Somewhere w path [] src (directory m) (e, merged) = cc e
  commit-Somewhere w path [] src (symlink to) (e, merged) = cc e
  commit-Somewhere w path [] src magisk_link (e, merged) = cc e
  commit-Somewhere w path [] src whiteout (e, merged) = cc e
  commit-Somewhere w path (name ∷ names) src (file s) (e, merged) = cc e
  commit-Somewhere w path (name ∷ names) src (symlink to) (e, merged) = cc e
  commit-Somewhere w path (name ∷ names) src magisk_link (e, merged) = cc e
  commit-Somewhere w path (name ∷ names) src whiteout (e, merged) = cc e

-- When all calls succeed, a file of the tree of a partition root is bind mounted from its
-- source: at its real path, or at its path in the worker directory, of which a later call moves the
-- part for some entry on the way, the file included, to the real path of that entry. It must be below an entry
-- that is not dropped, and no directory on the way may hold `.replace`.
pub commit-Somewhere_root :
    (w : World) (path : MountPaths) (name : Bytes) (names : List Bytes) (src : Bytes)
    (m : FsNodeMap)
    → Holds (name ∷ names) src (directory m)
    → ((c : FsNode) → get name m ≡ some c → retained w path.real true name c ≡ true)
    → (commit w path true (directory m)).success ≡ true
    → Somewhere path (name ∷ names) src (commit w path true (directory m))
unfolding commit Merged
commit-Somewhere_root w path name names src m (e, merged) stays =
    let (free, below) = merged in
    let (c, here, found) = find-through name names m (file src) e in
    let h : Holds names src c = (found, below c here) in
    rw (needs_tmpfs-root w path.real m) (
      Somewhere-merged path name names src (commit_priority w path true m)
        (commit_rest w path true m)
        (λ p done_a.
          subst (λ x. Somewhere path (x ∷ names) src (commit_priority w path true m)) (sym p)
            (Somewhere-priority w path true names src m c (subst (λ x. get x m ≡ some c) p here)
              (subst (λ x. retained w path.real true x c ≡ true) p (stays c here)) h done_a))
        (λ other done_b.
          Somewhere-rest w path true name names src m c here (stays c here) other h done_b))
