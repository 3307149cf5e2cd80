-- ===== src/Core/Module/Tmpfs/Confined.antt =====
-- Where the calls of `commit_tmpfs` (native/src/core/module.rs) take effect: in the worker directory.
use magisk_t.Prelude.{
  ◌≡◌, refl, inl, inr, Bool, true, false, ◌||◌, Option, none, some, List, [], ◌∷◌, if◌then◌else◌,
  Bool-cases, Bytes, codes, All, All-mono, All-append, bytes_eq,
}
use magisk_t.Core.Module.{
  append_path, append_all, parent_dir, file_name, MountPaths, FsNode, directory, file, symlink,
  magisk_link, whiteout, FsNodeMap, empty, node, Entry, dir, link, char_device, other_file, Listing,
  end, broken, entry, Op, clone_attr, bind_mount_to, remount_rdonly, mkdir, mkdirs, create,
  create_symlink, unable_to_handle, World,
}
use magisk_t.Core.Module.Tree.{get, remove}
use magisk_t.Core.Module.Tmpfs.{
  Run, ◌>>◌, nothing, perform, bind_mount, mount_dummy, append, replace, priority, prepare,
  commit_symlink, commit_magisk_link, unwrap_or_empty, mirror, mirror_entry, replace_dir,
  replace_child, commit_tmpfs, replace_children, commit_tmpfs_priority, commit_tmpfs_rest,
}
use magisk_t.Core.Module.Tmpfs.Names.{IsName, Named, AllNamed, NamedEntry, NamedListing, NamedWorld}

-- A directory, or a path below it, by names.
abbrev pub Within : Bytes → Bytes → Type 0
Within base path = (names : List Bytes) × All IsName names × (path ≡ append_all base names)

-- The path that a call changes lies in a directory.
abbrev pub OnPath : (Bytes → Type 0) → Op → Type 0
OnPath P (clone_attr src dest) = P dest
OnPath P (bind_mount_to src dest rec) = P dest
OnPath P (remount_rdonly dest) = P dest
OnPath P (mkdir dest) = P dest
OnPath P (mkdirs dest) = P dest
OnPath P (create dest) = P dest
OnPath P (create_symlink target dest) = P dest
OnPath P (unable_to_handle dest) = ⊥

abbrev pub Confined : Bytes → Run → Type 0
Confined base run = All (OnPath (Within base)) run.calls

pub All-then : (P : Op → Type 0) (a b : Run) → All P a.calls → All P b.calls → All P (a >> b).calls
unfolding ◌>>◌
All-then P a b h k = elim (Bool-cases a.success) [
  | inl fine ↦ rw (fine) (All-append P b.calls a.calls k h)
  | inr failed ↦ rw (failed) h
]

pub All-if :
    (P : Op → Type 0) (b : Bool) (x y : Run)
    → All P x.calls
    → All P y.calls
    → All P (if b then x else y).calls
All-if P true x y h k = h
All-if P false x y h k = k

pub OnPath-mono :
    (P Q : Bytes → Type 0)
    → ((path : Bytes) → P path → Q path)
    → (op : Op) → OnPath P op
    → OnPath Q op
OnPath-mono P Q h (clone_attr src dest) = h dest
OnPath-mono P Q h (bind_mount_to src dest rec) = h dest
OnPath-mono P Q h (remount_rdonly dest) = h dest
OnPath-mono P Q h (mkdir dest) = h dest
OnPath-mono P Q h (mkdirs dest) = h dest
OnPath-mono P Q h (create dest) = h dest
OnPath-mono P Q h (create_symlink target dest) = h dest
OnPath-mono P Q h (unable_to_handle dest) = λ never. never

-- What stays inside a child stays inside its parent.
Confined-child :
    (base name : Bytes) (run : Run)
    → IsName name
    → Confined (append_path base name) run
    → Confined base run
unfolding append_all
Confined-child base name run is h =
    All-mono (OnPath (Within (append_path base name))) (OnPath (Within base))
      (OnPath-mono (Within (append_path base name)) (Within base)
        (λ path (names, plain, e). (name ∷ names, (is, plain), e)))
      run.calls h

module _ (w : World) (path : MountPaths) where
  self : Within path.worker path.worker
  unfolding append_all
  self = ([], tt, refl)

  Confined-mount_dummy :
      (src : Bytes) (is_dir : Bool) → Confined path.worker (mount_dummy w src path.worker is_dir)
  unfolding mount_dummy perform bind_mount
  Confined-mount_dummy src true =
      All-then (OnPath (Within path.worker)) (perform w (mkdir path.worker))
        (bind_mount src path.worker false) (self, tt) (self, (self, tt))
  Confined-mount_dummy src false =
      All-then (OnPath (Within path.worker)) (perform w (create path.worker))
        (bind_mount src path.worker false) (self, tt) (self, (self, tt))

  Confined-commit_symlink : (target : Bytes) → Confined path.worker (commit_symlink w path target)
  unfolding commit_symlink perform nothing
  Confined-commit_symlink target =
      All-then (OnPath (Within path.worker)) (perform w (create_symlink target path.worker)) _
        (self, tt)
        (All-if (OnPath (Within path.worker)) (w.exists path.real)
          (perform w (clone_attr path.real path.worker)) nothing (self, tt) tt)

  Confined-commit_magisk_link : Confined path.worker (commit_magisk_link w path)
  unfolding commit_magisk_link perform
  Confined-commit_magisk_link =
      All-if (OnPath (Within path.worker)) (bytes_eq (file_name path.real) (codes "supolicy"))
        (perform w (create_symlink (codes "./magiskpolicy") path.worker))
        (perform w (create_symlink (codes "./magisk") path.worker)) (self, tt) (self, tt)

  Confined-parent :
      (parent : Option Bytes)
      → Confined path.worker
          (elim parent [ none ↦ nothing | some p ↦ perform w (clone_attr p path.worker) ])
  unfolding perform nothing
  Confined-parent none = tt
  Confined-parent (some parent) = (self, tt)

  Confined-prepare : Confined path.worker (prepare w path)
  unfolding prepare perform
  Confined-prepare =
      All-then (OnPath (Within path.worker)) (perform w (mkdirs path.worker)) _ (self, tt)
        (All-if (OnPath (Within path.worker)) (w.exists path.real)
          (perform w (clone_attr path.real path.worker)) _ (self, tt)
          (Confined-parent (parent_dir path.worker)))

Confined-unless :
    (base : Bytes) (o : Option FsNode) (run : Run)
    → Confined base run
    → Confined base (elim o [ some _ ↦ nothing | none ↦ run ])
unfolding nothing
Confined-unless base none run h = h
Confined-unless base (some n) run h = tt

mutual
  unfolding mirror nothing append NamedListing NamedEntry

  pub Confined-mirror :
      (w : World) (path : MountPaths) (children : FsNodeMap) (listing : Listing)
      → NamedListing listing
      → Confined path.worker (mirror w path children listing)
  Confined-mirror w path children end named = tt
  Confined-mirror w path children broken named = tt
  Confined-mirror w path children (entry name e rest) (is, inside, others) =
      All-then (OnPath (Within path.worker)) _ (mirror w path children rest)
        (Confined-unless path.worker (get name children) (mirror_entry w (append path name) e) (
          Confined-child path.worker name (mirror_entry w (append path name) e) is
            (Confined-mirror_entry w (append path name) e inside)))
        (Confined-mirror w path children rest others)

  Confined-mirror_entry :
      (w : World) (path : MountPaths) (e : Entry)
      → NamedEntry e
      → Confined path.worker (mirror_entry w path e)
  Confined-mirror_entry w path (dir below) named =
      All-then (OnPath (Within path.worker)) (prepare w path) (mirror w path empty below)
        (Confined-prepare w path) (Confined-mirror w path empty below named)
  Confined-mirror_entry w path (link target) named =
      Confined-commit_symlink w path (unwrap_or_empty target)
  Confined-mirror_entry w path (char_device is_whiteout) named =
      Confined-mount_dummy w path path.real false
  Confined-mirror_entry w path (other_file is_file) named =
      Confined-mount_dummy w path path.real false

Confined-replace_child :
    (w : World) (path : MountPaths) (src : Bytes) (n : FsNode) (otherwise : Run)
    → Confined path.worker otherwise
    → Confined path.worker (replace_child w path src n otherwise)
unfolding replace_child
Confined-replace_child w path src (directory inside) otherwise h =
    Confined-mount_dummy w path src true
Confined-replace_child w path src (file s) otherwise h = h
Confined-replace_child w path src (symlink to) otherwise h = h
Confined-replace_child w path src magisk_link otherwise h = h
Confined-replace_child w path src whiteout otherwise h = h

Confined-either :
    (base : Bytes) (o : Option Bytes) (replaced : Bytes → Run) (merged : Run)
    → ((from_dir : Bytes) → Confined base (replaced from_dir))
    → Confined base merged
    → Confined base (elim o [ some from_dir ↦ replaced from_dir | none ↦ merged ])
Confined-either base none replaced merged h k = k
Confined-either base (some from_dir) replaced merged h k = h from_dir

mutual
  unfolding commit_tmpfs nothing append Named AllNamed

  pub commit_tmpfs-Confined :
      (w : World) (path : MountPaths) (n : FsNode)
      → NamedWorld w
      → Named n
      → Confined path.worker (commit_tmpfs w path n)
  commit_tmpfs-Confined w path (directory children) listed named =
      let P = OnPath (Within path.worker) in
      All-then P (prepare w path) _ (Confined-prepare w path) (
        Confined-either path.worker (replace_dir children)
          (λ from_dir. replace_children w path from_dir children) _
          (λ from_dir. Confined-replace_children w path from_dir children listed named)
          (All-then P (mirror w path (remove replace children) (w.open_dir path.real)) _
            (Confined-mirror w path (remove replace children) (w.open_dir path.real)
              (listed path.real))
            (All-then P (commit_tmpfs_priority w path children) (commit_tmpfs_rest w path children)
              (Confined-priority w path children listed named)
              (Confined-rest w path children listed named))))
  commit_tmpfs-Confined w path (file src) listed named = Confined-mount_dummy w path src false
  commit_tmpfs-Confined w path (symlink target) listed named = Confined-commit_symlink w path target
  commit_tmpfs-Confined w path magisk_link listed named = Confined-commit_magisk_link w path
  commit_tmpfs-Confined w path whiteout listed named = tt

  Confined-replace_children :
      (w : World) (path : MountPaths) (from_dir : Bytes) (children : FsNodeMap)
      → NamedWorld w
      → AllNamed children
      → Confined path.worker (replace_children w path from_dir children)
  Confined-replace_children w path from_dir empty listed named = tt
  Confined-replace_children w path from_dir (node name n others) listed (is, inside, rest) =
      let below = append path name in
      let child = replace_child w below (append_path from_dir name) n (commit_tmpfs w below n) in
      All-then (OnPath (Within path.worker)) _ (replace_children w path from_dir others)
        (All-if (OnPath (Within path.worker)) (bytes_eq name replace) nothing child tt (
          Confined-child path.worker name child is (
            Confined-replace_child w below (append_path from_dir name) n (commit_tmpfs w below n)
              (commit_tmpfs-Confined w below n listed inside))))
        (Confined-replace_children w path from_dir others listed rest)

  Confined-priority :
      (w : World) (path : MountPaths) (children : FsNodeMap)
      → NamedWorld w
      → AllNamed children
      → Confined path.worker (commit_tmpfs_priority w path children)
  Confined-priority w path empty listed named = tt
  Confined-priority w path (node name n others) listed (is, inside, rest) =
      All-if (OnPath (Within path.worker)) (bytes_eq name priority)
        (commit_tmpfs w (append path name) n) (commit_tmpfs_priority w path others)
        (Confined-child path.worker name (commit_tmpfs w (append path name) n) is
          (commit_tmpfs-Confined w (append path name) n listed inside))
        (Confined-priority w path others listed rest)

  Confined-rest :
      (w : World) (path : MountPaths) (children : FsNodeMap)
      → NamedWorld w
      → AllNamed children
      → Confined path.worker (commit_tmpfs_rest w path children)
  Confined-rest w path empty listed named = tt
  Confined-rest w path (node name n others) listed (is, inside, rest) =
      All-then (OnPath (Within path.worker)) _ (commit_tmpfs_rest w path others)
        (All-if (OnPath (Within path.worker)) (bytes_eq name priority || bytes_eq name replace)
          nothing (commit_tmpfs w (append path name) n) tt
          (Confined-child path.worker name (commit_tmpfs w (append path name) n) is
            (commit_tmpfs-Confined w (append path name) n listed inside)))
        (Confined-rest w path others listed rest)
