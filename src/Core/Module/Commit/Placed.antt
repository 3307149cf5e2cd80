-- ===== src/Core/Module/Commit/Placed.antt =====
-- Where the calls of `commit` (native/src/core/module.rs) take effect: in the worker directory, or
-- on a real path that is there and is no link.
use magisk_t.Prelude.{
  ◌≡◌, refl, ◌⊎◌, inl, inr, Bool, true, false, not, ◌&&◌, [], ◌∷◌, arith, if◌then◌else◌, Bool-cases,
  Bytes, All, All-mono, bytes_eq,
}
use magisk_t.Core.Module.{
  append_path, append_all, MountPaths, FsNode, directory, file, symlink, magisk_link, whiteout,
  FsNodeMap, empty, node, Op, World,
}
use magisk_t.Core.Module.Tmpfs.{
  Run, ◌>>◌, nothing, bind_mount, append, missing_or_symlink, parent_should_be_tmpfs, priority,
  commit_tmpfs,
}
use magisk_t.Core.Module.Tmpfs.Names.{IsName, Named, AllNamed, NamedWorld}
use magisk_t.Core.Module.Tmpfs.Confined.{
  Within, OnPath, OnPath-mono, All-then, All-if, commit_tmpfs-Confined,
}
use magisk_t.Core.Module.Commit.{needs_tmpfs, retained, commit, commit_priority, commit_rest}

abbrev pub Placed : World → MountPaths → Bytes → Type 0
Placed w path dest =
    Within path.worker dest ⊎ (Within path.real dest × (missing_or_symlink w dest ≡ false))

-- Strictly below the two directories.
abbrev pub PlacedBelow : World → MountPaths → Bytes → Type 0
PlacedBelow w path dest = (name : Bytes) × IsName name × Placed w (append path name) dest

PlacedBelow-Placed :
    (w : World) (path : MountPaths) (dest : Bytes) → PlacedBelow w path dest → Placed w path dest
unfolding append append_all
PlacedBelow-Placed w path dest (name, is, inl (names, plain, e)) =
    inl (name ∷ names, (is, plain), e)
PlacedBelow-Placed w path dest (name, is, inr ((names, plain, e), there)) =
    inr ((name ∷ names, (is, plain), e), there)

All-guarded :
    (P : Op → Type 0) (b : Bool) (run : Run)
    → (b ≡ true → All P run.calls)
    → All P (if b then run else nothing).calls
unfolding nothing
All-guarded P true run h = h refl
All-guarded P false run h = tt

-- A child that stays needs no tmpfs, when the first pass found none.
retained-child :
    (w : World) (real name : Bytes) (is_root_dir : Bool) (n : FsNode) (others : FsNodeMap)
    → needs_tmpfs w real is_root_dir (node name n others) ≡ false
    → (needs_tmpfs w real is_root_dir others ≡ false)
      × (retained w real is_root_dir name n ≡ true
          → parent_should_be_tmpfs w (append_path real name) n ≡ false)
unfolding needs_tmpfs retained
retained-child w real name true n others h = ground arith
retained-child w real name false n others h = ground arith

-- The root itself is never rebuilt.
pub needs_tmpfs-root :
    (w : World) (real : Bytes) (m : FsNodeMap) → needs_tmpfs w real true m ≡ false
unfolding needs_tmpfs
needs_tmpfs-root w real empty = refl
needs_tmpfs-root w real (node name n others) = needs_tmpfs-root w real others

All-below :
    (w : World) (path : MountPaths) (name : Bytes) (run : Run)
    → IsName name
    → All (OnPath (Placed w (append path name))) run.calls
    → All (OnPath (PlacedBelow w path)) run.calls
All-below w path name run is h =
    All-mono (OnPath (Placed w (append path name))) (OnPath (PlacedBelow w path))
      (OnPath-mono (Placed w (append path name)) (PlacedBelow w path)
        (λ dest placed. (name, is, placed)))
      run.calls h

All-here :
    (w : World) (path : MountPaths) (run : Run)
    → All (OnPath (PlacedBelow w path)) run.calls
    → All (OnPath (Placed w path)) run.calls
All-here w path run h =
    All-mono (OnPath (PlacedBelow w path)) (OnPath (Placed w path))
      (OnPath-mono (PlacedBelow w path) (Placed w path) (PlacedBelow-Placed w path)) run.calls h

-- A mount over the real path itself.
Placed-bind_mount :
    (w : World) (path : MountPaths) (src : Bytes) (rec : Bool)
    → missing_or_symlink w path.real ≡ false
    → All (OnPath (Placed w path)) (bind_mount src path.real rec).calls
unfolding bind_mount append_all
Placed-bind_mount w path src rec there =
    let self : Placed w path path.real = inr (([], tt, refl), there) in (self, (self, tt))

-- A directory that is rebuilt and then moved to its place.
Placed-tmpfs :
    (w : World) (path : MountPaths) (n : FsNode)
    → NamedWorld w
    → Named n
    → missing_or_symlink w path.real ≡ false
    → All
        (OnPath (Placed w path))
        (commit_tmpfs w path n >> bind_mount path.worker path.real true).calls
Placed-tmpfs w path n listed named there =
    All-then (OnPath (Placed w path)) (commit_tmpfs w path n)
      (bind_mount path.worker path.real true)
      (All-mono (OnPath (Within path.worker)) (OnPath (Placed w path))
        (OnPath-mono (Within path.worker) (Placed w path) (λ dest within. inl within))
        (commit_tmpfs w path n).calls (commit_tmpfs-Confined w path n listed named))
      (Placed-bind_mount w path path.worker true there)

mutual
  unfolding commit nothing parent_should_be_tmpfs append Named AllNamed

  pub commit-Placed :
      (w : World) (path : MountPaths) (n : FsNode)
      → NamedWorld w
      → Named n
      → parent_should_be_tmpfs w path.real n ≡ false
      → All (OnPath (Placed w path)) (commit w path false n).calls
  commit-Placed w path (directory m) listed named there =
      elim (Bool-cases (needs_tmpfs w path.real false m)) [
        | inl needed ↦ rw (needed) (Placed-tmpfs w path (directory m) listed named there)
        | inr none_needed ↦ rw (none_needed) (
            All-here w path (commit_priority w path false m >> commit_rest w path false m) (
              All-then (OnPath (PlacedBelow w path)) (commit_priority w path false m)
                (commit_rest w path false m)
                (Placed-priority w path false m listed named none_needed)
                (Placed-rest w path false m listed named none_needed)))
      ]
  commit-Placed w path (file src) listed named there = Placed-bind_mount w path src false there
  commit-Placed w path (symlink to) listed named there = cc there
  commit-Placed w path magisk_link listed named there = cc there
  commit-Placed w path whiteout listed named there = cc there

  Placed-priority :
      (w : World) (path : MountPaths) (is_root_dir : Bool) (m : FsNodeMap)
      → NamedWorld w
      → AllNamed m
      → needs_tmpfs w path.real is_root_dir m ≡ false
      → All (OnPath (PlacedBelow w path)) (commit_priority w path is_root_dir m).calls
  Placed-priority w path is_root_dir empty listed named none_needed = tt
  Placed-priority w path is_root_dir (node name n others) listed (is, inside, rest) none_needed =
      let (later, stays) = retained-child w path.real name is_root_dir n others none_needed in
      let kept = retained w path.real is_root_dir name n in
      All-if (OnPath (PlacedBelow w path)) (bytes_eq name priority) _
        (commit_priority w path is_root_dir others)
        (All-guarded (OnPath (PlacedBelow w path)) kept (commit w (append path name) false n)
          (λ keeps.
            All-below w path name (commit w (append path name) false n) is
              (commit-Placed w (append path name) n listed inside (stays keeps))))
        (Placed-priority w path is_root_dir others listed rest later)

  Placed-rest :
      (w : World) (path : MountPaths) (is_root_dir : Bool) (m : FsNodeMap)
      → NamedWorld w
      → AllNamed m
      → needs_tmpfs w path.real is_root_dir m ≡ false
      → All (OnPath (PlacedBelow w path)) (commit_rest w path is_root_dir m).calls
  Placed-rest w path is_root_dir empty listed named none_needed = tt
  Placed-rest w path is_root_dir (node name n others) listed (is, inside, rest) none_needed =
      let (later, stays) = retained-child w path.real name is_root_dir n others none_needed in
      let kept = not (bytes_eq name priority) && retained w path.real is_root_dir name n in
      All-then (OnPath (PlacedBelow w path)) _ (commit_rest w path is_root_dir others)
        (All-guarded (OnPath (PlacedBelow w path)) kept (commit w (append path name) false n)
          (λ keeps.
            All-below w path name (commit w (append path name) false n) is
              (commit-Placed w (append path name) n listed inside (stays (ground (arith, keeps))))))
        (Placed-rest w path is_root_dir others listed rest later)
