-- ===== src/Core/Module/Collect/Kept.antt =====
-- The union of the module trees (native/src/core/module.rs): earlier modules win.
use magisk_t.Prelude.{
  ◌≡◌, refl, sym, subst, ◌∙◌, inl, inr, true, false, Option, none, some, List, [], ◌∷◌, Bool-cases,
  Option-cases, Bytes, bytes_eq, bytes_eq_iff,
}
use magisk_t.Core.Module.{
  ModulePaths, FsNode, directory, file, symlink, magisk_link, whiteout, FsNodeMap, Entry, dir, link,
  char_device, other_file, Listing, end, broken, entry, World, clone_attr,
}
use magisk_t.Core.Module.Tree.{get, get-insert, insert, or_insert, child, find}
use magisk_t.Core.Module.Collect.{
  Collected, append, in_dir, put_back, stop, go_on, collect_file, then_rest, collect_listing,
  collect_entry, collect,
}

-- A directory may have grown, and every other node is the same.
abbrev pub Grown : FsNode → Option FsNode → Type 0
Grown (directory _) got = (inside : FsNodeMap) × (got ≡ some (directory inside))
Grown n got = got ≡ some n

abbrev pub Kept : FsNode → FsNode → Type 0
Kept before after =
    (names : List Bytes) (n : FsNode) → find names before ≡ some n → Grown n (find names after)

pub Grown-refl : (n : FsNode) → Grown n (some n)
Grown-refl (directory inside) = (inside, refl)
Grown-refl (file src) = refl
Grown-refl (symlink target) = refl
Grown-refl magisk_link = refl
Grown-refl whiteout = refl

pub Kept-refl : (n : FsNode) → Kept n n
Kept-refl n names found e = rw (e) (Grown-refl found)

pub Kept-trans : (a b c : FsNode) → Kept a b → Kept b c → Kept a c
Kept-trans a b c h k names (directory inside) e =
    let (within, e') = h names (directory inside) e in k names (directory within) e'
Kept-trans a b c h k names (file src) e = k names (file src) (h names (file src) e)
Kept-trans a b c h k names (symlink target) e =
    k names (symlink target) (h names (symlink target) e)
Kept-trans a b c h k names magisk_link e = k names magisk_link (h names magisk_link e)
Kept-trans a b c h k names whiteout e = k names whiteout (h names whiteout e)

-- A directory is kept when each of its children is.
Kept-children :
    (m m' : FsNodeMap)
    → ((name : Bytes) (n : FsNode)
        → get name m ≡ some n
        → (n' : FsNode) × (get name m' ≡ some n') × Kept n n')
    → Kept (directory m) (directory m')
unfolding find child
Kept-children m m' h [] n e =
    let same : directory m ≡ n = unfold find in cc e in
    let result : Grown (directory m) (some (directory m')) = (m', refl) in
    subst (λ x. Grown x (some (directory m'))) same result
Kept-children m m' h (name ∷ names) n e = elim (Option-cases (get name m)) [
  | inl none_here ↦ cc (e, none_here)
  | inr (found, here) ↦
      let (n', here', kept) = h name found here in
      rw (here', find) (kept names n (sym (rw (here, find) refl) ∙ e))
]

pub Kept-insert :
    (m : FsNodeMap) (name : Bytes) (n : FsNode)
    → get name m ≡ none
    → Kept (directory m) (directory (insert name n m))
Kept-insert m name n free = Kept-children m (insert name n m) (λ other old here.
    elim (Bool-cases (bytes_eq name other)) [
      | inl hit ↦ cc (free, here, (bytes_eq_iff name other).0 hit)
      | inr miss ↦ (old, rw (get-insert name other n m, miss) here, Kept-refl old)
    ])

Kept-replace :
    (m : FsNodeMap) (name : Bytes) (old new : FsNode)
    → get name m ≡ some old
    → Kept old new
    → Kept (directory m) (directory (insert name new m))
Kept-replace m name old new here kept = Kept-children m (insert name new m) (λ other n e.
    elim (Bool-cases (bytes_eq name other)) [
      | inl hit ↦
          let p = (bytes_eq_iff name other).0 hit in
          let same : old ≡ n = cc (here, e, p) in
          (new, rw (get-insert name other new m, hit) refl, subst (λ x. Kept x new) same kept)
      | inr miss ↦ (n, rw (get-insert name other new m, miss) e, Kept-refl n)
    ])

pub Kept-or_insert :
    (m : FsNodeMap) (name : Bytes) (n : FsNode)
    → Kept (directory m) (directory (or_insert name n m))
unfolding or_insert
Kept-or_insert m name n = elim (Option-cases (get name m)) [
  | inl free ↦ rw (free, or_insert) (Kept-insert m name n free)
  | inr (old, here) ↦ rw (here, or_insert) (Kept-refl (directory m))
]

Kept-collect_file :
    (w : World) (paths : ModulePaths) (name : Bytes) (m : FsNodeMap)
    → Kept (directory m) (directory (collect_file w paths name m).children)
unfolding collect_file go_on
Kept-collect_file w paths name m = elim (Bool-cases (w.exists paths.real)) [
  | inl there ↦
      rw (there) (elim (Bool-cases (w.succeeds (clone_attr paths.real paths.module_dir))) [
        | inl fine ↦ rw (fine) (Kept-or_insert m name (file paths.module_mnt))
        | inr failed ↦ rw (failed) (Kept-refl (directory m))
      ])
  | inr missing ↦ rw (missing) (Kept-or_insert m name (file paths.module_mnt))
]

Kept-then_rest :
    (m : FsNodeMap) (first rest : Collected)
    → Kept (directory m) (directory first.children)
    → Kept (directory first.children) (directory rest.children)
    → Kept (directory m) (directory (then_rest first rest).children)
unfolding then_rest
Kept-then_rest m first rest h k = elim (Bool-cases first.success) [
  | inl fine ↦ rw (fine) (Kept-trans (directory m) (directory first.children) _ h k)
  | inr failed ↦ rw (failed) h
]

Kept-in_dir :
    (name : Bytes) (m : FsNodeMap) (inside_it : FsNodeMap → Collected)
    → ((inside : FsNodeMap) → Kept (directory inside) (directory (inside_it inside).children))
    → Kept (directory m) (directory (in_dir name m inside_it).children)
unfolding in_dir go_on put_back
Kept-in_dir name m inside_it h = elim (Option-cases (get name m)) [
  | inl free ↦ rw (free, in_dir) (Kept-insert m name _ free)
  | inr (directory inside, here) ↦
      rw (here, in_dir) (Kept-replace m name (directory inside) _ here (h inside))
  | inr (file src, here) ↦ rw (here, in_dir) (Kept-refl (directory m))
  | inr (symlink target, here) ↦ rw (here, in_dir) (Kept-refl (directory m))
  | inr (magisk_link, here) ↦ rw (here, in_dir) (Kept-refl (directory m))
  | inr (whiteout, here) ↦ rw (here, in_dir) (Kept-refl (directory m))
]

mutual
  unfolding collect_listing stop go_on

  pub Kept-collect_listing :
      (w : World) (paths : ModulePaths) (listing : Listing) (m : FsNodeMap)
      → Kept (directory m) (directory (collect_listing w paths listing m).children)
  Kept-collect_listing w paths end m = Kept-refl (directory m)
  Kept-collect_listing w paths broken m = Kept-refl (directory m)
  Kept-collect_listing w paths (entry name e rest) m =
      let first = collect_entry w (append paths name) name e m in
      Kept-then_rest m first _ (Kept-collect_entry w (append paths name) name e m)
        (Kept-collect_listing w paths rest first.children)

  Kept-collect_entry :
      (w : World) (paths : ModulePaths) (name : Bytes) (e : Entry) (m : FsNodeMap)
      → Kept (directory m) (directory (collect_entry w paths name e m).children)
  Kept-collect_entry w paths name (dir below) m =
      Kept-in_dir name m (collect_listing w paths below) (Kept-collect_listing w paths below)
  Kept-collect_entry w paths name (link (some target)) m = Kept-or_insert m name (symlink target)
  Kept-collect_entry w paths name (link none) m = Kept-refl (directory m)
  Kept-collect_entry w paths name (char_device (some true)) m = Kept-or_insert m name whiteout
  Kept-collect_entry w paths name (char_device (some false)) m = Kept-collect_file w paths name m
  Kept-collect_entry w paths name (char_device none) m = Kept-refl (directory m)
  Kept-collect_entry w paths name (other_file is_file) m = Kept-collect_file w paths name m

pub collect-Kept : (w : World) (paths : ModulePaths) (n : FsNode) → Kept n (collect w paths n).0
unfolding collect
collect-Kept w paths (directory m) = Kept-collect_listing w paths (w.open_dir paths.module_dir) m
collect-Kept w paths (file src) = Kept-refl (file src)
collect-Kept w paths (symlink target) = Kept-refl (symlink target)
collect-Kept w paths magisk_link = Kept-refl magisk_link
collect-Kept w paths whiteout = Kept-refl whiteout
