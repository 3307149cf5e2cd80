-- ===== src/Core/Module/Collect/Complete.antt =====
-- What a collection without errors holds (native/src/core/module.rs): every entry of the module,
-- unless a node that is no directory stands in its way.
use magisk_t.Prelude.{
  ◌≡◌, refl, subst, ◌∙◌, inl, inr, true, false, none, some, List, [], ◌∷◌, Bool-cases, Option-cases,
  Bytes, bytes_eq_iff,
}
use magisk_t.Core.Module.{
  ModulePaths, FsNode, directory, file, symlink, magisk_link, whiteout, FsNodeMap, Entry, dir, link,
  char_device, other_file, Listing, end, broken, entry, World, clone_attr,
}
use magisk_t.Core.Module.Tree.{get, get-insert, insert, or_insert, child, find, find-child}
use magisk_t.Core.Module.Collect.{
  Collected, append, in_dir, put_back, stop, go_on, collect_file, then_rest, collect_listing,
  collect_entry, collect,
}
use magisk_t.Core.Module.Collect.Kept.{Grown, Kept, Kept-collect_listing}

-- The path of an entry of a listing, at any depth.
pub data Listed : List Bytes → Listing → Type 0 where
  here : {name : Bytes} {e : Entry} {rest : Listing} → Listed (name ∷ []) (entry name e rest)
  inside :
      {name : Bytes} {names : List Bytes} {below rest : Listing}
      → Listed names below
      → Listed (name ∷ names) (entry name (dir below) rest)
  later :
      {name : Bytes} {names : List Bytes} {e : Entry} {rest : Listing}
      → Listed names rest
      → Listed names (entry name e rest)

-- A walk along the names never misses a child: it ends there or at what is no directory.
unfoldable pub Covered : FsNode → List Bytes → Type 0
Covered (directory m) (name ∷ names) = (n : FsNode) × (get name m ≡ some n) × Covered n names
Covered _ _ = Unit

not-Grown : (n : FsNode) → ¬ Grown n none
not-Grown (directory within) h = cc h.1
not-Grown (file src) h = cc h
not-Grown (symlink target) h = cc h
not-Grown magisk_link h = cc h
not-Grown whiteout h = cc h

Kept-child :
    (m m' : FsNodeMap) (name : Bytes) (n : FsNode)
    → Kept (directory m) (directory m')
    → get name m ≡ some n
    → (n' : FsNode) × (get name m' ≡ some n') × Kept n n'
unfolding find
Kept-child m m' name n kept e = elim (Option-cases (get name m')) [
  | inl gone ↦
      let missing : find (name ∷ []) (directory m') ≡ none = rw (gone, find, child) refl in
      absurd (
        not-Grown n (
          subst (λ x. Grown n x) missing
            (kept (name ∷ []) n (find-child name m n [] e ∙ (unfold find in refl)))))
  | inr (n', there) ↦ (
    n',
    there,
    λ names found e'.
        subst (λ x. Grown found x) (find-child name m' n' names there)
          (kept (name ∷ names) found (find-child name m n names e ∙ e')),
  )
]

Covered-nil : (n : FsNode) → Covered n []
unfolding Covered
Covered-nil (directory m) = tt
Covered-nil (file src) = tt
Covered-nil (symlink to) = tt
Covered-nil magisk_link = tt
Covered-nil whiteout = tt

Covered-Kept : (names : List Bytes) (a b : FsNode) → Kept a b → Covered a names → Covered b names
unfolding Covered find
Covered-Kept [] a b kept h = Covered-nil b
Covered-Kept (name ∷ names) (directory m) (directory m') kept (n, e, h) =
    let (n', e', below) = Kept-child m m' name n kept e in (n', e', Covered-Kept names n n' below h)
Covered-Kept (name ∷ names) (file src) (directory m') kept h = cc (kept [] (file src) refl)
Covered-Kept (name ∷ names) (symlink to) (directory m') kept h = cc (kept [] (symlink to) refl)
Covered-Kept (name ∷ names) magisk_link (directory m') kept h = cc (kept [] magisk_link refl)
Covered-Kept (name ∷ names) whiteout (directory m') kept h = cc (kept [] whiteout refl)
Covered-Kept (name ∷ names) a (file src) kept h = tt
Covered-Kept (name ∷ names) a (symlink to) kept h = tt
Covered-Kept (name ∷ names) a magisk_link kept h = tt
Covered-Kept (name ∷ names) a whiteout kept h = tt

Covered-insert :
    (name : Bytes) (names : List Bytes) (n : FsNode) (m : FsNodeMap)
    → Covered n names
    → Covered (directory (insert name n m)) (name ∷ names)
unfolding Covered
Covered-insert name names n m h =
    (n, rw (get-insert name name n m, (bytes_eq_iff name name).1 refl) refl, h)

Covered-or_insert :
    (name : Bytes) (n : FsNode) (m : FsNodeMap)
    → Covered (directory (or_insert name n m)) (name ∷ [])
unfolding or_insert Covered
Covered-or_insert name n m = elim (Option-cases (get name m)) [
  | inl free ↦ rw (free, or_insert) (Covered-insert name [] n m (Covered-nil n))
  | inr (old, there) ↦ rw (there, or_insert) (old, there, Covered-nil old)
]

-- No error was met, and the path of an entry inside this one is covered.
abbrev Done : Bytes → List Bytes → Collected → Type 0
Done name names got = got.success ≡ true → Covered (directory got.children) (name ∷ names)

Covered-collect_file :
    (w : World) (paths : ModulePaths) (name : Bytes) (m : FsNodeMap)
    → Done name [] (collect_file w paths name m)
unfolding collect_file go_on
Covered-collect_file w paths name m = elim (Bool-cases (w.exists paths.real)) [
  | inl there ↦
      rw (there) (elim (Bool-cases (w.succeeds (clone_attr paths.real paths.module_dir))) [
        | inl fine ↦ rw (fine) (λ done. Covered-or_insert name (file paths.module_mnt) m)
        | inr failed ↦ rw (failed) (λ done. cc done)
      ])
  | inr missing ↦ rw (missing) (λ done. Covered-or_insert name (file paths.module_mnt) m)
]

Covered-in_dir :
    (name : Bytes) (names : List Bytes) (m : FsNodeMap) (inside_it : FsNodeMap → Collected)
    → ((within : FsNodeMap)
        → (inside_it within).success ≡ true
        → Covered (directory (inside_it within).children) names)
    → Done name names (in_dir name m inside_it)
unfolding in_dir go_on put_back Covered
Covered-in_dir name names m inside_it h = elim (Option-cases (get name m)) [
  | inl free ↦ rw (free, in_dir) (λ done. Covered-insert name names _ m (h FsNodeMap.empty done))
  | inr (directory within, there) ↦
      rw (there, in_dir) (λ done. Covered-insert name names _ m (h within done))
  | inr (file src, there) ↦ rw (there, in_dir) (λ done. (file src, there, tt))
  | inr (symlink to, there) ↦ rw (there, in_dir) (λ done. (symlink to, there, tt))
  | inr (magisk_link, there) ↦ rw (there, in_dir) (λ done. (magisk_link, there, tt))
  | inr (whiteout, there) ↦ rw (there, in_dir) (λ done. (whiteout, there, tt))
]

-- An entry before the rest of its directory, and one that follows.
Covered-first :
    (names : List Bytes) (first rest : Collected)
    → (first.success ≡ true → Covered (directory first.children) names)
    → Kept (directory first.children) (directory rest.children)
    → (then_rest first rest).success ≡ true
    → Covered (directory (then_rest first rest).children) names
unfolding then_rest
Covered-first names first rest h kept = elim (Bool-cases first.success) [
  | inl fine ↦ rw (fine) (λ done.
      Covered-Kept names (directory first.children) (directory rest.children) kept (h fine))
  | inr failed ↦ rw (failed) (λ done. cc done)
]

Covered-later :
    (names : List Bytes) (first rest : Collected)
    → (rest.success ≡ true → Covered (directory rest.children) names)
    → (then_rest first rest).success ≡ true
    → Covered (directory (then_rest first rest).children) names
unfolding then_rest
Covered-later names first rest h = elim (Bool-cases first.success) [
  | inl fine ↦ rw (fine) h
  | inr failed ↦ rw (failed) (λ done. cc done)
]

mutual
  unfolding collect_listing stop go_on append

  pub Covered-collect_listing :
      (w : World) (paths : ModulePaths) (names : List Bytes) (listing : Listing) (m : FsNodeMap)
      → Listed names listing
      → (collect_listing w paths listing m).success ≡ true
      → Covered (directory (collect_listing w paths listing m).children) names
  Covered-collect_listing w paths names end m l = elim l [ ]
  Covered-collect_listing w paths names broken m l = elim l [ ]
  Covered-collect_listing w paths _ (entry name e rest) m here =
      let first = collect_entry w (append paths name) name e m in
      Covered-first (name ∷ []) first (collect_listing w paths rest first.children)
        (Covered-collect_entry w (append paths name) name e m)
        (Kept-collect_listing w paths rest first.children)
  Covered-collect_listing w paths _ (entry name (dir below) rest) m (inside {names} l) =
      let inner = append paths name in
      let first = collect_entry w inner name (dir below) m in
      Covered-first (name ∷ names) first (collect_listing w paths rest first.children)
        (Covered-in_dir name names m (collect_listing w inner below)
          (λ within. Covered-collect_listing w inner names below within l))
        (Kept-collect_listing w paths rest first.children)
  Covered-collect_listing w paths names (entry name e rest) m (later l) =
      let first = collect_entry w (append paths name) name e m in
      Covered-later names first (collect_listing w paths rest first.children)
        (Covered-collect_listing w paths names rest first.children l)

  Covered-collect_entry :
      (w : World) (paths : ModulePaths) (name : Bytes) (e : Entry) (m : FsNodeMap)
      → Done name [] (collect_entry w paths name e m)
  Covered-collect_entry w paths name (dir below) m =
      Covered-in_dir name [] m (collect_listing w paths below)
        (λ within done. Covered-nil (directory (collect_listing w paths below within).children))
  Covered-collect_entry w paths name (link (some target)) m =
      λ done. Covered-or_insert name (symlink target) m
  Covered-collect_entry w paths name (link none) m = λ done. cc done
  Covered-collect_entry w paths name (char_device (some true)) m =
      λ done. Covered-or_insert name whiteout m
  Covered-collect_entry w paths name (char_device (some false)) m =
      Covered-collect_file w paths name m
  Covered-collect_entry w paths name (char_device none) m = λ done. cc done
  Covered-collect_entry w paths name (other_file is_file) m = Covered-collect_file w paths name m

-- When a collection meets no error, each path that the module lists is in the tree, or ends in
-- the tree at a node that is no directory.
pub collect-Covered :
    (w : World) (paths : ModulePaths) (m : FsNodeMap) (names : List Bytes)
    → Listed names (w.open_dir paths.module_dir)
    → (collect w paths (directory m)).2 ≡ true
    → Covered (collect w paths (directory m)).0 names
unfolding collect
collect-Covered w paths m names l =
    Covered-collect_listing w paths names (w.open_dir paths.module_dir) m l
