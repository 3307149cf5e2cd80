-- ===== src/Core/Module/Collect/Sources.antt =====
-- Where the files of the tree come from (native/src/core/module.rs): the mount of their module.
use magisk_t.Prelude.{
  ◌≡◌, sym, ap, ◌∙◌, ◌⊎◌, inl, inr, true, false, none, some, List, [], ◌∷◌, Bool-cases,
  Option-cases, Bytes, bytes_eq, bytes_eq_iff,
}
use magisk_t.Core.Module.{
  ModulePaths, append_path, append_all, FsNode, directory, file, symlink, magisk_link, whiteout,
  new_dir, FsNodeMap, Entry, dir, link, char_device, other_file, Listing, end, broken, entry, World,
  clone_attr,
}
use magisk_t.Core.Module.Tree.{
  get, insert, or_insert, child, find, find-child, find-insert, find-insert_other,
}
use magisk_t.Core.Module.Collect.{
  Collected, append, in_dir, put_back, stop, go_on, collect_file, then_rest, collect_listing,
  collect_entry, collect,
}

-- Every file of the tree `after` was there before, or is mounted from its path below `mnt`.
abbrev pub Sourced : Bytes → FsNode → FsNode → Type 0
Sourced mnt before after =
    (names : List Bytes) (src : Bytes)
    → find names after ≡ some (file src)
    → (find names before ≡ some (file src)) ⊎ (src ≡ append_all mnt names)

Sourced-refl : (mnt : Bytes) (n : FsNode) → Sourced mnt n n
Sourced-refl mnt n names src e = inl e

Sourced-trans : (mnt : Bytes) (a b c : FsNode) → Sourced mnt a b → Sourced mnt b c → Sourced mnt a c
Sourced-trans mnt a b c h k names src e = elim (k names src e) [
  | inl earlier ↦ h names src earlier
  | inr here ↦ inr here
]

-- A node that is put in: below it, what the node itself says.
Sourced-insert :
    (mnt : Bytes) (m : FsNodeMap) (name : Bytes) (old new : FsNode)
    → ((names : List Bytes) (src : Bytes)
        → find names old ≡ some (file src)
        → find (name ∷ names) (directory m) ≡ some (file src))
    → Sourced (append_path mnt name) old new
    → Sourced mnt (directory m) (directory (insert name new m))
unfolding append_all
Sourced-insert mnt m name old new same h [] src e = unfold find in cc e
Sourced-insert mnt m name old new same h (other ∷ names) src e =
    elim (Bool-cases (bytes_eq name other)) [
      | inr miss ↦ inl (sym (find-insert_other name other new m names miss) ∙ e)
      | inl hit ↦
          let p = (bytes_eq_iff name other).0 hit in
          let e' : find (name ∷ names) (directory (insert name new m)) ≡ some (file src) =
            cc (e, p) in
          elim (h names src (sym (find-insert name new m names) ∙ e')) [
            | inl earlier ↦ inl (cc (same names src earlier, p))
            | inr here ↦ inr (here ∙ ap (λ x. append_all (append_path mnt x) names) p)
          ]
    ]

-- A directory that was not there held no file.
no_file_yet :
    (names : List Bytes) (src : Bytes) {P : Type 0} → find names new_dir ≡ some (file src) → P
unfolding find child new_dir get
no_file_yet [] src e = cc e
no_file_yet (name ∷ names) src e = cc e

Sourced-or_insert :
    (mnt : Bytes) (m : FsNodeMap) (name : Bytes) (n : FsNode)
    → Sourced (append_path mnt name) new_dir n
    → Sourced mnt (directory m) (directory (or_insert name n m))
unfolding or_insert
Sourced-or_insert mnt m name n h = elim (Option-cases (get name m)) [
  | inl free ↦
      rw (free, or_insert)
        (Sourced-insert mnt m name new_dir n (λ names src e. no_file_yet names src e) h)
  | inr (old, here) ↦ rw (here, or_insert) (Sourced-refl mnt (directory m))
]

Sourced-file : (mnt : Bytes) (before : FsNode) → Sourced mnt before (file mnt)
unfolding find child append_all
Sourced-file mnt before [] src e = inr (cc e)
Sourced-file mnt before (name ∷ names) src e = cc e

Sourced-symlink : (mnt target : Bytes) (before : FsNode) → Sourced mnt before (symlink target)
unfolding find child
Sourced-symlink mnt target before [] src e = cc e
Sourced-symlink mnt target before (name ∷ names) src e = cc e

Sourced-whiteout : (mnt : Bytes) (before : FsNode) → Sourced mnt before whiteout
unfolding find child
Sourced-whiteout mnt before [] src e = cc e
Sourced-whiteout mnt before (name ∷ names) src e = cc e

module _ (w : World) (paths : ModulePaths) where
  abbrev inside_mnt : Bytes → Bytes
  inside_mnt name = append_path paths.module_mnt name

  Sourced-collect_file :
      (name : Bytes) (m : FsNodeMap)
      → Sourced paths.module_mnt
          (directory m)
          (directory (collect_file w (append paths name) name m).children)
  unfolding collect_file go_on append
  Sourced-collect_file name m =
      let added =
        Sourced-or_insert paths.module_mnt m name (file (inside_mnt name))
          (Sourced-file (inside_mnt name) new_dir) in
      elim (Bool-cases (w.exists (append_path paths.real name))) [
        | inl there ↦
            rw (there)
              (elim (Bool-cases (
                w.succeeds
                  (clone_attr (append_path paths.real name) (append_path paths.module_dir name)))) [
                    | inl fine ↦ rw (fine) added
                    | inr failed ↦ rw (failed) (Sourced-refl paths.module_mnt (directory m))
                  ])
        | inr missing ↦ rw (missing) added
      ]

  Sourced-in_dir :
      (name : Bytes) (m : FsNodeMap) (inside_it : FsNodeMap → Collected)
      → ((inside : FsNodeMap)
          → Sourced (inside_mnt name) (directory inside) (directory (inside_it inside).children))
      → Sourced paths.module_mnt (directory m) (directory (in_dir name m inside_it).children)
  unfolding in_dir go_on put_back
  Sourced-in_dir name m inside_it h = elim (Option-cases (get name m)) [
    | inl free ↦
        rw (free, in_dir)
          (Sourced-insert paths.module_mnt m name new_dir _ (λ names src e. no_file_yet names src e)
            (unfold new_dir in h FsNodeMap.empty))
    | inr (directory inside, here) ↦
        rw (here, in_dir)
          (Sourced-insert paths.module_mnt m name (directory inside) _
            (λ names src e. find-child name m (directory inside) names here ∙ e) (h inside))
    | inr (file src, here) ↦ rw (here, in_dir) (Sourced-refl paths.module_mnt (directory m))
    | inr (symlink to, here) ↦ rw (here, in_dir) (Sourced-refl paths.module_mnt (directory m))
    | inr (magisk_link, here) ↦ rw (here, in_dir) (Sourced-refl paths.module_mnt (directory m))
    | inr (whiteout, here) ↦ rw (here, in_dir) (Sourced-refl paths.module_mnt (directory m))
  ]

Sourced-then_rest :
    (mnt : Bytes) (m : FsNodeMap) (first rest : Collected)
    → Sourced mnt (directory m) (directory first.children)
    → Sourced mnt (directory first.children) (directory rest.children)
    → Sourced mnt (directory m) (directory (then_rest first rest).children)
unfolding then_rest
Sourced-then_rest mnt m first rest h k = elim (Bool-cases first.success) [
  | inl fine ↦ rw (fine) (Sourced-trans mnt (directory m) (directory first.children) _ h k)
  | inr failed ↦ rw (failed) h
]

mutual
  unfolding collect_listing stop go_on append

  pub Sourced-collect_listing :
      (w : World) (paths : ModulePaths) (listing : Listing) (m : FsNodeMap)
      → Sourced paths.module_mnt
          (directory m)
          (directory (collect_listing w paths listing m).children)
  Sourced-collect_listing w paths end m = Sourced-refl paths.module_mnt (directory m)
  Sourced-collect_listing w paths broken m = Sourced-refl paths.module_mnt (directory m)
  Sourced-collect_listing w paths (entry name e rest) m =
      let first = collect_entry w (append paths name) name e m in
      Sourced-then_rest paths.module_mnt m first _ (Sourced-collect_entry w paths name e m)
        (Sourced-collect_listing w paths rest first.children)

  Sourced-collect_entry :
      (w : World) (paths : ModulePaths) (name : Bytes) (e : Entry) (m : FsNodeMap)
      → Sourced paths.module_mnt
          (directory m)
          (directory (collect_entry w (append paths name) name e m).children)
  Sourced-collect_entry w paths name (dir below) m =
      Sourced-in_dir w paths name m (collect_listing w (append paths name) below)
        (Sourced-collect_listing w (append paths name) below)
  Sourced-collect_entry w paths name (link (some target)) m =
      Sourced-or_insert paths.module_mnt m name (symlink target)
        (Sourced-symlink (append_path paths.module_mnt name) target new_dir)
  Sourced-collect_entry w paths name (link none) m = Sourced-refl paths.module_mnt (directory m)
  Sourced-collect_entry w paths name (char_device (some true)) m =
      Sourced-or_insert paths.module_mnt m name whiteout
        (Sourced-whiteout (append_path paths.module_mnt name) new_dir)
  Sourced-collect_entry w paths name (char_device (some false)) m =
      Sourced-collect_file w paths name m
  Sourced-collect_entry w paths name (char_device none) m =
      Sourced-refl paths.module_mnt (directory m)
  Sourced-collect_entry w paths name (other_file is_file) m = Sourced-collect_file w paths name m

pub collect-Sourced :
    (w : World) (paths : ModulePaths) (n : FsNode)
    → Sourced paths.module_mnt n (collect w paths n).0
unfolding collect
collect-Sourced w paths (directory m) =
    Sourced-collect_listing w paths (w.open_dir paths.module_dir) m
collect-Sourced w paths (file src) = Sourced-refl paths.module_mnt (file src)
collect-Sourced w paths (symlink to) = Sourced-refl paths.module_mnt (symlink to)
collect-Sourced w paths magisk_link = Sourced-refl paths.module_mnt magisk_link
collect-Sourced w paths whiteout = Sourced-refl paths.module_mnt whiteout
