-- ===== src/Core/Module/Apply/Union.antt =====
-- The tree of all modules (native/src/core/module.rs).
use magisk_t.Prelude.{
  ◌≡◌, refl, sym, subst, ◌⊎◌, inl, inr, some, List, [], ◌∷◌, Bool-cases, Bytes, codes,
}
use magisk_t.Core.Module.{append_path, append_all, ModulePaths, FsNode, file, new_dir, World}
use magisk_t.Core.Module.Tree.{child, find, get}
use magisk_t.Core.Module.Collect as Collect
use magisk_t.Core.Module.Collect.{collect}
use magisk_t.Core.Module.Collect.Kept.{Grown, Kept, Kept-refl, Kept-trans, collect-Kept}
use magisk_t.Core.Module.Collect.Sources.{collect-Sourced}
use magisk_t.Core.Module.Apply.{set_module, collect_module, collect_all}

-- The `system` folder of a module, and its mount.
abbrev pub system_mnt : ModulePaths → Bytes → Bytes
system_mnt paths name = append_path (append_path paths.module_mnt name) (codes "system")

-- A module is skipped, or collected.
collect_module_cases :
    (w : World) (paths : ModulePaths) (name : Bytes) (system : FsNode)
    → ((collect_module w paths name system).0 ≡ system)
      ⊎ ((collect_module w paths name system).0
          ≡ (collect w (Collect.append (set_module paths name) (codes "system")) system).0)
unfolding collect_module
collect_module_cases w paths name system =
    let sys = Collect.append (set_module paths name) (codes "system") in
    let skip = Collect.append (set_module paths name) (codes "skip_mount") in
    elim (Bool-cases (w.exists skip.module_dir)) [
      | inl skipped ↦ inl (rw (skipped) refl)
      | inr wanted ↦ elim (Bool-cases (w.exists sys.module_dir)) [
        | inl there ↦ inr (rw (wanted, there) refl)
        | inr missing ↦ inl (rw (wanted, missing) refl)
      ]
    ]

-- No module changes what the modules before it made.
pub collect_all-Kept :
    (w : World) (paths : ModulePaths) (modules : List Bytes) (system : FsNode)
    → Kept system (collect_all w paths modules system).0
unfolding collect_all
collect_all-Kept w paths [] system = Kept-refl system
collect_all-Kept w paths (name ∷ modules) system =
    let after = (collect_module w paths name system).0 in
    let sys = Collect.append (set_module paths name) (codes "system") in
    let kept : Kept system after = elim (collect_module_cases w paths name system) [
      | inl skipped ↦ subst (Kept system) (sym skipped) (Kept-refl system)
      | inr collected ↦ subst (Kept system) (sym collected) (collect-Kept w sys system)
    ] in
    Kept-trans system after (collect_all w paths modules after).0 kept
      (collect_all-Kept w paths modules after)

-- Whatever modules follow, and whatever errors they meet, a node that the tree had is still at
-- its path: a directory is a directory, and any other node is the same.
pub collect_all-Grown :
    (w : World) (paths : ModulePaths) (modules : List Bytes) (system : FsNode) (names : List Bytes)
    (n : FsNode)
    → find names system ≡ some n
    → Grown n (find names (collect_all w paths modules system).0)
collect_all-Grown w paths modules system = collect_all-Kept w paths modules system

-- A file is from one of the modules, mounted from its place in that module.
abbrev pub FromModule : ModulePaths → List Bytes → List Bytes → Bytes → Type 0
FromModule paths [] names src = ⊥
FromModule paths (name ∷ modules) names src =
    (src ≡ append_all (system_mnt paths name) names) ⊎ FromModule paths modules names src

collect_all-FromModule :
    (w : World) (paths : ModulePaths) (modules : List Bytes) (system : FsNode) (names : List Bytes)
    (src : Bytes)
    → find names (collect_all w paths modules system).0 ≡ some (file src)
    → (find names system ≡ some (file src)) ⊎ FromModule paths modules names src
unfolding collect_all set_module Collect.append
collect_all-FromModule w paths [] system names src e = inl e
collect_all-FromModule w paths (name ∷ modules) system names src e =
    let after = (collect_module w paths name system).0 in
    let sys = Collect.append (set_module paths name) (codes "system") in
    elim (collect_all-FromModule w paths modules after names src e) [
      | inr later ↦ inr (inr later)
      | inl here ↦ elim (collect_module_cases w paths name system) [
        | inl skipped ↦ inl (subst (λ x. find names x ≡ some (file src)) skipped here)
        | inr collected ↦
            elim (collect-Sourced w sys system names src
              (subst (λ x. find names x ≡ some (file src)) collected here)) [
                | inl earlier ↦ inl earlier
                | inr from_it ↦ inr (inl from_it)
              ]
      ]
    ]

no_file : (names : List Bytes) (src : Bytes) → ¬ (find names new_dir ≡ some (file src))
unfolding find child new_dir get
no_file [] src e = cc e
no_file (name ∷ names) src e = cc e

-- A file of the tree of all modules is mounted from its own path in the `system` folder of one
-- of them.
pub collect_all_lem :
    (w : World) (paths : ModulePaths) (modules names : List Bytes) (src : Bytes)
    → find names (collect_all w paths modules new_dir).0 ≡ some (file src)
    → FromModule paths modules names src
collect_all_lem w paths modules names src e =
    elim (collect_all-FromModule w paths modules new_dir names src e) [
      | inl earlier ↦ absurd (no_file names src earlier)
      | inr from_one ↦ from_one
    ]
