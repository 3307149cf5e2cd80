-- ===== src/Core/Module/Store/Tests.antt =====
-- Runs of the upgrade and the choice of modules of native/src/core/module.rs, and the theorems at
-- concrete inputs.
use magisk_t.Prelude.{◌≡◌, refl, true, none, some, [], ◌∷◌, Bytes, codes}
use magisk_t.BtreeMap as Map
use magisk_t.Core.Module.Store.{folder, Root, Calls, contains_path, create, upgrade_modules}
use magisk_t.Core.Module.Select.{aarch64, collect_modules}
use magisk_t.Core.Module.Store.Upgraded.{merged, get-upgrade_modules}
use magisk_t.Core.Module.Select.Marks.{names}
use magisk_t.Core.Module.Select.Used.{used, collect_modules-used}

-- Nothing fails.
calls : Calls
calls = record {
  opens = λ name. true;
  removes = λ name. true;
  renames = λ name. true;
  creates = λ name. true;
  clears = true;
  open_fd = λ name path. some 3;
  to_memfd = λ fd. none;
}

abbrev old_root : Root
old_root =
    (codes "first", folder (codes "disable" ∷ []))
    ∷ (codes "second", folder (codes "zygisk" ∷ []))
    ∷ (codes "third", folder (codes "remove" ∷ []))
    ∷ []

abbrev upgrades : Root
upgrades = (codes "first", folder (codes "system" ∷ [])) ∷ []

upgrade_done : (upgrade_modules calls (some upgrades) old_root).2 ≡ true
unfolding upgrade_modules calls
upgrade_done = refl

get-upgrade_modules_example :
    ((upgrade_modules calls (some upgrades) old_root).0 ≡ none)
    × (Map.get (codes "first") (upgrade_modules calls (some upgrades) old_root).1
        ≡ merged (Map.get (codes "first") old_root) (Map.get (codes "first") upgrades))
get-upgrade_modules_example =
    get-upgrade_modules calls upgrades old_root (codes "first") (unfold Map.get in (refl, tt))
      upgrade_done

first_disabled :
    merged (Map.get (codes "first") old_root) (Map.get (codes "first") upgrades)
    ≡ some (folder (codes "disable" ∷ codes "system" ∷ []))
unfolding Map.get contains_path create
first_disabled = refl

opens_all : (name : Bytes) → calls.opens name ≡ true
unfolding calls
opens_all name = refl

removes_all : (name : Bytes) → calls.removes name ≡ true
unfolding calls
removes_all name = refl

collect_modules-used_example :
    (names (collect_modules calls aarch64 true true old_root).modules ≡ used true old_root)
    × (used true (collect_modules calls aarch64 true true old_root).root ≡ used true old_root)
collect_modules-used_example =
    collect_modules-used calls aarch64 true true old_root opens_all removes_all

used_run : used true old_root ≡ codes "second" ∷ []
unfolding used contains_path
used_run = refl
