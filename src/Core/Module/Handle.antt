-- ===== src/Core/Module/Handle.antt =====
-- `MagiskD::handle_modules` of native/src/core/module.rs: upgrades, the scripts, and the mounts.
use magisk_t.Prelude.{Bool, true, false, Option, none, some, List}
use magisk_t.Core.Module.{Op, World}
use magisk_t.Core.Module.Apply.{Daemon, apply_modules}
use magisk_t.Core.Module.Store.{Root, Calls, upgrade_modules}
use magisk_t.Core.Module.Select.{Arch, ModuleInfo, collect_modules}
use magisk_t.Core.Module.Select.Marks.{names}

pub record Handled : Type 0 where
  pub root : Root
  pub module_list : List ModuleInfo
  pub calls : List Op

-- What the scripts of the modules do to the directory is a parameter.
unfoldable pub handle_modules :
    Calls → World → Daemon → Arch → (List ModuleInfo → Root → Root) → Option Root → Root → Handled
unfolding upgrade_modules collect_modules apply_modules
handle_modules c w d arch exec_module_scripts upgrades root =
    let zygisk : Bool = elim d.lib_name [ none ↦ false | some _ ↦ true ] in
    let upgraded = upgrade_modules c upgrades root in
    let first = collect_modules c arch zygisk false upgraded.1 in
    let again = collect_modules c arch zygisk true (exec_module_scripts first.modules first.root) in
    record {
      root = again.root;
      module_list = again.modules;
      calls = apply_modules w d (names again.modules);
    }
