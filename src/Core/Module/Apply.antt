-- ===== src/Core/Module/Apply.antt =====
-- `MagiskD::apply_modules` of native/src/core/module.rs: from the list of modules to the calls that
-- mount them.
pub mod Union
pub mod Roots
use magisk_t.Prelude.{
  ◌+◌, ◌/◌, Bool, true, false, not, ◌&&◌, ◌||◌, Option, none, some, List, [], ◌∷◌, ◌++◌,
  if◌then◌else◌, Bytes, codes, bytes_eq, split,
}
use magisk_t.BtreeMap as Map
use magisk_t.BtreeMap.{BtreeMap}
use magisk_t.Core.Module.{
  append_path, ModulePaths, MountPaths, FsNode, directory, new_dir, Op, is_dir, World,
}
use magisk_t.Core.Module.Tree.{get, remove}
use magisk_t.Core.Module.Collect as Collect
use magisk_t.Core.Module.Collect.{collect}
use magisk_t.Core.Module.Tmpfs as Tmpfs
use magisk_t.Core.Module.Commit.{commit}
use magisk_t.Core.Module.Inject.{inject_magisk_bins, inject_zygisk_bins_64, inject_zygisk_bins_32}

abbrev pub module_root : Bytes
module_root = codes "/data/adb/modules"

-- `ModulePaths::new`, and `set_module`.
unfoldable pub new_module_paths : Bytes → ModulePaths
unfolding append_path
new_module_paths magisk_tmp = record {
  real = codes "/";
  module_dir = module_root;
  module_mnt = append_path magisk_tmp (codes ".magisk/modules");
}

unfoldable pub set_module : ModulePaths → Bytes → ModulePaths
unfolding append_path
set_module paths name = record {
  real = paths.real;
  module_dir = append_path paths.module_dir name;
  module_mnt = append_path paths.module_mnt name;
}

-- The property file of a module, which is loaded when it is there.
unfoldable pub prop_files : World → ModulePaths → List Bytes → List Bytes
unfolding set_module Collect.append
prop_files w paths [] = []
prop_files w paths (name ∷ names) =
    let prop = Collect.append (set_module paths name) (codes "system.prop") in
    let later = prop_files w paths names in
    if w.exists prop.module_dir then prop.module_dir ∷ later else later

-- One module: nothing for `skip_mount` or without a `system` folder. Errors are only logged.
unfoldable pub collect_module : World → ModulePaths → Bytes → FsNode → FsNode × List Op
unfolding set_module Collect.append collect
collect_module w paths name system =
    let paths = set_module paths name in
    let sys = Collect.append paths (codes "system") in
    let done = collect w sys system in
    if w.exists (Collect.append paths (codes "skip_mount")).module_dir
    then (system, [])
    else if w.exists sys.module_dir
    then (done.0, done.1)
    else (system, [])

unfoldable pub collect_all : World → ModulePaths → List Bytes → FsNode → FsNode × List Op
unfolding collect_module
collect_all w paths [] system = (system, [])
collect_all w paths (name ∷ names) system =
    let (after, calls) = collect_module w paths name system in
    let rest = collect_all w paths names after in (rest.0, calls ++ rest.1)

-- `SECONDARY_READ_ONLY_PARTITIONS`, without the `/` at the front.
abbrev pub secondary : List Bytes
secondary = codes "vendor" ∷ codes "product" ∷ codes "system_ext" ∷ []

unfoldable pub is_partition : World → Bytes → Bool
is_partition w name = elim (w.get_attr (b'/' ∷ name)) [
  | some is_dir ↦ true
  | none ↦ false
  | some _ ↦ false
]

unfoldable pub add_root :
    Bytes → Option FsNode → FsNode × BtreeMap FsNode → FsNode × BtreeMap FsNode
unfolding Map.insert
add_root name none rest = rest
add_root name (some root) rest = (rest.0, Map.insert name root rest.1)

-- The subtrees that are partitions of their own, taken out of the tree.
unfoldable pub extract_roots : World → List Bytes → FsNode → FsNode × BtreeMap FsNode
unfolding is_partition get remove add_root
extract_roots w [] system = (system, [])
extract_roots w (name ∷ names) (directory children) =
    let taken = extract_roots w names (directory (remove name children)) in
    let whole = extract_roots w names (directory children) in
    if is_partition w name then add_root name (get name children) taken else whole
extract_roots w (name ∷ names) system = (system, [])

unfoldable pub partition_roots : World → FsNode → BtreeMap FsNode
unfolding extract_roots Map.insert
partition_roots w system =
    let (left, roots) = extract_roots w secondary system in Map.insert (codes "system") left roots

-- Every root in the order of the names, whatever the others do.
unfoldable pub commit_roots : World → MountPaths → BtreeMap FsNode → List Op
unfolding commit Tmpfs.append
commit_roots w paths [] = []
commit_roots w paths ((name, root) ∷ roots) =
    (commit w (Tmpfs.append paths name) true root).calls ++ commit_roots w paths roots

-- What the daemon knows; `lib_name` is of the native bridge when Zygisk is enabled.
pub record Daemon : Type 0 where
  pub magisk_tmp : Bytes
  pub path_env : Bytes
  pub is_emulator : Bool
  pub is_64_bit : Bool
  pub lib_name : Option Bytes

abbrev pub sbin : Bytes
sbin = codes "/sbin"

-- `path_env.split(":").all(|s| s != "/sbin")`
unfoldable pub none_is : Bytes → List Bytes → Bool
none_is path [] = true
none_is path (other ∷ others) = not (bytes_eq other path) && none_is path others

unfoldable pub inject_custom : World → Daemon → FsNode → FsNode
unfolding none_is split inject_magisk_bins inject_zygisk_bins_64 inject_zygisk_bins_32
inject_custom w d system =
    let with_bins =
      if not (bytes_eq d.magisk_tmp sbin) || none_is sbin (split b':' d.path_env)
      then inject_magisk_bins w d.magisk_tmp d.path_env d.is_emulator system
      else system in
    elim d.lib_name [
      | none ↦ with_bins
      | some name ↦
          if d.is_64_bit
          then inject_zygisk_bins_64 w d.magisk_tmp name with_bins
          else inject_zygisk_bins_32 w d.magisk_tmp name with_bins
    ]

unfoldable pub apply_modules : World → Daemon → List Bytes → List Op
unfolding new_module_paths collect_all inject_custom partition_roots commit_roots new_dir
    append_path
apply_modules w d module_list =
    let (system, calls) = collect_all w (new_module_paths d.magisk_tmp) module_list new_dir in
    let paths : MountPaths = record {
      real = codes "/";
      worker = append_path d.magisk_tmp (codes ".magisk/worker");
    } in
    calls ++ commit_roots w paths (partition_roots w (inject_custom w d system))
