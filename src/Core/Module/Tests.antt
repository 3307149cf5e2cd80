-- ===== src/Core/Module/Tests.antt =====
-- Runs of native/src/core/module.rs, and the theorems at concrete inputs.
use magisk_t.Prelude.{
  ◌≡◌, refl, subst, inr, true, false, ◌||◌, none, some, List, [], ◌∷◌, if◌then◌else◌, Bytes, codes,
  bytes_eq,
}
use magisk_t.Core.Module.{
  ModulePaths, MountPaths, FsNode, directory, file, new_dir, FsNodeMap, empty, node, Entry, dir,
  other_file, end, entry, is_dir, is_other, World,
}
use magisk_t.Core.Module.Tree as Tree
use magisk_t.Core.Module.Tree.{child, find}
use magisk_t.Core.Module.Collect.{collect, collect_listing}
use magisk_t.Core.Module.Collect.Complete.{Covered, collect-Covered}
use magisk_t.Core.Module.Collect.Complete as Complete
use magisk_t.Core.Module.Apply.{collect_all, collect_module}
use magisk_t.Core.Module.Apply.Union.{FromModule, collect_all-Grown, collect_all_lem}
use magisk_t.Core.Module.Store.{contains_path}
use magisk_t.Core.Module.Tmpfs.{commit_tmpfs}
use magisk_t.Core.Module.Tmpfs.Mounted.{Merged, Holds}
use magisk_t.Core.Module.Tmpfs.Mirrored as Mirrored
use magisk_t.Core.Module.Tmpfs.Mirrored.{Mirrored, commit_tmpfs-Mirrored}
use magisk_t.Core.Module.Commit.{retained, commit}
use magisk_t.Core.Module.Commit.Mounted.{Somewhere, commit-Somewhere_root}
use magisk_t.Core.Module.Inject.{inject_magisk_bins}
use magisk_t.Core.Module.Inject.Found.{Found, inject_magisk_bins-Found}

-- Two modules that both have `bin/tool`, the second with `bin/extra` as well.
abbrev tool_entry : Entry
tool_entry = dir (entry (codes "tool") (other_file true) end)

abbrev extra_entry : Entry
extra_entry =
    dir (entry (codes "tool") (other_file true) (entry (codes "extra") (other_file true) end))

abbrev first_dir : Bytes
first_dir = codes "/data/adb/modules/first/system"

abbrev second_dir : Bytes
second_dir = codes "/data/adb/modules/second/system"

-- On the device: `/system/bin` with `sh` and `tool`.
abbrev device_dirs : List Bytes
device_dirs = codes "/system" ∷ codes "/system/bin" ∷ codes "/vendor" ∷ first_dir ∷ second_dir ∷ []

abbrev device_files : List Bytes
device_files = codes "/system/bin/sh" ∷ codes "/system/bin/tool" ∷ []

device : World
unfolding contains_path
device = record {
  exists = λ path. contains_path path device_dirs || contains_path path device_files;
  get_attr = λ path.
      if contains_path path device_dirs
      then some is_dir
      else if contains_path path device_files
      then some is_other
      else none;
  others_execute = λ path. true;
  open_dir = λ path.
      if bytes_eq path first_dir
      then entry (codes "bin") tool_entry end
      else if bytes_eq path second_dir
      then entry (codes "bin") extra_entry end
      else if bytes_eq path (codes "/system/bin")
      then entry (codes "sh") (other_file true) (entry (codes "tool") (other_file true) end)
      else end;
  succeeds = λ op. true;
}

abbrev paths : ModulePaths
paths = record {
  real = codes "/";
  module_dir = codes "/data/adb/modules";
  module_mnt = codes "/tmp/.magisk/modules";
}

abbrev both : List Bytes
both = codes "first" ∷ codes "second" ∷ []

abbrev bin_tool : List Bytes
bin_tool = codes "bin" ∷ codes "tool" ∷ []

-- The tree that the first module makes.
abbrev first_tree : FsNode
first_tree = directory (
    node (codes "bin")
      (directory
        (node (codes "tool") (file (codes "/tmp/.magisk/modules/first/system/bin/tool")) empty))
      empty)

first_run : (collect_all device paths (codes "first" ∷ []) new_dir).0 ≡ first_tree
unfolding device collect_all collect_module collect collect_listing new_dir
first_run = refl

collect_all-Grown_example :
    find bin_tool (collect_all device paths (codes "second" ∷ []) first_tree).0
    ≡ some (file (codes "/tmp/.magisk/modules/first/system/bin/tool"))
collect_all-Grown_example =
    collect_all-Grown device paths (codes "second" ∷ []) first_tree bin_tool
      (file (codes "/tmp/.magisk/modules/first/system/bin/tool"))
      (unfold find child Tree.get in refl)

abbrev bin_extra : List Bytes
bin_extra = codes "bin" ∷ codes "extra" ∷ []

extra_run :
    find bin_extra (collect_all device paths both new_dir).0
    ≡ some (file (codes "/tmp/.magisk/modules/second/system/bin/extra"))
unfolding device collect_all collect_module collect collect_listing new_dir find child Tree.get
extra_run = refl

collect_all_lem_example :
    FromModule paths both bin_extra (codes "/tmp/.magisk/modules/second/system/bin/extra")
collect_all_lem_example =
    collect_all_lem device paths both bin_extra
      (codes "/tmp/.magisk/modules/second/system/bin/extra") extra_run

abbrev second_paths : ModulePaths
second_paths = record {
  real = codes "/system";
  module_dir = second_dir;
  module_mnt = codes "/tmp/.magisk/modules/second/system";
}

second-Listed : Complete.Listed bin_extra (device.open_dir second_dir)
unfolding device
second-Listed = Complete.inside (Complete.later Complete.here)

second_done : (collect device second_paths (directory empty)).2 ≡ true
unfolding device collect collect_listing
second_done = refl

collect-Covered_example : Covered (collect device second_paths (directory empty)).0 bin_extra
collect-Covered_example =
    collect-Covered device second_paths empty bin_extra second-Listed second_done

-- A tree with a file that the device has and one that it has not.
abbrev bin_children : FsNodeMap
bin_children =
    node (codes "extra") (file (codes "/e")) (node (codes "tool") (file (codes "/t")) empty)

abbrev sys_children : FsNodeMap
sys_children = node (codes "bin") (directory bin_children) empty

abbrev mounts : MountPaths
mounts = record { real = codes "/system"; worker = codes "/tmp/.magisk/worker/system" }

bin-Holds : Holds bin_extra (codes "/e") (directory sys_children)
unfolding find child Tree.get Merged
bin-Holds = (
  refl,
  (
    refl,
    λ n e.
        let same : directory bin_children ≡ n = cc e in
        let below : Merged (codes "extra" ∷ []) (directory bin_children) = (refl, λ n e. tt) in
        subst (Merged (codes "extra" ∷ [])) same below,
  ),
)

bin_stays :
    (c : FsNode)
    → Tree.get (codes "bin") sys_children ≡ some c
    → retained device (codes "/system") true (codes "bin") c ≡ true
unfolding Tree.get
bin_stays c e =
    let is : retained device (codes "/system") true (codes "bin") (directory bin_children) ≡ true =
      unfold retained device in refl in
    subst (λ x. retained device (codes "/system") true (codes "bin") x ≡ true) (cc e) is

commit_done : (commit device mounts true (directory sys_children)).success ≡ true
unfolding commit device
commit_done = refl

commit-Somewhere_root_example :
    Somewhere mounts bin_extra (codes "/e") (commit device mounts true (directory sys_children))
commit-Somewhere_root_example =
    commit-Somewhere_root device mounts (codes "bin") (codes "extra" ∷ []) (codes "/e") sys_children
      bin-Holds bin_stays commit_done

abbrev bin_mounts : MountPaths
bin_mounts = record { real = codes "/system/bin"; worker = codes "/tmp/.magisk/worker/system/bin" }

bin-Stands : Mirrored.Stands (codes "sh" ∷ []) (device.open_dir (codes "/system/bin"))
unfolding device
bin-Stands = Mirrored.here

tmpfs_done : (commit_tmpfs device bin_mounts (directory bin_children)).success ≡ true
unfolding commit_tmpfs device
tmpfs_done = refl

commit_tmpfs-Mirrored_example :
    Mirrored bin_mounts (codes "sh" ∷ []) (commit_tmpfs device bin_mounts (directory bin_children))
commit_tmpfs-Mirrored_example =
    commit_tmpfs-Mirrored device bin_mounts bin_children (codes "sh") [] bin-Stands
      (unfold Tree.get in refl) (unfold Tree.get in refl) tmpfs_done

inject_magisk_bins-Found_example : Found (codes "/tmp") (
    inject_magisk_bins device
      (codes "/tmp")
      (codes "/system/bin:/vendor/bin")
      false
      (directory sys_children))
inject_magisk_bins-Found_example =
    inject_magisk_bins-Found device (codes "/tmp") (codes "/system/bin:/vendor/bin") false
      sys_children (inr (bin_children, unfold Tree.get in refl))

abbrev vendor_tree : FsNode
vendor_tree = directory (node (codes "vendor") (directory bin_children) empty)
