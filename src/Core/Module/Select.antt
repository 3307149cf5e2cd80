-- ===== src/Core/Module/Select.antt =====
-- `collect_modules` of native/src/core/module.rs: which modules are used.
pub mod Marks
pub mod Used
use magisk_t.Prelude.{
  ℕ, ◌-◌, ◌/◌, Bool, true, false, not, ◌&&◌, ◌||◌, Option, none, some, List, [], ◌∷◌, if◌then◌else◌,
  Bytes, codes, bytes_eq,
}
use magisk_t.BtreeMap as Map
use magisk_t.Core.Module.Store.{
  Item, folder, not_folder, Root, Calls, contains_path, unlink, is_module,
}

pub data Arch : Type 0 where
  arm : Arch
  aarch64 : Arch
  x86 : Arch
  x86_64 : Arch
  riscv64 : Arch

-- The library for 32 bits and that for 64 bits.
unfoldable pub zygisk_libs : Arch → Option Bytes × Option Bytes
zygisk_libs arm = (some (codes "zygisk/armeabi-v7a.so"), none)
zygisk_libs aarch64 = (some (codes "zygisk/armeabi-v7a.so"), some (codes "zygisk/arm64-v8a.so"))
zygisk_libs x86 = (some (codes "zygisk/x86.so"), none)
zygisk_libs x86_64 = (some (codes "zygisk/x86.so"), some (codes "zygisk/x86_64.so"))
zygisk_libs riscv64 = (none, some (codes "zygisk/riscv64.so"))

-- `none` is the descriptor -1.
pub record ModuleInfo : Type 0 where
  pub name : Bytes
  pub z32 : Option ℕ
  pub z64 : Option ℕ

unfoldable pub open_fd_safe : Calls → Bytes → Option Bytes → Option ℕ
open_fd_safe c name none = none
open_fd_safe c name (some lib) = c.open_fd name lib

-- What one module comes to: an error, after its uninstall script or before; its removal; or what it
-- leaves and whether it is used.
pub data Selected : Type 0 where
  failed : Bool → Selected
  removed : Selected
  kept : List Bytes → Option ModuleInfo → Selected

unfoldable pub plain_info : Bytes → ModuleInfo
plain_info name = record { name = name; z32 = none; z64 = none }

-- The checks after those on `remove` and `disable`.
unfoldable pub select_zygisk : Calls → Arch → Bool → Bool → Bytes → List Bytes → Selected
unfolding contains_path unlink zygisk_libs open_fd_safe plain_info
select_zygisk c arch zygisk_enabled open_zygisk name files =
    let is_zygisk = contains_path (codes "zygisk") files in
    let incompatible = bytes_eq name (codes "riru-core") || contains_path (codes "riru") files in
    let libs = zygisk_libs arch in
    if zygisk_enabled
    then (if incompatible
        then kept files none
        else if open_zygisk && is_zygisk
        then kept (unlink (codes "zygisk/unloaded") files) (
            some (record {
              name = name;
              z32 = open_fd_safe c name libs.0;
              z64 = open_fd_safe c name libs.1;
            }))
        else kept files (some (plain_info name)))
    else if is_zygisk
    then kept files none
    else kept files (some (plain_info name))

unfoldable pub select_module : Calls → Arch → Bool → Bool → Bytes → List Bytes → Selected
unfolding contains_path unlink select_zygisk
select_module c arch zygisk_enabled open_zygisk name files =
    let updated = unlink (codes "update") files in
    if not (c.opens name)
    then failed false
    else if contains_path (codes "remove") files
    then (if c.removes name then removed else failed (contains_path (codes "uninstall.sh") files))
    else if contains_path (codes "disable") updated
    then kept updated none
    else select_zygisk c arch zygisk_enabled open_zygisk name updated

-- What `collect_modules` returns, the directory it leaves, and the uninstall scripts it ran.
pub record Collection : Type 0 where
  pub modules : List ModuleInfo
  pub root : Root
  pub scripts : List Bytes

unfoldable pub add_info : Option ModuleInfo → List ModuleInfo → List ModuleInfo
add_info none modules = modules
add_info (some info) modules = info ∷ modules

unfoldable pub after_select : Bytes → List Bytes → Root → Selected → Collection → Collection
unfolding contains_path add_info
after_select name files rest (failed script_ran) later = record {
  modules = [];
  root = (name, folder files) ∷ rest;
  scripts = if script_ran then name ∷ [] else [];
}
after_select name files rest removed later = record {
  modules = later.modules;
  root = later.root;
  scripts =
      if contains_path (codes "uninstall.sh") files then name ∷ later.scripts else later.scripts;
}
after_select name files rest (kept left info) later = record {
  modules = add_info info later.modules;
  root = (name, folder left) ∷ later.root;
  scripts = later.scripts;
}

unfoldable pub skip_entry : Bytes → Item → Collection → Collection
skip_entry name item later = record {
  modules = later.modules;
  root = (name, item) ∷ later.root;
  scripts = later.scripts;
}

unfoldable pub select_modules : Calls → Arch → Bool → Bool → Root → Collection
unfolding is_module select_module after_select skip_entry
select_modules c arch zygisk_enabled open_zygisk [] = record {
  modules = [];
  root = [];
  scripts = [];
}
select_modules c arch zygisk_enabled open_zygisk ((name, not_folder) ∷ rest) =
    skip_entry name not_folder (select_modules c arch zygisk_enabled open_zygisk rest)
select_modules c arch zygisk_enabled open_zygisk ((name, folder files) ∷ rest) =
    let later = select_modules c arch zygisk_enabled open_zygisk rest in
    if is_module name (folder files)
    then after_select name files rest (select_module c arch zygisk_enabled open_zygisk name files)
        later
    else skip_entry name (folder files) later

-- One file, with whether the next one is tried.
unfoldable pub convert_to_memfd : Calls → Bool → Option ℕ → Option ℕ × Bool
convert_to_memfd c use_memfd none = (none, use_memfd)
convert_to_memfd c use_memfd (some fd) =
    if use_memfd
    then elim (c.to_memfd fd) [ some memfd ↦ (some memfd, true) | none ↦ (some fd, false) ]
    else (some fd, false)

unfoldable pub convert_all : Calls → Bool → List ModuleInfo → List ModuleInfo
unfolding convert_to_memfd
convert_all c use_memfd [] = []
convert_all c use_memfd (info ∷ infos) =
    let (z32, next) = convert_to_memfd c use_memfd info.z32 in
    let (z64, after) = convert_to_memfd c next info.z64 in
    record { name = info.name; z32 = z32; z64 = z64 } ∷ convert_all c after infos

unfoldable pub collect_modules : Calls → Arch → Bool → Bool → Root → Collection
unfolding select_modules convert_all
collect_modules c arch zygisk_enabled open_zygisk root =
    let selected = select_modules c arch zygisk_enabled open_zygisk root in
    let modules =
      if zygisk_enabled && open_zygisk
      then convert_all c true selected.modules
      else selected.modules in
    record { modules = modules; root = selected.root; scripts = selected.scripts }
