-- ===== src/Core/Module/Store.antt =====
-- The directory of modules of native/src/core/module.rs, and the operations that go through it one
-- module at a time: `upgrade_modules`, `disable_modules` and `remove_modules`.
pub mod Upgraded
mod Tests
use magisk_t.Prelude.{
  ℕ, ◌+◌, Bool, true, false, not, ◌&&◌, ◌||◌, Option, none, some, List, [], ◌∷◌, ◌++◌,
  if◌then◌else◌, Bytes, codes, bytes_eq,
}
use magisk_t.BtreeMap as Map
use magisk_t.BtreeMap.{BtreeMap}

-- What an entry holds: the relative paths in a directory, or nothing that can be entered.
pub data Item : Type 0 where
  folder : List Bytes → Item
  not_folder : Item

-- In the order in which `read` gives the entries.
abbrev pub Root : Type 0
Root = BtreeMap Item

-- Which calls succeed, by the name of the module, where a removal that fails leaves all as it was.
-- `clears` is about the two directories as a whole; `open_fd` opens a file of a module for reading,
-- and `to_memfd` copies an open file into memory.
pub record Calls : Type 0 where
  pub opens : Bytes → Bool
  pub removes : Bytes → Bool
  pub renames : Bytes → Bool
  pub creates : Bytes → Bool
  pub clears : Bool
  pub open_fd : Bytes → Bytes → Option ℕ
  pub to_memfd : ℕ → Option ℕ

-- `contains_path` in a module, `unlink_at`, and `open_as_file_at` with `O_CREAT`.
unfoldable pub contains_path : Bytes → List Bytes → Bool
contains_path path [] = false
contains_path path (other ∷ others) = bytes_eq other path || contains_path path others

unfoldable pub unlink : Bytes → List Bytes → List Bytes
unlink path [] = []
unlink path (other ∷ others) =
    let rest = unlink path others in if bytes_eq other path then rest else other ∷ rest

unfoldable pub create : Bytes → List Bytes → List Bytes
unfolding contains_path
create path files = if contains_path path files then files else path ∷ files

-- The directory when the call returned, with `false` for an error.
abbrev pub Step : Type 0
Step = Root × Bool

unfoldable pub put : Bytes → List Bytes → Root → Root
put name files root = root ++ (name, folder files) ∷ []

-- A module moves in, and stays disabled when the old one was: the directory, whether it moved, and
-- whether there was no error.
unfoldable pub move_in : Calls → Bytes → List Bytes → Bool → Root → Root × Bool × Bool
unfolding put create
move_in c name files disable root =
    if not (c.renames name)
    then (root, false, false)
    else if not disable
    then (put name files root, true, true)
    else if c.creates name
    then (put name (create (codes "disable") files) root, true, true)
    else (put name files root, true, false)

unfoldable pub upgrade_one : Calls → Bytes → List Bytes → Root → Root × Bool × Bool
unfolding move_in contains_path Map.get Map.remove
upgrade_one c name files root = elim (Map.get name root) [
  | none ↦ move_in c name files false root
  | some not_folder ↦ (root, false, false)
  | some (folder old) ↦
      if c.opens name && c.removes name
      then move_in c name files (contains_path (codes "disable") old) (Map.remove name root)
      else (root, false, false)
]

-- The loop over the upgrades, with those that have not moved.
unfoldable pub upgrade_loop : Calls → Root → Root → Root × Root × Bool
unfolding upgrade_one
upgrade_loop c [] root = ([], root, true)
upgrade_loop c ((name, not_folder) ∷ upgrades) root =
    let rest = upgrade_loop c upgrades root in ((name, not_folder) ∷ rest.0, rest.1, rest.2)
upgrade_loop c ((name, folder files) ∷ upgrades) root =
    let first = upgrade_one c name files root in
    let rest = upgrade_loop c upgrades first.0 in
    if first.2
    then rest
    else if first.1
    then (upgrades, first.0, false)
    else ((name, folder files) ∷ upgrades, first.0, false)

-- `none` is a directory of upgrades that is not there.
unfoldable pub upgrade_modules : Calls → Option Root → Root → Option Root × Root × Bool
unfolding upgrade_loop
upgrade_modules c none root = (none, root, false)
upgrade_modules c (some upgrades) root =
    let (left, after, done) = upgrade_loop c upgrades root in
    if not done
    then (some left, after, false)
    else if c.clears
    then (none, after, true)
    else (some left, after, false)

-- `for_each_module`: the loop ends at the first error. A module is given back changed, or is gone.
unfoldable pub is_module : Bytes → Item → Bool
is_module name (folder files) = not (bytes_eq name (codes ".core"))
is_module name not_folder = false

-- `disable_modules`
unfoldable pub disable_modules : Calls → Root → Step
unfolding is_module create
disable_modules c [] = ([], true)
disable_modules c ((name, not_folder) ∷ root) =
    let rest = disable_modules c root in ((name, not_folder) ∷ rest.0, rest.1)
disable_modules c ((name, folder files) ∷ root) =
    let rest = disable_modules c root in
    if not (is_module name (folder files))
    then ((name, folder files) ∷ rest.0, rest.1)
    else if c.opens name && c.creates name
    then ((name, folder (create (codes "disable") files)) ∷ rest.0, rest.1)
    else ((name, folder files) ∷ root, false)

-- The uninstall scripts that `remove_modules` runs before it removes the directory.
unfoldable pub uninstall_scripts : Calls → Root → List Bytes
unfolding is_module contains_path
uninstall_scripts c [] = []
uninstall_scripts c ((name, not_folder) ∷ root) = uninstall_scripts c root
uninstall_scripts c ((name, folder files) ∷ root) =
    let rest = uninstall_scripts c root in
    if not (is_module name (folder files))
    then rest
    else if not (c.opens name)
    then []
    else if contains_path (codes "uninstall.sh") files
    then name ∷ rest
    else rest

unfoldable pub remove_modules : Calls → Root → List Bytes × Root
unfolding uninstall_scripts
remove_modules c root = (uninstall_scripts c root, if c.clears then [] else root)
