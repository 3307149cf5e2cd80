-- ===== src/Core/Module/Collect.antt =====
-- `FsNode::collect` of native/src/core/module.rs. An error leaves the tree as far as it was
-- collected, and its caller goes on with that tree.
pub mod Kept
pub mod Sources
pub mod Complete
use magisk_t.Prelude.{◌+◌, Bool, true, false, none, some, List, [], ◌∷◌, ◌++◌, if◌then◌else◌, Bytes}
use magisk_t.Core.Module.{
  ModulePaths, append_path, FsNode, directory, file, symlink, whiteout, new_dir, FsNodeMap, Entry,
  dir, link, char_device, other_file, Listing, end, broken, entry, Op, clone_attr, World,
}
use magisk_t.Core.Module.Tree.{get, insert, or_insert}

pub record Collected : Type 0 where
  pub children : FsNodeMap
  pub calls : List Op
  pub success : Bool

-- `ModulePaths::append`
unfoldable pub append : ModulePaths → Bytes → ModulePaths
unfolding append_path
append paths name = record {
  real = append_path paths.real name;
  module_dir = append_path paths.module_dir name;
  module_mnt = append_path paths.module_mnt name;
}

-- `entry.is_dir()`: what `node.collect` leaves in the entry.
unfoldable pub put_back : Bytes → FsNodeMap → Collected → Collected
unfolding insert
put_back name children below = record {
  children = insert name (directory below.children) children;
  calls = below.calls;
  success = below.success;
}

unfoldable pub stop : FsNodeMap → Collected
stop children = record { children = children; calls = []; success = false }

unfoldable pub go_on : FsNodeMap → Collected
go_on children = record { children = children; calls = []; success = true }

-- `or_insert_with(FsNode::new_dir)`, then `collect` on the node that is there.
unfoldable pub in_dir : Bytes → FsNodeMap → (FsNodeMap → Collected) → Collected
unfolding new_dir get put_back go_on
in_dir name children inside_it = elim (get name children) [
  | none ↦ put_back name children (inside_it FsNodeMap.empty)
  | some (directory inside) ↦ put_back name children (inside_it inside)
  | some _ ↦ go_on children
]

-- `real().exists()` then `clone_attr`, and the node of the file.
unfoldable pub collect_file : World → ModulePaths → Bytes → FsNodeMap → Collected
unfolding or_insert stop go_on
collect_file w paths name children =
    let op = clone_attr paths.real paths.module_dir in
    let added = or_insert name (file paths.module_mnt) children in
    if w.exists paths.real
    then record {
      children = if w.succeeds op then added else children;
      calls = op ∷ [];
      success = w.succeeds op;
    }
    else go_on added

-- What the entries that follow do, `?` of the entry before.
unfoldable pub then_rest : Collected → Collected → Collected
then_rest first rest =
    if first.success
    then record {
      children = rest.children;
      calls = first.calls ++ rest.calls;
      success = rest.success;
    }
    else first

-- `while let Some(entry) = dir.read()?`, and one round of it.
unfoldable mutual
  unfolding or_insert append in_dir stop go_on collect_file then_rest

  pub collect_listing : World → ModulePaths → Listing → FsNodeMap → Collected
  collect_listing w paths end children = go_on children
  collect_listing w paths broken children = stop children
  collect_listing w paths (entry name e rest) children =
      let first = collect_entry w (append paths name) name e children in
      then_rest first (collect_listing w paths rest first.children)

  pub collect_entry : World → ModulePaths → Bytes → Entry → FsNodeMap → Collected
  collect_entry w paths name (dir below) children =
      in_dir name children (collect_listing w paths below)
  collect_entry w paths name (link (some target)) children =
      go_on (or_insert name (symlink target) children)
  collect_entry w paths name (link none) children = stop children
  collect_entry w paths name (char_device (some true)) children =
      go_on (or_insert name whiteout children)
  collect_entry w paths name (char_device (some false)) children =
      collect_file w paths name children
  collect_entry w paths name (char_device none) children = stop children
  collect_entry w paths name (other_file is_file) children = collect_file w paths name children

-- `collect` on a node; what is not a directory takes nothing.
unfoldable pub collect : World → ModulePaths → FsNode → FsNode × List Op × Bool
unfolding collect_listing
collect w paths (directory children) =
    let done = collect_listing w paths (w.open_dir paths.module_dir) children in
    (directory done.children, done.calls, done.success)
collect w paths n = (n, [], true)
