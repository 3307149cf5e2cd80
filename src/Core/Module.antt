-- ===== src/Core/Module.antt =====
-- The data of native/src/core/module.rs: the virtual tree that modules put together, the paths
-- that are tracked along it, and the directories it is read from and compared with.
pub mod Tree
pub mod Collect
pub mod Tmpfs
pub mod Commit
pub mod Inject
pub mod Apply
pub mod Store
pub mod Select
pub mod Handle
mod Tests
use magisk_t.Prelude.{
  ◌+◌, ◌/◌, Bool, ◌||◌, Option, none, some, List, [], ◌∷◌, ◌++◌, ◌==◌, if◌then◌else◌, Bytes,
  is_empty, starts_with, ends_with,
}

-- `append_path_impl` of base/files.rs, on a buffer that grows.
unfoldable pub append_path : Bytes → Bytes → Bytes
append_path buf path =
    let buf = if starts_with path (b'/' ∷ []) then [] else buf in
    if is_empty buf || ends_with buf (b'/' ∷ []) then buf ++ path else buf ++ b'/' ∷ path

-- The path of a descendant, by the names on the way to it.
unfoldable pub append_all : Bytes → List Bytes → Bytes
unfolding append_path
append_all buf [] = buf
append_all buf (name ∷ names) = append_all (append_path buf name) names

-- The text before and after the last `/`.
unfoldable pub rsplit_slash : Bytes → Option (Bytes × Bytes)
rsplit_slash [] = none
rsplit_slash (c ∷ s) = elim (rsplit_slash s) [
  | none ↦ if c == b'/' then some ([], s) else none
  | some (before, after) ↦ some (c ∷ before, after)
]

-- `parent_dir` and `file_name` of base/files.rs, on a path without `.`, `..` or a `/` at its end.
unfoldable pub parent_dir : Bytes → Option Bytes
unfolding rsplit_slash
parent_dir path = elim (rsplit_slash path) [
  | none ↦ if is_empty path then none else some []
  | some ([], after) ↦ if is_empty after then none else some (b'/' ∷ [])
  | some (c ∷ before, after) ↦ some (c ∷ before)
]

unfoldable pub file_name : Bytes → Bytes
unfolding rsplit_slash
file_name path = elim (rsplit_slash path) [ none ↦ path | some (before, after) ↦ after ]

-- What `append` gives is a new value, and the old one is what `drop` goes back to.
pub record ModulePaths : Type 0 where
  pub real : Bytes
  pub module_dir : Bytes
  pub module_mnt : Bytes

pub record MountPaths : Type 0 where
  pub real : Bytes
  pub worker : Bytes

-- `enum FsNode` with `type FsNodeMap = BTreeMap<String, FsNode>`, in key order.
mutual
  pub data FsNode : Type 0 where
    directory : FsNodeMap → FsNode
    file : Bytes → FsNode
    symlink : Bytes → FsNode
    magisk_link : FsNode
    whiteout : FsNode

  pub data FsNodeMap : Type 0 where
    empty : FsNodeMap
    node : Bytes → FsNode → FsNodeMap → FsNodeMap

-- What a directory of the file system holds, in the order `read` gives it. The reading may fail at
-- any point, as may `read_link` and `get_attr` on an entry. For what is no directory, link or character device,
-- `is_file()` is told.
mutual
  pub data Entry : Type 0 where
    dir : Listing → Entry
    link : Option Bytes → Entry
    char_device : Option Bool → Entry
    other_file : Bool → Entry

  pub data Listing : Type 0 where
    end : Listing
    broken : Listing
    entry : Bytes → Entry → Listing → Listing

unfoldable pub new_dir : FsNode
new_dir = directory empty

-- The calls that change the file system, and the error that is logged when there is none to make.
pub data Op : Type 0 where
  clone_attr : Bytes → Bytes → Op
  bind_mount_to : Bytes → Bytes → Bool → Op
  remount_rdonly : Bytes → Op
  mkdir : Bytes → Op
  mkdirs : Bytes → Op
  create : Bytes → Op
  create_symlink : Bytes → Bytes → Op
  unable_to_handle : Bytes → Op

-- What `get_attr` says of the type of a file; it does not follow links.
pub data FileType : Type 0 where
  is_dir : FileType
  is_symlink : FileType
  is_other : FileType

-- The file system as it answers: `lstat`, `get_attr` with its type and the
-- permission of others to execute, the content of a directory, and whether a call succeeds. The calls made here do not change the answers about the paths they are not on.
pub record World : Type 0 where
  pub exists : Bytes → Bool
  pub get_attr : Bytes → Option FileType
  pub others_execute : Bytes → Bool
  pub open_dir : Bytes → Listing
  pub succeeds : Op → Bool
