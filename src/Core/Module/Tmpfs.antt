-- ===== src/Core/Module/Tmpfs.antt =====
-- `FsNode::commit_tmpfs` of native/src/core/module.rs, as the calls it makes and whether all that
-- must succeed did.
pub mod Names
pub mod Confined
pub mod Mounted
pub mod Mirrored
use magisk_t.Prelude.{
  ◌+◌, ◌/◌, Bool, true, false, ◌||◌, Option, none, some, List, [], ◌∷◌, ◌++◌, if◌then◌else◌, Bytes,
  codes, bytes_eq,
}
use magisk_t.Core.Module.{
  append_path, parent_dir, file_name, MountPaths, FsNode, directory, file, symlink, magisk_link,
  whiteout, FsNodeMap, empty, node, Entry, dir, link, char_device, other_file, Listing, end, broken,
  entry, Op, clone_attr, bind_mount_to, remount_rdonly, mkdir, mkdirs, create, create_symlink,
  is_symlink, World,
}
use magisk_t.Core.Module.Tree.{get, remove}

pub record Run : Type 0 where
  pub calls : List Op
  pub success : Bool

-- `a?; b`
infixr 6 ◌>>◌
unfoldable pub ◌>>◌ : Run → Run → Run
a >> b = if a.success then record { calls = a.calls ++ b.calls; success = b.success } else a

unfoldable pub nothing : Run
nothing = record { calls = []; success = true }

unfoldable pub perform : World → Op → Run
perform w op = record { calls = op ∷ []; success = w.succeeds op }

-- Errors of a bind mount are logged and ignored.
unfoldable pub bind_mount : Bytes → Bytes → Bool → Run
bind_mount src dest rec = record {
  calls = bind_mount_to src dest rec ∷ remount_rdonly dest ∷ [];
  success = true;
}

unfoldable pub mount_dummy : World → Bytes → Bytes → Bool → Run
unfolding ◌>>◌ perform bind_mount
mount_dummy w src dest directory_there =
    perform w (if directory_there then mkdir dest else create dest) >> bind_mount src dest false

-- `MountPaths::append`
unfoldable pub append : MountPaths → Bytes → MountPaths
unfolding append_path
append path name = record {
  real = append_path path.real name;
  worker = append_path path.worker name;
}

unfoldable pub missing_or_symlink : World → Bytes → Bool
missing_or_symlink w path = elim (w.get_attr path) [
  | some is_symlink ↦ true
  | none ↦ true
  | some _ ↦ false
]

unfoldable pub parent_should_be_tmpfs : World → Bytes → FsNode → Bool
unfolding missing_or_symlink
parent_should_be_tmpfs w target_path (directory _) = missing_or_symlink w target_path
parent_should_be_tmpfs w target_path (file _) = missing_or_symlink w target_path
parent_should_be_tmpfs w target_path _ = true

abbrev pub replace : Bytes
replace = codes ".replace"

abbrev pub priority : Bytes
priority = codes "framework"

-- `mkdirs` of the worker directory, with the attributes of the real one or of its parent.
unfoldable pub prepare : World → MountPaths → Run
unfolding ◌>>◌ perform nothing parent_dir
prepare w path =
    perform w (mkdirs path.worker)
    >> (if w.exists path.real
        then perform w (clone_attr path.real path.worker)
        else elim (parent_dir path.worker) [
          | none ↦ nothing
          | some parent ↦ perform w (clone_attr parent path.worker)
        ])

unfoldable pub commit_symlink : World → MountPaths → Bytes → Run
unfolding ◌>>◌ perform nothing
commit_symlink w path target =
    perform w (create_symlink target path.worker)
    >> (if w.exists path.real then perform w (clone_attr path.real path.worker) else nothing)

unfoldable pub commit_magisk_link : World → MountPaths → Run
unfolding perform file_name
commit_magisk_link w path =
    if bytes_eq (file_name path.real) (codes "supolicy")
    then perform w (create_symlink (codes "./magiskpolicy") path.worker)
    else perform w (create_symlink (codes "./magisk") path.worker)

unfoldable pub unwrap_or_empty : Option Bytes → Bytes
unwrap_or_empty none = []
unwrap_or_empty (some target) = target

-- The entries of the real directory that are no children; for a directory, `commit_tmpfs` of
-- `FsNode::new_dir()`.
unfoldable mutual
  unfolding ◌>>◌ nothing mount_dummy append prepare commit_symlink unwrap_or_empty get

  pub mirror : World → MountPaths → FsNodeMap → Listing → Run
  mirror w path children end = nothing
  mirror w path children broken = nothing
  mirror w path children (entry name e rest) =
      (elim (get name children) [ some _ ↦ nothing | none ↦ mirror_entry w (append path name) e ])
      >> mirror w path children rest

  pub mirror_entry : World → MountPaths → Entry → Run
  mirror_entry w path (dir below) = prepare w path >> mirror w path empty below
  mirror_entry w path (link target) = commit_symlink w path (unwrap_or_empty target)
  mirror_entry w path (char_device _) = mount_dummy w path.real path.worker false
  mirror_entry w path (other_file is_file) = mount_dummy w path.real path.worker false

-- The module directory that a file `.replace` stands in.
unfoldable pub replace_dir : FsNodeMap → Option Bytes
unfolding get parent_dir
replace_dir children = elim (get replace children) [ some (file src) ↦ parent_dir src | _ ↦ none ]

-- The directories of a module directory that replaces are mounted as a whole.
unfoldable pub replace_child : World → MountPaths → Bytes → FsNode → Run → Run
unfolding mount_dummy
replace_child w path src (directory _) otherwise = mount_dummy w src path.worker true
replace_child w path src _ otherwise = otherwise

unfoldable mutual
  unfolding ◌>>◌ nothing replace_child mount_dummy append prepare commit_symlink commit_magisk_link
      mirror replace_dir remove append_path

  pub commit_tmpfs : World → MountPaths → FsNode → Run
  commit_tmpfs w path (directory children) =
      let merged =
        mirror w path (remove replace children) (w.open_dir path.real)
        >> commit_tmpfs_priority w path children
        >> commit_tmpfs_rest w path children in
      prepare w path >> elim (replace_dir children) [
        | some from_dir ↦ replace_children w path from_dir children
        | none ↦ merged
      ]
  commit_tmpfs w path (file src) = mount_dummy w src path.worker false
  commit_tmpfs w path (symlink target) = commit_symlink w path target
  commit_tmpfs w path magisk_link = commit_magisk_link w path
  commit_tmpfs w path whiteout = nothing

  -- For a directory that is replaced: no mirror.
  pub replace_children : World → MountPaths → Bytes → FsNodeMap → Run
  replace_children w path from_dir empty = nothing
  replace_children w path from_dir (node name n others) =
      let below = append path name in
      let child = replace_child w below (append_path from_dir name) n (commit_tmpfs w below n) in
      (if bytes_eq name replace then nothing else child) >> replace_children w path from_dir others

  pub commit_tmpfs_priority : World → MountPaths → FsNodeMap → Run
  commit_tmpfs_priority w path empty = nothing
  commit_tmpfs_priority w path (node name n others) =
      let found = commit_tmpfs w (append path name) n in
      let later = commit_tmpfs_priority w path others in
      if bytes_eq name priority then found else later

  pub commit_tmpfs_rest : World → MountPaths → FsNodeMap → Run
  commit_tmpfs_rest w path empty = nothing
  commit_tmpfs_rest w path (node name n others) =
      let this = commit_tmpfs w (append path name) n in
      (if bytes_eq name priority || bytes_eq name replace then nothing else this)
      >> commit_tmpfs_rest w path others
