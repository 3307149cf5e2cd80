-- ===== src/Core/Module/Commit.antt =====
-- `FsNode::commit` of native/src/core/module.rs. What `retain` drops is skipped where it is met.
pub mod Placed
pub mod Mounted
use magisk_t.Prelude.{Bool, true, false, not, ◌&&◌, ◌||◌, [], ◌∷◌, if◌then◌else◌, Bytes, bytes_eq}
use magisk_t.Core.Module.{
  append_path, MountPaths, FsNode, directory, file, FsNodeMap, empty, node, unable_to_handle, World,
}
use magisk_t.Core.Module.Tmpfs.{
  Run, ◌>>◌, nothing, bind_mount, append, parent_should_be_tmpfs, replace, priority, commit_tmpfs,
}

-- The first pass of `commit`: whether the directory has to be rebuilt in the worker directory.
unfoldable pub needs_tmpfs : World → Bytes → Bool → FsNodeMap → Bool
unfolding parent_should_be_tmpfs append_path
needs_tmpfs w real is_root_dir empty = false
needs_tmpfs w real is_root_dir (node name n others) =
    not is_root_dir && (bytes_eq name replace || parent_should_be_tmpfs w (append_path real name) n)
    || needs_tmpfs w real is_root_dir others

-- What `retain` keeps: the root is no tmpfs, so that what needs one is dropped.
unfoldable pub retained : World → Bytes → Bool → Bytes → FsNode → Bool
unfolding parent_should_be_tmpfs append_path
retained w real is_root_dir name n =
    not
      (is_root_dir && (bytes_eq name replace || parent_should_be_tmpfs w (append_path real name) n))

unfoldable mutual
  unfolding ◌>>◌ nothing bind_mount append commit_tmpfs needs_tmpfs retained

  pub commit : World → MountPaths → Bool → FsNode → Run
  commit w path is_root_dir (directory children) =
      let merged =
        commit_priority w path is_root_dir children >> commit_rest w path is_root_dir children in
      if needs_tmpfs w path.real is_root_dir children
      then commit_tmpfs w path (directory children) >> bind_mount path.worker path.real true
      else merged
  commit w path is_root_dir (file src) = bind_mount src path.real false
  commit w path is_root_dir _ = record { calls = unable_to_handle path.real ∷ []; success = true }

  pub commit_priority : World → MountPaths → Bool → FsNodeMap → Run
  commit_priority w path is_root_dir empty = nothing
  commit_priority w path is_root_dir (node name n others) =
      let found = commit w (append path name) false n in
      let later = commit_priority w path is_root_dir others in
      if bytes_eq name priority
      then (if retained w path.real is_root_dir name n then found else nothing)
      else later

  pub commit_rest : World → MountPaths → Bool → FsNodeMap → Run
  commit_rest w path is_root_dir empty = nothing
  commit_rest w path is_root_dir (node name n others) =
      let this = commit w (append path name) false n in
      (if not (bytes_eq name priority) && retained w path.real is_root_dir name n
        then this
        else nothing)
      >> commit_rest w path is_root_dir others
