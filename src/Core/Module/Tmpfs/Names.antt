-- ===== src/Core/Module/Tmpfs/Names.antt =====
-- Plain names in the trees and directories of native/src/core/module.rs.
use magisk_t.Prelude.{◌≡◌, false, ◌==◌, Bytes, codes, All, bytes_eq}
use magisk_t.Core.Module.{
  FsNode, directory, file, symlink, magisk_link, whiteout, FsNodeMap, empty, node, Entry, dir, link,
  char_device, other_file, Listing, end, broken, entry, World,
}

-- The name of an entry in a directory: it has no `/` and does not lead up.
abbrev pub IsName : Bytes → Type 0
IsName name = All (λ c. (c == b'/') ≡ false) name × (bytes_eq name (codes "..") ≡ false)

unfoldable mutual
  pub Named : FsNode → Type 0
  Named (directory children) = AllNamed children
  Named (file src) = Unit
  Named (symlink target) = Unit
  Named magisk_link = Unit
  Named whiteout = Unit

  pub AllNamed : FsNodeMap → Type 0
  AllNamed empty = Unit
  AllNamed (node name n others) = IsName name × Named n × AllNamed others

unfoldable mutual
  pub NamedEntry : Entry → Type 0
  NamedEntry (dir below) = NamedListing below
  NamedEntry (link target) = Unit
  NamedEntry (char_device is_whiteout) = Unit
  NamedEntry (other_file is_file) = Unit

  pub NamedListing : Listing → Type 0
  NamedListing end = Unit
  NamedListing broken = Unit
  NamedListing (entry name e rest) = IsName name × NamedEntry e × NamedListing rest

-- The directories that are read hold names.
abbrev pub NamedWorld : World → Type 0
NamedWorld w = (path : Bytes) → NamedListing (w.open_dir path)
