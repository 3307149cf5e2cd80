-- ===== src/Core/Module/Inject.antt =====
-- `inject_magisk_bins` and `inject_zygisk_bins` of native/src/core/module.rs.
pub mod Found
use magisk_t.Prelude.{
  ℕ, ◌+◌, ◌/◌, Bool, true, false, not, ◌&&◌, ◌||◌, Option, none, some, List, [], ◌∷◌, ◌++◌, leb,
  if◌then◌else◌, Bytes, codes, is_empty, bytes_eq, starts_with, strip_prefix, split,
}
use magisk_t.Core.Module.{
  append_path, FsNode, directory, file, magisk_link, FsNodeMap, empty, Entry, dir, link,
  char_device, other_file, Listing, end, broken, entry, World,
}
use magisk_t.Core.Module.Tree.{get, insert}

-- The files and applet links of Magisk, put in a directory.
unfoldable pub inject : Bytes → FsNodeMap → FsNodeMap
unfolding append_path insert
inject magisk_tmp children =
    let children =
      insert (codes "magisk") (file (append_path magisk_tmp (codes "magisk"))) children in
    let children =
      insert (codes "magiskpolicy") (file (append_path magisk_tmp (codes "magiskpolicy")))
        children in
    insert (codes "supolicy") magisk_link
      (insert (codes "resetprop") magisk_link (insert (codes "su") magisk_link children))

unfoldable pub strip_system_prefix : Bytes → Bytes
strip_system_prefix orig_item = elim (strip_prefix orig_item (codes "/system/")) [
  | some rest ↦ b'/' ∷ rest
  | none ↦ orig_item
]

-- The number of files below a directory, unless reading fails.
unfoldable pub add_counts : Option ℕ → Option ℕ → Option ℕ
add_counts (some here) (some others) = some (here + others)
add_counts _ _ = none

unfoldable mutual
  unfolding add_counts

  pub count_files : Listing → Option ℕ
  count_files end = some 0
  count_files broken = none
  count_files (entry name e rest) = add_counts (count_entry e) (count_files rest)

  pub count_entry : Entry → Option ℕ
  count_entry (dir below) = count_files below
  count_entry (link target) = some 0
  count_entry (char_device is_whiteout) = some 0
  count_entry (other_file is_file) = if is_file then some 1 else some 0

unfoldable pub is_suitable : Bool → Bytes → Bool
is_suitable is_emulator item =
    (starts_with item (codes "/system/")
      || starts_with item (codes "/vendor/")
      || starts_with item (codes "/product/")
      || starts_with item (codes "/system_ext/"))
    && not (starts_with item (codes "/system/apex/"))
    && not (is_emulator && starts_with item (codes "/system/xbin"))

-- `get_attr` succeeds, others may execute, and the walk meets no error.
unfoldable pub file_count : World → Bytes → Option ℕ
unfolding count_files
file_count w path = elim (w.get_attr path) [
  | none ↦ none
  | some _ ↦ if w.others_execute path then count_files (w.open_dir path) else none
]

-- The loop over `PATH`; it ends at the first directory that has an `su`.
unfoldable pub find_candidates : World → Bool → List Bytes → List (Bytes × ℕ)
unfolding is_suitable file_count strip_system_prefix
find_candidates w is_emulator [] = []
find_candidates w is_emulator (item ∷ items) =
    let rest = find_candidates w is_emulator items in
    if not (is_suitable is_emulator item)
    then rest
    else if w.exists (item ++ codes "/su")
    then (strip_system_prefix item, 0) ∷ []
    else elim (file_count w item) [
      | none ↦ rest
      | some count ↦ (strip_system_prefix item, count) ∷ rest
    ]

-- `sort_by_key(|&(_, count)| count)`, which is stable.
unfoldable pub insert_by_count : Bytes × ℕ → List (Bytes × ℕ) → List (Bytes × ℕ)
insert_by_count candidate [] = candidate ∷ []
insert_by_count candidate (other ∷ others) =
    let later = insert_by_count candidate others in
    if leb candidate.1 other.1 then candidate ∷ other ∷ others else other ∷ later

unfoldable pub sort_by_count : List (Bytes × ℕ) → List (Bytes × ℕ)
unfolding insert_by_count
sort_by_count [] = []
sort_by_count (candidate ∷ others) = insert_by_count candidate (sort_by_count others)

-- The normal components of a path.
unfoldable pub normal : List Bytes → List Bytes
normal [] = []
normal (name ∷ names) =
    let rest = normal names in
    if is_empty name || bytes_eq name (codes ".") || bytes_eq name (codes "..")
    then rest
    else name ∷ rest

unfoldable pub components : Bytes → List Bytes
unfolding split normal
components path = normal (split b'/' path)

-- The way to a candidate, by directories that are there or made; `false` at what is none.
unfoldable pub inject_at : Bytes → List Bytes → FsNodeMap → FsNodeMap × Bool
unfolding inject get insert
inject_at magisk_tmp [] curr = (inject magisk_tmp curr, true)
inject_at magisk_tmp (name ∷ names) curr = elim (get name curr) [
  | none ↦
      let below = inject_at magisk_tmp names empty in
      (insert name (directory below.0) curr, below.1)
  | some (directory children) ↦
      let below = inject_at magisk_tmp names children in
      (insert name (directory below.0) curr, below.1)
  | some _ ↦ (curr, false)
]

unfoldable pub path_loop : Bytes → List (Bytes × ℕ) → FsNodeMap → FsNodeMap × Bool
unfolding inject_at components
path_loop magisk_tmp [] children = (children, false)
path_loop magisk_tmp ((path, count) ∷ candidates) children =
    let walked = inject_at magisk_tmp (components path) children in
    let later = path_loop magisk_tmp candidates walked.0 in if walked.1 then walked else later

unfoldable pub inject_magisk_bins : World → Bytes → Bytes → Bool → FsNode → FsNode
unfolding find_candidates sort_by_count path_loop inject_at split
inject_magisk_bins w magisk_tmp path_env is_emulator (directory children) =
    let candidates = sort_by_count (find_candidates w is_emulator (split b':' path_env)) in
    let (walked, done) = path_loop magisk_tmp candidates children in
    if done then directory walked else directory (inject_at magisk_tmp (codes "bin" ∷ []) walked).0
inject_magisk_bins w magisk_tmp path_env is_emulator system = system

-- A library in `lib` or `lib64`, which is made when it is not there.
unfoldable pub insert_lib : Bytes → Bytes → Bytes → Bool → FsNodeMap → FsNodeMap
unfolding get insert
insert_lib lib name src there children =
    let add = λ (inside : FsNodeMap). if there then insert name (file src) inside else inside in
    elim (get lib children) [
      | none ↦ insert lib (directory (add empty)) children
      | some (directory inside) ↦ insert lib (directory (add inside)) children
      | some _ ↦ children
    ]

-- On a 64-bit device, and on a 32-bit one.
unfoldable pub inject_zygisk_bins_64 : World → Bytes → Bytes → FsNode → FsNode
unfolding insert_lib append_path
inject_zygisk_bins_64 w magisk_tmp name (directory children) =
    let bin_32 = append_path magisk_tmp (codes "magisk32") in
    let children =
      if w.exists (codes "/system/bin/linker")
      then insert_lib (codes "lib") name bin_32 (w.exists bin_32) children
      else children in
    if w.exists (codes "/system/bin/linker64")
    then directory
        (insert_lib (codes "lib64") name (append_path magisk_tmp (codes "magisk")) true children)
    else directory children
inject_zygisk_bins_64 w magisk_tmp name system = system

unfoldable pub inject_zygisk_bins_32 : World → Bytes → Bytes → FsNode → FsNode
unfolding insert_lib append_path
inject_zygisk_bins_32 w magisk_tmp name (directory children) =
    let bin_path = append_path magisk_tmp (codes "magisk") in
    directory (insert_lib (codes "lib") name bin_path (w.exists bin_path) children)
inject_zygisk_bins_32 w magisk_tmp name system = system
