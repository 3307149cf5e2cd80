-- ===== src/Boot/Cpio/Extract.antt =====
-- `extract` of native/src/boot/cpio.rs: what it creates outside the archive. The file system is a
-- parameter that says which of its calls fail.
use Prim.Native.Nat.{bit_and}
use magisk_t.Prelude.{
  ℕ, ◌^◌, ◌&&◌, ◌||◌, Option, none, some, List, [], ◌∷◌, ltb, ◌==◌, if◌then◌else◌, Bytes, codes,
  bytes_eq, ◌>>=◌, Outcome, ok, err,
}
use magisk_t.Prelude.Utf8.{is_utf8}
use magisk_t.BtreeMap.{get}
use magisk_t.Boot.Cpio.{
  CpioEntry, Entries, s_ifmt, s_ifdir, s_ifreg, s_iflnk, s_ifblk, s_ifchr, norm_path,
}

pub data Created : Type 0 where
  directory : (mode : ℕ) → Created
  regular : (mode : ℕ) (content : Bytes) → Created
  link_to : (target : Bytes) → Created
  device : (mode major minor : ℕ) → Created

-- `mkdirs` of the parent directory of a path, and the creation at the path itself.
pub record FileSystem : Type 0 where
  pub make_parents : Bytes → Outcome (Unit {0})
  pub create : Bytes → Created → Outcome (Unit {0})

-- What an entry is to become; the result of `mknod` is not looked at.
unfoldable pub create_entry : FileSystem → CpioEntry → Bytes → Outcome Created
create_entry fs e out =
    let mode = bit_and e.mode 0o777 in
    let kind = bit_and e.mode s_ifmt in
    if kind == s_ifdir
    then (do _ ← fs.create out (directory mode); ok (directory mode))
    else if kind == s_ifreg
    then (do _ ← fs.create out (regular mode e.content); ok (regular mode e.content))
    else if kind == s_iflnk
    then (if is_utf8 e.content
        then (do _ ← fs.create out (link_to e.content); ok (link_to e.content))
        else err)
    else if kind == s_ifblk || kind == s_ifchr
    then (if ltb e.rdevmajor (2 ^ 32) && ltb e.rdevminor (2 ^ 32)
        then ok (device e.mode e.rdevmajor e.rdevminor)
        else err)
    else err

unfoldable pub extract_entry : FileSystem → Entries → Bytes → Bytes → Outcome (Bytes × Created)
extract_entry fs entries path out = elim (get path entries) [
  | none ↦ err
  | some e ↦ do _ ← fs.make_parents out; made ← create_entry fs e out; ok (out, made)
]

-- `for path in self.entries.keys()`
unfoldable pub extract_keys : FileSystem → Entries → Entries → Outcome (List (Bytes × Created))
extract_keys fs entries [] = ok []
extract_keys fs entries ((path, _) ∷ keys) =
    let rest = extract_keys fs entries keys in
    if bytes_eq path (codes ".") || bytes_eq path (codes "..")
    then rest
    else do made ← extract_entry fs entries path path; others ← rest; ok (made ∷ others)

unfoldable pub extract :
    FileSystem → Entries → Option Bytes → Option Bytes → Outcome (List (Bytes × Created))
unfolding extract_keys
extract fs entries (some path) (some out) = do
  made ← extract_entry fs entries (norm_path path) out
  ok (made ∷ [])
extract fs entries _ _ = extract_keys fs entries entries
