-- ===== src/Boot/Cpio/Edit.antt =====
-- The commands of native/src/boot/cpio.rs that edit or list the entries.
pub mod Removal
use Prim.Native.Nat.{bit_or}
use magisk_t.Prelude.{
  ℕ, ◌+◌, ◌/◌, Bool, false, not, ◌&&◌, Option, none, some, [], ◌∷◌, ◌++◌, ltb, ◌==◌, if◌then◌else◌,
  Bytes, codes, is_empty, starts_with, strip_prefix, ends_with, ◌>>=◌, Outcome, ok, err,
}
use magisk_t.BtreeMap
use magisk_t.BtreeMap.{get, insert, remove, retain, contains_key}
use magisk_t.Boot.Cpio.{CpioEntry, Entries, s_ifdir, s_ifreg, s_iflnk, s_ifblk, s_ifchr, norm_path}

-- The closure of `retain` in `rm -r`.
unfoldable pub keep_outside : Bytes → Bytes → CpioEntry → Option CpioEntry
keep_outside dir k e = if starts_with k dir then none else some e

unfoldable pub rm : Entries → Bytes → Bool → Entries
rm entries path recursive =
    let p = norm_path path in
    let rest = remove p entries in
    if recursive then retain (keep_outside (p ++ codes "/")) rest else rest

unfoldable pub exists : Entries → Bytes → Bool
exists entries path = contains_key (norm_path path) entries

-- What `get_attr` says of the file that `add` is given; reading its content may fail.
pub data InFile : Type 0 where
  file symlink : Outcome Bytes → InFile
  block_device char_device : (major minor : ℕ) → InFile
  other_file : InFile

abbrev plain_entry : ℕ → Bytes → CpioEntry
plain_entry mode content = record {
  mode = mode;
  uid = 0;
  gid = 0;
  rdevmajor = 0;
  rdevminor = 0;
  content = content;
}

abbrev device_entry : ℕ → ℕ → ℕ → CpioEntry
device_entry mode major minor = record {
  mode = mode;
  uid = 0;
  gid = 0;
  rdevmajor = major;
  rdevminor = minor;
  content = [];
}

-- The entry that `add` makes.
unfoldable pub added_entry : ℕ → InFile → Outcome CpioEntry
added_entry mode (file content) = do c ← content; ok (plain_entry (bit_or mode s_ifreg) c)
added_entry mode (symlink content) = do c ← content; ok (plain_entry (bit_or mode s_ifreg) c)
added_entry mode (block_device major minor) = ok (device_entry (bit_or mode s_ifblk) major minor)
added_entry mode (char_device major minor) = ok (device_entry (bit_or mode s_ifchr) major minor)
added_entry mode other_file = err

unfoldable pub add : Entries → ℕ → Bytes → Outcome InFile → Outcome Entries
add entries mode path attr =
    if ends_with path (codes "/")
    then err
    else do a ← attr; e ← added_entry mode a; ok (insert (norm_path path) e entries)

unfoldable pub mkdir : Entries → ℕ → Bytes → Entries
mkdir entries mode dir = insert (norm_path dir) (plain_entry (bit_or mode s_ifdir) []) entries

unfoldable pub ln : Entries → Bytes → Bytes → Entries
ln entries src dst = insert (norm_path dst) (plain_entry s_iflnk (norm_path src)) entries

unfoldable pub mv : Entries → Bytes → Bytes → Outcome Entries
mv entries from to = elim (get (norm_path from) entries) [
  | none ↦ err
  | some e ↦ ok (insert (norm_path to) e (remove (norm_path from) entries))
]

-- `p.matches('/').count()`
pub slashes : Bytes → ℕ
slashes [] = 0
slashes (c ∷ p) = (if c == b'/' then 1 else 0) + slashes p

-- Whether the loop of `ls` prints an entry; `path` is empty or begins with `/`.
unfoldable pub listed : Bytes → Bool → Bytes → Bool
listed path recursive name = elim (strip_prefix (codes "/" ++ name) path) [
  | none ↦ false
  | some p ↦
      if not (is_empty p) && not (starts_with p (codes "/"))
      then false
      else not (not recursive && not (is_empty p) && ltb 1 (slashes p))
]

pub ls_entries : Bytes → Bool → Entries → Entries
ls_entries path recursive [] = []
ls_entries path recursive ((name, e) ∷ entries) =
    let rest = ls_entries path recursive entries in
    if listed path recursive name then (name, e) ∷ rest else rest

-- The entries that `ls` prints, in order.
unfoldable pub ls : Entries → Bytes → Bool → Entries
ls entries path recursive =
    let p = norm_path path in
    ls_entries (if is_empty p then p else codes "/" ++ p) recursive entries
