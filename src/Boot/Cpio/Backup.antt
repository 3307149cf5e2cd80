-- ===== src/Boot/Cpio/Backup.antt =====
-- `backup` and `restore` of native/src/boot/cpio.rs. The xz encoder and decoder are parameters:
-- `none` is an error of theirs. The `HashMap` of backups is a `BtreeMap` here; it is only filled
-- and then poured into the entries, so its order does not matter.
pub mod Names
pub mod Merge
pub mod Kinds
pub mod TakenOut
pub mod RmList
pub mod Removed
pub mod SavedAll
pub mod Contents
pub mod After
pub mod Restored
mod Tests
pub mod Kept
use magisk_t.Prelude.{
  ℕ, ◌-◌, Ordering, Bool, true, false, not, ◌&&◌, Option, none, some, List, [], ◌∷◌, ◌++◌,
  if◌then◌else◌, Bytes, codes, length, take, drop, is_empty, bytes_eq, cmp, starts_with, ends_with,
  split, ◌>>=◌, Outcome, ok,
}
use magisk_t.Prelude.Utf8.{is_utf8}
use magisk_t.BtreeMap.{insert, extend}
use magisk_t.Boot.Cpio.{CpioEntry, Entries, s_ifdir, s_ifreg, is_regular}
use magisk_t.Boot.Cpio.Edit.{rm}

-- `CpioEntry::compress` and `CpioEntry::decompress`: `none` where they return false.
unfoldable pub recode : (Bytes → Option Bytes) → CpioEntry → Option CpioEntry
recode coder e =
    if not (is_regular e)
    then none
    else elim (coder e.content) [ none ↦ none | some d ↦ some (record e { content = d }) ]

abbrev pub backup_dir : Bytes
backup_dir = codes ".backup"

abbrev pub backup_prefix : Bytes
backup_prefix = codes ".backup/"

abbrev pub rmlist_name : Bytes
rmlist_name = codes ".backup/.rmlist"

abbrev pub magisk_name : Bytes
magisk_name = codes ".backup/.magisk"

-- What `restore` has taken out of the entries so far.
pub record Taken : Type 0 where
  pub entries : Entries
  pub backups : Entries
  pub rm_list : Bytes

-- `&name[8..]`
abbrev pub without_prefix : Bytes → Bytes
without_prefix name = drop 8 name

-- `&name[8..name.len() - 3]`
abbrev pub without_affixes : Bytes → Bytes
without_affixes name = take (length name - 3 - 8) (drop 8 name)

-- The name and entry that one backup is restored to.
unfoldable pub restored : (Bytes → Option Bytes) → Bytes → CpioEntry → Bytes × CpioEntry
restored decoder name e =
    if ends_with name (codes ".xz")
    then elim (recode decoder e) [
      | some e' ↦ (without_affixes name, e')
      | none ↦ (without_prefix name, e)
    ]
    else (without_prefix name, e)

-- The closure over `extract_if`, for one entry.
unfoldable pub take_out : (Bytes → Option Bytes) → Bytes → CpioEntry → Taken → Taken
take_out decoder name e t =
    if not (starts_with name backup_prefix)
    then record t { entries = t.entries ++ (name, e) ∷ [] }
    else if bytes_eq name rmlist_name
    then (if is_utf8 e.content then record t { rm_list = t.rm_list ++ e.content } else t)
    else if bytes_eq name magisk_name
    then t
    else (let (new_name, e') = restored decoder name e in
        record t { backups = insert new_name e' t.backups })

unfoldable pub take_all : (Bytes → Option Bytes) → Entries → Taken → Taken
take_all decoder [] t = t
take_all decoder ((name, e) ∷ entries) t = take_all decoder entries (take_out decoder name e t)

-- `for rm in rm_list.split('\0') { if !rm.is_empty() { self.rm(rm, false) } }`
unfoldable pub rm_each : List Bytes → Entries → Entries
rm_each [] entries = entries
rm_each ([] ∷ names) entries = rm_each names entries
rm_each ((c ∷ name) ∷ names) entries = rm_each names (rm entries (c ∷ name) false)

unfoldable pub restore : (Bytes → Option Bytes) → Entries → Entries
restore decoder entries =
    let t = take_all decoder entries (record { entries = []; backups = []; rm_list = [] }) in
    let left = rm t.entries backup_dir false in
    if is_empty t.rm_list && is_empty t.backups
    then []
    else extend (rm_each (split 0 t.rm_list) left) t.backups

abbrev pub new_entry : ℕ → Bytes → CpioEntry
new_entry mode content = record {
  mode = mode;
  uid = 0;
  gid = 0;
  rdevmajor = 0;
  rdevminor = 0;
  content = content;
}

-- The backups and the list of new names that the loop of `backup` has made.
pub record Made : Type 0 where
  pub backups : Entries
  pub rm_list : Bytes

-- `Action::Backup`
unfoldable pub backup_entry : (Bytes → Option Bytes) → Bool → Bytes → CpioEntry → Made → Made
backup_entry encoder skip_compress name e s =
    elim (if skip_compress then none else recode encoder e) [
      | some e' ↦ record s {
        backups = insert (backup_prefix ++ (name ++ codes ".xz")) e' s.backups;
      }
      | none ↦ record s { backups = insert (backup_prefix ++ name) e s.backups }
    ]

-- `Action::Record`
unfoldable pub record_entry : Bytes → Made → Made
record_entry name s = record s { rm_list = s.rm_list ++ (name ++ 0 ∷ []) }

-- `Ordering::Equal`
unfoldable pub backup_changed :
    (Bytes → Option Bytes) → Bool → Bytes → CpioEntry → CpioEntry → Made → Made
backup_changed encoder skip_compress name le re s =
    if not (bytes_eq re.content le.content) then backup_entry encoder skip_compress name le s else s

-- The loop over both archives, in the order of their names: an iterator with the entry that was
-- put back is the list that still starts with it.
unfoldable pub backup_loop : (Bytes → Option Bytes) → Bool → Entries → Entries → Made → Made
backup_loop encoder skip [] [] s = s
backup_loop encoder skip ((ln, le) ∷ left) [] s =
    backup_loop encoder skip left [] (backup_entry encoder skip ln le s)
backup_loop encoder skip [] ((rn, re) ∷ right) s =
    backup_loop encoder skip [] right (record_entry rn s)
backup_loop encoder skip ((ln, le) ∷ left) ((rn, re) ∷ right) s = elim (cmp ln rn) [
  | Ordering.lt ↦
      backup_loop encoder skip left ((rn, re) ∷ right) (backup_entry encoder skip ln le s)
  | Ordering.gt ↦ backup_loop encoder skip ((ln, le) ∷ left) right (record_entry rn s)
  | Ordering.eq ↦ backup_loop encoder skip left right (backup_changed encoder skip ln le re s)
]

-- What is poured into the entries: the directory, the backups and the list, if there is one.
unfoldable pub with_rmlist : Made → Entries
with_rmlist s =
    if is_empty s.rm_list
    then s.backups
    else insert rmlist_name (new_entry s_ifreg s.rm_list) s.backups

-- `origin` is what `load_from_file` returned for the original archive.
unfoldable pub backup : (Bytes → Option Bytes) → Entries → Outcome Entries → Bool → Outcome Entries
backup encoder entries origin skip_compress = do
  loaded ← origin
  let o = rm loaded backup_dir true
  let own = rm entries backup_dir true
  let first : Entries = (backup_dir, new_entry s_ifdir []) ∷ []
  let made = backup_loop encoder skip_compress o own (record { backups = first; rm_list = [] })
  ok (extend own (with_rmlist made))
