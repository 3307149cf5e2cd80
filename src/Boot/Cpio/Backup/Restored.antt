-- ===== src/Boot/Cpio/Backup/Restored.antt =====
-- `restore` after `backup` (native/src/boot/cpio.rs).
use magisk_t.Prelude.{
  ◌≡◌, sym, ap, ◌∙◌, ◌≢◌, inl, inr, true, false, ◌||◌, Option, none, some, [], ◌∷◌, ◌++◌, arith,
  if◌then◌else◌, Bool-cases, Bytes, codes, All, bytes_eq, starts_with, ok,
}
use magisk_t.BtreeMap.{get, extend}
use magisk_t.BtreeMap.Laws.{IsSorted}
use magisk_t.BtreeMap.Lookups.{All-get}
use magisk_t.Boot.Cpio.{CpioEntry, Entries, s_ifdir}
use magisk_t.Boot.Cpio.Edit.{rm}
use magisk_t.Boot.Cpio.Edit.Removal.{get-rm}
use magisk_t.Boot.Cpio.Backup.{backup_dir, restore, new_entry, with_rmlist, backup}
use magisk_t.Boot.Cpio.Backup.Names.{Inverts}
use magisk_t.Boot.Cpio.Backup.Merge.{backup_loop_lem}
use magisk_t.Boot.Cpio.Backup.TakenOut.{is_inside}
use magisk_t.Boot.Cpio.Backup.Removed.{IsPlain}
use magisk_t.Boot.Cpio.Backup.SavedAll.{IsDistinct, rm-IsSorted}
use magisk_t.BtreeMap.Lookups.{All-found}
use magisk_t.Boot.Cpio.Backup.After.{after, restore-after}
use magisk_t.Boot.Cpio.Backup.Contents.{content_at, backup_dir_normal}

-- The entries outside `.backup`.
abbrev pub without_backup : Entries → Entries
without_backup entries = rm entries backup_dir true

get-without_backup :
    (entries : Entries) (k : Bytes)
    → IsSorted entries
    → get k (without_backup entries)
      ≡ (if bytes_eq backup_dir k || is_inside k then none else get k entries)
get-without_backup entries k s =
    get-rm entries backup_dir true k s
    ∙ ap (λ p. if bytes_eq p k || starts_with k (p ++ codes "/") then none else get k entries)
        backup_dir_normal

found_before :
    (entries : Entries) (k : Bytes) (e : CpioEntry)
    → IsSorted entries
    → get k (without_backup entries) ≡ some e
    → get k entries ≡ some e
found_before entries k e s found = elim (Bool-cases (bytes_eq backup_dir k || is_inside k)) [
  | inl gone ↦ absurd (
      cc (found, get-without_backup entries k s ∙ ap (λ b. if b then none else get k entries) gone))
  | inr kept ↦
      sym (get-without_backup entries k s ∙ ap (λ b. if b then none else get k entries) kept)
      ∙ found
]

-- `restore` takes back a `backup` that compresses. Both archives are in key order, the encoder never
-- fails and the decoder undoes it, no two entries of the original are saved under one name, and none
-- under the names `.backup/.rmlist` and `.backup/.magisk`, which an entry of the original named
-- `.rmlist` or `.magisk` would be if it is no regular file. The names of the archive are in normal
-- form, below the root, without NUL and UTF-8, and some name outside `.backup` differs. Then `backup` succeeds, and what it leaves is restored to entries with exactly
-- the names and contents that the original has outside `.backup`.
pub restore-backup :
    (encoder decoder : Bytes → Option Bytes) (entries origin : Entries) (changed : Bytes)
    → Inverts encoder decoder
    → IsSorted entries
    → IsSorted origin
    → All (λ x. IsPlain x.0) entries
    → IsDistinct (without_backup origin)
    → content_at (get changed (without_backup entries))
      ≢ content_at (get changed (without_backup origin))
    → (after : Entries) × (backup encoder entries (ok origin) false ≡ ok after)
      × ((k : Bytes)
          → content_at (get k (restore decoder after)) ≡ content_at (get k (without_backup origin)))
unfolding backup
restore-backup encoder decoder entries origin changed inverts s t plain distinct differs =
    let o = without_backup origin in
    let own = without_backup entries in
    let o_sorted = rm-IsSorted origin backup_dir t in
    let own_sorted = rm-IsSorted entries backup_dir s in
    let own_plain : All (λ x. IsPlain x.0) own =
      All-found (λ x. IsPlain x.0) own own_sorted
        λ k e found.
          All-get (λ x. IsPlain x.0) entries plain k e (found_before entries k e s found) in
    let no_dir : get backup_dir own ≡ none = get-without_backup entries backup_dir s in
    let no_saved : (k : Bytes) → is_inside k ≡ true → get k own ≡ none =
      λ k inside. get-without_backup entries k s ∙ ground (arith, inside) in
    let looped =
      backup_loop_lem encoder decoder inverts o own
        (record { backups = (backup_dir, new_entry s_ifdir []) ∷ []; rm_list = [] }) in
    (
      after encoder decoder inverts o own o_sorted own_sorted distinct own_plain no_dir no_saved,
      ap (λ m. ok (extend own (with_rmlist m))) looped,
      restore-after encoder decoder inverts o own o_sorted own_sorted distinct own_plain no_dir
          no_saved changed differs,
    )
