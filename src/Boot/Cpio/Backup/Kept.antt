-- ===== src/Boot/Cpio/Backup/Kept.antt =====
-- `backup` of native/src/boot/cpio.rs leaves the files of the archive alone.
use magisk_t.Prelude.{
  ◌≡◌, refl, ap, ◌∙◌, inl, inr, Bool, true, false, Option, none, [], ◌∷◌, if◌then◌else◌, Bool-cases,
  Option-cases, Bytes, codes, is_empty, All, bytes_eq, bytes_eq_iff, starts_with, ok,
}
use magisk_t.BtreeMap.{insert, get, extend}
use magisk_t.BtreeMap.Order.{less, same, greater, compared}
use magisk_t.BtreeMap.Laws.{IsSorted, get-insert}
use magisk_t.Boot.Cpio.{CpioEntry, Entries, norm_path}
use magisk_t.Boot.Cpio.Edit.{rm}
use magisk_t.Boot.Cpio.Edit.Removal.{covers, starts_with-append, get-rm}
use magisk_t.Boot.Cpio.Backup.{
  recode, backup_dir, rmlist_name, Made, backup_entry, record_entry, backup_changed, backup_loop,
  with_rmlist, backup,
}

-- The names of `.backup` and of what it holds.
abbrev pub IsSaved : Bytes → Type 0
IsSaved name = starts_with name backup_dir ≡ true

abbrev AllSaved : Entries → Type 0
AllSaved = All (λ x. IsSaved x.0)

insert-AllSaved :
    (k : Bytes) (e : CpioEntry) (m : Entries) → IsSaved k → AllSaved m → AllSaved (insert k e m)
unfolding insert
insert-AllSaved k e [] h s = (h, tt)
insert-AllSaved k e ((j, d) ∷ m) h s = elim (compared k j) [
  | less c ↦ rw (c, insert) (h, s)
  | same c _ ↦ rw (c, insert) (h, s.1)
  | greater c _ ↦ rw (c, insert) (s.0, insert-AllSaved k e m h s.1)
]

backup_entry-AllSaved :
    (encoder : Bytes → Option Bytes) (skip : Bool) (name : Bytes) (e : CpioEntry) (made : Made)
    → AllSaved made.backups
    → AllSaved (backup_entry encoder skip name e made).backups
unfolding backup_entry
backup_entry-AllSaved encoder skip name e made s =
    elim (Option-cases (if skip then none else recode encoder e)) [
      | inl none_left ↦ rw (none_left, backup_entry) (insert-AllSaved _ e made.backups refl s)
      | inr (e', packed) ↦ rw (packed, backup_entry) (insert-AllSaved _ e' made.backups refl s)
    ]

backup_changed-AllSaved :
    (encoder : Bytes → Option Bytes) (skip : Bool) (name : Bytes) (le re : CpioEntry) (made : Made)
    → AllSaved made.backups
    → AllSaved (backup_changed encoder skip name le re made).backups
unfolding backup_changed
backup_changed-AllSaved encoder skip name le re made s =
    elim (Bool-cases (bytes_eq re.content le.content)) [
      | inl equal ↦ rw equal s
      | inr changed ↦ rw changed (backup_entry-AllSaved encoder skip name le made s)
    ]

backup_loop-AllSaved :
    (encoder : Bytes → Option Bytes) (skip : Bool) (left right : Entries) (made : Made)
    → AllSaved made.backups
    → AllSaved (backup_loop encoder skip left right made).backups
unfolding backup_loop record_entry
backup_loop-AllSaved encoder skip [] [] made s = s
backup_loop-AllSaved encoder skip ((ln, le) ∷ left) [] made s =
    backup_loop-AllSaved encoder skip left [] _ (backup_entry-AllSaved encoder skip ln le made s)
backup_loop-AllSaved encoder skip [] ((rn, re) ∷ right) made s =
    backup_loop-AllSaved encoder skip [] right (record_entry rn made) s
backup_loop-AllSaved encoder skip ((ln, le) ∷ left) ((rn, re) ∷ right) made s =
    elim (compared ln rn) [
      | less c ↦
          rw (c, backup_loop)
            (backup_loop-AllSaved encoder skip left ((rn, re) ∷ right) _
              (backup_entry-AllSaved encoder skip ln le made s))
      | same c _ ↦
          rw (c, backup_loop)
            (backup_loop-AllSaved encoder skip left right _
              (backup_changed-AllSaved encoder skip ln le re made s))
      | greater c _ ↦
          rw (c, backup_loop)
            (backup_loop-AllSaved encoder skip ((ln, le) ∷ left) right (record_entry rn made) s)
    ]

with_rmlist-AllSaved : (made : Made) → AllSaved made.backups → AllSaved (with_rmlist made)
unfolding with_rmlist
with_rmlist-AllSaved made s = elim (Bool-cases (is_empty made.rm_list)) [
  | inl nothing ↦ rw nothing s
  | inr some_names ↦ rw some_names (insert-AllSaved rmlist_name _ made.backups refl s)
]

not_saved : (j k : Bytes) → IsSaved j → starts_with k backup_dir ≡ false → bytes_eq j k ≡ false
not_saved j k h n = elim (Bool-cases (bytes_eq j k)) [
  | inr other ↦ other
  | inl hit ↦ absurd (cc (h, n, ap (λ x. starts_with x backup_dir) ((bytes_eq_iff j k).0 hit)))
]

get-extend :
    (k : Bytes) (m n : Entries)
    → starts_with k backup_dir ≡ false
    → AllSaved n
    → get k (extend m n) ≡ get k m
unfolding extend
get-extend k m [] h s = refl
get-extend k m ((j, e) ∷ n) h s =
    get-extend k (insert j e m) n h s.1 ∙ get-insert j k e m ∙ rw (not_saved j k s.0 h)

backup_dir_normal : norm_path backup_dir ≡ backup_dir
unfolding norm_path
backup_dir_normal = refl

covers_none :
    (k : Bytes) → starts_with k backup_dir ≡ false → covers (norm_path backup_dir) true k ≡ false
covers_none k h =
    ap (λ p. covers p true k) backup_dir_normal
    ∙ rw (not_saved backup_dir k refl h) (starts_with-append k backup_dir (codes "/") ∙ rw h)

-- Where the original archive can be read and the archive is in key order, `backup` succeeds, and
-- every name that does not start with `.backup` has afterwards what it had before, whatever the
-- original archive holds and whatever the encoder does.
pub get-backup :
    (encoder : Bytes → Option Bytes) (entries origin : Entries) (skip : Bool)
    → IsSorted entries
    → (after : Entries) × (backup encoder entries (ok origin) skip ≡ ok after)
      × ((k : Bytes) → starts_with k backup_dir ≡ false → get k after ≡ get k entries)
unfolding backup
get-backup encoder entries origin skip sorted = (
  _,
  refl,
  λ k h.
      get-extend k (rm entries backup_dir true) _ h
        (with_rmlist-AllSaved _ (backup_loop-AllSaved encoder skip _ _ _ (refl, tt)))
      ∙ get-rm entries backup_dir true k sorted
      ∙ rw (covers_none k h),
)
