-- ===== src/Boot/Cpio/Backup/Merge.antt =====
-- What the loop of `backup` saves and records (native/src/boot/cpio.rs), found by lookups.
use magisk_t.Prelude.{
  Ordering, ◌≡◌, refl, sym, ap, ◌∙◌, inl, inr, Bool, true, false, not, ◌||◌, Option, none, some,
  List, [], ◌∷◌, ◌++◌, append-nil, append_assoc, if◌then◌else◌, Bool-cases, Bytes, bytes_eq, cmp,
}
use magisk_t.BtreeMap.{insert}
use magisk_t.BtreeMap.Order.{Lt, less, same, greater, compared}
use magisk_t.Boot.Cpio.{CpioEntry, Entries}
use magisk_t.Boot.Cpio.Backup.{Made, backup_entry, record_entry, backup_changed, backup_loop}
use magisk_t.Boot.Cpio.Backup.Names.{Inverts, backup_name, packed, backup_entry_lem}

-- The entries of the original archive that are saved: those that are gone or have another content.
unfoldable pub saved : Entries → Entries → Entries
saved [] right = []
saved ((ln, le) ∷ left) [] = (ln, le) ∷ saved left []
saved ((ln, le) ∷ left) ((rn, re) ∷ right) = elim (cmp ln rn) [
  | Ordering.lt ↦ (ln, le) ∷ saved left ((rn, re) ∷ right)
  | Ordering.gt ↦ saved ((ln, le) ∷ left) right
  | Ordering.eq ↦
      let rest = saved left right in
      if not (bytes_eq re.content le.content) then (ln, le) ∷ rest else rest
]

-- The names that are new.
unfoldable pub added : Entries → Entries → List Bytes
added [] [] = []
added ((ln, le) ∷ left) [] = added left []
added [] ((rn, re) ∷ right) = rn ∷ added [] right
added ((ln, le) ∷ left) ((rn, re) ∷ right) = elim (cmp ln rn) [
  | Ordering.lt ↦ added left ((rn, re) ∷ right)
  | Ordering.gt ↦ rn ∷ added ((ln, le) ∷ left) right
  | Ordering.eq ↦ added left right
]

unfoldable pub has : Bytes → List Bytes → Bool
has k [] = false
has k (name ∷ names) = bytes_eq name k || has k names

-- What becomes of a name with these two entries, if any.
abbrev pub saved_at : Option CpioEntry → Option CpioEntry → Option CpioEntry
saved_at none re = none
saved_at (some le) none = some le
saved_at (some le) (some re) = if not (bytes_eq re.content le.content) then some le else none

abbrev pub added_at : Option CpioEntry → Option CpioEntry → Bool
added_at none (some re) = true
added_at _ _ = false

unfoldable pub save_all : (Bytes → Option Bytes) → Entries → Entries → Entries
unfolding backup_name packed
save_all encoder [] backups = backups
save_all encoder ((name, e) ∷ entries) backups =
    save_all encoder entries (insert (backup_name name e) (packed encoder e) backups)

unfoldable pub joined : List Bytes → Bytes
joined [] = []
joined (name ∷ names) = (name ++ 0 ∷ []) ++ joined names

module _ (ln : Bytes) (le : CpioEntry) (left : Entries) (rn : Bytes) (re : CpioEntry)
    (right : Entries) where
  pub saved_lt :
      Lt ln rn
      → saved ((ln, le) ∷ left) ((rn, re) ∷ right) ≡ (ln, le) ∷ saved left ((rn, re) ∷ right)
  unfolding saved
  saved_lt c = rw (c, saved) refl

  pub added_lt :
      Lt ln rn → added ((ln, le) ∷ left) ((rn, re) ∷ right) ≡ added left ((rn, re) ∷ right)
  unfolding added
  added_lt c = rw (c, added) refl

  pub saved_gt :
      cmp ln rn ≡ Ordering.gt
      → saved ((ln, le) ∷ left) ((rn, re) ∷ right) ≡ saved ((ln, le) ∷ left) right
  unfolding saved
  saved_gt c = rw (c, saved) refl

  pub added_gt :
      cmp ln rn ≡ Ordering.gt
      → added ((ln, le) ∷ left) ((rn, re) ∷ right) ≡ rn ∷ added ((ln, le) ∷ left) right
  unfolding added
  added_gt c = rw (c, added) refl

  pub saved_eq :
      cmp ln rn ≡ Ordering.eq
      → saved ((ln, le) ∷ left) ((rn, re) ∷ right) ≡ (
          if not (bytes_eq re.content le.content)
          then (ln, le) ∷ saved left right
          else saved left right)
  unfolding saved
  saved_eq c = rw (c, saved) refl

  pub added_eq :
      cmp ln rn ≡ Ordering.eq → added ((ln, le) ∷ left) ((rn, re) ∷ right) ≡ added left right
  unfolding added
  added_eq c = rw (c, added) refl

-- The loop makes what is saved and recorded, on top of what was made before.
abbrev pub on_top : (Bytes → Option Bytes) → Entries → List Bytes → Made → Made
on_top encoder entries names made = record {
  backups = save_all encoder entries made.backups;
  rm_list = made.rm_list ++ joined names;
}

on_top-record_entry :
    (encoder : Bytes → Option Bytes) (entries : Entries) (name : Bytes) (names : List Bytes)
    (made : Made)
    → on_top encoder entries names (record_entry name made)
      ≡ on_top encoder entries (name ∷ names) made
unfolding record_entry joined
on_top-record_entry encoder entries name names made =
    ap (λ l. record { backups = save_all encoder entries made.backups; rm_list = l })
      (append_assoc made.rm_list (name ++ 0 ∷ []) (joined names))

module _ (encoder decoder : Bytes → Option Bytes) (inverts : Inverts encoder decoder) where
  save_first :
      (ln : Bytes) (le : CpioEntry) (left right : Entries) (made : Made) (entries : Entries)
      (names : List Bytes)
      → ((m : Made) → backup_loop encoder false left right m ≡ on_top encoder entries names m)
      → backup_loop encoder false left right (backup_entry encoder false ln le made)
        ≡ on_top encoder ((ln, le) ∷ entries) names made
  unfolding save_all
  save_first ln le left right made entries names later =
      ap (backup_loop encoder false left right)
        (backup_entry_lem encoder decoder inverts ln le made)
      ∙ later _

  pub backup_loop_lem :
      (left right : Entries) (made : Made)
      → backup_loop encoder false left right made
        ≡ on_top encoder (saved left right) (added left right) made
  unfolding backup_loop saved added save_all joined backup_changed
  backup_loop_lem [] [] made =
      ap (λ l. record { backups = made.backups; rm_list = l }) (sym (append-nil made.rm_list))
  backup_loop_lem ((ln, le) ∷ left) [] made =
      save_first ln le left [] made (saved left []) (added left []) (backup_loop_lem left [])
  backup_loop_lem [] ((rn, re) ∷ right) made =
      backup_loop_lem [] right (record_entry rn made)
      ∙ on_top-record_entry encoder [] rn (added [] right) made
  backup_loop_lem ((ln, le) ∷ left) ((rn, re) ∷ right) made =
      let gone = backup_loop_lem left ((rn, re) ∷ right) in
      let new = backup_loop_lem ((ln, le) ∷ left) right in
      let both = backup_loop_lem left right in
      elim (compared ln rn) [
        | less c ↦
            rw (saved_lt ln le left rn re right c, added_lt ln le left rn re right c)
              (rw (c, backup_loop)
                (save_first ln le left ((rn, re) ∷ right) made (saved left ((rn, re) ∷ right))
                  (added left ((rn, re) ∷ right)) gone))
        | greater c _ ↦
            rw (saved_gt ln le left rn re right c, added_gt ln le left rn re right c)
              (rw (c, backup_loop)
                (new (record_entry rn made)
                  ∙ on_top-record_entry encoder (saved ((ln, le) ∷ left) right) rn
                      (added ((ln, le) ∷ left) right) made))
        | same c _ ↦
            rw (saved_eq ln le left rn re right c, added_eq ln le left rn re right c)
              (rw (c, backup_loop)
                (elim (Bool-cases (not (bytes_eq re.content le.content))) [
                  | inl changed ↦
                      rw (changed, backup_changed)
                        (save_first ln le left right made (saved left right) (added left right)
                          both)
                  | inr equal ↦ rw (equal, backup_changed) (both made)
                ]))
      ]
