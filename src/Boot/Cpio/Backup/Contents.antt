-- ===== src/Boot/Cpio/Backup/Contents.antt =====
-- What stands under one name, before and after `restore` (native/src/boot/cpio.rs).
use magisk_t.Prelude.{
  ◌≡◌, refl, sym, ap, ◌∙◌, inl, inr, Bool, true, false, Option, none, some, List, [], ◌∷◌, arith,
  if◌then◌else◌, Bool-cases, Bytes, is_empty, bytes_eq, bytes_eq_iff,
}
use magisk_t.BtreeMap.{get}
use magisk_t.Boot.Cpio.{CpioEntry, Entries, norm_path, s_ifdir}
use magisk_t.Boot.Cpio.Backup.{backup_dir, rmlist_name, new_entry}
use magisk_t.Boot.Cpio.Backup.Names.{backup_name}
use magisk_t.Boot.Cpio.Backup.Merge.{has, joined, saved_at, added_at}
use magisk_t.Boot.Cpio.Backup.TakenOut.{is_inside}
use magisk_t.Boot.Cpio.Backup.SavedAll.{is_inside-backup_name}

-- The content under a name.
abbrev pub content_at : Option CpioEntry → Option Bytes
content_at none = none
content_at (some e) = some e.content

-- What a restored archive has under a name, from the two entries before.
abbrev pub restored_at : Option CpioEntry → Bool → Option CpioEntry → Option CpioEntry
restored_at (some x) new re = some x
restored_at none new re = if new then none else re

pub restored_at_lem :
    (le re : Option CpioEntry)
    → content_at (restored_at (saved_at le re) (added_at le re) re) ≡ content_at le
restored_at_lem none none = refl
restored_at_lem none (some re) = refl
restored_at_lem (some le) none = refl
restored_at_lem (some le) (some re) = elim (Bool-cases (bytes_eq re.content le.content)) [
  | inl equal ↦ rw (equal) (ap some ((bytes_eq_iff re.content le.content).0 equal))
  | inr differ ↦ rw (differ) refl
]

pub saved_at-left :
    (le re : Option CpioEntry) (x : CpioEntry) → saved_at le re ≡ some x → le ≡ some x
saved_at-left none re x h = absurd (cc h)
saved_at-left (some le) none x h = h
saved_at-left (some le) (some re) x h = ground (arith, h)

pub not_backup_name :
    (k name : Bytes) (e : CpioEntry) → is_inside k ≡ false → bytes_eq (backup_name name e) k ≡ false
not_backup_name k name e out = elim (Bool-cases (bytes_eq (backup_name name e) k)) [
  | inr other ↦ other
  | inl hit ↦
      let inside : is_inside k ≡ true =
        ap is_inside (sym ((bytes_eq_iff (backup_name name e) k).0 hit))
        ∙ is_inside-backup_name name e in
      absurd (cc (inside, out))
]

pub not_dir :
    (k : Bytes)
    → bytes_eq backup_dir k ≡ false
    → get k ((backup_dir, new_entry s_ifdir []) ∷ []) ≡ none
unfolding get
not_dir k other = rw (other) refl

pub not_list : (k : Bytes) → is_inside k ≡ false → bytes_eq rmlist_name k ≡ false
not_list k out = elim (Bool-cases (bytes_eq rmlist_name k)) [
  | inr other ↦ other
  | inl hit ↦
      let inside : is_inside k ≡ true = ap is_inside (sym ((bytes_eq_iff rmlist_name k).0 hit)) in
      absurd (cc (inside, out))
]

pub bytes_ne_symm : (a b : Bytes) → bytes_eq a b ≡ false → bytes_eq b a ≡ false
bytes_ne_symm a b h = elim (Bool-cases (bytes_eq b a)) [
  | inr other ↦ other
  | inl hit ↦
      let same : bytes_eq a b ≡ true = (bytes_eq_iff a b).1 (sym ((bytes_eq_iff b a).0 hit)) in
      absurd (cc (same, h))
]

pub backup_dir_normal : norm_path backup_dir ≡ backup_dir
unfolding norm_path
backup_dir_normal = refl

pub shape :
    (kept : Option CpioEntry) (new : Bool) (re : Option CpioEntry)
    → (elim kept as (λ _. Option CpioEntry) [ some v ↦ some v | none ↦ if new then none else re ])
      ≡ restored_at kept new re
shape none new re = refl
shape (some x) new re = refl

pub not_has :
    (k : Bytes) (names : List Bytes) → is_empty (joined names) ≡ true → has k names ≡ false
unfolding joined has
not_has k [] h = refl
not_has k ([] ∷ names) h = absurd (cc h)
not_has k ((c ∷ name) ∷ names) h = absurd (cc h)

pub is_nil : (m : Entries) → is_empty m ≡ true → m ≡ []
is_nil [] h = refl
is_nil (x ∷ m) h = absurd (cc h)

pub is_empty_nil : (s : Bytes) → is_empty s ≡ true → s ≡ []
is_empty_nil [] h = refl
is_empty_nil (c ∷ s) h = absurd (cc h)
