-- ===== src/Boot/Cpio/Backup/SavedAll.antt =====
-- What is found among saved entries (native/src/boot/cpio.rs).
use magisk_t.Prelude.{
  ◌≡◌, refl, sym, ap, ap₂, ◌∙◌, inl, inr, true, false, Option, some, [], ◌∷◌, ◌++◌, if◌then◌else◌,
  Bool-cases, Bytes, codes, All, bytes_eq, bytes_eq_iff,
}
use magisk_t.BtreeMap.{insert, get}
use magisk_t.BtreeMap.Laws.{IsSorted, get-insert, insert-IsSorted, retain-IsSorted, remove-IsSorted}
use magisk_t.BtreeMap.Lookups.{All-insert}
use magisk_t.Boot.Cpio.{CpioEntry, Entries, norm_path}
use magisk_t.Boot.Cpio.Edit.{rm, keep_outside}
use magisk_t.Boot.Cpio.Backup.{rmlist_name, magisk_name}
use magisk_t.Boot.Cpio.Backup.Names.{backup_name, packed}
use magisk_t.Boot.Cpio.Backup.Merge.{save_all}
use magisk_t.Boot.Cpio.Backup.TakenOut.{is_inside}

-- No two entries are saved under one name, and none under the names of the list and of the settings.
pub record IsDistinct (origin : Entries) : Type 0 where
  pub apart :
      (j k : Bytes) (d e : CpioEntry)
      → get j origin ≡ some d
      → get k origin ≡ some e
      → backup_name j d ≡ backup_name k e
      → j ≡ k
  pub no_list :
      (k : Bytes) (e : CpioEntry)
      → get k origin ≡ some e
      → bytes_eq (backup_name k e) rmlist_name ≡ false
  pub no_settings :
      (k : Bytes) (e : CpioEntry)
      → get k origin ≡ some e
      → bytes_eq (backup_name k e) magisk_name ≡ false

pub rm-IsSorted :
    (entries : Entries) (path : Bytes) → IsSorted entries → IsSorted (rm entries path true)
unfolding rm
rm-IsSorted entries path s =
    retain-IsSorted (keep_outside (norm_path path ++ codes "/")) _
      (remove-IsSorted (norm_path path) entries s)

pub is_inside-backup_name : (name : Bytes) (e : CpioEntry) → is_inside (backup_name name e) ≡ true
unfolding backup_name
is_inside-backup_name name e = refl

-- No name but those of saved entries is changed.
pub get-save_all :
    (encoder : Bytes → Option Bytes) (k : Bytes) (entries m : Entries)
    → All (λ x. bytes_eq (backup_name x.0 x.1) k ≡ false) entries
    → get k (save_all encoder entries m) ≡ get k m
unfolding save_all
get-save_all encoder k [] m apart = refl
get-save_all encoder k ((name, e) ∷ entries) m apart =
    get-save_all encoder k entries (insert (backup_name name e) (packed encoder e) m) apart.1
    ∙ get-insert (backup_name name e) k (packed encoder e) m
    ∙ rw (apart.0) refl

module _ (encoder : Bytes → Option Bytes) (origin : Entries) (distinct : IsDistinct origin) where
  abbrev pub IsOwn : Bytes × CpioEntry → Type 0
  IsOwn x = get x.0 origin ≡ some x.1

  save_all-keeps :
      (n : Bytes) (x : CpioEntry) (entries m : Entries)
      → get n origin ≡ some x
      → All IsOwn entries
      → get (backup_name n x) m ≡ some (packed encoder x)
      → get (backup_name n x) (save_all encoder entries m) ≡ some (packed encoder x)
  unfolding save_all
  save_all-keeps n x [] m at_n own h = h
  save_all-keeps n x ((name, e) ∷ entries) m at_n own h =
      save_all-keeps n x entries (insert (backup_name name e) (packed encoder e) m) at_n own.1 (
        get-insert (backup_name name e) (backup_name n x) (packed encoder e) m
        ∙ elim (Bool-cases (bytes_eq (backup_name name e) (backup_name n x))) [
          | inl hit ↦
              let p : name ≡ n =
                distinct.apart name n e x own.0 at_n
                  ((bytes_eq_iff (backup_name name e) (backup_name n x)).0 hit) in
              let twice : some e ≡ some x = sym own.0 ∙ ap (λ y. get y origin) p ∙ at_n in
              let same : e ≡ x = cc twice in rw (hit) (ap (λ y. some (packed encoder y)) same)
          | inr miss ↦ rw (miss) h
        ])

  pub save_all-found :
      (n : Bytes) (x : CpioEntry) (entries m : Entries)
      → All IsOwn entries
      → get n entries ≡ some x
      → get (backup_name n x) (save_all encoder entries m) ≡ some (packed encoder x)
  unfolding save_all get
  save_all-found n x [] m own h = absurd (cc h)
  save_all-found n x ((name, e) ∷ entries) m own h = elim (Bool-cases (bytes_eq name n)) [
    | inl hit ↦
        let p = (bytes_eq_iff name n).0 hit in
        let twice : some e ≡ some x = ap (λ b. if b then some e else get n entries) (sym hit) ∙ h in
        let same : e ≡ x = cc twice in
        let at_n : get n origin ≡ some x = ap (λ y. get y origin) (sym p) ∙ own.0 ∙ twice in
        save_all-keeps n x entries (insert (backup_name name e) (packed encoder e) m) at_n own.1 (
          ap₂ (λ a b. get (backup_name n x) (insert (backup_name a b) (packed encoder b) m)) p same
          ∙ get-insert (backup_name n x) (backup_name n x) (packed encoder x) m
          ∙ rw ((bytes_eq_iff (backup_name n x) (backup_name n x)).1 refl) refl)
    | inr miss ↦
        save_all-found n x entries (insert (backup_name name e) (packed encoder e) m) own.1
          (ap (λ b. if b then some e else get n entries) (sym miss) ∙ h)
  ]

pub save_all-IsSorted :
    (encoder : Bytes → Option Bytes) (entries m : Entries)
    → IsSorted m
    → IsSorted (save_all encoder entries m)
unfolding save_all
save_all-IsSorted encoder [] m s = s
save_all-IsSorted encoder ((name, e) ∷ entries) m s =
    save_all-IsSorted encoder entries _
      (insert-IsSorted (backup_name name e) (packed encoder e) m s)

pub save_all-All :
    (encoder : Bytes → Option Bytes) (P : Bytes × CpioEntry → Type 0) (entries m : Entries)
    → All (λ x. P (backup_name x.0 x.1, packed encoder x.1)) entries
    → All P m
    → All P (save_all encoder entries m)
unfolding save_all
save_all-All encoder P [] m new all = all
save_all-All encoder P ((name, e) ∷ entries) m new all =
    save_all-All encoder P entries _ new.1
      (All-insert P (backup_name name e) (packed encoder e) m new.0 all)
