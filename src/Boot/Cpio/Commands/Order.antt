-- ===== src/Boot/Cpio/Commands/Order.antt =====
-- The operations of native/src/boot/cpio.rs that change the archive keep it in key order.
use magisk_t.Prelude.{
  ℕ, ◌≡◌, sym, ap, subst, ◌∙◌, inl, inr, Bool, true, false, ◌&&◌, Option, none, some, List, [], ◌∷◌,
  ◌++◌, append-nil, append_assoc, if◌then◌else◌, Bool-cases, Bytes, codes, is_empty, bytes_eq,
  starts_with, ends_with, split, Ok, Ok-bind, Outcome, ok, err, panic,
}
use magisk_t.BtreeMap
use magisk_t.Prelude.Utf8.{is_utf8}
use magisk_t.BtreeMap.{insert, remove, retain, extend}
use magisk_t.BtreeMap.Laws.{
  IsSorted, insert-IsSorted, remove-IsSorted, retain-IsSorted, extend-IsSorted,
}
use magisk_t.Boot.Cpio.{CpioEntry, Entries, norm_path}
use magisk_t.Boot.Cpio.Edit.{InFile, rm, added_entry, add, mkdir, ln, mv}
use magisk_t.Boot.Cpio.Status.{patch_entry, patch}
use magisk_t.Boot.Cpio.Backup.{
  rmlist_name, magisk_name, Taken, backup_prefix, backup_dir, take_out, take_all, rm_each, restore,
  backup,
}

pub rm-IsSorted :
    (entries : Entries) (path : Bytes) (recursive : Bool)
    → IsSorted entries
    → IsSorted (rm entries path recursive)
unfolding rm
rm-IsSorted entries path true s =
    retain-IsSorted _ (remove (norm_path path) entries) (remove-IsSorted (norm_path path) entries s)
rm-IsSorted entries path false s = remove-IsSorted (norm_path path) entries s

pub mv-IsSorted :
    (entries : Entries) (from to : Bytes) → IsSorted entries → Ok IsSorted (mv entries from to)
unfolding mv
mv-IsSorted entries from to s =
    elim (BtreeMap.get (norm_path from) entries)
      as (λ o. Ok IsSorted (elim o [
        | none ↦ err
        | some e ↦ ok (insert (norm_path to) e (remove (norm_path from) entries))
      ])) [
        | none ↦ tt
        | some e ↦ insert-IsSorted (norm_path to) e _ (remove-IsSorted (norm_path from) entries s)
      ]

pub add-IsSorted :
    (entries : Entries) (mode : ℕ) (path : Bytes) (attr : Outcome InFile)
    → IsSorted entries
    → Ok IsSorted (add entries mode path attr)
unfolding add
add-IsSorted entries mode path attr s = elim (Bool-cases (ends_with path (codes "/"))) [
  | inl slash ↦ rw slash tt
  | inr plain ↦ rw plain (
      Ok-bind IsSorted attr _ λ a.
        Ok-bind IsSorted (added_entry mode a) _ λ e. insert-IsSorted (norm_path path) e entries s)
]

-- The entries that are no backups.
abbrev own : Entries → Entries
own = retain (λ name e. if starts_with name backup_prefix then none else some e)

take_out-entries :
    (decoder : Bytes → Option Bytes) (name : Bytes) (e : CpioEntry) (t : Taken)
    → (take_out decoder name e t).entries
      ≡ (if starts_with name backup_prefix then t.entries else t.entries ++ (name, e) ∷ [])
unfolding take_out
take_out-entries decoder name e t = elim (Bool-cases (starts_with name backup_prefix)) [
  | inr own ↦ rw (own, take_out)
  | inl saved ↦
      rw (saved, take_out)
        (elim (Bool-cases (bytes_eq name rmlist_name)) [
          | inl list ↦
              rw list (elim (Bool-cases (is_utf8 e.content)) [ inl u ↦ rw u | inr u ↦ rw u ])
          | inr other ↦
              rw other
                (elim (Bool-cases (bytes_eq name magisk_name)) [ inl u ↦ rw u | inr u ↦ rw u ])
        ])
]

take_all-entries :
    (decoder : Bytes → Option Bytes) (entries : Entries) (t : Taken)
    → (take_all decoder entries t).entries ≡ t.entries ++ own entries
unfolding take_all take_out retain
take_all-entries decoder [] t = sym (append-nil t.entries)
take_all-entries decoder ((name, e) ∷ entries) t =
    take_all-entries decoder entries (take_out decoder name e t)
    ∙ ap (λ n. n ++ own entries) (take_out-entries decoder name e t)
    ∙ (elim (Bool-cases (starts_with name backup_prefix)) [
      | inl saved ↦ rw saved
      | inr other ↦ rw other (append_assoc t.entries ((name, e) ∷ []) (own entries))
    ])

rm_each-IsSorted :
    (names : List Bytes) (entries : Entries) → IsSorted entries → IsSorted (rm_each names entries)
unfolding rm_each
rm_each-IsSorted [] entries s = s
rm_each-IsSorted ([] ∷ names) entries s = rm_each-IsSorted names entries s
rm_each-IsSorted ((c ∷ name) ∷ names) entries s =
    rm_each-IsSorted names (rm entries (c ∷ name) false) (rm-IsSorted entries (c ∷ name) false s)

pub restore-IsSorted :
    (decoder : Bytes → Option Bytes) (entries : Entries)
    → IsSorted entries
    → IsSorted (restore decoder entries)
unfolding restore
restore-IsSorted decoder entries s =
    let t : Taken =
      take_all decoder entries (record { entries = []; backups = []; rm_list = [] }) in
    let kept : IsSorted t.entries =
      subst IsSorted
        (sym
          (take_all-entries decoder entries (record { entries = []; backups = []; rm_list = [] })))
        (retain-IsSorted _ entries s) in
    elim (Bool-cases (is_empty t.rm_list && is_empty t.backups)) [
      | inl nothing ↦ rw nothing tt
      | inr some_left ↦ rw some_left (
          extend-IsSorted _ t.backups
            (rm_each-IsSorted (split 0 t.rm_list) _ (rm-IsSorted t.entries backup_dir false kept)))
    ]

pub backup-IsSorted :
    (encoder : Bytes → Option Bytes) (entries : Entries) (origin : Outcome Entries) (skip : Bool)
    → IsSorted entries
    → Ok IsSorted (backup encoder entries origin skip)
unfolding backup
backup-IsSorted encoder entries (ok o) skip s =
    extend-IsSorted _ _ (rm-IsSorted entries backup_dir true s)
backup-IsSorted encoder entries err skip s = tt
backup-IsSorted encoder entries panic skip s = tt

pub patch-IsSorted :
    (keep_verity keep_force_encrypt : Bool) (entries : Entries)
    → IsSorted entries
    → IsSorted (patch keep_verity keep_force_encrypt entries)
unfolding patch
patch-IsSorted v f entries s = retain-IsSorted (patch_entry v f) entries s

pub mkdir-IsSorted :
    (entries : Entries) (mode : ℕ) (dir : Bytes)
    → IsSorted entries
    → IsSorted (mkdir entries mode dir)
unfolding mkdir
mkdir-IsSorted entries mode dir s = insert-IsSorted (norm_path dir) _ entries s

pub ln-IsSorted :
    (entries : Entries) (src dst : Bytes) → IsSorted entries → IsSorted (ln entries src dst)
unfolding ln
ln-IsSorted entries src dst s = insert-IsSorted (norm_path dst) _ entries s
