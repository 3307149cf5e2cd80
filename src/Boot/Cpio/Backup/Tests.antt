-- ===== src/Boot/Cpio/Backup/Tests.antt =====
-- `restore` after `backup` (native/src/boot/cpio.rs) at concrete archives.
use magisk_t.Prelude.{
  ℕ, ◌≡◌, refl, sym, ap, ap₂, subst, ◌∙◌, inl, inr, false, Option, none, some, [], ◌∷◌,
  if◌then◌else◌, Bool-cases, Bytes, codes, All, bytes_eq, bytes_eq_iff, ◌>>=◌, ok,
}
use magisk_t.Prelude.Utf8.{is_utf8}
use magisk_t.BtreeMap.{get, insert, remove, retain, extend}
use magisk_t.Boot.Cpio.{CpioEntry, Entries, norm_path, is_regular}
use magisk_t.Boot.Cpio.Edit.{rm, keep_outside}
use magisk_t.Boot.Cpio.Backup.{
  rmlist_name, magisk_name, backup, restore, recode, rm_each, backup_loop, backup_changed,
  backup_entry, restored, take_all, take_out, with_rmlist,
}
use magisk_t.Boot.Cpio.Backup.Names.{Inverts, backup_name}
use magisk_t.Boot.Cpio.Backup.Removed.{IsPlain}
use magisk_t.Boot.Cpio.Backup.SavedAll.{IsDistinct}
use magisk_t.Boot.Cpio.Backup.Contents.{content_at}
use magisk_t.Boot.Cpio.Backup.Restored.{without_backup, restore-backup}

abbrev encoder : Bytes → Option Bytes
encoder x = some (0xFD ∷ x)

abbrev decoder : Bytes → Option Bytes
decoder [] = none
decoder (c ∷ x) = some x

inverts : Inverts encoder decoder
inverts x = (0xFD ∷ x, refl, refl)

abbrev file_of : ℕ → Bytes → CpioEntry
file_of mode content = record {
  mode = mode;
  uid = 0;
  gid = 0;
  rdevmajor = 0;
  rdevminor = 0;
  content = content;
}

abbrev stock_init : CpioEntry
stock_init = file_of 0o100750 (codes "stock")

abbrev stock : Entries
stock = (codes "init", stock_init) ∷ []

abbrev with_magisk : Entries
with_magisk =
    (codes "init", file_of 0o100750 (codes "magisk")) ∷ (codes "overlay.d", file_of 0o40750 []) ∷ []

stock_only :
    (k : Bytes) (e : CpioEntry)
    → get k stock ≡ some e
    → ◌≡◌ {A = Bytes × CpioEntry} (codes "init", stock_init) (k, e)
unfolding get
stock_only k e h = elim (Bool-cases (bytes_eq (codes "init") k)) [
  | inl hit ↦
      let found : some stock_init ≡ some e =
        ap (λ b. if b then some stock_init else none) (sym hit) ∙ h in
      let same : stock_init ≡ e = cc found in
      ap₂ (λ a b. (a, b)) ((bytes_eq_iff (codes "init") k).0 hit) same
  | inr miss ↦ absurd (cc (ap (λ b. if b then some stock_init else none) (sym miss) ∙ h))
]

stock-IsDistinct : IsDistinct stock
unfolding backup_name is_regular
stock-IsDistinct = record {
  apart = λ j k d e at_j at_k same.
      sym (ap (λ x. x.0) (stock_only j d at_j)) ∙ ap (λ x. x.0) (stock_only k e at_k);
  no_list = λ k e at_k.
      subst (λ x. bytes_eq (backup_name x.0 x.1) rmlist_name ≡ false) (stock_only k e at_k) refl;
  no_settings = λ k e at_k.
      subst (λ x. bytes_eq (backup_name x.0 x.1) magisk_name ≡ false) (stock_only k e at_k) refl;
}

with_magisk-IsPlain : All (λ x. IsPlain x.0) with_magisk
unfolding norm_path is_utf8
with_magisk-IsPlain = (
  record { below_root = refl; normal = refl; no_nul = refl; text = refl },
  (record { below_root = refl; normal = refl; no_nul = refl; text = refl }, tt),
)

stock_left : without_backup stock ≡ stock
unfolding rm remove retain keep_outside norm_path
stock_left = refl

-- An archive that did not change is restored to nothing.
unchanged_run :
    (do after ← backup encoder stock (ok stock) false; ok (restore decoder after)) ≡ ok []
unfolding backup restore rm remove retain keep_outside norm_path take_all extend with_rmlist
    backup_loop backup_changed take_out
unchanged_run = refl

-- A regular file and a link whose name is the file's with `.xz` are saved under one name, so one of
-- them is lost.
abbrev clashing : Entries
clashing = (codes "a", stock_init) ∷ (codes "a.xz", file_of 0o120777 (codes "b")) ∷ []

clash_run :
    (do after ← backup encoder [] (ok clashing) false; ok (restore decoder after))
    ≡ ok ((codes "a.xz", file_of 0o120777 (codes "b")) ∷ [])
unfolding backup restore rm remove retain keep_outside norm_path take_all extend with_rmlist
    backup_loop backup_changed take_out rm_each backup_entry insert recode is_regular restored
clash_run = refl

restore-backup_example :
    (after : Entries) × (backup encoder with_magisk (ok stock) false ≡ ok after)
    × ((k : Bytes)
        → content_at (get k (restore decoder after)) ≡ content_at (get k (without_backup stock)))
unfolding rm remove retain keep_outside norm_path get
restore-backup_example =
    restore-backup encoder decoder with_magisk stock (codes "init") inverts ((refl, tt), (tt, tt))
      (tt, tt) with_magisk-IsPlain (subst IsDistinct (sym stock_left) stock-IsDistinct) (λ h. cc h)
