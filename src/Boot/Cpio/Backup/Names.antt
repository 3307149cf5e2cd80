-- ===== src/Boot/Cpio/Backup/Names.antt =====
-- The names of saved entries, and the list of names to remove (native/src/boot/cpio.rs).
use magisk_t.Prelude.{
  ◌-◌, ◌≡◌, refl, sym, ap, ap₂, ◌∙◌, inl, inr, true, false, not, Option, none, some, ◌++◌,
  append_assoc, arith, if◌then◌else◌, Bool-cases, Bytes, codes, length, take, drop, length-append,
  take-append, drop-append, bytes_eq, bytes_eq_iff, ends_with,
}
use magisk_t.Boot.Cpio.{CpioEntry, is_regular}
use magisk_t.Boot.Cpio.Backup.{
  recode, backup_prefix, without_prefix, without_affixes, restored, Made, backup_entry,
}
use magisk_t.BtreeMap.{insert}

-- The decoder undoes the encoder, which never fails.
abbrev pub Inverts : (Bytes → Option Bytes) → (Bytes → Option Bytes) → Type 0
Inverts encoder decoder = (x : Bytes) → (y : Bytes) × (encoder x ≡ some y) × (decoder y ≡ some x)

-- The name under which an entry is saved: only regular files are compressed.
unfoldable pub backup_name : Bytes → CpioEntry → Bytes
backup_name name e = backup_prefix ++ (if is_regular e then name ++ codes ".xz" else name)

unfoldable pub packed : (Bytes → Option Bytes) → CpioEntry → CpioEntry
packed encoder e = elim (recode encoder e) [ some e' ↦ e' | none ↦ e ]

ends_with-append : (s p : Bytes) → ends_with (s ++ p) p ≡ true
ends_with-append s p =
    let longer = length-append s p in
    let start : length (s ++ p) - length p ≡ length s = omega (arith, longer) in
    let rest : bytes_eq (drop (length (s ++ p) - length p) (s ++ p)) p ≡ true =
      ap (λ n. bytes_eq (drop n (s ++ p)) p) start
      ∙ ap (λ x. bytes_eq x p) (drop-append s p)
      ∙ (bytes_eq_iff p p).1 refl in
    ground (arith, longer, rest)

without_affixes-name :
    (name : Bytes) → without_affixes (backup_prefix ++ (name ++ codes ".xz")) ≡ name
without_affixes-name name =
    let size : length (backup_prefix ++ (name ++ codes ".xz")) - 3 - 8 ≡ length name =
      omega (arith, length-append name (codes ".xz")) in
    ap (λ n. take n (name ++ codes ".xz")) size ∙ take-append name (codes ".xz")

recode_regular :
    (coder : Bytes → Option Bytes) (e : CpioEntry) (y : Bytes)
    → is_regular e ≡ true
    → coder e.content ≡ some y
    → recode coder e ≡ some (record e { content = y })
unfolding recode
recode_regular coder e y regular coded =
    ap
      (λ b. if not b then none else elim (coder e.content) as (λ _. Option CpioEntry) [
        | none ↦ none
        | some d ↦ some (record e { content = d })
      ])
      regular
    ∙ ap
        (λ o. elim o as (λ _. Option CpioEntry) [
          | none ↦ none
          | some d ↦ some (record e { content = d })
        ])
        coded

recode_other :
    (coder : Bytes → Option Bytes) (e : CpioEntry) → is_regular e ≡ false → recode coder e ≡ none
unfolding recode
recode_other coder e other = rw (other, recode) refl

restored_packed :
    (decoder : Bytes → Option Bytes) (name : Bytes) (small e : CpioEntry)
    → recode decoder small ≡ some e
    → restored decoder (backup_prefix ++ (name ++ codes ".xz")) small ≡ (name, e)
unfolding restored
restored_packed decoder name small e unpacked =
    let long : Bytes = backup_prefix ++ (name ++ codes ".xz") in
    let out : Option CpioEntry → Bytes × CpioEntry =
      λ o. elim o [ some e' ↦ (without_affixes long, e') | none ↦ (without_prefix long, small) ] in
    let ends : ends_with long (codes ".xz") ≡ true =
      ap (λ x. ends_with x (codes ".xz")) (append_assoc backup_prefix name (codes ".xz"))
      ∙ ends_with-append (backup_prefix ++ name) (codes ".xz") in
    ap (λ b. if b then out (recode decoder small) else (without_prefix long, small)) ends
    ∙ ap out unpacked
    ∙ ap (λ n. (n, e)) (without_affixes-name name)

restored_plain :
    (decoder : Bytes → Option Bytes) (name : Bytes) (e : CpioEntry)
    → is_regular e ≡ false
    → restored decoder (backup_prefix ++ name) e ≡ (name, e)
unfolding restored
restored_plain decoder name e other =
    elim (Bool-cases (ends_with (backup_prefix ++ name) (codes ".xz"))) [
      | inl ends ↦ rw (ends, recode_other decoder e other) refl
      | inr plain ↦ rw (plain) refl
    ]

-- How an entry is saved: compressed, or as it is.
pub data Saving (encoder decoder : Bytes → Option Bytes) (name : Bytes) (e : CpioEntry)
    : Type 0 where
  small :
      (e' : CpioEntry)
      → recode encoder e ≡ some e'
      → recode decoder e' ≡ some e
      → backup_name name e ≡ backup_prefix ++ (name ++ codes ".xz")
      → packed encoder e ≡ e'
      → Saving encoder decoder name e
  plain :
      recode encoder e ≡ none
      → is_regular e ≡ false
      → backup_name name e ≡ backup_prefix ++ name
      → packed encoder e ≡ e
      → Saving encoder decoder name e

module _ (encoder decoder : Bytes → Option Bytes) (inverts : Inverts encoder decoder) (name : Bytes)
    (e : CpioEntry) where
  pub saving : Saving encoder decoder name e
  unfolding backup_name packed
  saving = elim (Bool-cases (is_regular e)) [
    | inl regular ↦
        let (y, encoded, decoded) = inverts e.content in
        let e' : CpioEntry = record e { content = y } in
        let is_small = recode_regular encoder e y regular encoded in
        small e' is_small
          (recode_regular decoder e' e.content (unfold is_regular in regular) decoded)
          (rw (regular) refl) (ap (λ o. elim o [ some e' ↦ e' | none ↦ e ]) is_small)
    | inr other ↦
        let is_plain = recode_other encoder e other in
        plain is_plain other (rw (other) refl)
          (ap (λ o. elim o [ some e' ↦ e' | none ↦ e ]) is_plain)
  ]

  -- A saved entry is restored under its own name and as it was.
  pub restored-backup_name : restored decoder (backup_name name e) (packed encoder e) ≡ (name, e)
  restored-backup_name = elim saving [
    | small e' _ unpacked named is_packed ↦
        ap₂ (restored decoder) named is_packed ∙ restored_packed decoder name e' e unpacked
    | plain _ other named is_packed ↦
        ap₂ (restored decoder) named is_packed ∙ restored_plain decoder name e other
  ]

  pub backup_entry_lem :
      (made : Made)
      → backup_entry encoder false name e made
        ≡ record made { backups = insert (backup_name name e) (packed encoder e) made.backups }
  unfolding backup_entry
  backup_entry_lem made =
      let out : Option CpioEntry → Made = λ o. elim o [
        | some e' ↦ record made {
          backups = insert (backup_prefix ++ (name ++ codes ".xz")) e' made.backups;
        }
        | none ↦ record made { backups = insert (backup_prefix ++ name) e made.backups }
      ] in
      let into : Bytes → CpioEntry → Made =
        λ k x. record made { backups = insert k x made.backups } in
      elim saving [
        | small e' is_small _ named is_packed ↦ ap out is_small ∙ sym (ap₂ into named is_packed)
        | plain is_plain _ named is_packed ↦ ap out is_plain ∙ sym (ap₂ into named is_packed)
      ]
