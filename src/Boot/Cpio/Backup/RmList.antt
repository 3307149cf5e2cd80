-- ===== src/Boot/Cpio/Backup/RmList.antt =====
-- The list of names that `restore` reads out of an archive (native/src/boot/cpio.rs).
use magisk_t.Prelude.{
  ◌≡◌, refl, sym, ap, ap₂, subst, ◌∙◌, inl, inr, true, false, Option, none, some, [], ◌∷◌, ◌++◌,
  append-nil, if◌then◌else◌, Bool-cases, Bytes, bytes_eq, bytes_eq_iff,
}
use magisk_t.Prelude.Utf8.{is_utf8}
use magisk_t.BtreeMap.{get}
use magisk_t.BtreeMap.Laws.{IsSorted, get-Above}
use magisk_t.Boot.Cpio.{CpioEntry, Entries}
use magisk_t.Boot.Cpio.Backup.{rmlist_name, magisk_name, Taken, take_out, take_all}
use magisk_t.Boot.Cpio.Backup.TakenOut.{is_inside}

-- The list of names that the archive holds.
abbrev pub names_of : Option CpioEntry → Bytes
names_of none = []
names_of (some e) = e.content

module _ (decoder : Bytes → Option Bytes) where
  take_out-rm_list :
      (name : Bytes) (e : CpioEntry) (t : Taken)
      → bytes_eq name rmlist_name ≡ false
      → (take_out decoder name e t).rm_list ≡ t.rm_list
  unfolding take_out
  take_out-rm_list name e t other = elim (Bool-cases (is_inside name)) [
    | inr outside_it ↦ rw (outside_it) refl
    | inl inside ↦ elim (Bool-cases (bytes_eq name magisk_name)) [
      | inl own ↦ rw (inside, other, own) refl
      | inr kept ↦ rw (inside, other, kept) refl
    ]
  ]

  take_out-list :
      (name : Bytes) (e : CpioEntry) (t : Taken)
      → name ≡ rmlist_name
      → is_utf8 e.content ≡ true
      → (take_out decoder name e t).rm_list ≡ t.rm_list ++ e.content
  unfolding take_out
  take_out-list name e t p text =
      subst (λ x. (take_out decoder x e t).rm_list ≡ t.rm_list ++ e.content) (sym p)
        (rw (text) refl)

  pub take_all-rm_list :
      (entries : Entries) (t : Taken)
      → IsSorted entries
      → is_utf8 (names_of (get rmlist_name entries)) ≡ true
      → (take_all decoder entries t).rm_list ≡ t.rm_list ++ names_of (get rmlist_name entries)
  unfolding take_all get
  take_all-rm_list [] t s u = sym (append-nil t.rm_list)
  take_all-rm_list ((name, e) ∷ entries) t s u = elim (Bool-cases (bytes_eq name rmlist_name)) [
    | inl hit ↦
        let p = (bytes_eq_iff name rmlist_name).0 hit in
        let gone : get rmlist_name entries ≡ none =
          subst (λ x. get x entries ≡ none) p (get-Above name entries s.0) in
        let text : is_utf8 e.content ≡ true =
          ap (λ b. is_utf8 (names_of (if b then some e else get rmlist_name entries))) (sym hit)
          ∙ u in
        let empty : is_utf8 (names_of (get rmlist_name entries)) ≡ true =
          ap (λ o. is_utf8 (names_of o)) gone ∙ unfold is_utf8 in refl in
        take_all-rm_list entries (take_out decoder name e t) s.1 empty
        ∙ ap₂ (λ a o. a ++ names_of o) (take_out-list name e t p text) gone
        ∙ append-nil (t.rm_list ++ e.content)
        ∙ ap (λ b. t.rm_list ++ names_of (if b then some e else get rmlist_name entries)) (sym hit)
    | inr miss ↦
        let later : is_utf8 (names_of (get rmlist_name entries)) ≡ true =
          ap (λ b. is_utf8 (names_of (if b then some e else get rmlist_name entries))) (sym miss)
          ∙ u in
        take_all-rm_list entries (take_out decoder name e t) s.1 later
        ∙ ap (λ a. a ++ names_of (get rmlist_name entries)) (take_out-rm_list name e t miss)
        ∙ ap (λ b. t.rm_list ++ names_of (if b then some e else get rmlist_name entries)) (sym miss)
  ]
