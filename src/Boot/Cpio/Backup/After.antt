-- ===== src/Boot/Cpio/Backup/After.antt =====
-- The archive that `backup` writes, and what `restore` takes from it (native/src/boot/cpio.rs).
use magisk_t.Prelude.{
  ◌≡◌, refl, sym, ap, ap₂, subst, ◌∙◌, ◌≢◌, inl, inr, true, false, ◌&&◌, Option, none, some, List,
  [], ◌∷◌, arith, if◌then◌else◌, Bool-cases, Option-cases, Bytes, is_empty, All, All-mono, bytes_eq,
  bytes_eq_iff, split,
}
use magisk_t.Prelude.Utf8.{is_utf8}
use magisk_t.BtreeMap.{get, extend}
use magisk_t.BtreeMap.Laws.{IsSorted, get-insert, get-remove, insert-IsSorted, extend-IsSorted}
use magisk_t.BtreeMap.Lookups.{All-insert, All-extend, get-extend}
use magisk_t.Boot.Cpio.{CpioEntry, Entries, norm_path, s_ifreg, s_ifdir}
use magisk_t.Boot.Cpio.Edit.{rm}
use magisk_t.Boot.Cpio.Backup.{
  backup_dir, rmlist_name, Taken, restored, take_all, rm_each, restore, new_entry, Made,
  with_rmlist,
}
use magisk_t.Boot.Cpio.Backup.Names.{Inverts, backup_name, packed, restored-backup_name}
use magisk_t.Boot.Cpio.Backup.Merge.{saved, added, has, joined, saved_at, save_all}
use magisk_t.Boot.Cpio.Backup.Kinds.{get-saved, saved-IsSorted}
use magisk_t.Boot.Cpio.Backup.RmList.{names_of, take_all-rm_list}
use magisk_t.Boot.Cpio.Backup.TakenOut.{
  get-outside, is_inside, take_all-entries, Fits, stays, is_list, restores_to, Agrees, FitAll,
  take_all-Agrees, take_all-found, take_all-IsSorted,
}
use magisk_t.Boot.Cpio.Backup.Removed.{IsPlain, is_utf8-joined, get-rm_list, added-IsPlain}
use magisk_t.Boot.Cpio.Backup.SavedAll.{
  IsDistinct, is_inside-backup_name, get-save_all, save_all-found, save_all-IsSorted, save_all-All,
  IsOwn,
}
use magisk_t.BtreeMap.Lookups.{All-found}
use magisk_t.Boot.Cpio.Backup.Contents.{
  content_at, restored_at, restored_at_lem, saved_at-left, not_backup_name, not_dir, not_list,
  bytes_ne_symm, shape, not_has, is_nil, backup_dir_normal, is_empty_nil,
}

module _ (encoder decoder : Bytes → Option Bytes) (inverts : Inverts encoder decoder)
    (o own : Entries) (o_sorted : IsSorted o) (own_sorted : IsSorted own) (distinct : IsDistinct o)
    (plain : All (λ x. IsPlain x.0) own) (no_dir : get backup_dir own ≡ none)
    (no_saved : (k : Bytes) → is_inside k ≡ true → get k own ≡ none) where
  abbrev restores : Entries
  restores = saved o own

  abbrev new_names : List Bytes
  new_names = added o own

  abbrev first : Entries
  first = (backup_dir, new_entry s_ifdir []) ∷ []

  abbrev made : Made
  made = record { backups = save_all encoder restores first; rm_list = joined new_names }

  abbrev pub after : Entries
  after = extend own (with_rmlist made)

  get-restores : (k : Bytes) → get k restores ≡ saved_at (get k o) (get k own)
  get-restores k = (get-saved o own k o_sorted own_sorted).0

  restores-IsOwn : All (IsOwn encoder o distinct) restores
  restores-IsOwn =
      All-found _ restores (saved-IsSorted o own o_sorted)
        λ k e found. saved_at-left (get k o) (get k own) e (sym (get-restores k) ∙ found)

  -- What stands under a name that is not below `.backup` is not saved.
  saved_name :
      (k : Bytes) → is_inside k ≡ false → get k (save_all encoder restores first) ≡ get k first
  saved_name k out =
      get-save_all encoder k restores first
        (All-mono _ _ (λ x _. not_backup_name k x.0 x.1 out) restores restores-IsOwn)

  saved_list : get rmlist_name (save_all encoder restores first) ≡ none
  saved_list =
      get-save_all encoder rmlist_name restores first
        (All-mono _ _ (λ x is. distinct.no_list x.0 x.1 is) restores restores-IsOwn)
      ∙ unfold get in refl

  with_rmlist-IsSorted : IsSorted (with_rmlist made)
  unfolding with_rmlist
  with_rmlist-IsSorted =
      let sorted = save_all-IsSorted encoder restores first (tt, tt) in
      elim (Bool-cases (is_empty made.rm_list)) [
        | inl nothing ↦ rw (nothing) sorted
        | inr some_names ↦ rw (some_names) (insert-IsSorted rmlist_name _ made.backups sorted)
      ]

  after-IsSorted : IsSorted after
  after-IsSorted = extend-IsSorted own (with_rmlist made) own_sorted

  get-with_rmlist :
      (k : Bytes)
      → bytes_eq rmlist_name k ≡ false
      → get k (with_rmlist made) ≡ get k (save_all encoder restores first)
  unfolding with_rmlist
  get-with_rmlist k other = elim (Bool-cases (is_empty made.rm_list)) [
    | inl nothing ↦ rw (nothing) refl
    | inr some_names ↦ rw (some_names) (get-insert rmlist_name k _ made.backups ∙ rw (other) refl)
  ]

  get-after :
      (k : Bytes)
      → get k after ≡ elim (get k (with_rmlist made)) [ some v ↦ some v | none ↦ get k own ]
  get-after k = get-extend k own (with_rmlist made) with_rmlist-IsSorted

  after-names : names_of (get rmlist_name after) ≡ joined new_names
  unfolding with_rmlist
  after-names = ap names_of (get-after rmlist_name) ∙ elim (Bool-cases (is_empty made.rm_list)) [
    | inl nothing ↦
        let none_there : get rmlist_name (save_all encoder restores first) ≡ none = saved_list in
        rw (nothing, none_there, no_saved rmlist_name refl)
          (sym (is_empty_nil (joined new_names) nothing))
    | inr some_names ↦
        rw
          (
            some_names,
            get-insert rmlist_name rmlist_name (new_entry s_ifreg made.rm_list) made.backups,
          )
          refl
  ]

  after-own :
      (k : Bytes) → is_inside k ≡ false → bytes_eq backup_dir k ≡ false → get k after ≡ get k own
  after-own k out other =
      get-after k
      ∙ ap (λ o. elim o [ some v ↦ some v | none ↦ get k own ])
          (get-with_rmlist k (not_list k out) ∙ saved_name k out ∙ not_dir k other)

  after-saved :
      (n : Bytes) (x : CpioEntry)
      → get n restores ≡ some x
      → get (backup_name n x) after ≡ some (packed encoder x)
  after-saved n x found =
      get-after (backup_name n x)
      ∙ ap (λ o. elim o [ some v ↦ some v | none ↦ get (backup_name n x) own ])
          (get-with_rmlist (backup_name n x) (
              bytes_ne_symm (backup_name n x) rmlist_name (
                distinct.no_list n x
                  (saved_at-left (get n o) (get n own) x (sym (get-restores n) ∙ found))))
            ∙ save_all-found encoder o distinct n x restores first restores-IsOwn found)

  FitsAt : Bytes × CpioEntry → Type 0
  FitsAt x = Fits decoder restores x.0 x.1

  after-FitAll : All FitsAt after
  unfolding with_rmlist FitsAt
  after-FitAll =
      let own_fit : All FitsAt own = All-found FitsAt own own_sorted λ k e found.
        elim (Bool-cases (is_inside k)) [
          | inl inside ↦ absurd (cc (no_saved k inside, found))
          | inr out ↦ stays out
        ] in
      let backups_fit : All FitsAt (save_all encoder restores first) =
        save_all-All encoder FitsAt restores first
          (All-found _ restores (saved-IsSorted o own o_sorted) λ k e found.
            let is = saved_at-left (get k o) (get k own) e (sym (get-restores k) ∙ found) in
            restores_to (is_inside-backup_name k e) (distinct.no_list k e is)
              (distinct.no_settings k e is)
              (subst (λ p. get p.0 restores ≡ some p.1)
                (sym (restored-backup_name encoder decoder inverts k e)) found))
          (stays refl, tt) in
      All-extend FitsAt own (with_rmlist made) own_fit (elim (Bool-cases (is_empty made.rm_list)) [
        | inl nothing ↦ rw (nothing) backups_fit
        | inr some_names ↦
            rw (some_names)
              (All-insert FitsAt rmlist_name _ made.backups (is_list refl) backups_fit)
      ])

  abbrev taken : Taken
  taken = take_all decoder after (record { entries = []; backups = []; rm_list = [] })

  taken-rm_list : taken.rm_list ≡ joined new_names
  taken-rm_list =
      let text : is_utf8 (names_of (get rmlist_name after)) ≡ true =
        ap is_utf8 after-names ∙ is_utf8-joined new_names (added-IsPlain o own plain) in
      take_all-rm_list decoder after _ after-IsSorted text ∙ after-names

  taken-backups : (n : Bytes) → get n taken.backups ≡ get n restores
  unfolding FitAll FitsAt Agrees get
  taken-backups n = elim (Option-cases (get n restores)) [
    | inl gone ↦ take_all-Agrees decoder restores n after _ after-FitAll (sym gone)
    | inr (x, found) ↦
        let is = saved_at-left (get n o) (get n own) x (sym (get-restores n) ∙ found) in
        let back = restored-backup_name encoder decoder inverts n x in
        let held : get (restored decoder (backup_name n x) (packed encoder x)).0 restores
            ≡ some (restored decoder (backup_name n x) (packed encoder x)).1 =
          subst (λ p. get p.0 restores ≡ some p.1) (sym back) found in
        subst (λ p. get p.0 taken.backups ≡ get p.0 restores) back
          (take_all-found decoder restores (backup_name n x) (packed encoder x)
            (is_inside-backup_name n x) (distinct.no_list n x is) (distinct.no_settings n x is) held
            after _ after-FitAll (after-saved n x found))
  ]

  left : Entries
  left = rm taken.entries backup_dir false

  get-left : (k : Bytes) → get k left ≡ get k own
  unfolding left rm
  get-left k =
      get-remove (norm_path backup_dir) k taken.entries
      ∙ ap (λ p. if bytes_eq p k then none else get k taken.entries) backup_dir_normal
      ∙ ap (λ l. if bytes_eq backup_dir k then none else get k l) (take_all-entries decoder after _)
      ∙ ap (λ x. if bytes_eq backup_dir k then none else x) (get-outside is_inside k after)
      ∙ elim (Bool-cases (bytes_eq backup_dir k)) [
        | inl dir ↦
            rw (dir)
              (sym (subst (λ x. get x own ≡ none) ((bytes_eq_iff backup_dir k).0 dir) no_dir))
        | inr other ↦ rw (other) (elim (Bool-cases (is_inside k)) [
          | inl inside ↦ rw (inside) (sym (no_saved k inside))
          | inr out ↦ rw (out) (after-own k out other)
        ])
      ]

  abbrev result : Entries
  result = extend (rm_each (split 0 taken.rm_list) left) taken.backups

  get-result : (k : Bytes) → content_at (get k result) ≡ content_at (get k o)
  get-result k =
      let removed : get k (rm_each (split 0 taken.rm_list) left)
          ≡ (if has k new_names then none else get k own) =
        ap (λ l. get k (rm_each (split 0 l) left)) taken-rm_list
        ∙ get-rm_list k new_names left (added-IsPlain o own plain)
        ∙ ap (λ x. if has k new_names then none else x) (get-left k) in
      let found : get k result ≡ restored_at (get k restores) (has k new_names) (get k own) =
        get-extend k _ taken.backups (take_all-IsSorted decoder after _ tt)
        ∙ ap₂ (λ x y. elim x [ some v ↦ some v | none ↦ y ]) (taken-backups k) removed
        ∙ shape (get k restores) (has k new_names) (get k own) in
      ap content_at found
      ∙ ap₂ (λ x b. content_at (restored_at x b (get k own))) (get-restores k)
          (get-saved o own k o_sorted own_sorted).1
      ∙ restored_at_lem (get k o) (get k own)

  -- Something is to be restored, as soon as one content differs.
  taken_some :
      (k : Bytes)
      → content_at (get k own) ≢ content_at (get k o)
      → (is_empty taken.rm_list && is_empty taken.backups) ≡ false
  taken_some k changed = elim (Bool-cases (is_empty taken.rm_list && is_empty taken.backups)) [
    | inr some_left ↦ some_left
    | inl both ↦
        let no_new : has k new_names ≡ false =
          not_has k new_names (ap is_empty (sym taken-rm_list) ∙ ground (arith, both)) in
        let nothing : taken.backups ≡ [] = is_nil taken.backups (ground (arith, both)) in
        let none_kept : get k restores ≡ none =
          sym (taken-backups k) ∙ ap (get k) nothing ∙ unfold get in refl in
        let same : content_at (get k own) ≡ content_at (get k o) =
          ap₂ (λ x b. content_at (restored_at x b (get k own))) (sym none_kept ∙ get-restores k)
            (sym no_new ∙ (get-saved o own k o_sorted own_sorted).1)
          ∙ restored_at_lem (get k o) (get k own) in
        absurd (changed same)
  ]

  pub restore-after :
      (changed : Bytes)
      → content_at (get changed own) ≢ content_at (get changed o)
      → (k : Bytes) → content_at (get k (restore decoder after)) ≡ content_at (get k o)
  unfolding restore left
  restore-after changed differs k =
      ap (λ b. content_at (get k (if b then [] else result))) (taken_some changed differs)
      ∙ get-result k
