-- ===== src/Boot/Cpio/Backup/TakenOut.antt =====
-- What `restore` takes out of an archive (native/src/boot/cpio.rs), found by lookups.
use magisk_t.Prelude.{
  ◌≡◌, refl, sym, ap, ap₂, subst, ◌∙◌, inl, inr, Bool, true, false, Option, none, some, [], ◌∷◌,
  ◌++◌, append-nil, append_assoc, arith, if◌then◌else◌, Bool-cases, Bytes, All, bytes_eq,
  bytes_eq_iff, starts_with,
}
use magisk_t.Prelude.Utf8.{is_utf8}
use magisk_t.BtreeMap.{insert, get}
use magisk_t.BtreeMap.Laws.{IsSorted, get-insert, insert-IsSorted}
use magisk_t.Boot.Cpio.{CpioEntry, Entries}
use magisk_t.Boot.Cpio.Backup.{
  backup_prefix, rmlist_name, magisk_name, Taken, restored, take_out, take_all,
}

-- The entries whose names are not inside.
unfoldable pub outside : (Bytes → Bool) → Entries → Entries
outside inside [] = []
outside inside ((name, e) ∷ entries) =
    let rest = outside inside entries in if inside name then rest else (name, e) ∷ rest

pub get-outside :
    (inside : Bytes → Bool) (k : Bytes) (entries : Entries)
    → get k (outside inside entries) ≡ (if inside k then none else get k entries)
unfolding get outside
get-outside inside k [] = ground arith
get-outside inside k ((name, e) ∷ entries) =
    let ih = get-outside inside k entries in
    elim (Bool-cases (bytes_eq name k)) [
      | inl hit ↦
          let same : inside name ≡ inside k = ap inside ((bytes_eq_iff name k).0 hit) in
          rw (same) (elim (Bool-cases (inside k)) [
            | inl hits ↦ rw (hits) (ih ∙ rw (hits) refl)
            | inr misses ↦ rw (misses, hit) refl
          ])
      | inr other ↦ elim (Bool-cases (inside name)) [
        | inl hits ↦ rw (hits, other) ih
        | inr misses ↦ rw (misses, other) ih
      ]
    ]

abbrev pub is_inside : Bytes → Bool
is_inside name = starts_with name backup_prefix

module _ (decoder : Bytes → Option Bytes) where
  take_out-outside :
      (name : Bytes) (e : CpioEntry) (t : Taken)
      → is_inside name ≡ false
      → (take_out decoder name e t).entries ≡ t.entries ++ (name, e) ∷ []
  unfolding take_out
  take_out-outside name e t misses = rw (misses) refl

  take_out-inside :
      (name : Bytes) (e : CpioEntry) (t : Taken)
      → is_inside name ≡ true
      → (take_out decoder name e t).entries ≡ t.entries
  unfolding take_out
  take_out-inside name e t hits = rw (hits) (elim (Bool-cases (bytes_eq name rmlist_name)) [
    | inl list ↦ rw (list) (elim (Bool-cases (is_utf8 e.content)) [
      | inl text ↦ rw (text) refl
      | inr bytes ↦ rw (bytes) refl
    ])
    | inr other ↦ rw (other) (elim (Bool-cases (bytes_eq name magisk_name)) [
      | inl own ↦ rw (own) refl
      | inr kept ↦ rw (kept) refl
    ])
  ])

  pub take_all-entries :
      (entries : Entries) (t : Taken)
      → (take_all decoder entries t).entries ≡ t.entries ++ outside is_inside entries
  unfolding take_all outside
  take_all-entries [] t = sym (append-nil t.entries)
  take_all-entries ((name, e) ∷ entries) t =
      take_all-entries entries (take_out decoder name e t) ∙ elim (Bool-cases (is_inside name)) [
        | inl hits ↦
            rw (hits) (ap (λ l. l ++ outside is_inside entries) (take_out-inside name e t hits))
        | inr misses ↦ rw (misses) (
            ap (λ l. l ++ outside is_inside entries) (take_out-outside name e t misses)
            ∙ append_assoc t.entries ((name, e) ∷ []) (outside is_inside entries))
      ]

  -- What an entry says of a map that holds what is restored.
  pub data Fits (restores : Entries) (name : Bytes) (e : CpioEntry) : Type 0 where
    stays : starts_with name backup_prefix ≡ false → Fits restores name e
    is_list : name ≡ rmlist_name → Fits restores name e
    restores_to :
        starts_with name backup_prefix ≡ true
        → bytes_eq name rmlist_name ≡ false
        → bytes_eq name magisk_name ≡ false
        → get (restored decoder name e).0 restores ≡ some (restored decoder name e).1
        → Fits restores name e

  module _ (restores : Entries) where
    unfoldable pub Agrees : Bytes → Taken → Type 0
    Agrees n t = get n t.backups ≡ get n restores

    take_out-saved :
        (name : Bytes) (e : CpioEntry) (t : Taken)
        → starts_with name backup_prefix ≡ true
        → bytes_eq name rmlist_name ≡ false
        → bytes_eq name magisk_name ≡ false
        → (take_out decoder name e t).backups
          ≡ insert (restored decoder name e).0 (restored decoder name e).1 t.backups
    unfolding take_out
    take_out-saved name e t inside other own = rw (inside, other, own) refl

    take_out-Agrees :
        (n name : Bytes) (e : CpioEntry) (t : Taken)
        → Fits restores name e
        → Agrees n t
        → Agrees n (take_out decoder name e t)
    unfolding Agrees take_out
    take_out-Agrees n name e t (stays outside) a = rw (outside) a
    take_out-Agrees n name e t (is_list p) a =
        subst (λ x. Agrees n (take_out decoder x e t)) (sym p)
          (elim (Bool-cases (is_utf8 e.content)) [
            | inl text ↦ rw (text) a
            | inr bytes ↦ rw (bytes) a
          ])
    take_out-Agrees n name e t (restores_to inside other own found) a =
        let (new_name, e') = restored decoder name e in
        ap (get n) (take_out-saved name e t inside other own)
        ∙ get-insert new_name n e' t.backups
        ∙ elim (Bool-cases (bytes_eq new_name n)) [
          | inl hit ↦
              rw (hit) (sym found ∙ ap (λ x. get x restores) ((bytes_eq_iff new_name n).0 hit))
          | inr miss ↦ rw (miss) a
        ]

    unfoldable pub FitAll : Entries → Type 0
    FitAll = All (λ x. Fits restores x.0 x.1)

    pub take_all-Agrees :
        (n : Bytes) (entries : Entries) (t : Taken)
        → FitAll entries
        → Agrees n t
        → Agrees n (take_all decoder entries t)
    unfolding take_all FitAll
    take_all-Agrees n [] t fit a = a
    take_all-Agrees n ((name, e) ∷ entries) t fit a =
        take_all-Agrees n entries (take_out decoder name e t) fit.1
          (take_out-Agrees n name e t fit.0 a)

    module _ (name : Bytes) (e : CpioEntry) (inside : is_inside name ≡ true)
        (other : bytes_eq name rmlist_name ≡ false) (own : bytes_eq name magisk_name ≡ false)
        (found : get (restored decoder name e).0 restores ≡ some (restored decoder name e).1) where
      take_out-found : (t : Taken) → Agrees (restored decoder name e).0 (take_out decoder name e t)
      unfolding Agrees
      take_out-found t =
          let (new_name, e') = restored decoder name e in
          ap (get new_name) (take_out-saved name e t inside other own)
          ∙ get-insert new_name new_name e' t.backups
          ∙ rw ((bytes_eq_iff new_name new_name).1 refl) (sym found)

      -- What an entry that is found is restored to is there afterwards.
      pub take_all-found :
          (entries : Entries) (t : Taken)
          → FitAll entries
          → get name entries ≡ some e
          → Agrees (restored decoder name e).0 (take_all decoder entries t)
      unfolding take_all FitAll get
      take_all-found [] t fit h = absurd (cc h)
      take_all-found ((j, d) ∷ entries) t fit h = elim (Bool-cases (bytes_eq j name)) [
        | inl hit ↦
            let same_entry : some d ≡ some e =
              ap (λ b. if b then some d else get name entries) (sym hit) ∙ h in
            let same_e : e ≡ d = cc same_entry in
            let same_both : ◌≡◌ {A = Bytes × CpioEntry} (name, e) (j, d) =
              ap₂ (λ a b. (a, b)) (sym ((bytes_eq_iff j name).0 hit)) same_e in
            take_all-Agrees (restored decoder name e).0 entries (take_out decoder j d t) fit.1 (
              subst (λ x. Agrees (restored decoder name e).0 (take_out decoder x.0 x.1 t)) same_both
                (take_out-found t))
        | inr miss ↦
            take_all-found entries (take_out decoder j d t) fit.1
              (ap (λ b. if b then some d else get name entries) (sym miss) ∙ h)
      ]

  take_out-IsSorted :
      (name : Bytes) (e : CpioEntry) (t : Taken)
      → IsSorted t.backups
      → IsSorted (take_out decoder name e t).backups
  unfolding take_out
  take_out-IsSorted name e t s = elim (Bool-cases (is_inside name)) [
    | inr outside_it ↦ rw (outside_it) s
    | inl inside ↦ elim (Bool-cases (bytes_eq name rmlist_name)) [
      | inl list ↦
          rw (inside, list)
            (elim (Bool-cases (is_utf8 e.content)) [
              | inl text ↦ rw (text) s
              | inr bytes ↦ rw (bytes) s
            ])
      | inr other ↦ elim (Bool-cases (bytes_eq name magisk_name)) [
        | inl own ↦ rw (inside, other, own) s
        | inr kept ↦ rw (inside, other, kept) (insert-IsSorted _ _ t.backups s)
      ]
    ]
  ]

  pub take_all-IsSorted :
      (entries : Entries) (t : Taken)
      → IsSorted t.backups
      → IsSorted (take_all decoder entries t).backups
  unfolding take_all
  take_all-IsSorted [] t s = s
  take_all-IsSorted ((name, e) ∷ entries) t s =
      take_all-IsSorted entries (take_out decoder name e t) (take_out-IsSorted name e t s)
