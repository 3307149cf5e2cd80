-- ===== src/BtreeMap/Lookups.antt =====
-- What holds of all entries of a map, and lookups after `extend`.
use magisk_t.Prelude.{
  ◌≡◌, refl, sym, ap, subst, ◌∙◌, inl, inr, none, some, [], ◌∷◌, if◌then◌else◌, Bool-cases, Bytes,
  All, bytes_eq, bytes_eq_iff,
}
use magisk_t.BtreeMap.{BtreeMap, insert, get, extend}
use magisk_t.BtreeMap.Order.{less, same, greater, compared}
use magisk_t.BtreeMap.Laws.{Above, IsSorted, get-insert, get-Above}

module _ {ℓ} {V : Type ℓ} where
  module _ {κ} (P : Bytes × V → Type κ) where
    pub All-insert :
        (k : Bytes) (v : V) (m : BtreeMap V) → P (k, v) → All P m → All P (insert k v m)
    unfolding insert
    All-insert k v [] p all = (p, tt)
    All-insert k v ((j, w) ∷ m) p all = elim (compared k j) [
      | less e ↦ rw (e, insert) (p, all)
      | same e _ ↦ rw (e, insert) (p, all.1)
      | greater e _ ↦ rw (e, insert) (all.0, All-insert k v m p all.1)
    ]

    pub All-extend : (m n : BtreeMap V) → All P m → All P n → All P (extend m n)
    unfolding extend
    All-extend m [] all new = all
    All-extend m ((k, v) ∷ n) all new =
        All-extend (insert k v m) n (All-insert k v m new.0 all) new.1

    -- What holds of every entry that is found.
    pub All-get : (m : BtreeMap V) → All P m → (k : Bytes) (v : V) → get k m ≡ some v → P (k, v)
    unfolding get
    All-get [] all k v h = absurd (cc h)
    All-get ((j, w) ∷ m) all k v h = elim (Bool-cases (bytes_eq j k)) [
      | inl hit ↦
          let found : some w ≡ some v = ap (λ b. if b then some w else get k m) (sym hit) ∙ h in
          subst P (cc ((bytes_eq_iff j k).0 hit, found)) all.0
      | inr other ↦ All-get m all.1 k v (ap (λ b. if b then some w else get k m) (sym other) ∙ h)
    ]

  -- What holds of what is found in a map in key order holds of all its entries.
  pub All-found {κ} :
      (P : Bytes × V → Type κ) (m : BtreeMap V)
      → IsSorted m
      → ((k : Bytes) (v : V) → get k m ≡ some v → P (k, v))
      → All P m
  unfolding get
  All-found P [] s h = tt
  All-found P ((j, w) ∷ m) s h = (
    h j w (rw ((bytes_eq_iff j j).1 refl) refl),
    All-found P m s.1 λ k v found. elim (Bool-cases (bytes_eq j k)) [
      | inl hit ↦
          let gone : get k m ≡ none =
            get-Above k m (subst (λ x. Above x m) ((bytes_eq_iff j k).0 hit) s.0) in
          absurd (cc (gone, found))
      | inr other ↦ h k v (rw (other) found)
    ],
  )

  -- Where the new entries have distinct keys, they are found, and else the old ones.
  pub get-extend :
      (k : Bytes) (m n : BtreeMap V)
      → IsSorted n
      → get k (extend m n) ≡ elim (get k n) [ some v ↦ some v | none ↦ get k m ]
  unfolding extend get
  get-extend k m [] s = refl
  get-extend k m ((j, w) ∷ n) s = elim (Bool-cases (bytes_eq j k)) [
    | inl hit ↦
        let gone : get k n ≡ none =
          get-Above k n (subst (λ x. Above x n) ((bytes_eq_iff j k).0 hit) s.0) in
        get-extend k (insert j w m) n s.1
        ∙ rw (gone, hit) (get-insert j k w m ∙ ap (λ b. if b then some w else get k m) hit)
    | inr other ↦
        get-extend k (insert j w m) n s.1
        ∙ ap (λ x. elim (get k n) [ some v ↦ some v | none ↦ x ])
            (get-insert j k w m ∙ ap (λ b. if b then some w else get k m) other)
        ∙ rw (other) refl
  ]
