-- ===== src/BtreeMap/Laws.antt =====
-- Lookups after each operation, and that each keeps the entries in key order.
use magisk_t.Prelude.{
  Ordering, ◌≡◌, refl, sym, ap, subst, ◌∙◌, inl, inr, false, Option, none, some, [], ◌∷◌, ◌++◌,
  arith, if◌then◌else◌, Bool-cases, Bytes, bytes_eq, bytes_eq_iff, cmp,
}
use magisk_t.BtreeMap.{BtreeMap, insert, get, remove, retain, extend}
use magisk_t.BtreeMap.Order.{
  Lt, cmp_refl, cmp-eq, cmp-gt, cmp-lt, Lt_trans, Lt-ne_symm, less, same, greater, compared,
}

abbrev pub Above {ℓ} : {V : Type ℓ} → Bytes → BtreeMap V → Type 0
Above k [] = Unit
Above k ((j, w) ∷ m) = Lt k j × Above k m

-- Strictly ascending keys, which is how a `BTreeMap` iterates.
abbrev pub IsSorted {ℓ} : {V : Type ℓ} → BtreeMap V → Type 0
IsSorted [] = Unit
IsSorted ((k, v) ∷ m) = Above k m × IsSorted m

module _ {ℓ} {V : Type ℓ} where
  pub get-insert :
      (k j : Bytes) (v : V) (m : BtreeMap V)
      → get j (insert k v m) ≡ (if bytes_eq k j then some v else get j m)
  unfolding get insert
  get-insert k j v [] = refl
  get-insert k j v ((i, w) ∷ m) = ground (
    arith,
    cmp-eq k i,
    bytes_eq_iff i j,
    bytes_eq_iff k j,
    cmp-gt k i,
    cmp_refl i,
    get-insert k j v m,
  )

  pub get-remove :
      (k j : Bytes) (m : BtreeMap V) → get j (remove k m) ≡ (if bytes_eq k j then none else get j m)
  unfolding get remove
  get-remove k j [] = ground arith
  get-remove k j ((i, w) ∷ m) =
      ground (arith, bytes_eq_iff i j, bytes_eq_iff k j, bytes_eq_iff i k, get-remove k j m)

  module _ (k : Bytes) (v : V) (j : Bytes) (w : V) (m : BtreeMap V) where
    pub insert_less : Lt k j → insert k v ((j, w) ∷ m) ≡ (k, v) ∷ (j, w) ∷ m
    unfolding insert
    insert_less e = rw (e, insert)

    insert_same : cmp k j ≡ Ordering.eq → insert k v ((j, w) ∷ m) ≡ (k, v) ∷ m
    unfolding insert
    insert_same e = rw (e, insert)

    pub insert_greater : cmp k j ≡ Ordering.gt → insert k v ((j, w) ∷ m) ≡ (j, w) ∷ insert k v m
    unfolding insert
    insert_greater e = rw (e, insert)

  Above-insert :
      (b k : Bytes) (v : V) (m : BtreeMap V) → Lt b k → Above b m → Above b (insert k v m)
  Above-insert b k v [] h a = unfold insert in (h, tt)
  Above-insert b k v ((j, w) ∷ m) h a = elim (compared k j) [
    | less e ↦ rw (insert_less k v j w m e) (h, a)
    | same e _ ↦ rw (insert_same k v j w m e) (h, a.1)
    | greater e _ ↦ rw (insert_greater k v j w m e) (a.0, Above-insert b k v m h a.1)
  ]

  pub Above-trans : (a b : Bytes) (m : BtreeMap V) → Lt a b → Above b m → Above a m
  Above-trans a b [] h k = tt
  Above-trans a b ((j, w) ∷ m) h k = (Lt_trans a b j h k.0, Above-trans a b m h k.1)

  pub insert-IsSorted : (k : Bytes) (v : V) (m : BtreeMap V) → IsSorted m → IsSorted (insert k v m)
  insert-IsSorted k v [] s = unfold insert in (tt, tt)
  insert-IsSorted k v ((j, w) ∷ m) s = elim (compared k j) [
    | less e ↦ rw (insert_less k v j w m e) ((e, Above-trans k j m e s.0), s)
    | same e p ↦ rw (insert_same k v j w m e) (subst (λ x. Above x m) (sym p) s.0, s.1)
    | greater e p ↦
        rw (insert_greater k v j w m e) (Above-insert j k v m p s.0, insert-IsSorted k v m s.1)
  ]

  pub Above-remove : (b k : Bytes) (m : BtreeMap V) → Above b m → Above b (remove k m)
  unfolding remove
  Above-remove b k [] a = tt
  Above-remove b k ((j, w) ∷ m) a = ground (arith, Above-remove b k m)

  pub remove-IsSorted : (k : Bytes) (m : BtreeMap V) → IsSorted m → IsSorted (remove k m)
  unfolding remove
  remove-IsSorted k [] s = tt
  remove-IsSorted k ((j, w) ∷ m) s = ground (arith, remove-IsSorted k m, Above-remove j k m)

  Above-retain :
      (b : Bytes) (f : Bytes → V → Option V) (m : BtreeMap V) → Above b m → Above b (retain f m)
  unfolding retain
  Above-retain b f [] a = tt
  Above-retain b f ((j, w) ∷ m) a = ground (arith, Above-retain b f m)

  pub retain-IsSorted :
      (f : Bytes → V → Option V) (m : BtreeMap V) → IsSorted m → IsSorted (retain f m)
  unfolding retain
  retain-IsSorted f [] s = tt
  retain-IsSorted f ((j, w) ∷ m) s = ground (arith, retain-IsSorted f m, Above-retain j f m)

  pub extend-IsSorted : (m n : BtreeMap V) → IsSorted m → IsSorted (extend m n)
  unfolding extend
  extend-IsSorted m [] s = s
  extend-IsSorted m ((k, v) ∷ n) s = extend-IsSorted (insert k v m) n (insert-IsSorted k v m s)

  -- Below the first key there is nothing.
  pub get-Above : (k : Bytes) (m : BtreeMap V) → Above k m → get k m ≡ none
  unfolding get
  get-Above k [] a = refl
  get-Above k ((j, w) ∷ m) a = ground (arith, Lt-ne_symm k j a.0, get-Above k m a.1)

  pub get-retain :
      (k : Bytes) (f : Bytes → V → Option V) (m : BtreeMap V)
      → IsSorted m
      → get k (retain f m) ≡ elim (get k m) [ none ↦ none | some v ↦ f k v ]
  unfolding get retain
  get-retain k f [] s = refl
  get-retain k f ((j, w) ∷ m) s = elim (Bool-cases (bytes_eq j k)) [
    | inl hit ↦
        let p = (bytes_eq_iff j k).0 hit in
        let gone : get k (retain f m) ≡ none =
          get-Above k _ (Above-retain k f m (subst (λ x. Above x m) p s.0)) in
        ground (arith, gone, hit, p)
    | inr other ↦ ground (arith, other, get-retain k f m s.1)
  ]

  -- An entry above all others goes to the end.
  abbrev pub Below : BtreeMap V → Bytes → Type 0
  Below [] k = Unit
  Below ((j, w) ∷ m) k = Lt j k × Below m k

  pub insert_last :
      (m : BtreeMap V) (k : Bytes) (v : V) → Below m k → insert k v m ≡ m ++ (k, v) ∷ []
  insert_last [] k v b = unfold insert in refl
  insert_last ((j, w) ∷ m) k v b =
      insert_greater k v j w m (cmp-lt j k b.0) ∙ ap (◌∷◌ (j, w)) (insert_last m k v b.1)

  pub Below-concat :
      (m : BtreeMap V) (j k : Bytes) (v : V) → Below m k → Lt j k → Below (m ++ (j, v) ∷ []) k
  Below-concat [] j k v b h = (h, tt)
  Below-concat ((i, w) ∷ m) j k v b h = (b.0, Below-concat m j k v b.1 h)

  get_first : (j : Bytes) (w : V) (m : BtreeMap V) → get j ((j, w) ∷ m) ≡ some w
  unfolding get
  get_first j w m = rw ((bytes_eq_iff j j).1 refl)

  get_rest :
      (j k : Bytes) (w : V) (m : BtreeMap V) → bytes_eq j k ≡ false → get k ((j, w) ∷ m) ≡ get k m
  unfolding get
  get_rest j k w m e = rw e

  -- What equal lookups say behind equal first keys.
  ext_tail :
      (j : Bytes) (w v : V) (m n : BtreeMap V)
      → Above j m
      → Above j n
      → ((k : Bytes) → get k ((j, w) ∷ m) ≡ get k ((j, v) ∷ n))
      → (k : Bytes) → get k m ≡ get k n
  ext_tail j w v m n a b h k = elim (Bool-cases (bytes_eq j k)) [
    | inl hit ↦
        let p = (bytes_eq_iff j k).0 hit in
        get-Above k m (subst (λ x. Above x m) p a)
        ∙ sym (get-Above k n (subst (λ x. Above x n) p b))
    | inr other ↦ sym (get_rest j k w m other) ∙ h k ∙ get_rest j k v n other
  ]

  not_first :
      (j i : Bytes) (w v : V) (m n : BtreeMap V)
      → Lt j i
      → Above i n
      → ¬ (get j ((j, w) ∷ m) ≡ get j ((i, v) ∷ n))
  not_first j i w v m n l a h =
      cc (h, get_first j w m, get-Above j ((i, v) ∷ n) (l, Above-trans j i n l a))

  -- Two maps in key order with the same lookups are the same map.
  pub ext : (m n : BtreeMap V) → IsSorted m → IsSorted n → ((k : Bytes) → get k m ≡ get k n) → m ≡ n
  ext [] [] s t h = refl
  ext [] ((j, w) ∷ n) s t h = absurd (unfold get in cc (h j, get_first j w n))
  ext ((j, w) ∷ m) [] s t h = absurd (unfold get in cc (h j, get_first j w m))
  ext ((j, w) ∷ m) ((i, v) ∷ n) s t h = elim (compared j i) [
    | less l ↦ absurd (not_first j i w v m n l t.0 (h j))
    | greater _ l ↦ absurd (not_first i j v w n m l s.0 (sym (h i)))
    | same _ p ↦
        let h' = subst (λ x. (k : Bytes) → get k ((j, w) ∷ m) ≡ get k ((x, v) ∷ n)) (sym p) h in
        let b = subst (λ x. Above x n) (sym p) t.0 in
        let values : some w ≡ some v = sym (get_first j w m) ∙ h' j ∙ get_first j v n in
        let tails = ext m n s.1 t.1 (ext_tail j w v m n s.0 b h') in cc (p, values, tails)
  ]

  Above-mid :
      (m : BtreeMap V) (b k : Bytes) (v : V) (n : BtreeMap V) → Above b (m ++ (k, v) ∷ n) → Lt b k
  Above-mid [] b k v n a = a.0
  Above-mid ((j, w) ∷ m) b k v n a = Above-mid m b k v n a.1

  pub IsSorted-Below :
      (m : BtreeMap V) (k : Bytes) (v : V) (n : BtreeMap V) → IsSorted (m ++ (k, v) ∷ n) → Below m k
  IsSorted-Below [] k v n s = tt
  IsSorted-Below ((j, w) ∷ m) k v n s = (Above-mid m j k v n s.0, IsSorted-Below m k v n s.1)
