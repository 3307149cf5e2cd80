-- ===== src/Core/Persist/Order.antt =====
-- Property records in the order of their names (native/src/core/resetprop/persist.rs).
use magisk_t.Prelude.{
  Ordering, ◌≡◌, refl, inl, inr, true, false, Option, none, some, List, [], ◌∷◌, arith, Bool-cases,
  Bytes,
}
use magisk_t.BtreeMap.Order.{cmp-gt, cmp-lt}
use magisk_t.Core.Persist.{
  PropertyRecord, cmp_name, find_index, next_index, set_value, vec_insert, is_after, insert_sorted,
  sort, update, SearchResult, found, insert_at,
}

abbrev pub Starts : PropertyRecord → List PropertyRecord → Type 0
Starts p [] = Unit
Starts p (q ∷ properties) = is_after p q ≡ false

-- No record is after the next one.
abbrev pub IsAscending : List PropertyRecord → Type 0
IsAscending [] = Unit
IsAscending (p ∷ properties) = Starts p properties × IsAscending properties

cmp_name-gt : (a b : Option Bytes) → cmp_name a b ≡ Ordering.gt → cmp_name b a ≡ Ordering.lt
unfolding cmp_name
cmp_name-gt none none h = cc h
cmp_name-gt none (some b) h = cc h
cmp_name-gt (some a) none h = refl
cmp_name-gt (some a) (some b) h = cmp-gt a b h

pub cmp_name-lt : (a b : Option Bytes) → cmp_name a b ≡ Ordering.lt → cmp_name b a ≡ Ordering.gt
unfolding cmp_name
cmp_name-lt none none h = cc h
cmp_name-lt none (some b) h = refl
cmp_name-lt (some a) none h = cc h
cmp_name-lt (some a) (some b) h = cmp-lt a b h

is_after_other : (p q : PropertyRecord) → is_after p q ≡ true → is_after q p ≡ false
unfolding is_after
is_after_other p q h = ground (arith, h, cmp_name-gt p.name q.name)

Starts-insert_sorted :
    (q p : PropertyRecord) (l : List PropertyRecord)
    → is_after q p ≡ false
    → Starts q l
    → Starts q (insert_sorted p l)
unfolding insert_sorted
Starts-insert_sorted q p [] h k = h
Starts-insert_sorted q p (r ∷ l) h k = elim (Bool-cases (is_after p r)) [
  | inl after ↦ rw (after) k
  | inr before ↦ rw (before) h
]

insert_sorted-IsAscending :
    (p : PropertyRecord) (l : List PropertyRecord) → IsAscending l → IsAscending (insert_sorted p l)
unfolding insert_sorted
insert_sorted-IsAscending p [] a = (tt, tt)
insert_sorted-IsAscending p (q ∷ l) (starts, a) = elim (Bool-cases (is_after p q)) [
  | inl after ↦ rw (after) (
    Starts-insert_sorted q p l (is_after_other p q after) starts,
    insert_sorted-IsAscending p l a,
  )
  | inr before ↦ rw (before) (before, (starts, a))
]

pub sort-IsAscending : (l : List PropertyRecord) → IsAscending (sort l)
unfolding sort
sort-IsAscending [] = tt
sort-IsAscending (p ∷ l) = insert_sorted-IsAscending p (sort l) (sort-IsAscending l)

insert_sorted_first :
    (p : PropertyRecord) (l : List PropertyRecord) → Starts p l → insert_sorted p l ≡ p ∷ l
unfolding insert_sorted
insert_sorted_first p [] h = refl
insert_sorted_first p (q ∷ l) h = rw (h) refl

pub sort_lem : (l : List PropertyRecord) → IsAscending l → sort l ≡ l
unfolding sort
sort_lem [] a = refl
sort_lem (p ∷ l) (starts, a) = rw (sort_lem l a) (insert_sorted_first p l starts)

-- The three outcomes of a comparison.
pub data Compared (a b : Option Bytes) : Type 0 where
  below : cmp_name a b ≡ Ordering.lt → Compared a b
  equal : cmp_name a b ≡ Ordering.eq → Compared a b
  above : cmp_name a b ≡ Ordering.gt → Compared a b

pub Compared-name : (a b : Option Bytes) → Compared a b
Compared-name a b = go (cmp_name a b) refl
  where
    go : (o : Ordering) → cmp_name a b ≡ o → Compared a b
    go Ordering.lt e = below e
    go Ordering.eq e = equal e
    go Ordering.gt e = above e

not_after : (p q : PropertyRecord) → cmp_name p.name q.name ≡ Ordering.lt → is_after p q ≡ false
unfolding is_after
not_after p q e = ground (arith, e)

-- Only the name counts.
renamed :
    (p : PropertyRecord) (val : Bytes) (l : List PropertyRecord)
    → Starts p l
    → Starts (record { name = p.name; value = some val }) l
unfolding is_after
renamed p val [] h = tt
renamed p val (q ∷ l) h = h

-- `update` at the head of the list.
module _ (key val : Bytes) (p : PropertyRecord) (l : List PropertyRecord) where
  pub update_later :
      cmp_name p.name (some key) ≡ Ordering.lt → update key val (p ∷ l) ≡ p ∷ update key val l
  unfolding update find_index next_index set_value vec_insert
  update_later e = rw (e, update, find_index) (go (find_index key l))
    where
      go :
          (r : SearchResult)
          → elim (next_index r) as (λ _. List PropertyRecord) [
            | found idx ↦ set_value idx val (p ∷ l)
            | insert_at idx ↦ vec_insert idx (record { name = some key; value = some val }) (p ∷ l)
          ]
            ≡ p ∷ elim r as (λ _. List PropertyRecord) [
              | found idx ↦ set_value idx val l
              | insert_at idx ↦ vec_insert idx (record { name = some key; value = some val }) l
            ]
      go (found idx) = refl
      go (insert_at idx) = refl

  pub update_here :
      cmp_name p.name (some key) ≡ Ordering.eq
      → update key val (p ∷ l) ≡ record { name = p.name; value = some val } ∷ l
  unfolding update find_index set_value
  update_here e = rw (e, update, find_index) refl

  pub update_new :
      cmp_name p.name (some key) ≡ Ordering.gt
      → update key val (p ∷ l) ≡ record { name = some key; value = some val } ∷ p ∷ l
  unfolding update find_index vec_insert
  update_new e = rw (e, update, find_index) refl

Starts-update :
    (q : PropertyRecord) (key val : Bytes) (l : List PropertyRecord)
    → cmp_name q.name (some key) ≡ Ordering.lt
    → Starts q l
    → Starts q (update key val l)
unfolding is_after
Starts-update q key val [] h k =
    unfold update find_index vec_insert in
    not_after q (record { name = some key; value = some val }) h
Starts-update q key val (p ∷ l) h k = elim (Compared-name p.name (some key)) [
  | below e ↦ rw (update_later key val p l e) k
  | equal e ↦ rw (update_here key val p l e) k
  | above e ↦
      rw (update_new key val p l e) (not_after q (record { name = some key; value = some val }) h)
]

pub update-IsAscending :
    (key val : Bytes) (l : List PropertyRecord) → IsAscending l → IsAscending (update key val l)
update-IsAscending key val [] a = unfold update find_index vec_insert in (tt, tt)
update-IsAscending key val (p ∷ l) (starts, a) = elim (Compared-name p.name (some key)) [
  | below e ↦
      rw (update_later key val p l e)
        (Starts-update p key val l e starts, update-IsAscending key val l a)
  | equal e ↦ rw (update_here key val p l e) (renamed p val l starts, a)
  | above e ↦ rw (update_new key val p l e) (
    not_after (record { name = some key; value = some val }) p (cmp_name-gt p.name (some key) e),
    (starts, a),
  )
]
