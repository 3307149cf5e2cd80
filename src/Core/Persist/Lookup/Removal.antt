-- ===== src/Core/Persist/Lookup/Removal.antt =====
-- A removal from the records in order (native/src/core/resetprop/persist.rs).
use magisk_t.Prelude.{
  ℕ, ◌+◌, ◌≤◌, Ordering, ◌≡◌, refl, sym, ap, subst, ◌∙◌, inl, inr, Bool, true, false, Option, none,
  some, List, [], ◌∷◌, arith, Bool-cases, Bytes, bytes_eq, bytes_eq_iff, cmp, Outcome, ok, err,
  panic,
}
use magisk_t.Core.Persist.{
  PropertyRecord, cmp_name, SearchResult, found, insert_at, next_index, find_index, find, sort,
  is_after, insert_sorted, vec_remove, remove_found,
}
use magisk_t.Core.Persist.Order.{Starts, IsAscending, below, equal, above, Compared-name}
use magisk_t.Core.Persist.Lookup.{cmp_name-eq, find_later, find_here, find-none, find_nil}
use magisk_t.BtreeMap.Order.{Lt_trans, less, same, greater, compared}

unfoldable pub one_of : Bytes → PropertyRecord → ℕ
unfolding cmp_name
one_of key p = elim (cmp_name p.name (some key)) [
  | Ordering.eq ↦ 1
  | Ordering.lt ↦ 0
  | Ordering.gt ↦ 0
]

-- How many records have a name.
unfoldable pub copies : Bytes → List PropertyRecord → ℕ
unfolding one_of
copies key [] = 0
copies key (p ∷ properties) = one_of key p + copies key properties

copies-insert_sorted :
    (key : Bytes) (p : PropertyRecord) (l : List PropertyRecord)
    → copies key (insert_sorted p l) ≡ one_of key p + copies key l
unfolding insert_sorted copies
copies-insert_sorted key p [] = refl
copies-insert_sorted key p (q ∷ l) = elim (Bool-cases (is_after p q)) [
  | inl after ↦ rw (after) (omega (arith, copies-insert_sorted key p l))
  | inr before ↦ rw (before) refl
]

pub copies-sort : (key : Bytes) (l : List PropertyRecord) → copies key (sort l) ≡ copies key l
unfolding sort copies
copies-sort key [] = refl
copies-sort key (p ∷ l) = omega (arith, copies-insert_sorted key p (sort l), copies-sort key l)

find-copies : (key : Bytes) (l : List PropertyRecord) → copies key l ≡ 0 → find key l ≡ none
unfolding copies
find-copies key [] h = find_nil key
find-copies key (p ∷ l) h = elim (Compared-name p.name (some key)) [
  | below e ↦ find_later key p l e ∙ find-copies key l (omega (arith, h))
  | equal e ↦ let one : one_of key p ≡ 1 = rw (e, one_of) refl in absurd (omega (arith, one, h))
  | above e ↦ find-none key p l e
]

-- `remove_found` at the head of a list.
abbrev in_front : PropertyRecord → Outcome (List PropertyRecord) → Outcome (List PropertyRecord)
in_front p (ok l) = ok (p ∷ l)
in_front p err = err
in_front p panic = panic

module _ (key : Bytes) (p : PropertyRecord) (l : List PropertyRecord) where
  remove_later :
      cmp_name p.name (some key) ≡ Ordering.lt
      → remove_found key (p ∷ l) ≡ in_front p (remove_found key l)
  unfolding remove_found find_index next_index vec_remove
  remove_later e = rw (e, remove_found, find_index) (go (find_index key l))
    where
      go :
          (r : SearchResult)
          → elim (next_index r) as (λ _. Outcome (List PropertyRecord)) [
            | found idx ↦ ok (vec_remove idx (p ∷ l))
            | insert_at idx ↦ err
          ]
            ≡ in_front p (elim r as (λ _. Outcome (List PropertyRecord)) [
              | found idx ↦ ok (vec_remove idx l)
              | insert_at idx ↦ err
            ])
      go (found idx) = refl
      go (insert_at idx) = refl

  remove_here : cmp_name p.name (some key) ≡ Ordering.eq → remove_found key (p ∷ l) ≡ ok l
  unfolding remove_found find_index vec_remove
  remove_here e = rw (e, remove_found, find_index) refl

  remove-err : cmp_name p.name (some key) ≡ Ordering.gt → remove_found key (p ∷ l) ≡ err
  unfolding remove_found find_index
  remove-err e = rw (e, remove_found, find_index) refl

-- The order of three names.
abbrev is_gt : Ordering → Bool
is_gt Ordering.gt = true
is_gt Ordering.eq = false
is_gt Ordering.lt = false

not_gt_trans :
    (a b c : Option Bytes)
    → is_gt (cmp_name a b) ≡ false
    → is_gt (cmp_name b c) ≡ false
    → is_gt (cmp_name a c) ≡ false
unfolding cmp_name
not_gt_trans none b none h k = refl
not_gt_trans none b (some c) h k = refl
not_gt_trans (some a) none c h k = absurd (cc h)
not_gt_trans (some a) (some b) none h k = absurd (cc k)
not_gt_trans (some a) (some b) (some c) h k = elim (compared a b) [
  | greater e _ ↦ absurd (cc (ap is_gt (sym e) ∙ h))
  | same _ p ↦ ap (λ x. is_gt (cmp x c)) p ∙ k
  | less e ↦ elim (compared b c) [
    | greater f _ ↦ absurd (cc (ap is_gt (sym f) ∙ k))
    | same _ q ↦ ap (λ x. is_gt (cmp a x)) (sym q) ∙ h
    | less f ↦ ap is_gt (Lt_trans a b c e f)
  ]
]

Starts-behind :
    (p q : PropertyRecord) (l : List PropertyRecord)
    → is_after p q ≡ false
    → Starts q l
    → Starts p l
unfolding is_after
Starts-behind p q [] h k = tt
Starts-behind p q (r ∷ l) h k = not_gt_trans p.name q.name r.name h k

-- A list in order after a removal: what is found, and that it is in order.
pub record Removed (key : Bytes) (l left : List PropertyRecord) : Type 0 where
  pub ordered : IsAscending left
  pub starts : (p : PropertyRecord) → Starts p l → Starts p left
  pub others : (other : Bytes) → bytes_eq key other ≡ false → find other left ≡ find other l
  pub gone : copies key l ≤ 1 → find key left ≡ none

one_of_here :
    (key : Bytes) (p : PropertyRecord) → cmp_name p.name (some key) ≡ Ordering.eq → one_of key p ≡ 1
unfolding one_of
one_of_here key p e = rw (e, one_of) refl

one_of_below :
    (key : Bytes) (p : PropertyRecord) → cmp_name p.name (some key) ≡ Ordering.lt → one_of key p ≡ 0
unfolding one_of
one_of_below key p e = rw (e, one_of) refl

-- No name below the first is in a list in order.
find-above :
    (other : Bytes) (p : PropertyRecord) (l : List PropertyRecord)
    → Starts p l
    → cmp_name p.name (some other) ≡ Ordering.gt
    → find other l ≡ none
unfolding is_after
find-above other p [] first e = find_nil other
find-above other p (q ∷ l) first e = elim (Compared-name q.name (some other)) [
  | above f ↦ find-none other q l f
  | equal f ↦ absurd (cc (not_gt_trans p.name q.name (some other) first (ap is_gt f), ap is_gt e))
  | below f ↦ absurd (cc (not_gt_trans p.name q.name (some other) first (ap is_gt f), ap is_gt e))
]

-- A record of another name in front is not missed.
find-behind :
    (key other : Bytes) (p : PropertyRecord) (l : List PropertyRecord)
    → cmp_name p.name (some key) ≡ Ordering.eq
    → Starts p l
    → bytes_eq key other ≡ false
    → find other l ≡ find other (p ∷ l)
find-behind key other p l e first miss = elim (Compared-name p.name (some other)) [
  | below f ↦ sym (find_later other p l f)
  | equal f ↦
      let q : key ≡ other = cc (cmp_name-eq p.name key e, cmp_name-eq p.name other f) in
      cc ((bytes_eq_iff key other).1 q, miss)
  | above f ↦ find-above other p l first f ∙ sym (find-none other p l f)
]

Removed-later :
    (key : Bytes) (p : PropertyRecord) (l left : List PropertyRecord)
    → Starts p l
    → cmp_name p.name (some key) ≡ Ordering.lt
    → Removed key l left
    → Removed key (p ∷ l) (p ∷ left)
Removed-later key p l left first e r = record {
  ordered = (r.starts p first, r.ordered);
  starts = λ q s. s;
  others = λ other miss. elim (Compared-name p.name (some other)) [
    | below f ↦ find_later other p left f ∙ r.others other miss ∙ sym (find_later other p l f)
    | equal f ↦ find_here other p left f ∙ sym (find_here other p l f)
    | above f ↦ find-none other p left f ∙ sym (find-none other p l f)
  ];
  gone = λ few.
      let all : one_of key p + copies key l ≤ 1 = unfold copies in few in
      find_later key p left e ∙ r.gone (omega (arith, one_of_below key p e, all));
}

pub remove_found-Removed :
    (key : Bytes) (l left : List PropertyRecord)
    → IsAscending l
    → remove_found key l ≡ ok left
    → Removed key l left
remove_found-Removed key [] left a h = absurd (unfold remove_found find_index in cc h)
remove_found-Removed key (p ∷ l) left (first, a) h = elim (Compared-name p.name (some key)) [
  | above e ↦ absurd (cc (remove-err key p l e, h))
  | equal e ↦
      let same : l ≡ left = cc (remove_here key p l e, h) in
      subst (Removed key (p ∷ l)) same (record {
        ordered = a;
        starts = λ q s. Starts-behind q p l s first;
        others = λ other miss. find-behind key other p l e first miss;
        gone = λ few. find-copies key l (unfold copies in omega (arith, few, one_of_here key p e));
      })
  | below e ↦
      go (remove_found key l) (λ l2 k. remove_found-Removed key l l2 a k) e
        (sym (remove_later key p l e) ∙ h)
]
  where
    go :
        (o : Outcome (List PropertyRecord))
        → ((l2 : List PropertyRecord) → o ≡ ok l2 → Removed key l l2)
        → cmp_name p.name (some key) ≡ Ordering.lt
        → in_front p o ≡ ok left
        → Removed key (p ∷ l) left
    go err ih e k = absurd (cc k)
    go panic ih e k = absurd (cc k)
    go (ok l2) ih e k =
        let same : p ∷ l2 ≡ left = cc k in
        subst (Removed key (p ∷ l)) same (Removed-later key p l l2 first e (ih l2 refl))
