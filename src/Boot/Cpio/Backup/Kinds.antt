-- ===== src/Boot/Cpio/Backup/Kinds.antt =====
-- Which entries and names the loop of `backup` takes, and their order (native/src/boot/cpio.rs).
use magisk_t.Prelude.{
  ◌≡◌, refl, sym, ap, ap₂, subst, ◌∙◌, inl, inr, Bool, not, none, [], ◌∷◌, arith, Bool-cases, Bytes,
  bytes_eq, bytes_eq_iff,
}
use magisk_t.BtreeMap.{get}
use magisk_t.BtreeMap.Order.{less, same, greater, compared}
use magisk_t.BtreeMap.Laws.{Above, IsSorted, Above-trans, get-Above}
use magisk_t.Boot.Cpio.{Entries}
use magisk_t.Boot.Cpio.Backup.Merge.{
  saved, added, has, saved_at, added_at, saved_lt, added_lt, saved_gt, added_gt, saved_eq, added_eq,
}

-- For archives in key order, what is saved and recorded of a name depends on its two entries alone.
pub get-saved :
    (left right : Entries) (k : Bytes)
    → IsSorted left
    → IsSorted right
    → (get k (saved left right) ≡ saved_at (get k left) (get k right))
      × (has k (added left right) ≡ added_at (get k left) (get k right))
unfolding saved added get has
get-saved [] [] k s t = (refl, refl)
get-saved [] ((rn, re) ∷ right) k s t = let ih = get-saved [] right k s t.1 in ground (arith, ih)
get-saved ((ln, le) ∷ left) [] k s t = let ih = get-saved left [] k s.1 t in ground (arith, ih)
get-saved ((ln, le) ∷ left) ((rn, re) ∷ right) k s t = elim (compared ln rn) [
  | less c ↦
      let ih = get-saved left ((rn, re) ∷ right) k s.1 t in
      rw (saved_lt ln le left rn re right c, added_lt ln le left rn re right c)
        (elim (Bool-cases (bytes_eq ln k)) [
          | inl hit ↦
              let p = (bytes_eq_iff ln k).0 hit in
              let no_left : get k left ≡ none =
                subst (λ x. get x left ≡ none) p (get-Above ln left s.0) in
              let no_right : get k ((rn, re) ∷ right) ≡ none =
                subst (λ x. get x ((rn, re) ∷ right) ≡ none) p
                  (get-Above ln ((rn, re) ∷ right) (c, Above-trans ln rn right c t.0)) in
              rw (hit, no_right) (refl, ih.1 ∙ ap₂ added_at no_left no_right)
          | inr other ↦ rw (other) ih
        ])
  | same c p ↦
      let ih = get-saved left right k s.1 t.1 in
      let changed : Bool = not (bytes_eq re.content le.content) in
      let keys : bytes_eq rn k ≡ bytes_eq ln k = ap (λ x. bytes_eq x k) (sym p) in
      rw (saved_eq ln le left rn re right c, added_eq ln le left rn re right c, keys)
        (elim (Bool-cases (bytes_eq ln k)) [
          | inl hit ↦
              let no_left : get k left ≡ none =
                subst (λ x. get x left ≡ none) ((bytes_eq_iff ln k).0 hit)
                  (get-Above ln left s.0) in
              let no_right : get k right ≡ none =
                subst (λ x. get x right ≡ none) (sym p ∙ (bytes_eq_iff ln k).0 hit)
                  (get-Above rn right t.0) in
              rw (hit) (
                elim (Bool-cases changed) [
                  | inl differ ↦ rw (differ, hit) refl
                  | inr equal ↦ rw (equal) (ih.0 ∙ ap₂ saved_at no_left no_right)
                ],
                ih.1 ∙ ap₂ added_at no_left no_right,
              )
          | inr other ↦ rw (other) (
            elim (Bool-cases changed) [
              | inl differ ↦ rw (differ, other) ih.0
              | inr equal ↦ rw (equal) ih.0
            ],
            ih.1,
          )
        ])
  | greater c l ↦
      let ih = get-saved ((ln, le) ∷ left) right k s t.1 in
      rw (saved_gt ln le left rn re right c, added_gt ln le left rn re right c)
        (elim (Bool-cases (bytes_eq rn k)) [
          | inl hit ↦
              let p = (bytes_eq_iff rn k).0 hit in
              let no_right : get k right ≡ none =
                subst (λ x. get x right ≡ none) p (get-Above rn right t.0) in
              let no_left : get k ((ln, le) ∷ left) ≡ none =
                subst (λ x. get x ((ln, le) ∷ left) ≡ none) p
                  (get-Above rn ((ln, le) ∷ left) (l, Above-trans rn ln left l s.0)) in
              rw (hit, no_left) (ih.0 ∙ ap₂ saved_at no_left no_right, refl)
          | inr other ↦ rw (other) ih
        ])
]

Above-saved :
    (k : Bytes) (left right : Entries) → Above k left → IsSorted left → Above k (saved left right)
unfolding saved
Above-saved k [] right a s = tt
Above-saved k ((ln, le) ∷ left) [] a s = (a.0, Above-saved k left [] a.1 s.1)
Above-saved k ((ln, le) ∷ left) ((rn, re) ∷ right) a s =
    let gone = Above-saved k left ((rn, re) ∷ right) a.1 s.1 in
    let new = Above-saved k ((ln, le) ∷ left) right a s in
    let both = Above-saved k left right a.1 s.1 in
    elim (compared ln rn) [
      | less c ↦ subst (Above k) (sym (saved_lt ln le left rn re right c)) (a.0, gone)
      | greater c _ ↦ subst (Above k) (sym (saved_gt ln le left rn re right c)) new
      | same c _ ↦
          subst (Above k) (sym (saved_eq ln le left rn re right c))
            (elim (Bool-cases (not (bytes_eq re.content le.content))) [
              | inl differ ↦ rw (differ) (a.0, both)
              | inr equal ↦ rw (equal) both
            ])
    ]

-- What is saved stays in key order.
pub saved-IsSorted : (left right : Entries) → IsSorted left → IsSorted (saved left right)
unfolding saved
saved-IsSorted [] right s = tt
saved-IsSorted ((ln, le) ∷ left) [] s = (Above-saved ln left [] s.0 s.1, saved-IsSorted left [] s.1)
saved-IsSorted ((ln, le) ∷ left) ((rn, re) ∷ right) s =
    let gone = saved-IsSorted left ((rn, re) ∷ right) s.1 in
    let new = saved-IsSorted ((ln, le) ∷ left) right s in
    let both = saved-IsSorted left right s.1 in
    elim (compared ln rn) [
      | less c ↦
          subst IsSorted (sym (saved_lt ln le left rn re right c))
            (Above-saved ln left ((rn, re) ∷ right) s.0 s.1, gone)
      | greater c _ ↦ subst IsSorted (sym (saved_gt ln le left rn re right c)) new
      | same c _ ↦
          subst IsSorted (sym (saved_eq ln le left rn re right c))
            (elim (Bool-cases (not (bytes_eq re.content le.content))) [
              | inl differ ↦ rw (differ) (Above-saved ln left right s.0 s.1, both)
              | inr equal ↦ rw (equal) both
            ])
    ]
