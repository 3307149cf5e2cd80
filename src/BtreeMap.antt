-- ===== src/BtreeMap.antt =====
-- `std::collections::BTreeMap<String, V>` as the list of its entries in key order: what
-- native/src/boot/cpio.rs uses of it.
pub mod Order
pub mod Laws
pub mod Lookups
use magisk_t.Prelude.{
  Ordering, Bool, true, false, Option, none, some, List, [], ◌∷◌, if◌then◌else◌, Bytes, bytes_eq,
  cmp,
}

abbrev pub BtreeMap {ℓ} : Type ℓ → Type ℓ
BtreeMap V = List (Bytes × V)

module _ {ℓ} {V : Type ℓ} where
  unfoldable pub insert : Bytes → V → BtreeMap V → BtreeMap V
  insert k v [] = (k, v) ∷ []
  insert k v ((j, w) ∷ m) = elim (cmp k j) [
    | Ordering.lt ↦ (k, v) ∷ (j, w) ∷ m
    | Ordering.eq ↦ (k, v) ∷ m
    | Ordering.gt ↦ (j, w) ∷ insert k v m
  ]

  unfoldable pub get : Bytes → BtreeMap V → Option V
  get k [] = none
  get k ((j, w) ∷ m) = if bytes_eq j k then some w else get k m

  unfoldable pub remove : Bytes → BtreeMap V → BtreeMap V
  remove k [] = []
  remove k ((j, w) ∷ m) = if bytes_eq j k then remove k m else (j, w) ∷ remove k m

  -- `retain`; the closure may change the value that stays, and `none` drops the entry.
  unfoldable pub retain : (Bytes → V → Option V) → BtreeMap V → BtreeMap V
  retain f [] = []
  retain f ((j, w) ∷ m) = elim (f j w) [ none ↦ retain f m | some w' ↦ (j, w') ∷ retain f m ]

  -- `extend` by the entries of another map, in any order of distinct keys.
  unfoldable pub extend : BtreeMap V → BtreeMap V → BtreeMap V
  unfolding insert
  extend m [] = m
  extend m ((k, v) ∷ rest) = extend (insert k v m) rest

  unfoldable pub contains_key : Bytes → BtreeMap V → Bool
  unfolding get
  contains_key k m = elim (get k m) [ none ↦ false | some _ ↦ true ]
