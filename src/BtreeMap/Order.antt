-- ===== src/BtreeMap/Order.antt =====
-- `cmp` on strings is a strict total order.
use magisk_t.Prelude.{
  Ordering, ◌≡◌, refl, sym, subst, inl, inr, false, [], ◌∷◌, arith, Bool-cases, Bytes, bytes_eq,
  bytes_eq_iff, cmp,
}

abbrev pub Lt : Bytes → Bytes → Type 0
Lt a b = cmp a b ≡ Ordering.lt

pub cmp_refl : (a : Bytes) → cmp a a ≡ Ordering.eq
cmp_refl [] = refl
cmp_refl (x ∷ a) = ground (arith, cmp_refl a)

pub cmp-eq : (a b : Bytes) → cmp a b ≡ Ordering.eq → a ≡ b
cmp-eq [] [] h = refl
cmp-eq [] (y ∷ b) h = cc
cmp-eq (x ∷ a) [] h = cc
cmp-eq (x ∷ a) (y ∷ b) h = ground (arith, cmp-eq a b)

pub cmp-gt : (a b : Bytes) → cmp a b ≡ Ordering.gt → Lt b a
cmp-gt [] [] h = cc
cmp-gt [] (y ∷ b) h = cc
cmp-gt (x ∷ a) [] h = refl
cmp-gt (x ∷ a) (y ∷ b) h = ground (arith, cmp-gt a b)

pub cmp-lt : (a b : Bytes) → Lt a b → cmp b a ≡ Ordering.gt
cmp-lt [] [] h = cc
cmp-lt [] (y ∷ b) h = refl
cmp-lt (x ∷ a) [] h = cc
cmp-lt (x ∷ a) (y ∷ b) h = ground (arith, cmp-lt a b)

not_below_nil : (a : Bytes) → ¬ Lt a []
not_below_nil [] h = cc
not_below_nil (x ∷ a) h = cc

pub Lt_trans : (a b c : Bytes) → Lt a b → Lt b c → Lt a c
Lt_trans a [] c h k = absurd (not_below_nil a h)
Lt_trans a (y ∷ b) [] h k = cc
Lt_trans [] (y ∷ b) (z ∷ c) h k = refl
Lt_trans (x ∷ a) (y ∷ b) (z ∷ c) h k = ground (arith, Lt_trans a b c)

pub Lt_irrefl : (a : Bytes) → ¬ Lt a a
Lt_irrefl a h = cc (cmp_refl a, h)

pub Lt-ne : (a b : Bytes) → Lt a b → bytes_eq a b ≡ false
Lt-ne a b h = elim (Bool-cases (bytes_eq a b)) [
  | inr ne ↦ ne
  | inl same ↦ absurd (Lt_irrefl b (subst (λ x. Lt x b) ((bytes_eq_iff a b).0 same) h))
]

pub Lt-ne_symm : (a b : Bytes) → Lt a b → bytes_eq b a ≡ false
Lt-ne_symm a b h = elim (Bool-cases (bytes_eq b a)) [
  | inr ne ↦ ne
  | inl same ↦ absurd (Lt_irrefl b (subst (λ x. Lt x b) (sym ((bytes_eq_iff b a).0 same)) h))
]

-- The three outcomes of a comparison, with what each says.
pub data Compared (a b : Bytes) : Type 0 where
  less : Lt a b → Compared a b
  same : cmp a b ≡ Ordering.eq → a ≡ b → Compared a b
  greater : cmp a b ≡ Ordering.gt → Lt b a → Compared a b

pub compared : (a b : Bytes) → Compared a b
compared a b = go (cmp a b) refl
  where
    go : (o : Ordering) → cmp a b ≡ o → Compared a b
    go Ordering.lt e = less e
    go Ordering.eq e = same e (cmp-eq a b e)
    go Ordering.gt e = greater e (cmp-gt a b e)
