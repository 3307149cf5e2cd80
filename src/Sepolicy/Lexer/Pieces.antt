-- ===== src/Sepolicy/Lexer/Pieces.antt =====
-- The recursion of `extract_token` (native/src/sepolicy/statement.rs) is on shorter pieces, so
-- its fuel is enough.
use magisk_t.Prelude.{
  ℕ, zero, suc, ◌+◌, ◌<◌, ◌≡◌, ap, ap₂, ◌∙◌, inl, inr, Option, none, some, List, [], ◌∷◌, ◌++◌,
  arith, ◌==◌, Bool-cases, Option-cases, Bytes, codes, length, strip_prefix,
}
use magisk_t.Sepolicy.{Token, lb, rb, cm, tl}
use magisk_t.Sepolicy.Lexer.{
  split_once, atom, extract_pieces, extract_with, extract_fuel, extract_token,
}

split_once-length :
    (c : ℕ) (s a b : Bytes) → split_once c s ≡ some (a, b) → length a + length b + 1 ≡ length s
unfolding split_once
split_once-length c [] a b h = cc
split_once-length c (x ∷ s) a b h = elim (Bool-cases (x == c)) [
  | inl hit ↦ ground (arith, hit)
  | inr other ↦ elim (Option-cases (split_once c s)) [
    | inl missing ↦ absurd (ground (arith, other, missing))
    | inr ((a', b'), found) ↦ ground (arith, other, found, split_once-length c s a' b' found)
  ]
]

strip_tilde-length : (s b : Bytes) → strip_prefix s (codes "~") ≡ some b → length b + 1 ≡ length s
strip_tilde-length [] b h = cc
strip_tilde-length (c ∷ s) b h = ground arith

module _ (e e' : Bytes → List Token) (s : Bytes)
    (agree : (w : Bytes) → length w < length s → e w ≡ e' w) where
  pieces_of_split :
      (c : ℕ) (a b : Bytes) → split_once c s ≡ some (a, b) → (e a ≡ e' a) × (e b ≡ e' b)
  pieces_of_split c a b h =
      let size = split_once-length c s a b h in
      (agree a (omega (arith, size)), agree b (omega (arith, size)))

  abbrev at_tilde : (Bytes → List Token) → Option Bytes → List Token
  at_tilde f none = atom s ∷ []
  at_tilde f (some b) = tl ∷ f b

  tilde : at_tilde e (strip_prefix s (codes "~")) ≡ at_tilde e' (strip_prefix s (codes "~"))
  tilde = elim (Option-cases (strip_prefix s (codes "~"))) [
    | inl missing ↦ rw missing
    | inr (b, found) ↦
        rw found (ap (◌∷◌ tl) (agree b (omega (arith, strip_tilde-length s b found))))
  ]

  extract_pieces-agree : extract_pieces e s ≡ extract_pieces e' s
  unfolding extract_pieces
  extract_pieces-agree = elim (Option-cases (split_once b'{' s)) [
    | inr ((a, b), found) ↦
        let (p, q) = pieces_of_split b'{' a b found in
        rw (found, extract_pieces) (ap₂ (λ x y. x ++ lb ∷ y) p q)
    | inl no_lb ↦ elim (Option-cases (split_once b'}' s)) [
      | inr ((a, b), found) ↦
          let (p, q) = pieces_of_split b'}' a b found in
          rw (no_lb, extract_pieces) (rw found (ap₂ (λ x y. x ++ rb ∷ y) p q))
      | inl no_rb ↦ elim (Option-cases (split_once b',' s)) [
        | inr ((a, b), found) ↦
            let (p, q) = pieces_of_split b',' a b found in
            rw (no_lb, extract_pieces) (rw no_rb (rw found (ap₂ (λ x y. x ++ cm ∷ y) p q)))
        | inl no_cm ↦ rw (no_lb, extract_pieces) (rw no_rb (rw no_cm tilde))
      ]
    ]
  ]

  extract_with-agree : extract_with e s ≡ extract_with e' s
  unfolding extract_with
  extract_with-agree = ground (arith, extract_pieces-agree)

-- Any fuel above the length gives the same tokens.
extract_fuel-enough :
    (f g : ℕ) (s : Bytes) → length s < f → length s < g → extract_fuel f s ≡ extract_fuel g s
unfolding extract_fuel
extract_fuel-enough zero g s h k = absurd (omega arith)
extract_fuel-enough (suc f) zero s h k = absurd (omega arith)
extract_fuel-enough (suc f) (suc g) s h k =
    extract_with-agree (extract_fuel f) (extract_fuel g) s
      (λ w shorter. extract_fuel-enough f g w (omega arith) (omega arith))

-- `extract_token` calls itself on the pieces, as in the source: the fuel of the model never runs
-- out, on any word.
pub extract_token_lem : (s : Bytes) → extract_token s ≡ extract_with extract_token s
extract_token_lem s =
    let start : length s + 1 ≡ suc (length s) = omega arith in
    unfold extract_token extract_fuel in
    ap (λ f. extract_fuel f s) start
    ∙ extract_with-agree (extract_fuel (length s)) extract_token s
        (λ w shorter. extract_fuel-enough (length s) (length w + 1) w shorter (omega arith))
