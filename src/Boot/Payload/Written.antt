-- ===== src/Boot/Payload/Written.antt =====
-- The bytes of an image after one write into it (native/src/boot/payload.rs).
use magisk_t.Prelude.{
  ℕ, zero, suc, ◌+◌, ◌-◌, ◌≤◌, ◌<◌, ◌≡◌, refl, sym, subst, ◌∙◌, ◌⊎◌, inl, inr, [], ◌∷◌, ◌++◌, arith,
  Bytes, length, take, drop,
}
use magisk_t.Boot.Payload.{write_from, write_at}

-- The byte at a position, zero where nothing was written.
unfoldable pub at : ℕ → Bytes → ℕ
at i [] = 0
at zero (b ∷ bytes) = b
at (suc i) (b ∷ bytes) = at i bytes

zero_plus : (i : ℕ) → 0 + i ≡ i
zero_plus i = omega arith

suc_plus : (n i : ℕ) → suc n + i ≡ suc (n + i)
suc_plus n i = omega arith

at-append : (j : ℕ) (a b : Bytes) → j < length a → at j (a ++ b) ≡ at j a
unfolding at
at-append j [] b h = omega arith
at-append zero (x ∷ a) b h = refl
at-append (suc j) (x ∷ a) b h = at-append j a b (omega arith)

at-append_later : (i : ℕ) (a b : Bytes) → at (length a + i) (a ++ b) ≡ at i b
unfolding at
at-append_later i [] b = rw (zero_plus i) refl
at-append_later i (x ∷ a) b = rw (suc_plus (length a) i) (at-append_later i a b)

pub at-drop : (i n : ℕ) (a : Bytes) → at i (drop n a) ≡ at (n + i) a
unfolding at
at-drop i zero a = rw (zero_plus i) refl
at-drop i (suc n) [] = refl
at-drop i (suc n) (x ∷ a) = rw (suc_plus n i) (at-drop i n a)

pub at-take : (j n : ℕ) (a : Bytes) → j < n → at j (take n a) ≡ at j a
unfolding at
at-take j zero a h = omega arith
at-take j (suc n) [] h = refl
at-take zero (suc n) (x ∷ a) h = refl
at-take (suc j) (suc n) (x ∷ a) h = at-take j n a (omega arith)

at-write_from :
    (offset j : ℕ) (written image : Bytes)
    → j < length written
    → at (offset + j) (write_from offset written image) ≡ at j written
unfolding at write_from
at-write_from zero j written image h =
    rw (zero_plus j) (at-append j written (drop (length written) image) h)
at-write_from (suc offset) j written [] h =
    rw (suc_plus offset j) (at-write_from offset j written [] h)
at-write_from (suc offset) j written (x ∷ image) h =
    rw (suc_plus offset j) (at-write_from offset j written image h)

abbrev pub Outside : ℕ → ℕ → ℕ → Type 0
Outside i offset len = (i < offset) ⊎ (offset + len ≤ i)

at-write_from_other :
    (offset i : ℕ) (written image : Bytes)
    → Outside i offset (length written)
    → at i (write_from offset written image) ≡ at i image
unfolding at write_from
at-write_from_other zero i written image (inl h) = omega arith
at-write_from_other zero i written image (inr h) =
    let len = length written in
    let split_at : i ≡ len + (i - len) = omega arith in
    subst (λ x. at x (written ++ drop len image) ≡ at x image) (sym split_at)
      (at-append_later (i - len) written (drop len image) ∙ at-drop (i - len) len image)
at-write_from_other (suc offset) zero written [] h = refl
at-write_from_other (suc offset) zero written (x ∷ image) h = refl
at-write_from_other (suc offset) (suc i) written [] h =
    at-write_from_other offset i written []
      (elim h [ inl a ↦ inl (omega arith) | inr b ↦ inr (omega arith) ])
at-write_from_other (suc offset) (suc i) written (x ∷ image) h =
    at-write_from_other offset i written image
      (elim h [ inl a ↦ inl (omega arith) | inr b ↦ inr (omega arith) ])

pub at-write_at :
    (offset j : ℕ) (written image : Bytes)
    → j < length written
    → at (offset + j) (write_at offset written image) ≡ at j written
unfolding write_at
at-write_at offset j [] image h = omega arith
at-write_at offset j (x ∷ written) image h = at-write_from offset j (x ∷ written) image h

pub at-write_at_other :
    (offset i : ℕ) (written image : Bytes)
    → Outside i offset (length written)
    → at i (write_at offset written image) ≡ at i image
unfolding write_at
at-write_at_other offset i [] image h = refl
at-write_at_other offset i (x ∷ written) image h =
    at-write_from_other offset i (x ∷ written) image h
