-- ===== src/Boot/Payload/Image.antt =====
-- The loop over the operations (native/src/boot/payload.rs) against a direct reading of the payload,
-- and what the image holds in the end.
use magisk_t.Prelude.{
  ℕ, ◌+◌, ◌-◌, ◌%◌, ◌^◌, ◌≤◌, ◌<◌, ◌≡◌, refl, subst, inl, inr, false, Option, none, some, List, [],
  ◌∷◌, arith, ltb, ◌==◌, ap, sym, ◌∙◌, ◌⊎◌, true, if◌then◌else◌, Bool-cases, Bytes, length, take,
  drop, All, ◌>>=◌, Outcome, ok, err, panic,
}
use magisk_t.Boot.Payload.{u64, Operation, Codecs, required, read_at, skip, write_op, run_ops}

-- A read at a position that can be sought: one below 2^63.
unfoldable pub read_direct : Bytes → ℕ → ℕ → Outcome Bytes
unfolding read_at
read_direct payload pos len = if ltb pos (2 ^ 63) then read_at payload pos len else err

-- Every operation takes its data from its own offset behind the header.
unfoldable pub direct_ops : Codecs → Bytes → ℕ → ℕ → List Operation → Bytes → Outcome Bytes
unfolding required read_direct write_op
direct_ops c payload block_size base [] image = ok image
direct_ops c payload block_size base (op ∷ ops) image = do
  len ← required op.data_length
  offset ← required op.data_offset
  contents ← read_direct payload (base + offset) len
  after ← write_op c block_size op contents image
  direct_ops c payload block_size base ops after

-- The offset of an operation does not reach past 64 bits behind the header.
abbrev pub InRange : ℕ → Operation → Type 0
InRange base op = elim op.data_offset [ none ↦ Unit | some offset ↦ base + offset < u64 ]

-- A seek to the offset, forward or back, ends there.
skip_lem :
    (base curr offset : ℕ)
    → base + curr < 2 ^ 63
    → base + offset < u64
    → (base + curr + (offset + u64 - curr) % u64) % u64 ≡ base + offset
skip_lem base curr offset h k = omega arith

bind_cong {ℓ κ} :
    {A : Type ℓ} {B : Type κ} (m : Outcome A) (f g : A → Outcome B)
    → ((a : A) → m ≡ ok a → f a ≡ g a)
    → (m >>= f) ≡ (m >>= g)
bind_cong (ok a) f g h = h a refl
bind_cong err f g h = refl
bind_cong panic f g h = refl

bind_same {ℓ κ} :
    {A : Type ℓ} {B : Type κ} (m n : Outcome A) (f g : A → Outcome B)
    → m ≡ n
    → ((a : A) → n ≡ ok a → f a ≡ g a)
    → (m >>= f) ≡ (n >>= g)
bind_same m n f g same h = ap (λ x. x >>= f) same ∙ bind_cong n f g h

pub required-eq {ℓ} : {A : Type ℓ} (o : Option A) (a : A) → required o ≡ ok a → o ≡ some a
unfolding required
required-eq none a e = cc e
required-eq (some b) a e = cc e

-- The bytes are there, or none are asked for.
abbrev pub Fits : Bytes → ℕ → ℕ → Type 0
Fits payload pos len = (len ≡ 0) ⊎ (pos + len ≤ length payload)

read_at_within :
    (payload contents : Bytes) (pos len : ℕ)
    → read_at payload pos len ≡ ok contents
    → Fits payload pos len × (contents ≡ take len (drop pos payload))
unfolding read_at
read_at_within payload contents pos len e = elim (Bool-cases (len == 0)) [
  | inl none_asked ↦ (inl (ground (arith, none_asked)), ground (arith, none_asked, e))
  | inr some_asked ↦ (inr (ground (arith, some_asked, e)), ground (arith, some_asked, e))
]

pub read_direct_within :
    (payload contents : Bytes) (pos len : ℕ)
    → read_direct payload pos len ≡ ok contents
    → Fits payload pos len × (contents ≡ take len (drop pos payload))
unfolding read_direct
read_direct_within payload contents pos len e = elim (Bool-cases (ltb pos (2 ^ 63))) [
  | inl near ↦
      read_at_within payload contents pos len
        (ap (λ b. if b then read_at payload pos len else err) (sym near) ∙ e)
  | inr far ↦ cc (ap (λ b. if b then read_at payload pos len else err) (sym far) ∙ e)
]

read_direct_near :
    (payload : Bytes) (pos len : ℕ)
    → ltb pos (2 ^ 63) ≡ true
    → read_at payload pos len ≡ read_direct payload pos len
unfolding read_direct
read_direct_near payload pos len near = rw (near) refl

read_direct_far :
    (payload : Bytes) (pos len : ℕ) → ltb pos (2 ^ 63) ≡ false → read_direct payload pos len ≡ err
unfolding read_direct
read_direct_far payload pos len far = rw (far) refl

skip_near :
    (base curr offset : ℕ)
    → base + curr < 2 ^ 63
    → base + offset < 2 ^ 63
    → skip (base + curr) ((offset + u64 - curr) % u64) ≡ ok (base + offset)
unfolding skip
skip_near base curr offset h k = rw (skip_lem base curr offset h (omega arith)) (ground (arith, k))

skip_far :
    (base curr offset : ℕ)
    → base + curr < 2 ^ 63
    → base + offset < u64
    → ltb (base + offset) (2 ^ 63) ≡ false
    → skip (base + curr) ((offset + u64 - curr) % u64) ≡ err
unfolding skip
skip_far base curr offset h k far = rw (skip_lem base curr offset h k, far) refl

-- For a payload of less than 2^63 bytes and offsets that stay below 2^64 behind the header, the
-- loop with its relative seeks does what reading each operation at its own offset does, in any
-- order and with overlaps, where only positions below 2^63 can be sought.
pub run_ops-direct :
    (c : Codecs) (payload : Bytes) (block_size base : ℕ) (ops : List Operation) (curr : ℕ)
    (image : Bytes)
    → length payload < 2 ^ 63
    → base + curr < 2 ^ 63
    → All (InRange base) ops
    → run_ops c payload block_size ops (base + curr) curr image
      ≡ direct_ops c payload block_size base ops image
unfolding run_ops direct_ops
run_ops-direct c payload block_size base [] curr image small near in_range = refl
run_ops-direct c payload block_size base (op ∷ ops) curr image small near (this, others) =
    bind_cong (required op.data_length) _ _ (λ len e_len.
      bind_cong (required op.data_offset) _ _ (λ offset e_offset.
        let below : base + offset < u64 =
          subst (λ o. elim o as (λ _. Type 0) [ none ↦ Unit | some offset ↦ base + offset < u64 ])
            (required-eq op.data_offset offset e_offset) this in
        elim (Bool-cases (ltb (base + offset) (2 ^ 63))) [
          | inr far ↦
              rw
                (
                  skip_far base curr offset near below far,
                  read_direct_far payload (base + offset) len far,
                )
                refl
          | inl close ↦ rw (skip_near base curr offset near (ground (arith, close))) (
              bind_same (read_at payload (base + offset) len)
                (read_direct payload (base + offset) len) _ _
                (read_direct_near payload (base + offset) len close)
                (λ contents e_contents.
                  let fits =
                    (read_direct_within payload contents (base + offset) len e_contents).0 in
                  let there : base + (offset + len) < 2 ^ 63 = elim fits [
                    | inl nothing ↦ ground (arith, close, nothing)
                    | inr inside ↦ omega (arith, inside, small)
                  ] in
                  let next : (offset + len) % u64 ≡ offset + len = omega arith in
                  let at_next : base + offset + len ≡ base + (offset + len) = omega arith in
                  bind_cong (write_op c block_size op contents image) _ _ (λ after e_after.
                    rw (next, at_next)
                      (run_ops-direct c payload block_size base ops (offset + len) after small there
                        others))))
        ]))
