-- ===== src/Boot/Cpio/Header/Numbers.antt =====
-- `x8u` reads what `{:08x}` prints, and never wraps.
use native.Mathlib.Nat.{pow-suc, le_trans}
use magisk_t.Prelude.{
  ℕ, zero, suc, ◌+◌, ◌*◌, ◌/◌, ◌%◌, ◌^◌, ◌≤◌, ◌<◌, ◌≡◌, refl, ap, subst, ◌∙◌, inl, inr, true,
  Option, none, some, [], ◌∷◌, ◌++◌, arith, ltb, Option-cases, Bytes, length, All, length-append,
  All-append, Outcome, ok, err,
}
use magisk_t.Prelude.Utf8.{is_utf8}
use magisk_t.Boot.Cpio.Header.{to_digit, x8u_from, x8u, lower_digit, hex_digits, fmt_08x}

to_digit-lower_digit : (d : ℕ) → d < 16 → to_digit (lower_digit d) ≡ some d
unfolding to_digit
to_digit-lower_digit d h = ground arith

x8u_from-append :
    (r : ℕ) (a b : Bytes) (q : ℕ) → x8u_from r a ≡ ok q → x8u_from r (a ++ b) ≡ x8u_from q b
unfolding x8u_from
x8u_from-append r [] b q h = ground arith
x8u_from-append r (c ∷ a) b q h = elim (Option-cases (to_digit c)) [
  | inl bad ↦ absurd (ground (arith, bad))
  | inr (d, good) ↦
      rw (good, x8u_from) (x8u_from-append ((r * 16 + d) % 2 ^ 32) a b q (rw (good, x8u_from) at h))
]

x8u_from_digit :
    (r d : ℕ) → d < 16 → r * 16 + d < 2 ^ 32 → x8u_from r (lower_digit d ∷ []) ≡ ok (r * 16 + d)
unfolding x8u_from
x8u_from_digit r d h k =
    rw (to_digit-lower_digit d h, x8u_from)
      (let e : (r * 16 + d) % 2 ^ 32 ≡ r * 16 + d = omega arith in ap ok e)

x8u_from-hex_digits :
    (w r n : ℕ)
    → n < 16 ^ w
    → r * 16 ^ w + n < 2 ^ 32
    → x8u_from r (hex_digits w n) ≡ ok (r * 16 ^ w + n)
unfolding hex_digits
x8u_from-hex_digits zero r n h k =
    unfold x8u_from in ap ok (let e : r ≡ r * 16 ^ 0 + n = omega arith in e)
x8u_from-hex_digits (suc w) r n h k =
    let p = pow-suc 16 w in
    let ih =
      x8u_from-hex_digits w r (n / 16) (omega (arith, p)) (omega (arith, ap (λ t. r * t) p)) in
    let last =
      x8u_from_digit (r * 16 ^ w + n / 16) (n % 16) (omega arith)
        (omega (arith, ap (λ t. r * t) p)) in
    let total : (r * 16 ^ w + n / 16) * 16 + n % 16 ≡ r * 16 ^ suc w + n =
      omega (arith, ap (λ t. r * t) p) in
    x8u_from-append r (hex_digits w (n / 16)) (lower_digit (n % 16) ∷ []) _ ih ∙ last ∙ ap ok total

pub length-hex_digits : (w n : ℕ) → length (hex_digits w n) ≡ w
unfolding hex_digits
length-hex_digits zero n = refl
length-hex_digits (suc w) n = omega (
  arith,
  length-append (hex_digits w (n / 16)) (lower_digit (n % 16) ∷ []),
  length-hex_digits w (n / 16),
)

abbrev pub IsAscii : ℕ → Type 0
IsAscii c = c < 0x80

pub is_utf8-IsAscii : (s : Bytes) → All IsAscii s → is_utf8 s ≡ true
unfolding is_utf8
is_utf8-IsAscii [] h = refl
is_utf8-IsAscii (c ∷ s) h = ground (arith, is_utf8-IsAscii s h.1)

hex_digits-IsAscii : (w n : ℕ) → All IsAscii (hex_digits w n)
unfolding hex_digits
hex_digits-IsAscii zero n = tt
hex_digits-IsAscii (suc w) n =
    All-append IsAscii (lower_digit (n % 16) ∷ []) (hex_digits w (n / 16)) (ground arith)
      (hex_digits-IsAscii w (n / 16))

pub fmt_08x_eight : (n : ℕ) → n < 2 ^ 32 → fmt_08x n ≡ hex_digits 8 n
unfolding fmt_08x
fmt_08x_eight n h = let small : ltb n (2 ^ 32) ≡ true = ground arith in rw small

pub x8u_eight : (n : ℕ) → n < 2 ^ 32 → x8u (hex_digits 8 n) ≡ ok n
unfolding x8u
x8u_eight n h = rw (is_utf8-IsAscii (hex_digits 8 n) (hex_digits-IsAscii 8 n)) (
    x8u_from-hex_digits 8 0 n (omega arith) (omega arith)
    ∙ ap ok (let e : 0 * 16 ^ 8 + n ≡ n = omega arith in e))

-- A number below 2 ^ 32 is printed in eight digits, and read back as itself.
pub x8u-fmt_08x : (n : ℕ) → n < 2 ^ 32 → (length (fmt_08x n) ≡ 8) × (x8u (fmt_08x n) ≡ ok n)
x8u-fmt_08x n h =
    (ap length (fmt_08x_eight n h) ∙ length-hex_digits 8 n, rw (fmt_08x_eight n h) (x8u_eight n h))

-- The value of a text of hexadecimal digits, with no bound.
pub hex_value : ℕ → Bytes → Option ℕ
hex_value ret [] = some ret
hex_value ret (c ∷ s) = elim (to_digit c) [ none ↦ none | some d ↦ hex_value (ret * 16 + d) s ]

abbrev pub as_outcome : Option ℕ → Outcome ℕ
as_outcome none = err
as_outcome (some n) = ok n

to_digit-lt : (c d : ℕ) → to_digit c ≡ some d → d < 16
unfolding to_digit
to_digit-lt c d h = ground arith

next_bound : (r d p : ℕ) → d < 16 → (r * 16 + d + 1) * p ≤ (r + 1) * (p * 16)
next_bound r d p h =
    let le : (r * 16 + d + 1) * p ≤ ((r + 1) * 16) * p = grind arith in omega (arith, le)

pow_pos : (n : ℕ) → 0 < 16 ^ n
pow_pos zero = omega arith
pow_pos (suc n) = omega (arith, pow-suc 16 n, pow_pos n)

no_wrap : (v p : ℕ) → 0 < p → (v + 1) * p ≤ 2 ^ 32 → v % 2 ^ 32 ≡ v
no_wrap v p h k = let le : v + 1 ≤ (v + 1) * p = grind arith in omega (arith, le)

to_digit-IsAscii : (c d : ℕ) → to_digit c ≡ some d → IsAscii c
unfolding to_digit
to_digit-IsAscii c d h = ground arith

x8u_from-hex_value :
    (s : Bytes) (r : ℕ)
    → (r + 1) * 16 ^ length s ≤ 2 ^ 32
    → x8u_from r s ≡ as_outcome (hex_value r s)
unfolding x8u_from hex_value
x8u_from-hex_value [] r h = refl
x8u_from-hex_value (c ∷ s) r h = elim (Option-cases (to_digit c)) [
  | inl bad ↦ rw (bad, x8u_from, hex_value)
  | inr (d, good) ↦
      let p = pow-suc 16 (length s) in
      let bound = next_bound r d (16 ^ length s) (to_digit-lt c d good) in
      let fits : (r * 16 + d + 1) * 16 ^ length s ≤ 2 ^ 32 =
        le_trans bound (subst (λ t. (r + 1) * t ≤ 2 ^ 32) p h) in
      let e = no_wrap (r * 16 + d) (16 ^ length s) (pow_pos (length s)) fits in
      rw (good, x8u_from, hex_value) (rw e (x8u_from-hex_value s (r * 16 + d) fits))
]

hex_value-IsAscii : (s : Bytes) (r n : ℕ) → hex_value r s ≡ some n → All IsAscii s
unfolding hex_value
hex_value-IsAscii [] r n h = tt
hex_value-IsAscii (c ∷ s) r n h = elim (Option-cases (to_digit c)) [
  | inl bad ↦ absurd (ground (arith, bad))
  | inr (d, good) ↦
      (to_digit-IsAscii c d good, hex_value-IsAscii s (r * 16 + d) n (rw (good, hex_value) at h))
]

-- On the eight bytes of a header field `x8u` gives the unbounded value of the digits, so its u32
-- arithmetic never wraps, and it fails where that value is none, since a byte is no digit.
pub x8u-hex_value : (s : Bytes) → length s ≡ 8 → x8u s ≡ as_outcome (hex_value 0 s)
unfolding x8u
x8u-hex_value s eight =
    let same = x8u_from-hex_value s 0 (rw eight (omega arith)) in
    elim (Option-cases (hex_value 0 s)) [
      | inl bad ↦ ground (arith, same, bad)
      | inr (n, good) ↦ rw (is_utf8-IsAscii s (hex_value-IsAscii s 0 n good)) same
    ]
