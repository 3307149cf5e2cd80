-- ===== src/Core/Socket/RoundTrip.antt =====
-- What is encoded is decoded again (native/src/core/socket.rs).
use magisk_t.Prelude.{
  ℕ, zero, suc, ◌/◌, ◌%◌, ◌^◌, ◌≤◌, ◌<◌, ◌≡◌, refl, sym, ap, ap₂, ◌∙◌, true, false, List, [], ◌∷◌,
  ◌++◌, append_assoc, arith, ltb, leb, Bytes, length, take, drop, All, length-append, take-append,
  drop-append, bind_ok, ok,
}
use native.Mathlib.Nat.{pow-suc}
use magisk_t.Prelude.Utf8.{is_utf8}
use magisk_t.Core.Socket.{
  Decodable, read_exact, write_pod, from_le, read_pod, pod, encode_bool, decode_bool, bool,
  encode_len, decode_len, encode_each, decode_each, encode_vec, decode_vec, vec, encode_str,
  decode_string, string, encode_fields, decode_fields, fields,
}

-- Values with `P` are decoded from their encoding, and what stands behind it is left.
abbrev pub RoundTrips : {A : Type 0} → (A → Type 0) → Decodable A → Type 0
RoundTrips {A} P codec =
    (a : A) (rest : Bytes) → P a → codec.decode (codec.encode a ++ rest) ≡ ok (a, rest)

length-write_pod : (w n : ℕ) → length (write_pod w n) ≡ w
unfolding write_pod
length-write_pod zero n = refl
length-write_pod (suc w) n = omega (arith, length-write_pod w (n / 256))

from_le-write_pod : (w n : ℕ) → n < 256 ^ w → from_le (write_pod w n) ≡ n
unfolding from_le write_pod
from_le-write_pod zero n h = omega arith
from_le-write_pod (suc w) n h =
    let p = pow-suc 256 w in
    let ih = from_le-write_pod w (n / 256) (omega (arith, p)) in rw ih (omega arith)

read_exact-append :
    (w : ℕ) (front rest : Bytes)
    → length front ≡ w
    → read_exact w (front ++ rest) ≡ ok (front, rest)
unfolding read_exact
read_exact-append w front rest h =
    let enough : leb w (length (front ++ rest)) ≡ true =
      ground (arith, length-append front rest, h) in
    rw enough (
      ap₂ (λ a b. ok (a, b)) (sym (ap (λ n. take n (front ++ rest)) h) ∙ take-append front rest)
        (sym (ap (λ n. drop n (front ++ rest)) h) ∙ drop-append front rest))

abbrev pub Below : ℕ → ℕ → Type 0
Below w n = n < 256 ^ w

read_pod-write_pod :
    (w n : ℕ) (rest : Bytes) → n < 256 ^ w → read_pod w (write_pod w n ++ rest) ≡ ok (n, rest)
unfolding read_pod
read_pod-write_pod w n rest h =
    bind_ok (read_exact w (write_pod w n ++ rest)) _
      (read_exact-append w (write_pod w n) rest (length-write_pod w n))
    ∙ ap (λ m. ok (m, rest)) (from_le-write_pod w n h)

-- Numbers of `w` bytes: what `pod w` writes of one is read back as that number, and what stands
-- behind it is left.
pub pod-RoundTrips : (w : ℕ) → RoundTrips (Below w) (pod w)
unfolding pod
pod-RoundTrips w n rest h = read_pod-write_pod w n rest h

abbrev pub Any : {A : Type 0} → A → Type 0
Any a = Unit

pub bool-RoundTrips : RoundTrips Any bool
unfolding bool encode_bool decode_bool
bool-RoundTrips true rest h = bind_ok (read_pod 1 _) _ (read_pod-write_pod 1 1 rest (omega arith))
bool-RoundTrips false rest h = bind_ok (read_pod 1 _) _ (read_pod-write_pod 1 0 rest (omega arith))

decode_len-encode_len :
    (len : ℕ) (rest : Bytes) → len < 2 ^ 31 → decode_len (encode_len len ++ rest) ≡ ok (len, rest)
unfolding decode_len encode_len
decode_len-encode_len len rest h =
    let same : len % 2 ^ 32 ≡ len = omega arith in
    let positive : ltb len (2 ^ 31) ≡ true = ground arith in
    bind_ok (read_pod 4 _) _ (read_pod-write_pod 4 (len % 2 ^ 32) rest (omega arith))
    ∙ rw same (rw positive)

module _ {A : Type 0} {P : A → Type 0} (element : Decodable A) (good : RoundTrips P element) where
  decode_each-encode_each :
      (values : List A) (rest : Bytes)
      → All P values
      → decode_each element (length values) (encode_each element values ++ rest) ≡ ok (values, rest)
  unfolding decode_each encode_each
  decode_each-encode_each [] rest h = refl
  decode_each-encode_each (a ∷ values) rest h =
      rw (append_assoc (element.encode a) (encode_each element values) rest) (
        bind_ok (element.decode _) _ (good a (encode_each element values ++ rest) h.0)
        ∙ bind_ok (decode_each element (length values) _) _
            (decode_each-encode_each values rest h.1))

  -- Where an element's values with `P` are read back from what it writes, so are lists of them that are
  -- shorter than 2 ^ 31.
  pub vec-RoundTrips : RoundTrips (λ values. (length values < 2 ^ 31) × All P values) (vec element)
  unfolding vec encode_vec decode_vec
  vec-RoundTrips values rest (few, h) =
      rw (append_assoc (encode_len (length values)) (encode_each element values) rest) (
        bind_ok (decode_len _) _
          (decode_len-encode_len (length values) (encode_each element values ++ rest) few)
        ∙ decode_each-encode_each values rest h)

-- Texts of UTF-8, shorter than 2 ^ 31 bytes, are read back from what is written of them.
pub string-RoundTrips : RoundTrips (λ s. (length s < 2 ^ 31) × (is_utf8 s ≡ true)) string
unfolding string encode_str decode_string
string-RoundTrips s rest (few, utf8) = rw (append_assoc (encode_len (length s)) s rest) (
    bind_ok (decode_len _) _ (decode_len-encode_len (length s) (s ++ rest) few)
    ∙ rw (take-append s rest) (rw (drop-append s rest) (rw utf8)))

module _ {A B : Type 0} {P : A → Type 0} {Q : B → Type 0} (first : Decodable A)
    (second : Decodable B) (good_first : RoundTrips P first)
    (good_second : RoundTrips Q second) where
  -- Where two fields are read back from what is written of each, so is the struct of both.
  pub fields-RoundTrips : RoundTrips (λ p. P p.0 × Q p.1) (fields first second)
  unfolding fields encode_fields decode_fields
  fields-RoundTrips (a, b) rest (h, k) = rw (append_assoc (first.encode a) (second.encode b) rest) (
      bind_ok (first.decode _) _ (good_first a (second.encode b ++ rest) h)
      ∙ bind_ok (second.decode _) _ (good_second b rest k))

take_all : (n : ℕ) (s : Bytes) → length s ≤ n → take n s ≡ s
take_all zero [] h = refl
take_all (suc n) [] h = refl
take_all zero (c ∷ s) h = absurd (omega arith)
take_all (suc n) (c ∷ s) h = ap (◌∷◌ c) (take_all n s (omega arith))

drop_all : (n : ℕ) (s : Bytes) → length s ≤ n → drop n s ≡ []
drop_all zero [] h = refl
drop_all (suc n) [] h = refl
drop_all zero (c ∷ s) h = absurd (omega arith)
drop_all (suc n) (c ∷ s) h = drop_all n s (omega arith)

-- A text that is cut short, anywhere between characters, is read back without an error: what came
-- is taken for the whole.
pub decode_string_short :
    (len : ℕ) (came : Bytes)
    → length came ≤ len
    → len < 2 ^ 31
    → is_utf8 came ≡ true
    → decode_string (encode_len len ++ came) ≡ ok (came, [])
unfolding decode_string
decode_string_short len came short few utf8 =
    bind_ok (decode_len _) _ (decode_len-encode_len len came few)
    ∙ rw (take_all len came short) (rw (drop_all len came short) (rw utf8))
