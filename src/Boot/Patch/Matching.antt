-- ===== src/Boot/Patch/Matching.antt =====
-- What `match_patterns!` of native/src/boot/patch.rs takes off the front of its buffer.
use magisk_t.Prelude.{
  ℕ, zero, suc, ◌+◌, ◌≤◌, ◌<◌, ◌≡◌, refl, sym, ap, subst, ◌∙◌, ◌⊎◌, inl, inr, true, false, some,
  List, [], ◌∷◌, ◌++◌, arith, ◌==◌, Bool-cases, Option-cases, Bytes, codes, length, take, drop, All,
  length-drop, starts_with, contains,
}
use magisk_t.Boot.Patch.{
  value_len, first_pattern, leading_comma, with_value, match_patterns, verity_patterns,
  encryption_patterns, patch_verity, patch_encryption,
}
use magisk_t.Boot.Patch.Removal.{IsMatcher, padded, strip, remove_pattern-eq-strip}

value_len-le : (b : Bytes) → value_len b ≤ length b
unfolding value_len
value_len-le [] = omega arith
value_len-le (c ∷ b) = ground (arith, value_len-le b)

starts_with-le : (s p : Bytes) → starts_with s p ≡ true → length p ≤ length s
starts_with-le s [] h = omega arith
starts_with-le [] (x ∷ p) h = cc
starts_with-le (c ∷ s) (x ∷ p) h = ground (arith, starts_with-le s p)

pub starts_with-take : (s p : Bytes) → starts_with s p ≡ true → take (length p) s ≡ p
starts_with-take s [] h = refl
starts_with-take [] (x ∷ p) h = cc
starts_with-take (c ∷ s) (x ∷ p) h = ground (arith, starts_with-take s p)

abbrev pub NonEmpty : Bytes → Type 0
NonEmpty p = 0 < length p

first_pattern_bounds :
    (ps : List Bytes) (b : Bytes) (n : ℕ)
    → All NonEmpty ps
    → first_pattern ps b ≡ some n
    → (0 < n) × (n ≤ length b)
unfolding first_pattern
first_pattern_bounds [] b n ne e = cc
first_pattern_bounds (p ∷ ps) b n ne e =
    ground (arith, starts_with-le b p, first_pattern_bounds ps b n ne.1)

with_value_bounds :
    (buf : Bytes) (len : ℕ)
    → len ≤ length buf
    → (len ≤ with_value buf len) × (with_value buf len ≤ length buf)
unfolding with_value
with_value_bounds buf len h = ground (arith, value_len-le (drop len buf), length-drop len buf)

leading_comma-le : (buf : Bytes) → leading_comma buf ≤ length buf
unfolding leading_comma
leading_comma-le [] = omega arith
leading_comma-le (c ∷ buf) = ground arith

pub match_patterns-IsMatcher : (ps : List Bytes) → All NonEmpty ps → IsMatcher (match_patterns ps)
unfolding match_patterns
match_patterns-IsMatcher ps ne buf n e =
    let b = drop (leading_comma buf) buf in
    grind (
      arith,
      leading_comma-le buf,
      length-drop (leading_comma buf) buf,
      first_pattern_bounds ps b,
      with_value_bounds buf,
      ne,
    )

-- The separators that end a value.
abbrev pub IsPlain : ℕ → Type 0
IsPlain c = contains (codes " \n" ++ 0 ∷ []) c ≡ false

abbrev pub Listed : Bytes → List Bytes → Type 0
Listed p [] = ⊥
Listed p (q ∷ qs) = (p ≡ q) ⊎ Listed p qs

-- The value behind a pattern: nothing where no `=` follows; else all up to the next separator.
abbrev pub IsValue : Bytes → Bytes → Type 0
IsValue value rest =
    ((value ≡ []) × (starts_with rest (codes "=") ≡ false))
    ⊎ ((starts_with value (codes "=") ≡ true)
        × All IsPlain value
        × ((rest ≡ [])
            ⊎ ((c : ℕ) × (s : Bytes) × (rest ≡ c ∷ s)
                × (contains (codes " \n" ++ 0 ∷ []) c ≡ true))))

pub record Matched (ps : List Bytes) (buf : Bytes) (n : ℕ) : Type 0 where
  pub comma : Bytes
  pub flag : Bytes
  pub value : Bytes
  pub rest : Bytes
  pub splits : buf ≡ comma ++ (flag ++ (value ++ rest))
  pub is_comma : (comma ≡ []) ⊎ (comma ≡ codes ",")
  pub is_listed : Listed flag ps
  pub before : List Bytes
  pub after : List Bytes
  pub order : ps ≡ before ++ flag ∷ after
  pub tried : All (λ p. starts_with (flag ++ (value ++ rest)) p ≡ false) before
  pub is_value : IsValue value rest
  pub size : n ≡ length comma + length flag + length value

starts_with-split : (s p : Bytes) → starts_with s p ≡ true → s ≡ p ++ drop (length p) s
starts_with-split s [] h = refl
starts_with-split [] (x ∷ p) h = cc
starts_with-split (c ∷ s) (x ∷ p) h = ground (arith, starts_with-split s p)

first_pattern-Listed :
    (ps : List Bytes) (b : Bytes) (n : ℕ)
    → first_pattern ps b ≡ some n
    → (p : Bytes) × Listed p ps
      × (b ≡ p ++ drop (length p) b)
      × (n ≡ length p)
      × (before : List Bytes) × (after : List Bytes) × (ps ≡ before ++ p ∷ after)
      × All (λ q. starts_with b q ≡ false) before
unfolding first_pattern
first_pattern-Listed [] b n e = cc
first_pattern-Listed (p ∷ ps) b n e = elim (Bool-cases (starts_with b p)) [
  | inl fits ↦ (p, inl refl, starts_with-split b p fits, ground arith, [], ps, refl, tt)
  | inr other ↦
      let (q, l, s, z, before, after, order, tried) = first_pattern-Listed ps b n (ground arith) in
      (q, inr l, s, z, p ∷ before, after, ap (◌∷◌ p) order, (other, tried))
]

-- A value that runs from the front of `b`, and what ends it.
record Runs (b : Bytes) : Type 0 where
  value : Bytes
  rest : Bytes
  splits : b ≡ value ++ rest
  size : value_len b ≡ length value
  plain : All IsPlain value
  stops :
      (rest ≡ [])
      ⊎ ((c : ℕ) × (s : Bytes) × (rest ≡ c ∷ s) × (contains (codes " \n" ++ 0 ∷ []) c ≡ true))

value_len-Runs : (b : Bytes) → Runs b
unfolding value_len
value_len-Runs [] = record {
  value = [];
  rest = [];
  splits = refl;
  size = refl;
  plain = tt;
  stops = inl refl;
}
value_len-Runs (c ∷ b) = elim (Bool-cases (contains (codes " \n" ++ 0 ∷ []) c)) [
  | inl stop ↦ record {
    value = [];
    rest = c ∷ b;
    splits = refl;
    size = ground arith;
    plain = tt;
    stops = inr (c, b, refl, stop);
  }
  | inr go ↦
      let r = value_len-Runs b in
      record {
        value = c ∷ r.value;
        rest = r.rest;
        splits = ap (◌∷◌ c) r.splits;
        size = ground (arith, r.size);
        plain = (go, r.plain);
        stops = r.stops;
      }
]

leading_comma-split :
    (buf : Bytes)
    → (comma : Bytes) × ((comma ≡ []) ⊎ (comma ≡ codes ","))
      × (buf ≡ comma ++ drop (leading_comma buf) buf)
      × (leading_comma buf ≡ length comma)
unfolding leading_comma
leading_comma-split [] = ([], inl refl, refl, refl)
leading_comma-split (c ∷ buf) = elim (Bool-cases (c == b',')) [
  | inl comma ↦ (codes ",", inr refl, ground arith, ground arith)
  | inr other ↦ ([], inl refl, ground arith, ground arith)
]

drop-nil : (n : ℕ) → drop {A = ℕ} n [] ≡ []
drop-nil zero = refl
drop-nil (suc n) = refl

drop-drop : (a b : ℕ) (s : Bytes) → drop (a + b) s ≡ drop b (drop a s)
drop-drop zero b s = let e : zero + b ≡ b = omega arith in ap (λ n. drop n s) e
drop-drop (suc a) b [] = drop-nil (suc a + b) ∙ sym (drop-nil b)
drop-drop (suc a) b (x ∷ s) =
    let e : suc a + b ≡ suc (a + b) = omega arith in ap (λ n. drop n (x ∷ s)) e ∙ drop-drop a b s

-- How a value follows position `len`.
record ValueAt (buf : Bytes) (len : ℕ) : Type 0 where
  value : Bytes
  rest : Bytes
  splits : drop len buf ≡ value ++ rest
  is_value : IsValue value rest
  size : with_value buf len ≡ len + length value

starts_with-value :
    (b value rest : Bytes)
    → b ≡ value ++ rest
    → starts_with b (codes "=") ≡ true
    → value_len b ≡ length value
    → starts_with value (codes "=") ≡ true
unfolding value_len
starts_with-value [] value rest s eq h = cc
starts_with-value (c ∷ b) [] rest s eq h = ground arith
starts_with-value (c ∷ b) (x ∷ value) rest s eq h = ground arith

with_value-ValueAt : (buf : Bytes) (len : ℕ) → ValueAt buf len
unfolding with_value
with_value-ValueAt buf len = elim (Bool-cases (starts_with (drop len buf) (codes "="))) [
  | inl eq ↦
      let r = value_len-Runs (drop len buf) in
      record {
        value = r.value;
        rest = r.rest;
        splits = r.splits;
        is_value = inr (starts_with-value _ r.value r.rest r.splits eq r.size, r.plain, r.stops);
        size = ground (arith, r.size);
      }
  | inr none_there ↦ record {
    value = [];
    rest = drop len buf;
    splits = refl;
    is_value = inl (refl, none_there);
    size = ground arith;
  }
]

match_patterns_inv :
    (ps : List Bytes) (buf : Bytes) (n : ℕ)
    → match_patterns ps buf ≡ some n
    → (k : ℕ) × (first_pattern ps (drop (leading_comma buf) buf) ≡ some k)
      × (n ≡ with_value buf (leading_comma buf + k))
unfolding match_patterns
match_patterns_inv ps buf n e =
    elim (Option-cases (first_pattern ps (drop (leading_comma buf) buf))) [
      | inl no_pattern ↦ absurd (ground arith)
      | inr (k, p) ↦ (k, p, ground arith)
    ]

-- What `match_patterns!` removes is an optional comma, the first of its patterns that stands there, and
-- the `=` value behind it up to the next blank, line end or NUL, if there is one.
pub match_patterns-Matched :
    (ps : List Bytes) (buf : Bytes) (n : ℕ) → match_patterns ps buf ≡ some n → Matched ps buf n
match_patterns-Matched ps buf n found =
    let (comma, is_comma, split_comma, lead) = leading_comma-split buf in
    let (k, pattern_found, n_is) = match_patterns_inv ps buf n found in
    let b = drop (leading_comma buf) buf in
    let (flag, is_listed, split_flag, k_is, before, after, order, tried) =
      first_pattern-Listed ps b k pattern_found in
    let v = with_value-ValueAt buf (leading_comma buf + k) in
    let behind : drop (length flag) b ≡ v.value ++ v.rest =
      ap (λ n. drop n b) (sym k_is) ∙ sym (drop-drop (leading_comma buf) k buf) ∙ v.splits in
    record {
      comma = comma;
      flag = flag;
      value = v.value;
      rest = v.rest;
      splits = split_comma ∙ ap (◌++◌ comma) (split_flag ∙ ap (◌++◌ flag) behind);
      is_comma = is_comma;
      is_listed = is_listed;
      before = before;
      after = after;
      order = order;
      tried =
          subst (λ x. All (λ p. starts_with x p ≡ false) before)
            (split_flag ∙ ap (◌++◌ flag) behind) tried;
      is_value = v.is_value;
      size = omega (arith, v.size, n_is, lead, k_is);
    }

-- `patch_verity` and `patch_encryption` never run out of fuel: on every buffer they drop the
-- matches of their patterns from left to right, pad with zeros, and return the size that is left.
pub patch-strip :
    (buf : Bytes)
    → (patch_verity buf
        ≡ some (padded buf (strip (match_patterns verity_patterns) (length buf + 1) buf)))
      × (patch_encryption buf
          ≡ some (padded buf (strip (match_patterns encryption_patterns) (length buf + 1) buf)))
unfolding patch_verity patch_encryption
patch-strip buf = (
  remove_pattern-eq-strip _ buf (match_patterns-IsMatcher verity_patterns (omega arith)),
  remove_pattern-eq-strip _ buf (match_patterns-IsMatcher encryption_patterns (omega arith)),
)
