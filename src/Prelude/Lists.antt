-- ===== src/Prelude/Lists.antt =====
-- Byte strings: measuring, slicing, comparing and splitting lists of numbers, with the behaviour
-- of Rust's `[u8]` and `str` methods of the same names.
use Prim.Native.Nat.{ℕ, zero, suc, ◌+◌, ◌-◌, min, compare, Ordering}
use Prim.Native.Char.{code}
use Prim.Native.String.{String}
use mathlib.Core.Path.{◌≡◌, refl, ap}
use mathlib.Core.Logic.{◌↔◌}
use mathlib.Core.Bool.{Bool, true, false, ◌&&◌, ◌||◌}
use mathlib.Core.List.{List, [], ◌∷◌, ◌++◌}
use mathlib.Core.Option.{Option, none, some}
use native.Mathlib.Omega.{arith}
use magisk_t.Prelude.Tests.{leb, ◌==◌, if◌then◌else◌}

abbrev pub Bytes : Type 0
Bytes = List ℕ

-- The bytes of an ASCII literal.
abbrev pub codes : String → Bytes
codes String.[] = []
codes (String.◌∷◌ c s) = code c ∷ codes s

module _ {ℓ} {A : Type ℓ} where
  abbrev pub length : List A → ℕ
  length [] = 0
  length (x ∷ xs) = suc (length xs)

  abbrev pub take : ℕ → List A → List A
  take zero xs = []
  take (suc n) [] = []
  take (suc n) (x ∷ xs) = x ∷ take n xs

  abbrev pub drop : ℕ → List A → List A
  drop zero xs = xs
  drop (suc n) [] = []
  drop (suc n) (x ∷ xs) = drop n xs

  abbrev pub replicate : ℕ → A → List A
  replicate zero a = []
  replicate (suc n) a = a ∷ replicate n a

  abbrev pub is_empty : List A → Bool
  is_empty [] = true
  is_empty (x ∷ xs) = false

  abbrev pub All {κ} : (A → Type κ) → List A → Type κ
  All P [] = Unit
  All P (first ∷ others) = P first × All P others

module _ {ℓ} {A : Type ℓ} where
  pub length-append : (xs ys : List A) → length (xs ++ ys) ≡ length xs + length ys
  length-append [] ys = omega arith
  length-append (x ∷ xs) ys = omega (arith, length-append xs ys)

  pub length-replicate : (n : ℕ) (a : A) → length (replicate n a) ≡ n
  length-replicate zero a = refl
  length-replicate (suc n) a = ap suc (length-replicate n a)

  pub length-drop : (n : ℕ) (xs : List A) → length (drop n xs) ≡ length xs - n
  length-drop zero xs = omega arith
  length-drop (suc n) [] = omega arith
  length-drop (suc n) (x ∷ xs) = omega (arith, length-drop n xs)

  pub length-take : (n : ℕ) (xs : List A) → length (take n xs) ≡ min n (length xs)
  length-take zero xs = omega arith
  length-take (suc n) [] = omega arith
  length-take (suc n) (x ∷ xs) = omega (arith, length-take n xs)

  pub take-append : (xs ys : List A) → take (length xs) (xs ++ ys) ≡ xs
  take-append [] ys = refl
  take-append (x ∷ xs) ys = ap (◌∷◌ x) (take-append xs ys)

  pub drop-append : (xs ys : List A) → drop (length xs) (xs ++ ys) ≡ ys
  drop-append [] ys = refl
  drop-append (x ∷ xs) ys = drop-append xs ys

  pub All-mono {κ ι} :
      (P : A → Type κ) (Q : A → Type ι) → ((a : A) → P a → Q a) → (l : List A) → All P l → All Q l
  All-mono P Q h [] all = tt
  All-mono P Q h (first ∷ others) (this, rest) = (h first this, All-mono P Q h others rest)

  pub All-append {κ} :
      (P : A → Type κ) (back front : List A) → All P back → All P front → All P (front ++ back)
  All-append P back [] later earlier = later
  All-append P back (x ∷ front) later (first, others) =
      (first, All-append P back front later others)

-- `==` of two strings or slices.
abbrev pub bytes_eq : Bytes → Bytes → Bool
bytes_eq [] [] = true
bytes_eq (x ∷ xs) (y ∷ ys) = x == y && bytes_eq xs ys
bytes_eq _ _ = false

pub bytes_eq_iff : (a b : Bytes) → (bytes_eq a b ≡ true) ↔ (a ≡ b)
bytes_eq_iff (x ∷ a) (y ∷ b) = ground (arith, bytes_eq_iff a b)
bytes_eq_iff _ _ = ground arith

-- `Ord::cmp` of two strings: lexicographic on bytes.
abbrev pub cmp : Bytes → Bytes → Ordering
cmp [] [] = Ordering.eq
cmp [] (y ∷ ys) = Ordering.lt
cmp (x ∷ xs) [] = Ordering.gt
cmp (x ∷ xs) (y ∷ ys) = elim (compare x y) [
  | Ordering.lt ↦ Ordering.lt
  | Ordering.eq ↦ cmp xs ys
  | Ordering.gt ↦ Ordering.gt
]

abbrev pub starts_with : Bytes → Bytes → Bool
starts_with s [] = true
starts_with [] (p ∷ ps) = false
starts_with (c ∷ s) (p ∷ ps) = c == p && starts_with s ps

abbrev pub strip_prefix : Bytes → Bytes → Option Bytes
strip_prefix s p = if starts_with s p then some (drop (length p) s) else none

abbrev pub ends_with : Bytes → Bytes → Bool
ends_with s p = leb (length p) (length s) && bytes_eq (drop (length s - length p) s) p

abbrev pub contains : Bytes → ℕ → Bool
contains [] b = false
contains (c ∷ s) b = c == b || contains s b

-- `split(sep)`: there is always a first piece, and one more after each separator.
abbrev pub prepend_first : ℕ → List Bytes → List Bytes
prepend_first c [] = (c ∷ []) ∷ []
prepend_first c (w ∷ ws) = (c ∷ w) ∷ ws

unfoldable pub split : ℕ → Bytes → List Bytes
split sep [] = [] ∷ []
split sep (c ∷ s) = let rest = split sep s in if c == sep then [] ∷ rest else prepend_first c rest
