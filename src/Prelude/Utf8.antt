-- ===== src/Prelude/Utf8.antt =====
-- The test of `std::str::from_utf8`, as the automaton of the well-formed byte sequences: which
-- bytes may come next, and how many continuation bytes follow them.
use Prim.Native.Nat.{ℕ, zero, suc}
use mathlib.Core.Bool.{Bool, true, false, ◌&&◌}
use mathlib.Core.List.{[], ◌∷◌, ◌++◌}
use mathlib.Core.Path.{◌≡◌, refl}
use mathlib.Core.Option.{Option, none, some}
use magisk_t.Prelude.Tests.{ltb, leb, ◌==◌, if◌then◌else◌}
use magisk_t.Prelude.Lists.{Bytes}

pub data Expect : Type 0 where
  start : Expect
  tail : (lo hi more : ℕ) → Expect

abbrev within : ℕ → ℕ → ℕ → Bool
within lo hi c = leb lo c && leb c hi

pub after_lead : ℕ → Option Expect
after_lead c =
    if ltb c 0x80
    then some start
    else if within 0xC2 0xDF c
    then some (tail 0x80 0xBF 0)
    else if c == 0xE0
    then some (tail 0xA0 0xBF 1)
    else if c == 0xED
    then some (tail 0x80 0x9F 1)
    else if within 0xE1 0xEF c
    then some (tail 0x80 0xBF 1)
    else if c == 0xF0
    then some (tail 0x90 0xBF 2)
    else if within 0xF1 0xF3 c
    then some (tail 0x80 0xBF 2)
    else if c == 0xF4
    then some (tail 0x80 0x8F 2)
    else none

abbrev rest_of_tail : ℕ → Expect
rest_of_tail zero = start
rest_of_tail (suc more) = tail 0x80 0xBF more

pub utf8_step : Expect → ℕ → Option Expect
unfolding after_lead
utf8_step start c = after_lead c
utf8_step (tail lo hi more) c = if within lo hi c then some (rest_of_tail more) else none

pub utf8_from : Expect → Bytes → Bool
unfolding utf8_step
utf8_from start [] = true
utf8_from (tail lo hi more) [] = false
utf8_from e (c ∷ s) = elim (utf8_step e c) [ none ↦ false | some e' ↦ utf8_from e' s ]

unfoldable pub is_utf8 : Bytes → Bool
unfolding utf8_from
is_utf8 = utf8_from start

utf8_from-append :
    (e : Expect) (a b : Bytes) → utf8_from e a ≡ true → utf8_from e (a ++ b) ≡ utf8_from start b
unfolding utf8_from
utf8_from-append start [] b h = refl
utf8_from-append (tail lo hi more) [] b h = absurd (cc h)
utf8_from-append e (c ∷ a) b h = go (utf8_step e c) (λ next k. utf8_from-append next a b k) h
  where
    go :
        (o : Option Expect)
        → ((next : Expect) → utf8_from next a ≡ true → utf8_from next (a ++ b) ≡ utf8_from start b)
        → (elim o as (λ _. Bool) [ none ↦ false | some next ↦ utf8_from next a ]) ≡ true
        → (elim o as (λ _. Bool) [ none ↦ false | some next ↦ utf8_from next (a ++ b) ])
          ≡ utf8_from start b
    go none later k = absurd (cc k)
    go (some next) later k = later next k

-- A text in front of bytes leaves their test to them.
pub is_utf8-append : (a b : Bytes) → is_utf8 a ≡ true → is_utf8 (a ++ b) ≡ is_utf8 b
unfolding is_utf8
is_utf8-append a b h = utf8_from-append start a b h
