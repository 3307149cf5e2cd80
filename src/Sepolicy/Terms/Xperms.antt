-- ===== src/Sepolicy/Terms/Xperms.antt =====
-- The grammar of extended permissions in native/src/sepolicy/statement.rs, and that
-- `parse_xperms` accepts exactly it.
use magisk_t.Prelude.{
  ℕ, zero, suc, ◌<◌, ◌≡◌, refl, ap, ◌∙◌, Bool, true, false, some, List, [], ◌∷◌, ◌++◌, append_assoc,
  arith, Bytes, length, length-append,
}
use magisk_t.Sepolicy.{Token, lb, rb, st, tl, hp, hx, id, Xperm}
use magisk_t.Sepolicy.Lexer.{parse_xperm_range}
use magisk_t.Sepolicy.Terms.{xperm, parse_xperm, xperm_list, xperms_after, parse_xperms}

-- xperm ::= HX | HX - HX | "0x<low>-0x<high>"
pub data OneXperm (reset : Bool) : List Token → Xperm → Type 0 where
  hex : (l : ℕ) → OneXperm reset (hx l ∷ []) (xperm l l reset)
  pair : (l h : ℕ) → OneXperm reset (hx l ∷ hp ∷ hx h ∷ []) (xperm l h reset)
  range :
      (s : Bytes) (l h : ℕ)
      → parse_xperm_range s ≡ some (l, h)
      → OneXperm reset (id s ∷ []) (xperm l h reset)

-- xperm_list ::= xperm | xperm_list xperm
pub data XpermList (reset : Bool) : List Token → List Xperm → Type 0 where
  last : {t : List Token} {x : Xperm} → OneXperm reset t x → XpermList reset t (x ∷ [])
  next :
      {t ts : List Token} {x : Xperm} {xs : List Xperm}
      → OneXperm reset t x
      → XpermList reset ts xs
      → XpermList reset (t ++ ts) (x ∷ xs)

-- xperms ::= HX | "0x<low>-0x<high>" | * | { xperm_list } | ~ { xperm_list }
pub data Xperms : List Token → List Xperm → Type 0 where
  hex : (l : ℕ) → 0 < l → Xperms (hx l ∷ []) (xperm l l false ∷ [])
  zero_hex : Xperms (hx 0 ∷ []) (xperm 0 0xFFFF false ∷ [])
  range :
      (s : Bytes) (l h : ℕ)
      → parse_xperm_range s ≡ some (l, h)
      → Xperms (id s ∷ []) (xperm l h false ∷ [])
  all : Xperms (st ∷ []) (xperm 0 0xFFFF false ∷ [])
  only :
      {ts : List Token} {xs : List Xperm} → XpermList false ts xs → Xperms (lb ∷ (ts ++ rb ∷ [])) xs
  except :
      {ts : List Token} {xs : List Xperm}
      → XpermList true ts xs
      → Xperms (tl ∷ lb ∷ (ts ++ rb ∷ [])) xs

-- What may follow one `xperm` without being read as part of it.
abbrev NotHp : List Token → Type 0
NotHp (hp ∷ _) = ⊥
NotHp _ = Unit

OneXperm-NotHp :
    {reset : Bool} {t : List Token} {x : Xperm} (rest : List Token)
    → OneXperm reset t x
    → NotHp (t ++ rest)
OneXperm-NotHp rest (hex l) = tt
OneXperm-NotHp rest (pair l h) = tt
OneXperm-NotHp rest (range s l h e) = tt

XpermList-NotHp :
    {reset : Bool} {ts : List Token} {xs : List Xperm} (rest : List Token)
    → XpermList reset ts xs
    → NotHp (ts ++ rest)
XpermList-NotHp rest (last h) = OneXperm-NotHp rest h
XpermList-NotHp rest (next {t} {ts} h hs) =
    rw (append_assoc t ts rest) (OneXperm-NotHp (ts ++ rest) h)

parse_xperm_hex_alone :
    (l : ℕ) (rest : List Token)
    → NotHp rest
    → parse_xperm (hx l ∷ rest) ≡ some (xperm l l false, rest)
unfolding parse_xperm
parse_xperm_hex_alone l [] h = refl
parse_xperm_hex_alone l (hp ∷ rest) h = absurd h
parse_xperm_hex_alone l (_ ∷ rest) h = refl

-- `parse_xperm` gives `reset: false`; the caller puts its own flag in.
parse_xperm-OneXperm :
    {reset : Bool} {t : List Token} {x : Xperm} (rest : List Token)
    → OneXperm reset t x
    → NotHp rest
    → parse_xperm (t ++ rest) ≡ some (record x { reset = false }, rest)
parse_xperm-OneXperm rest (hex l) n = parse_xperm_hex_alone l rest n
parse_xperm-OneXperm rest (pair l h) n = unfold parse_xperm in refl
parse_xperm-OneXperm rest (range s l h e) n = unfold parse_xperm in rw (e, parse_xperm)

OneXperm-reset :
    {reset : Bool} {t : List Token} {x : Xperm}
    → OneXperm reset t x
    → record x { reset = reset } ≡ x
OneXperm-reset (hex l) = refl
OneXperm-reset (pair l h) = refl
OneXperm-reset (range s l h e) = refl

OneXperm-length : {reset : Bool} {t : List Token} {x : Xperm} → OneXperm reset t x → 0 < length t
OneXperm-length (hex l) = omega arith
OneXperm-length (pair l h) = omega arith
OneXperm-length (range s l h e) = omega arith

-- One round of the loop, at the end of the list and before more of it.
module _ (fuel : ℕ) (reset : Bool) (acc : List Xperm) (tokens : List Token) (x : Xperm)
    (rest : List Token) where
  xperm_list_last :
      parse_xperm tokens ≡ some (x, rb ∷ rest)
      → xperm_list (suc fuel) reset acc tokens ≡ some (acc ++ record x { reset = reset } ∷ [], rest)
  unfolding xperm_list
  xperm_list_last e = rw (e, xperm_list)

abbrev NotRb : List Token → Type 0
NotRb (rb ∷ _) = ⊥
NotRb _ = Unit

xperm_list_more :
    (fuel : ℕ) (reset : Bool) (acc : List Xperm) (tokens : List Token) (x : Xperm)
    (rest : List Token)
    → parse_xperm tokens ≡ some (x, rest)
    → NotRb rest
    → xperm_list (suc fuel) reset acc tokens
      ≡ xperm_list fuel reset (acc ++ record x { reset = reset } ∷ []) rest
unfolding xperm_list
xperm_list_more fuel reset acc tokens x (rb ∷ rest) e n = absurd n
xperm_list_more fuel reset acc tokens x _ e n = rw (e, xperm_list)

OneXperm-NotRb :
    {reset : Bool} {t : List Token} {x : Xperm} (rest : List Token)
    → OneXperm reset t x
    → NotRb (t ++ rest)
OneXperm-NotRb rest (hex l) = tt
OneXperm-NotRb rest (pair l h) = tt
OneXperm-NotRb rest (range s l h e) = tt

XpermList-NotRb :
    {reset : Bool} {ts : List Token} {xs : List Xperm} (rest : List Token)
    → XpermList reset ts xs
    → NotRb (ts ++ rest)
XpermList-NotRb rest (last h) = OneXperm-NotRb rest h
XpermList-NotRb rest (next {t} {ts} h hs) =
    rw (append_assoc t ts rest) (OneXperm-NotRb (ts ++ rest) h)

xperm_list-XpermList :
    {reset : Bool} {ts : List Token} {xs : List Xperm} (fuel : ℕ) (acc : List Xperm)
    (rest : List Token)
    → XpermList reset ts xs
    → length ts < fuel
    → xperm_list fuel reset acc (ts ++ rb ∷ rest) ≡ some (acc ++ xs, rest)
xperm_list-XpermList zero acc rest l h = absurd (omega arith)
xperm_list-XpermList {reset} (suc fuel) acc rest (last {x} one) h =
    xperm_list_last fuel reset acc _ _ rest (parse_xperm-OneXperm (rb ∷ rest) one tt)
    ∙ ap (λ y. some (acc ++ y ∷ [], rest)) (OneXperm-reset one)
xperm_list-XpermList {reset} (suc fuel) acc rest (next {t} {ts} {x} {xs} one l) h =
    rw (append_assoc t ts (rb ∷ rest)) (
      xperm_list_more fuel reset acc _ _ _
        (parse_xperm-OneXperm (ts ++ rb ∷ rest) one (XpermList-NotHp (rb ∷ rest) l))
        (XpermList-NotRb (rb ∷ rest) l)
      ∙ xperm_list-XpermList fuel (acc ++ _ ∷ []) rest l
          (omega (arith, length-append t ts, OneXperm-length one))
      ∙ ap (λ y. some (y, rest))
          (append_assoc acc _ xs ∙ ap (λ y. acc ++ y ∷ xs) (OneXperm-reset one)))

-- `parse_xperms` accepts every text of the grammar `Xperms`, whatever stands behind it, with the
-- permissions that the grammar gives, and leaves what stands behind it.
pub parse_xperms-Xperms :
    {ts : List Token} {xs : List Xperm} (rest : List Token)
    → Xperms ts xs
    → parse_xperms (ts ++ rest) ≡ some (xs, rest)
unfolding parse_xperms
parse_xperms-Xperms rest (hex l pos) = ground arith
parse_xperms-Xperms rest zero_hex = refl
parse_xperms-Xperms rest (range s l h e) = rw (e, xperms_after)
parse_xperms-Xperms rest all = refl
parse_xperms-Xperms rest (only {ts} l) =
    rw (append_assoc ts (rb ∷ []) rest)
      (xperm_list-XpermList _ [] rest l (omega (arith, length-append ts (rb ∷ rest))))
parse_xperms-Xperms rest (except {ts} l) =
    rw (append_assoc ts (rb ∷ []) rest)
      (xperm_list-XpermList _ [] rest l (omega (arith, length-append ts (rb ∷ rest))))
