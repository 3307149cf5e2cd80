-- ===== src/Sepolicy/Terms/Grammar.antt =====
-- The grammar that the comments of native/src/sepolicy/statement.rs give for terms, with empty
-- braces besides, and that `parse_term` and `parse_sterm` accept all of it.
use magisk_t.Prelude.{
  ◌≡◌, refl, ◌∙◌, Option, none, some, List, [], ◌∷◌, ◌++◌, append-nil, append_assoc, Bytes,
}
use magisk_t.Sepolicy.{Token, lb, rb, st, id}
use magisk_t.Sepolicy.Terms.{names_until_rb, parse_term, push_name, snames_until_rb, parse_sterm}

-- names: tokens between braces, and the names that they list.
pub data Names : List Token → List Bytes → Type 0 where
  nil : Names [] []
  cons : (n : Bytes) {ts : List Token} {ns : List Bytes} → Names ts ns → Names (id n ∷ ts) (n ∷ ns)

-- term ::= ID | { names }
pub data Term : List Token → List Bytes → Type 0 where
  one : (n : Bytes) → Term (id n ∷ []) (n ∷ [])
  group : {ts : List Token} {ns : List Bytes} → Names ts ns → Term (lb ∷ (ts ++ rb ∷ [])) ns

-- Names with a `*` among them, which stand for no names at all.
pub data Starred : List Token → Type 0 where
  star : {ts : List Token} {ns : List Bytes} → Names ts ns → Starred (st ∷ ts)
  name : (n : Bytes) {ts : List Token} → Starred ts → Starred (id n ∷ ts)
  more : {ts : List Token} → Starred ts → Starred (st ∷ ts)

-- sterm ::= * | ID | { names, with * allowed }
pub data Sterm : List Token → List Bytes → Type 0 where
  all : Sterm (st ∷ []) []
  one : (n : Bytes) → Sterm (id n ∷ []) (n ∷ [])
  group : {ts : List Token} {ns : List Bytes} → Names ts ns → Sterm (lb ∷ (ts ++ rb ∷ [])) ns
  starred : {ts : List Token} → Starred ts → Sterm (lb ∷ (ts ++ rb ∷ [])) []

names_until_rb-Names :
    {ts : List Token} {ns : List Bytes} (acc : List Bytes) (rest : List Token)
    → Names ts ns
    → names_until_rb acc (ts ++ rb ∷ rest) ≡ some (acc ++ ns, rest)
unfolding names_until_rb
names_until_rb-Names acc rest nil = rw append-nil
names_until_rb-Names acc rest (cons n {ts} {ns} h) =
    names_until_rb-Names (acc ++ n ∷ []) rest h ∙ rw append_assoc

pub parse_term-Term :
    {ts : List Token} {ns : List Bytes} (rest : List Token)
    → Term ts ns
    → parse_term (ts ++ rest) ≡ some (ns, rest)
unfolding parse_term
parse_term-Term rest (one n) = refl
parse_term-Term rest (group {ts} h) = rw append_assoc (names_until_rb-Names [] rest h)

snames_until_rb-Names :
    {ts : List Token} {ns : List Bytes} (acc : List Bytes) (rest : List Token)
    → Names ts ns
    → snames_until_rb (some acc) (ts ++ rb ∷ rest) ≡ some (acc ++ ns, rest)
unfolding snames_until_rb
snames_until_rb-Names acc rest nil = rw append-nil
snames_until_rb-Names acc rest (cons n h) =
    snames_until_rb-Names (acc ++ n ∷ []) rest h ∙ rw append_assoc

snames_until_rb-none :
    {ts : List Token} {ns : List Bytes} (rest : List Token)
    → Names ts ns
    → snames_until_rb none (ts ++ rb ∷ rest) ≡ some ([], rest)
unfolding snames_until_rb
snames_until_rb-none rest nil = refl
snames_until_rb-none rest (cons n h) = snames_until_rb-none rest h

snames_until_rb-Starred :
    {ts : List Token} (acc : Option (List Bytes)) (rest : List Token)
    → Starred ts
    → snames_until_rb acc (ts ++ rb ∷ rest) ≡ some ([], rest)
unfolding snames_until_rb
snames_until_rb-Starred acc rest (star h) = snames_until_rb-none rest h
snames_until_rb-Starred acc rest (name n h) = snames_until_rb-Starred (push_name acc n) rest h
snames_until_rb-Starred acc rest (more h) = snames_until_rb-Starred none rest h

-- `parse_sterm` accepts every `Sterm`, whatever stands behind it, with its names, and leaves what
-- stands behind it.
pub parse_sterm-Sterm :
    {ts : List Token} {ns : List Bytes} (rest : List Token)
    → Sterm ts ns
    → parse_sterm (ts ++ rest) ≡ some (ns, rest)
unfolding parse_sterm
parse_sterm-Sterm rest all = refl
parse_sterm-Sterm rest (one n) = refl
parse_sterm-Sterm rest (group h) = rw append_assoc (snames_until_rb-Names [] rest h)
parse_sterm-Sterm rest (starred h) = rw append_assoc (snames_until_rb-Starred (some []) rest h)
