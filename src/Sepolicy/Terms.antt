-- ===== src/Sepolicy/Terms.antt =====
-- The parsers of parts of a statement (native/src/sepolicy/statement.rs). `none` is
-- `ParseError::General`, and what is left of the tokens comes back with the value.
pub mod Grammar
pub mod GrammarSound
pub mod Xperms
pub mod XpermsSound
use magisk_t.Prelude.{
  ℕ, zero, suc, ◌+◌, ◌-◌, ◌≡◌, sym, ◌∙◌, inl, inr, Bool, true, false, Option, none, some, List, [],
  ◌∷◌, ◌++◌, ltb, if◌then◌else◌, Option-cases, Bytes, length, bytes_eq,
}
use magisk_t.Sepolicy.{Token, lb, rb, st, tl, hp, hx, id, Xperm}
use magisk_t.Sepolicy.Lexer.{parse_xperm_range}

abbrev pub Parser {ℓ} : Type ℓ → Type ℓ
Parser A = List Token → Option (A × List Token)

infixl 5 ◌>>=◌
abbrev pub ◌>>=◌ {ℓ κ} : {A : Type ℓ} {B : Type κ} → Parser A → (A → Parser B) → Parser B
◌>>=◌ m f tokens = elim (m tokens) [ none ↦ none | some (a, rest) ↦ f a rest ]

abbrev pub pure {ℓ} : {A : Type ℓ} → A → Parser A
pure a tokens = some (a, tokens)

pub bind_lem {ℓ κ} :
    {A : Type ℓ} {B : Type κ} {tokens rest : List Token} {a : A} (m : Parser A) (f : A → Parser B)
    → m tokens ≡ some (a, rest)
    → (m >>= f) tokens ≡ f a rest
bind_lem m f h = cc

pub bind-eq-some {ℓ κ} :
    {A : Type ℓ} {B : Type κ} {tokens : List Token} {r : B × List Token} (m : Parser A)
    (f : A → Parser B)
    → (m >>= f) tokens ≡ some r
    → (a : A) × (rest : List Token) × (m tokens ≡ some (a, rest)) × (f a rest ≡ some r)
bind-eq-some {tokens} m f h = elim (Option-cases (m tokens)) [
  | inl e ↦ absurd (cc)
  | inr ((a, rest), e) ↦ (a, rest, e, sym (bind_lem m f e) ∙ h)
]

unfoldable pub parse_id : Parser Bytes
parse_id (id name ∷ tokens) = some (name, tokens)
parse_id _ = none

-- The loop of `parse_term` behind `{`.
unfoldable pub names_until_rb : List Bytes → Parser (List Bytes)
names_until_rb names (id name ∷ tokens) = names_until_rb (names ++ name ∷ []) tokens
names_until_rb names (rb ∷ tokens) = some (names, tokens)
names_until_rb names _ = none

unfoldable pub parse_term : Parser (List Bytes)
unfolding names_until_rb
parse_term (id name ∷ tokens) = some (name ∷ [], tokens)
parse_term (lb ∷ tokens) = names_until_rb [] tokens
parse_term _ = none

abbrev pub push_name : Option (List Bytes) → Bytes → Option (List Bytes)
push_name none name = none
push_name (some names) name = some (names ++ name ∷ [])

abbrev pub or_empty : Option (List Bytes) → List Bytes
or_empty none = []
or_empty (some names) = names

-- The loop of `parse_sterm` behind `{`: a `*` forgets the names for good.
unfoldable pub snames_until_rb : Option (List Bytes) → Parser (List Bytes)
snames_until_rb names (id name ∷ tokens) = snames_until_rb (push_name names name) tokens
snames_until_rb names (st ∷ tokens) = snames_until_rb none tokens
snames_until_rb names (rb ∷ tokens) = some (or_empty names, tokens)
snames_until_rb names _ = none

unfoldable pub parse_sterm : Parser (List Bytes)
unfolding snames_until_rb
parse_sterm (id name ∷ tokens) = some (name ∷ [], tokens)
parse_sterm (st ∷ tokens) = some ([], tokens)
parse_sterm (lb ∷ tokens) = snames_until_rb (some []) tokens
parse_sterm _ = none

abbrev pub xperm : ℕ → ℕ → Bool → Xperm
xperm low high reset = record { low = low; high = high; reset = reset }

unfoldable pub parse_xperm : Parser Xperm
parse_xperm (hx low ∷ hp ∷ hx high ∷ tokens) = some (xperm low high false, tokens)
parse_xperm (hx low ∷ hp ∷ tokens) = none
parse_xperm (hx low ∷ tokens) = some (xperm low low false, tokens)
parse_xperm (id s ∷ tokens) = elim (parse_xperm_range s) [
  | some (low, high) ↦ some (xperm low high false, tokens)
  | none ↦ none
]
parse_xperm _ = none

-- The loop over an `xperm_list`, on fuel, one for each token.
unfoldable pub xperm_list : ℕ → Bool → List Xperm → Parser (List Xperm)
xperm_list zero reset xperms tokens = none
xperm_list (suc fuel) reset xperms tokens = elim (parse_xperm tokens) [
  | none ↦ none
  | some (x, rb ∷ rest) ↦ some (xperms ++ record x { reset = reset } ∷ [], rest)
  | some (x, rest) ↦ xperm_list fuel reset (xperms ++ record x { reset = reset } ∷ []) rest
]

-- What follows an optional `~`.
unfoldable pub xperms_after : Bool → Parser (List Xperm)
unfolding xperm_list
xperms_after reset (lb ∷ tokens) = xperm_list (length tokens + 1) reset [] tokens
xperms_after reset (st ∷ tokens) = some (xperm 0x0000 0xFFFF reset ∷ [], tokens)
xperms_after reset (hx low ∷ tokens) =
    some ((if ltb 0 low then xperm low low reset else xperm 0x0000 0xFFFF reset) ∷ [], tokens)
xperms_after reset (id s ∷ tokens) = elim (parse_xperm_range s) [
  | some (low, high) ↦ some (xperm low high reset ∷ [], tokens)
  | none ↦ none
]
xperms_after reset _ = none

unfoldable pub parse_xperms : Parser (List Xperm)
unfolding xperms_after
parse_xperms (tl ∷ lb ∷ tokens) = xperms_after true (lb ∷ tokens)
parse_xperms (tl ∷ tokens) = none
parse_xperms tokens = xperms_after false tokens

unfoldable pub match_string : Bytes → Parser (Unit {0})
match_string pattern (id s ∷ tokens) = if bytes_eq s pattern then some (tt, tokens) else none
match_string pattern _ = none

-- `check_additional_args`
unfoldable pub no_more : Parser (Unit {0})
no_more [] = some (tt, [])
no_more (t ∷ tokens) = none
