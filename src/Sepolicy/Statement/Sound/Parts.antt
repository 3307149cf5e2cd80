-- ===== src/Sepolicy/Statement/Sound/Parts.antt =====
-- The parts of a statement that was read (native/src/sepolicy/statement.rs).
use magisk_t.Prelude.{
  ◌≡◌, refl, sym, ap, subst, ◌∙◌, ◌⊎◌, inl, inr, Option, none, some, List, [], ◌∷◌, ◌++◌,
  append-nil, Bool-cases, Bytes, bytes_eq, bytes_eq_iff,
}
use magisk_t.Sepolicy.{Token, id, Call, ParseError}
use magisk_t.Sepolicy.Terms.{Parser, ◌>>=◌, pure, parse_id, match_string, no_more, bind-eq-some}
use magisk_t.Sepolicy.Terms.GrammarSound.{Read}
use magisk_t.Sepolicy.Statement.{made, or_hint, or_default}

-- One part of a statement was read in the grammar `G`, and the parser goes on behind it.
abbrev Part :
    {A B : Type 0}
    → (List Token → A → Type 0)
    → (A → Parser B)
    → List Token
    → B × List Token
    → Type 0
Part {A} G f tokens r =
    (a : A) × (rest : List Token) × (taken : List Token) × (tokens ≡ taken ++ rest)
    × G taken a
    × (f a rest ≡ some r)

pub part :
    {A B : Type 0} {G : List Token → A → Type 0} {m : Parser A} {f : A → Parser B}
    {tokens : List Token} {r : B × List Token}
    → ((tokens : List Token) (a : A) (rest : List Token)
        → m tokens ≡ some (a, rest)
        → Read G tokens a rest)
    → (m >>= f) tokens ≡ some r
    → Part G f tokens r
part {m} {f} {tokens} sound h =
    let (a, rest, e, h') = bind-eq-some m f h in
    let read = sound tokens a rest e in (a, rest, read.taken, read.splits, read.is_read, h')

-- What stands behind the last part.
pub no_more_lem :
    {call : Call} (tokens : List Token) {made_call : Call} {rest : List Token}
    → (no_more >>= (λ _. pure call)) tokens ≡ some (made_call, rest)
    → (tokens ≡ []) × (call ≡ made_call)
unfolding no_more
no_more_lem [] h = (refl, cc)
no_more_lem (t ∷ tokens) h = absurd (cc)

pub match_string_lem :
    (pattern : Bytes) (f : Unit {0} → Parser Call) (tokens : List Token) {r : Call × List Token}
    → (match_string pattern >>= f) tokens ≡ some r
    → (rest : List Token) × (tokens ≡ id pattern ∷ rest) × (f tt rest ≡ some r)
unfolding match_string
match_string_lem pattern f (id s ∷ tokens) h = elim (Bool-cases (bytes_eq s pattern)) [
  | inl e ↦ (tokens, ap (λ n. id n ∷ tokens) ((bytes_eq_iff s pattern).0 e), cc)
  | inr e ↦ absurd (cc)
]
match_string_lem pattern f _ h = absurd (cc)

-- The part, and what stands behind it.
pub behind :
    (taken : List Token) {tokens rest rest' : List Token}
    → tokens ≡ taken ++ rest
    → rest ≡ rest'
    → tokens ≡ taken ++ rest'
behind taken e e' = e ∙ ap (λ ts. taken ++ ts) e'

pub at_end : {tokens taken rest : List Token} → tokens ≡ taken ++ rest → rest ≡ [] → tokens ≡ taken
at_end {taken} e e' = behind taken e e' ∙ append-nil taken

pub same :
    (R : List Token → Call → Type 0) {tokens tokens' : List Token} {call call' : Call}
    → tokens ≡ tokens'
    → call' ≡ call
    → R tokens' call'
    → R tokens call
same R {tokens} {call'} e e' h = subst (R tokens) e' (subst (λ ts. R ts call') (sym e) h)

-- A statement that starts with an action word makes the call of the closure behind it.
pub or_hint-made :
    (m : Option (Call × List Token)) (e : ParseError) {call : Call}
    → or_hint m e ≡ made call
    → (rest : List Token) × (m ≡ some (call, rest))
unfolding or_hint
or_hint-made none e h = absurd (cc)
or_hint-made (some (call, rest)) e h = (rest, cc)

module _ {A : Type 0} where
  pub parse_id_lem :
      (f : Bytes → Parser A) (tokens : List Token) {r : A × List Token}
      → (parse_id >>= f) tokens ≡ some r
      → (n : Bytes) × (rest : List Token) × (tokens ≡ id n ∷ rest) × (f n rest ≡ some r)
  unfolding parse_id
  parse_id_lem f (id n ∷ tokens) h = (n, tokens, refl, h)
  parse_id_lem f _ h = absurd (cc)

  pub or_default_lem :
      {B : Type 0} (default : B) (m : Parser B) (f : B → Parser A) (tokens : List Token)
      {r : A × List Token}
      → (or_default default m >>= f) tokens ≡ some r
      → ((tokens ≡ []) × (f default [] ≡ some r)) ⊎ ((m >>= f) tokens ≡ some r)
  unfolding or_default
  or_default_lem default m f [] h = inl (refl, h)
  or_default_lem default m f (t ∷ tokens) h = inr h
