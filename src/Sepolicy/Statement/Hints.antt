-- ===== src/Sepolicy/Statement/Hints.antt =====
-- What a statement that is not of the grammar prints, and statements one after another
-- (native/src/sepolicy/statement.rs).
use magisk_t.Prelude.{
  ℕ, ◌≡◌, refl, ap, ◌∙◌, ◌⊎◌, inl, inr, false, Option, none, some, List, [], ◌∷◌, ◌++◌, arith,
  Option-cases, Bytes, is_empty, prepend_first, split,
}
use magisk_t.Sepolicy.{
  Token, al, dn, aa, da, ax, ay, dx, pm, ef, ta, ty, at, tt_, tc, tm, gf, Call, ParseError,
  avtab_av, avtab_xperms, avtab_type, type_state, type_attr, type_trans, new_type, new_attr,
  genfs_con, show_help, unknown_action,
}
use magisk_t.Sepolicy.Statement.{
  Exec, made, hint, or_hint, exec_statement, parse_statement, parse_lines, load_rules,
}
use magisk_t.Sepolicy.Statement.Grammar.{IsStatement}
use magisk_t.Sepolicy.Statement.Sound.{exec_statement_sound}

-- The hint for each action word.
abbrev pub hint_of : List Token → ParseError
hint_of [] = show_help
hint_of (al ∷ ts) = avtab_av al
hint_of (dn ∷ ts) = avtab_av dn
hint_of (aa ∷ ts) = avtab_av aa
hint_of (da ∷ ts) = avtab_av da
hint_of (ax ∷ ts) = avtab_xperms ax
hint_of (ay ∷ ts) = avtab_xperms ay
hint_of (dx ∷ ts) = avtab_xperms dx
hint_of (pm ∷ ts) = type_state pm
hint_of (ef ∷ ts) = type_state ef
hint_of (ta ∷ ts) = type_attr
hint_of (ty ∷ ts) = new_type
hint_of (at ∷ ts) = new_attr
hint_of (tc ∷ ts) = avtab_type tc
hint_of (tm ∷ ts) = avtab_type tm
hint_of (tt_ ∷ ts) = type_trans
hint_of (gf ∷ ts) = genfs_con
hint_of (t ∷ ts) = unknown_action t

abbrev Done : List Token → ParseError → Exec → Type 0
Done ts e done = (done ≡ hint e) ⊎ ((call : Call) × (done ≡ made call))

or_hint-cases :
    (ts : List Token) (m : Option (Call × List Token)) (e : ParseError) → Done ts e (or_hint m e)
unfolding or_hint
or_hint-cases ts none e = inl refl
or_hint-cases ts (some (call, rest)) e = inr (call, refl)

exec_statement-cases : (ts : List Token) → Done ts (hint_of ts) (exec_statement ts)
unfolding exec_statement
exec_statement-cases [] = inl refl
exec_statement-cases (al ∷ ts) = or_hint-cases ts _ _
exec_statement-cases (dn ∷ ts) = or_hint-cases ts _ _
exec_statement-cases (aa ∷ ts) = or_hint-cases ts _ _
exec_statement-cases (da ∷ ts) = or_hint-cases ts _ _
exec_statement-cases (ax ∷ ts) = or_hint-cases ts _ _
exec_statement-cases (ay ∷ ts) = or_hint-cases ts _ _
exec_statement-cases (dx ∷ ts) = or_hint-cases ts _ _
exec_statement-cases (pm ∷ ts) = or_hint-cases ts _ _
exec_statement-cases (ef ∷ ts) = or_hint-cases ts _ _
exec_statement-cases (ta ∷ ts) = or_hint-cases ts _ _
exec_statement-cases (ty ∷ ts) = or_hint-cases ts _ _
exec_statement-cases (at ∷ ts) = or_hint-cases ts _ _
exec_statement-cases (tc ∷ ts) = or_hint-cases ts _ _
exec_statement-cases (tm ∷ ts) = or_hint-cases ts _ _
exec_statement-cases (tt_ ∷ ts) = or_hint-cases ts _ _
exec_statement-cases (gf ∷ ts) = or_hint-cases ts _ _
exec_statement-cases (t ∷ ts) = inl refl

-- Tokens that are no statement of the grammar, for any call, make the hint of `hint_of`: the help
-- where there is no token, the hint of the action word, or that the action is unknown.
pub exec_statement-hint :
    (ts : List Token)
    → ((call : Call) → IsStatement ts call → ⊥)
    → exec_statement ts ≡ hint (hint_of ts)
exec_statement-hint ts none_fits = elim (exec_statement-cases ts) [
  | inl e ↦ e
  | inr (call, e) ↦ absurd (none_fits call (exec_statement_sound ts call e))
]

pub prepend_first-append :
    (c : ℕ) (xs ys : List Bytes)
    → is_empty xs ≡ false
    → prepend_first c (xs ++ ys) ≡ prepend_first c xs ++ ys
prepend_first-append c [] ys h = absurd (cc)
prepend_first-append c (x ∷ xs) ys h = refl

split-is_empty : (c : ℕ) (s : Bytes) → is_empty (split c s) ≡ false
unfolding split
split-is_empty c [] = refl
split-is_empty c (x ∷ s) = ground arith

split-append : (c : ℕ) (s t : Bytes) → split c (s ++ c ∷ t) ≡ split c s ++ split c t
unfolding split
split-append c [] t = ground arith
split-append c (x ∷ s) t =
    let ih = split-append c s t in
    let e = split-is_empty c s in
    let p = prepend_first-append x (split c s) (split c t) e in grind arith

parse_lines-append :
    (xs ys : List Bytes) → parse_lines (xs ++ ys) ≡ parse_lines xs ++ parse_lines ys
unfolding parse_lines
parse_lines-append [] ys = refl
parse_lines-append (x ∷ xs) ys =
    let ih = parse_lines-append xs ys in
    elim (Option-cases (parse_statement x)) [
      | inl e ↦ rw (e, parse_lines) ih
      | inr (done, e) ↦ rw (e, parse_lines) (ap (◌∷◌ done) ih)
    ]

-- What `load_rules` runs of two texts with a line's end between them is what it runs of the first,
-- then what it runs of the second, hints included.
pub load_rules-append :
    (first second : Bytes)
    → load_rules (first ++ b'\n' ∷ second) ≡ load_rules first ++ load_rules second
unfolding load_rules
load_rules-append first second =
    ap parse_lines (split-append b'\n' first second)
    ∙ parse_lines-append (split b'\n' first) (split b'\n' second)
