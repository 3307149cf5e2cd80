-- ===== src/Sepolicy/Statement.antt =====
-- `exec_statement` and the functions that lead to it (native/src/sepolicy/statement.rs).
pub mod Grammar
pub mod Complete
pub mod Sound
pub mod Hints
use magisk_t.Prelude.{
  ◌&&◌, ◌||◌, Option, none, some, List, [], ◌∷◌, if◌then◌else◌, Bytes, codes, is_empty, starts_with,
  split,
}
use magisk_t.Sepolicy.{
  Token, al, dn, aa, da, ax, ay, dx, pm, ef, ta, ty, at, tt_, tc, tm, gf, ParseError, avtab_av,
  avtab_xperms, avtab_type, type_state, type_attr, type_trans, new_type, new_attr, genfs_con,
  show_help, unknown_action, Call, allow, deny, auditallow, dontaudit, allowxperm, auditallowxperm,
  dontauditxperm, permissive, enforce, typeattribute, type_, attribute, type_change, type_member,
  type_transition, genfscon, Xperm,
}
use magisk_t.Sepolicy.Lexer.{is_whitespace, tokenize_statement}
use magisk_t.Sepolicy.Terms.{
  Parser, ◌>>=◌, pure, parse_id, parse_term, parse_sterm, parse_xperms, match_string, no_more,
}

-- The one call of `SePolicy` that a statement makes, or the hint for it.
pub data Exec : Type 0 where
  made : Call → Exec
  hint : ParseError → Exec

-- A closure `|| -> ParseResult<()>` of the source, and the error put in its place.
unfoldable pub or_hint : Option (Call × List Token) → ParseError → Exec
or_hint none e = hint e
or_hint (some (call, _)) e = made call

abbrev pub Av : Type 0
Av = List Bytes → List Bytes → List Bytes → List Bytes → Call

abbrev pub XpermAv : Type 0
XpermAv = List Bytes → List Bytes → List Bytes → List Xperm → Call

unfoldable pub exec_av : Av → Parser Call
exec_av call = do
  s ← parse_sterm
  t ← parse_sterm
  c ← parse_sterm
  p ← parse_sterm
  _ ← no_more
  pure (call s t c p)

unfoldable pub exec_xperms : XpermAv → Parser Call
exec_xperms call = do
  s ← parse_sterm
  t ← parse_sterm
  c ← parse_sterm
  _ ← match_string (codes "ioctl")
  p ← parse_xperms
  _ ← no_more
  pure (call s t c p)

unfoldable pub exec_state : (List Bytes → Call) → Parser Call
exec_state call = do t ← parse_sterm; _ ← no_more; pure (call t)

unfoldable pub exec_typeattribute : Parser Call
exec_typeattribute = do t ← parse_term; a ← parse_term; _ ← no_more; pure (typeattribute t a)

-- `if tokens.peek().is_none() { default } else { parser(tokens)? }`
unfoldable pub or_default {ℓ} : {A : Type ℓ} → A → Parser A → Parser A
or_default default parser [] = some (default, [])
or_default default parser (t ∷ tokens) = parser (t ∷ tokens)

unfoldable pub exec_type : Parser Call
exec_type = do t ← parse_id; a ← or_default [] parse_term; _ ← no_more; pure (type_ t a)

unfoldable pub exec_attribute : Parser Call
exec_attribute = do t ← parse_id; _ ← no_more; pure (attribute t)

unfoldable pub exec_type_rule : (Bytes → Bytes → Bytes → Bytes → Call) → Parser Call
exec_type_rule call = do
  s ← parse_id
  t ← parse_id
  c ← parse_id
  d ← parse_id
  _ ← no_more
  pure (call s t c d)

unfoldable pub exec_type_transition : Parser Call
exec_type_transition = do
  s ← parse_id
  t ← parse_id
  c ← parse_id
  d ← parse_id
  o ← or_default [] parse_id
  _ ← no_more
  pure (type_transition s t c d o)

unfoldable pub exec_genfscon : Parser Call
exec_genfscon = do s ← parse_id; t ← parse_id; c ← parse_id; _ ← no_more; pure (genfscon s t c)

unfoldable pub exec_statement : List Token → Exec
exec_statement [] = hint show_help
exec_statement (al ∷ tokens) = or_hint (exec_av allow tokens) (avtab_av al)
exec_statement (dn ∷ tokens) = or_hint (exec_av deny tokens) (avtab_av dn)
exec_statement (aa ∷ tokens) = or_hint (exec_av auditallow tokens) (avtab_av aa)
exec_statement (da ∷ tokens) = or_hint (exec_av dontaudit tokens) (avtab_av da)
exec_statement (ax ∷ tokens) = or_hint (exec_xperms allowxperm tokens) (avtab_xperms ax)
exec_statement (ay ∷ tokens) = or_hint (exec_xperms auditallowxperm tokens) (avtab_xperms ay)
exec_statement (dx ∷ tokens) = or_hint (exec_xperms dontauditxperm tokens) (avtab_xperms dx)
exec_statement (pm ∷ tokens) = or_hint (exec_state permissive tokens) (type_state pm)
exec_statement (ef ∷ tokens) = or_hint (exec_state enforce tokens) (type_state ef)
exec_statement (ta ∷ tokens) = or_hint (exec_typeattribute tokens) type_attr
exec_statement (ty ∷ tokens) = or_hint (exec_type tokens) new_type
exec_statement (at ∷ tokens) = or_hint (exec_attribute tokens) new_attr
exec_statement (tc ∷ tokens) = or_hint (exec_type_rule type_change tokens) (avtab_type tc)
exec_statement (tm ∷ tokens) = or_hint (exec_type_rule type_member tokens) (avtab_type tm)
exec_statement (tt_ ∷ tokens) = or_hint (exec_type_transition tokens) type_trans
exec_statement (gf ∷ tokens) = or_hint (exec_genfscon tokens) genfs_con
exec_statement (action ∷ tokens) = hint (unknown_action action)

-- `str::trim`, as its two halves.
unfoldable pub trim_start : Bytes → Bytes
unfolding is_whitespace
trim_start [] = []
trim_start (c ∷ s) = let rest = trim_start s in if is_whitespace c then rest else c ∷ s

-- `none` while nothing but blanks stands behind.
unfoldable pub trim_end : Bytes → Bytes
unfolding is_whitespace
trim_end [] = []
trim_end (c ∷ s) =
    let rest = trim_end s in if is_whitespace c && is_empty rest then [] else c ∷ rest

-- What a line comes to: `none` for a blank line and a comment.
unfoldable pub parse_statement : Bytes → Option Exec
unfolding trim_start trim_end tokenize_statement exec_statement
parse_statement line =
    let statement = trim_end (trim_start line) in
    if is_empty statement || starts_with statement (codes "#")
    then none
    else some (exec_statement (tokenize_statement statement))

unfoldable pub parse_lines : List Bytes → List Exec
unfolding parse_statement
parse_lines [] = []
parse_lines (line ∷ lines) =
    let rest = parse_lines lines in elim (parse_statement line) [ none ↦ rest | some e ↦ e ∷ rest ]

-- `load_rules`: the lines in order. A hint does not end the loop.
unfoldable pub load_rules : Bytes → List Exec
unfolding parse_lines
load_rules rules = parse_lines (split b'\n' rules)
