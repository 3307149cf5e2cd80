-- ===== src/Sepolicy/Statement/Sound.antt =====
-- What makes a call is a statement of the grammar (native/src/sepolicy/statement.rs).
mod Parts
use magisk_t.Sepolicy.Statement.Sound.Parts.{
  part, no_more_lem, match_string_lem, behind, at_end, same, or_hint-made, parse_id_lem,
  or_default_lem,
}
use magisk_t.Prelude.{◌-◌, ◌≡◌, ap, ◌∙◌, inl, inr, some, List, [], ◌∷◌, Bytes, codes}
use magisk_t.Sepolicy.{
  Token, al, dn, aa, da, ax, ay, dx, pm, ef, ta, ty, at, tt_, tc, tm, gf, id, Call, type_change,
  type_member,
}
use magisk_t.Sepolicy.Terms.{parse_id, parse_term}
use magisk_t.Sepolicy.Terms.GrammarSound.{parse_term_sound, parse_sterm_sound}
use magisk_t.Sepolicy.Terms.XpermsSound.{parse_xperms_sound}
use magisk_t.Sepolicy.Statement.{
  Av, XpermAv, made, or_hint, exec_av, exec_xperms, exec_state, exec_typeattribute, exec_type,
  exec_attribute, exec_type_rule, exec_type_transition, exec_genfscon, exec_statement,
}
use magisk_t.Sepolicy.Statement.Grammar.{
  AvForm, av, XpermForm, StateForm, state, AttributeForm, terms, IsStatement, allow_is, deny_is,
  auditallow_is, dontaudit_is, allowxperm_is, auditallowxperm_is, dontauditxperm_is, permissive_is,
  enforce_is, typeattribute_is, type_is, type_with, attribute_is, type_change_is, type_member_is,
  type_transition_is, type_transition_with, genfscon_is,
}

exec_av_sound :
    {make : Av} (tokens : List Token) {call : Call} {rest : List Token}
    → exec_av make tokens ≡ some (call, rest)
    → AvForm make tokens call
unfolding exec_av
exec_av_sound tokens h =
    let (s, rest1, source, e1, source_is, h1) = part parse_sterm_sound h in
    let (t, rest2, target, e2, target_is, h2) = part parse_sterm_sound h1 in
    let (c, rest3, class, e3, class_is, h3) = part parse_sterm_sound h2 in
    let (p, rest4, perms, e4, perms_is, h4) = part parse_sterm_sound h3 in
    let (e5, makes) = no_more_lem rest4 h4 in
    same (AvForm _) (behind source e1 (behind target e2 (behind class e3 (at_end e4 e5)))) makes
      (av source_is target_is class_is perms_is)

exec_xperms_sound :
    {make : XpermAv} (tokens : List Token) {call : Call} {rest : List Token}
    → exec_xperms make tokens ≡ some (call, rest)
    → XpermForm make tokens call
unfolding exec_xperms
exec_xperms_sound tokens h =
    let (s, rest1, source, e1, source_is, h1) = part parse_sterm_sound h in
    let (t, rest2, target, e2, target_is, h2) = part parse_sterm_sound h1 in
    let (c, rest3, class, e3, class_is, h3) = part parse_sterm_sound h2 in
    let (rest4, e4, h4) = match_string_lem (codes "ioctl") _ rest3 h3 in
    let (p, rest5, perms, e5, perms_is, h5) = part parse_xperms_sound h4 in
    let (e6, makes) = no_more_lem rest5 h5 in
    same (XpermForm _)
      (behind source e1
        (behind target e2 (behind class e3 (e4 ∙ ap (◌∷◌ (id (codes "ioctl"))) (at_end e5 e6)))))
      makes (av source_is target_is class_is perms_is)

exec_state-sound :
    {make : List Bytes → Call} (tokens : List Token) {call : Call} {rest : List Token}
    → exec_state make tokens ≡ some (call, rest)
    → StateForm make tokens call
unfolding exec_state
exec_state-sound tokens h =
    let (t, rest1, types, e1, types_are, h1) = part parse_sterm_sound h in
    let (e2, makes) = no_more_lem rest1 h1 in
    same (StateForm _) (at_end e1 e2) makes (state types_are)

exec_typeattribute_sound :
    (tokens : List Token) {call : Call} {rest : List Token}
    → exec_typeattribute tokens ≡ some (call, rest)
    → AttributeForm tokens call
unfolding exec_typeattribute
exec_typeattribute_sound tokens h =
    let (t, rest1, types, e1, types_are, h1) = part parse_term_sound h in
    let (a, rest2, attributes, e2, attributes_are, h2) = part parse_term_sound h1 in
    let (e3, makes) = no_more_lem rest2 h2 in
    same AttributeForm (behind types e1 (at_end e2 e3)) makes (terms types_are attributes_are)

exec_type_sound :
    (tokens : List Token) {call : Call} {rest : List Token}
    → exec_type tokens ≡ some (call, rest)
    → IsStatement (ty ∷ tokens) call
unfolding exec_type
exec_type_sound tokens h =
    let (t, rest1, e1, h1) = parse_id_lem _ tokens h in
    elim (or_default_lem [] parse_term _ rest1 h1) [
      | inl (e2, h2) ↦
          let (_, makes) = no_more_lem [] h2 in
          same IsStatement (ap (◌∷◌ ty) (e1 ∙ ap (◌∷◌ (id t)) e2)) makes (type_is t)
      | inr h2 ↦
          let (a, rest2, attributes, e2, attributes_are, h3) = part parse_term_sound h2 in
          let (e3, makes) = no_more_lem rest2 h3 in
          same IsStatement (ap (◌∷◌ ty) (e1 ∙ ap (◌∷◌ (id t)) (at_end e2 e3))) makes
            (type_with t attributes_are)
    ]

exec_attribute_sound :
    (tokens : List Token) {call : Call} {rest : List Token}
    → exec_attribute tokens ≡ some (call, rest)
    → IsStatement (at ∷ tokens) call
unfolding exec_attribute
exec_attribute_sound tokens h =
    let (t, rest1, e1, h1) = parse_id_lem _ tokens h in
    let (e2, makes) = no_more_lem rest1 h1 in
    same IsStatement (ap (◌∷◌ at) (e1 ∙ ap (◌∷◌ (id t)) e2)) makes (attribute_is t)

-- Four names.
exec_type_rule_sound :
    (make : Bytes → Bytes → Bytes → Bytes → Call) (tokens : List Token) {call : Call}
    {rest : List Token}
    → exec_type_rule make tokens ≡ some (call, rest)
    → (s : Bytes) × (t : Bytes) × (c : Bytes) × (d : Bytes) × (tokens
        ≡ id s ∷ id t ∷ id c ∷ id d ∷ [])
      × (make s t c d ≡ call)
unfolding exec_type_rule
exec_type_rule_sound make tokens h =
    let (s, rest1, e1, h1) = parse_id_lem _ tokens h in
    let (t, rest2, e2, h2) = parse_id_lem _ rest1 h1 in
    let (c, rest3, e3, h3) = parse_id_lem _ rest2 h2 in
    let (d, rest4, e4, h4) = parse_id_lem _ rest3 h3 in
    let (e5, makes) = no_more_lem rest4 h4 in (s, t, c, d, cc, makes)

exec_type_transition_sound :
    (tokens : List Token) {call : Call} {rest : List Token}
    → exec_type_transition tokens ≡ some (call, rest)
    → IsStatement (tt_ ∷ tokens) call
unfolding exec_type_transition
exec_type_transition_sound tokens h =
    let (s, rest1, e1, h1) = parse_id_lem _ tokens h in
    let (t, rest2, e2, h2) = parse_id_lem _ rest1 h1 in
    let (c, rest3, e3, h3) = parse_id_lem _ rest2 h2 in
    let (d, rest4, e4, h4) = parse_id_lem _ rest3 h3 in
    elim (or_default_lem [] parse_id _ rest4 h4) [
      | inl (e5, h5) ↦
          let (_, makes) = no_more_lem [] h5 in
          same IsStatement (cc) makes (type_transition_is s t c d)
      | inr h5 ↦
          let (o, rest5, e5, h6) = parse_id_lem _ rest4 h5 in
          let (e6, makes) = no_more_lem rest5 h6 in
          same IsStatement (cc) makes (type_transition_with s t c d o)
    ]

exec_genfscon_sound :
    (tokens : List Token) {call : Call} {rest : List Token}
    → exec_genfscon tokens ≡ some (call, rest)
    → IsStatement (gf ∷ tokens) call
unfolding exec_genfscon
exec_genfscon_sound tokens h =
    let (s, rest1, e1, h1) = parse_id_lem _ tokens h in
    let (t, rest2, e2, h2) = parse_id_lem _ rest1 h1 in
    let (c, rest3, e3, h3) = parse_id_lem _ rest2 h2 in
    let (e4, makes) = no_more_lem rest3 h3 in same IsStatement (cc) makes (genfscon_is s t c)

-- Tokens for which `exec_statement` makes a call are a statement of the grammar `IsStatement`, with
-- that call.
pub exec_statement_sound :
    (ts : List Token) (call : Call) → exec_statement ts ≡ made call → IsStatement ts call
unfolding exec_statement
exec_statement_sound (al ∷ ts) call h = allow_is (exec_av_sound ts (or_hint-made _ _ h).1)
exec_statement_sound (dn ∷ ts) call h = deny_is (exec_av_sound ts (or_hint-made _ _ h).1)
exec_statement_sound (aa ∷ ts) call h = auditallow_is (exec_av_sound ts (or_hint-made _ _ h).1)
exec_statement_sound (da ∷ ts) call h = dontaudit_is (exec_av_sound ts (or_hint-made _ _ h).1)
exec_statement_sound (ax ∷ ts) call h = allowxperm_is (exec_xperms_sound ts (or_hint-made _ _ h).1)
exec_statement_sound (ay ∷ ts) call h =
    auditallowxperm_is (exec_xperms_sound ts (or_hint-made _ _ h).1)
exec_statement_sound (dx ∷ ts) call h =
    dontauditxperm_is (exec_xperms_sound ts (or_hint-made _ _ h).1)
exec_statement_sound (pm ∷ ts) call h = permissive_is (exec_state-sound ts (or_hint-made _ _ h).1)
exec_statement_sound (ef ∷ ts) call h = enforce_is (exec_state-sound ts (or_hint-made _ _ h).1)
exec_statement_sound (ta ∷ ts) call h =
    typeattribute_is (exec_typeattribute_sound ts (or_hint-made _ _ h).1)
exec_statement_sound (ty ∷ ts) call h = exec_type_sound ts (or_hint-made _ _ h).1
exec_statement_sound (at ∷ ts) call h = exec_attribute_sound ts (or_hint-made _ _ h).1
exec_statement_sound (tc ∷ ts) call h =
    let (s, t, c, d, e, makes) = exec_type_rule_sound type_change ts (or_hint-made _ _ h).1 in
    same IsStatement (ap (◌∷◌ tc) e) makes (type_change_is s t c d)
exec_statement_sound (tm ∷ ts) call h =
    let (s, t, c, d, e, makes) = exec_type_rule_sound type_member ts (or_hint-made _ _ h).1 in
    same IsStatement (ap (◌∷◌ tm) e) makes (type_member_is s t c d)
exec_statement_sound (tt_ ∷ ts) call h = exec_type_transition_sound ts (or_hint-made _ _ h).1
exec_statement_sound (gf ∷ ts) call h = exec_genfscon_sound ts (or_hint-made _ _ h).1
exec_statement_sound _ call h = absurd (cc)
