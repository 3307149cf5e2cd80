-- ===== src/Sepolicy/Statement/Complete.antt =====
-- Every statement of the grammar makes its call (native/src/sepolicy/statement.rs).
use magisk_t.Prelude.{◌≡◌, refl, ◌∙◌, some, List, [], ◌∷◌, ◌++◌, append-nil, Bytes, codes}
use magisk_t.Sepolicy.{Token, id, Call, type_}
use magisk_t.Sepolicy.Terms.{
  parse_id, parse_term, parse_sterm, parse_xperms, match_string, no_more, bind_lem,
}
use magisk_t.Sepolicy.Terms.Grammar.{Term, one, group, Sterm, parse_term-Term, parse_sterm-Sterm}
use magisk_t.Sepolicy.Terms.Xperms.{parse_xperms-Xperms}
use magisk_t.Sepolicy.Statement.{
  Av, XpermAv, made, or_hint, exec_av, exec_xperms, exec_state, exec_typeattribute, or_default,
  exec_type, exec_attribute, exec_type_rule, exec_type_transition, exec_genfscon, exec_statement,
}
use magisk_t.Sepolicy.Statement.Grammar.{
  AvForm, av, XpermForm, StateForm, state, AttributeForm, terms, IsStatement, allow_is, deny_is,
  auditallow_is, dontaudit_is, allowxperm_is, auditallowxperm_is, dontauditxperm_is, permissive_is,
  enforce_is, typeattribute_is, type_is, type_with, attribute_is, type_change_is, type_member_is,
  type_transition_is, type_transition_with, genfscon_is,
}

-- The last term of a statement.
parse_sterm_last :
    {ts : List Token} {ns : List Bytes} → Sterm ts ns → parse_sterm ts ≡ some (ns, [])
parse_sterm_last {ts} h = rw append-nil at (parse_sterm-Sterm [] h)

parse_term_last : {ts : List Token} {ns : List Bytes} → Term ts ns → parse_term ts ≡ some (ns, [])
parse_term_last {ts} h = rw append-nil at (parse_term-Term [] h)

exec_av-AvForm :
    {make : Av} {ts : List Token} {call : Call}
    → AvForm make ts call
    → exec_av make ts ≡ some (call, [])
unfolding exec_av no_more
exec_av-AvForm (av {target} {class} {perms} source_is target_is class_is perms_is) =
    bind_lem parse_sterm _ (parse_sterm-Sterm (target ++ (class ++ perms)) source_is)
    ∙ bind_lem parse_sterm _ (parse_sterm-Sterm (class ++ perms) target_is)
    ∙ bind_lem parse_sterm _ (parse_sterm-Sterm perms class_is)
    ∙ bind_lem parse_sterm _ (parse_sterm_last perms_is)

exec_xperms-XpermForm :
    {make : XpermAv} {ts : List Token} {call : Call}
    → XpermForm make ts call
    → exec_xperms make ts ≡ some (call, [])
unfolding exec_xperms no_more match_string
exec_xperms-XpermForm (av {target} {class} {perms} source_is target_is class_is perms_is) =
    bind_lem parse_sterm _
      (parse_sterm-Sterm (target ++ (class ++ id (codes "ioctl") ∷ perms)) source_is)
    ∙ bind_lem parse_sterm _ (parse_sterm-Sterm (class ++ id (codes "ioctl") ∷ perms) target_is)
    ∙ bind_lem parse_sterm _ (parse_sterm-Sterm (id (codes "ioctl") ∷ perms) class_is)
    ∙ bind_lem parse_xperms _ (rw append-nil at (parse_xperms-Xperms [] perms_is))

exec_state-StateForm :
    {make : List Bytes → Call} {ts : List Token} {call : Call}
    → StateForm make ts call
    → exec_state make ts ≡ some (call, [])
unfolding exec_state no_more
exec_state-StateForm (state types_are) = bind_lem parse_sterm _ (parse_sterm_last types_are)

exec_typeattribute-AttributeForm :
    {ts : List Token} {call : Call}
    → AttributeForm ts call
    → exec_typeattribute ts ≡ some (call, [])
unfolding exec_typeattribute no_more
exec_typeattribute-AttributeForm (terms {attributes} types_are attributes_are) =
    bind_lem parse_term _ (parse_term-Term attributes types_are)
    ∙ bind_lem parse_term _ (parse_term_last attributes_are)

or_default-Term :
    {ts : List Token} {a : List Bytes} → Term ts a → or_default [] parse_term ts ≡ some (a, [])
unfolding or_default
or_default-Term (one n) = parse_term_last (one n)
or_default-Term (group h) = parse_term_last (group h)

exec_type_with :
    (t : Bytes) {ts : List Token} {a : List Bytes}
    → Term ts a
    → exec_type (id t ∷ ts) ≡ some (type_ t a, [])
unfolding exec_type parse_id no_more
exec_type_with t h = bind_lem (or_default [] parse_term) _ (or_default-Term h)

-- Every statement of the grammar `IsStatement` makes its call.
pub exec_statement-IsStatement :
    {ts : List Token} {call : Call} → IsStatement ts call → exec_statement ts ≡ made call
unfolding exec_statement or_hint exec_type exec_attribute exec_type_rule exec_type_transition
    exec_genfscon or_default parse_id no_more
exec_statement-IsStatement (allow_is f) = rw (exec_av-AvForm f)
exec_statement-IsStatement (deny_is f) = rw (exec_av-AvForm f)
exec_statement-IsStatement (auditallow_is f) = rw (exec_av-AvForm f)
exec_statement-IsStatement (dontaudit_is f) = rw (exec_av-AvForm f)
exec_statement-IsStatement (allowxperm_is f) = rw (exec_xperms-XpermForm f)
exec_statement-IsStatement (auditallowxperm_is f) = rw (exec_xperms-XpermForm f)
exec_statement-IsStatement (dontauditxperm_is f) = rw (exec_xperms-XpermForm f)
exec_statement-IsStatement (permissive_is f) = rw (exec_state-StateForm f)
exec_statement-IsStatement (enforce_is f) = rw (exec_state-StateForm f)
exec_statement-IsStatement (typeattribute_is f) = rw (exec_typeattribute-AttributeForm f)
exec_statement-IsStatement (type_is t) = refl
exec_statement-IsStatement (type_with t f) = rw (exec_type_with t f)
exec_statement-IsStatement (attribute_is t) = refl
exec_statement-IsStatement (type_change_is s t c d) = refl
exec_statement-IsStatement (type_member_is s t c d) = refl
exec_statement-IsStatement (type_transition_is s t c d) = refl
exec_statement-IsStatement (type_transition_with s t c d o) = refl
exec_statement-IsStatement (genfscon_is s t c) = refl
