-- ===== src/Sepolicy/Statement/Grammar.antt =====
-- The grammar of statements in native/src/sepolicy/statement.rs: the tokens behind the action
-- word, and the call that they make.
use magisk_t.Prelude.{List, [], ◌∷◌, ◌++◌, Bytes, codes}
use magisk_t.Sepolicy.{
  Token, al, dn, aa, da, ax, ay, dx, pm, ef, ta, ty, at, tt_, tc, tm, gf, id, Xperm, Call, allow,
  deny, auditallow, dontaudit, allowxperm, auditallowxperm, dontauditxperm, permissive, enforce,
  typeattribute, type_, attribute, type_change, type_member, type_transition, genfscon,
}
use magisk_t.Sepolicy.Statement.{Av, XpermAv}
use magisk_t.Sepolicy.Terms.Grammar.{Term, Sterm}
use magisk_t.Sepolicy.Terms.Xperms.{Xperms}

-- sterm sterm sterm sterm
pub data AvForm (make : Av) : List Token → Call → Type 0 where
  av :
      {source target class perms : List Token} {s t c p : List Bytes}
      → Sterm source s
      → Sterm target t
      → Sterm class c
      → Sterm perms p
      → AvForm make (source ++ (target ++ (class ++ perms))) (make s t c p)

-- sterm sterm sterm ioctl xperms
pub data XpermForm (make : XpermAv) : List Token → Call → Type 0 where
  av :
      {source target class perms : List Token} {s t c : List Bytes} {p : List Xperm}
      → Sterm source s
      → Sterm target t
      → Sterm class c
      → Xperms perms p
      → XpermForm make (source ++ (target ++ (class ++ id (codes "ioctl") ∷ perms))) (make s t c p)

-- sterm
pub data StateForm (make : List Bytes → Call) : List Token → Call → Type 0 where
  state : {types : List Token} {t : List Bytes} → Sterm types t → StateForm make types (make t)

-- term term
pub data AttributeForm : List Token → Call → Type 0 where
  terms :
      {types attributes : List Token} {t a : List Bytes}
      → Term types t
      → Term attributes a
      → AttributeForm (types ++ attributes) (typeattribute t a)

-- The statements that `exec_statement` accepts.
pub data IsStatement : List Token → Call → Type 0 where
  allow_is : {ts : List Token} {call : Call} → AvForm allow ts call → IsStatement (al ∷ ts) call
  deny_is : {ts : List Token} {call : Call} → AvForm deny ts call → IsStatement (dn ∷ ts) call
  auditallow_is :
      {ts : List Token} {call : Call} → AvForm auditallow ts call → IsStatement (aa ∷ ts) call
  dontaudit_is :
      {ts : List Token} {call : Call} → AvForm dontaudit ts call → IsStatement (da ∷ ts) call
  allowxperm_is :
      {ts : List Token} {call : Call} → XpermForm allowxperm ts call → IsStatement (ax ∷ ts) call
  auditallowxperm_is :
      {ts : List Token} {call : Call}
      → XpermForm auditallowxperm ts call
      → IsStatement (ay ∷ ts) call
  dontauditxperm_is :
      {ts : List Token} {call : Call}
      → XpermForm dontauditxperm ts call
      → IsStatement (dx ∷ ts) call
  permissive_is :
      {ts : List Token} {call : Call} → StateForm permissive ts call → IsStatement (pm ∷ ts) call
  enforce_is :
      {ts : List Token} {call : Call} → StateForm enforce ts call → IsStatement (ef ∷ ts) call
  typeattribute_is :
      {ts : List Token} {call : Call} → AttributeForm ts call → IsStatement (ta ∷ ts) call
  type_is : (t : Bytes) → IsStatement (ty ∷ id t ∷ []) (type_ t [])
  type_with :
      (t : Bytes) {ts : List Token} {a : List Bytes}
      → Term ts a
      → IsStatement (ty ∷ id t ∷ ts) (type_ t a)
  attribute_is : (t : Bytes) → IsStatement (at ∷ id t ∷ []) (attribute t)
  type_change_is :
      (s t c d : Bytes) → IsStatement (tc ∷ id s ∷ id t ∷ id c ∷ id d ∷ []) (type_change s t c d)
  type_member_is :
      (s t c d : Bytes) → IsStatement (tm ∷ id s ∷ id t ∷ id c ∷ id d ∷ []) (type_member s t c d)
  type_transition_is :
      (s t c d : Bytes)
      → IsStatement (tt_ ∷ id s ∷ id t ∷ id c ∷ id d ∷ []) (type_transition s t c d [])
  type_transition_with :
      (s t c d o : Bytes)
      → IsStatement (tt_ ∷ id s ∷ id t ∷ id c ∷ id d ∷ id o ∷ []) (type_transition s t c d o)
  genfscon_is : (s t c : Bytes) → IsStatement (gf ∷ id s ∷ id t ∷ id c ∷ []) (genfscon s t c)
