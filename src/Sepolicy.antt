-- ===== src/Sepolicy.antt =====
-- SELinux policy statements (native/src/sepolicy/statement.rs): tokens, their parser, and the
-- calls of `SePolicy` that a statement makes. Texts are lists of code points.
pub mod Lexer
pub mod Terms
pub mod Statement
pub mod Display
mod Tests
use magisk_t.Prelude.{ℕ, Bool, List, Bytes}

pub data Token : Type 0 where
  al dn aa da ax ay dx pm ef ta ty at tt_ tc tm gf lb rb cm st tl hp : Token
  hx : ℕ → Token
  id : Bytes → Token

-- `ffi::Xperm`
pub record Xperm : Type 0 where
  pub low : ℕ
  pub high : ℕ
  pub reset : Bool

pub data ParseError : Type 0 where
  general : ParseError
  avtab_av avtab_xperms avtab_type type_state : Token → ParseError
  type_attr type_trans new_type new_attr genfs_con show_help : ParseError
  unknown_action : Token → ParseError

-- The methods of `SePolicy`, with the arguments that a statement gives them.
pub data Call : Type 0 where
  allow deny auditallow dontaudit : (s t c p : List Bytes) → Call
  allowxperm auditallowxperm dontauditxperm : (s t c : List Bytes) (p : List Xperm) → Call
  permissive enforce : (t : List Bytes) → Call
  typeattribute : (t a : List Bytes) → Call
  type_ : (t : Bytes) (a : List Bytes) → Call
  attribute : (t : Bytes) → Call
  type_change type_member : (s t c d : Bytes) → Call
  type_transition : (s t c d o : Bytes) → Call
  genfscon : (s t c : Bytes) → Call
