-- ===== src/Sepolicy/Display.antt =====
-- The texts of tokens, hints and the help (native/src/sepolicy/statement.rs).
pub mod RoundTrip
pub mod Trim
pub mod Lines
use magisk_t.Prelude.{
  ℕ, ◌+◌, ◌-◌, ◌*◌, ◌/◌, ◌%◌, ◌^◌, ◌<◌, List, [], ◌∷◌, ◌++◌, map, ltb, if◌then◌else◌, Bytes, codes,
}
use magisk_t.Sepolicy.{
  Token, al, dn, aa, da, ax, ay, dx, pm, ef, ta, ty, at, tt_, tc, tm, gf, lb, rb, cm, st, tl, hp,
  hx, id, ParseError, general, avtab_av, avtab_xperms, avtab_type, type_state, type_attr,
  type_trans, new_type, new_attr, genfs_con, show_help, unknown_action,
}

-- One digit of `{:X}`.
abbrev upper_digit : ℕ → ℕ
upper_digit d = if ltb d 10 then d + b'0' else d + 55

-- `{n:06X}` for a u16, which has at most four digits.
unfoldable pub fmt_06x : ℕ → Bytes
fmt_06x n =
    codes "00"
    ++ upper_digit (n / 4096 % 16)
      ∷ upper_digit (n / 256 % 16)
      ∷ upper_digit (n / 16 % 16)
      ∷ upper_digit (n % 16)
      ∷ []

-- `Display for Token`
unfoldable pub token_text : Token → Bytes
token_text al = codes "allow"
token_text dn = codes "deny"
token_text aa = codes "auditallow"
token_text da = codes "dontaudit"
token_text ax = codes "allowxperm"
token_text ay = codes "auditallowxperm"
token_text dx = codes "dontauditxperm"
token_text pm = codes "permissive"
token_text ef = codes "enforce"
token_text ta = codes "typeattribute"
token_text ty = codes "type"
token_text at = codes "attribute"
token_text tt_ = codes "type_transition"
token_text tc = codes "type_change"
token_text tm = codes "type_member"
token_text gf = codes "genfscon"
token_text lb = codes "{"
token_text rb = codes "}"
token_text cm = codes ","
token_text st = codes "*"
token_text tl = codes "~"
token_text hp = codes "-"
token_text (hx n) = fmt_06x n
token_text (id s) = s

-- The hints that need no other text.
unfoldable pub hint_text : ParseError → Bytes
unfolding token_text
hint_text general = []
hint_text (avtab_av action) =
    token_text action ++ codes " *source_type *target_type *class *perm_set"
hint_text (avtab_xperms action) =
    token_text action ++ codes " *source_type *target_type *class operation xperm_set"
hint_text (avtab_type action) =
    token_text action ++ codes " source_type target_type class default_type"
hint_text (type_state action) = token_text action ++ codes " *type"
hint_text type_attr = codes "typeattribute ^type ^attribute"
hint_text type_trans =
    codes "type_transition source_type target_type class default_type (object_name)"
hint_text new_type = codes "type type_name ^(attribute)"
hint_text new_attr = codes "attribute attribute_name"
hint_text genfs_con = codes "genfscon fs_name partial_path fs_context"
hint_text (unknown_action action) = codes "Unknown action: \"" ++ token_text action ++ codes "\""
hint_text show_help = []

-- Lines, each with its end.
pub lines_text : List Bytes → Bytes
lines_text [] = []
lines_text (line ∷ lines) = line ++ b'\n' ∷ lines_text lines

abbrev pub help_lines : List Bytes
help_lines =
    codes "** Policy statements:"
    ∷ codes ""
    ∷ codes "One policy statement should be treated as a single parameter;"
    ∷ codes "this means each policy statement should be enclosed in quotes."
    ∷ codes "Multiple policy statements can be provided in a single command."
    ∷ codes ""
    ∷ codes "Statements has a format of \"<rule_name> [args...]\"."
    ∷ codes "Arguments labeled with (^) can accept one or more entries."
    ∷ codes "Multiple entries consist of a space separated list enclosed in braces ({})."
    ∷ codes "Arguments labeled with (*) are the same as (^), but additionally"
    ∷ codes "support the match-all operator (*)."
    ∷ codes ""
    ∷ codes "Example: \"allow { s1 s2 } { t1 t2 } class *\""
    ∷ codes "Will be expanded to:"
    ∷ codes ""
    ∷ codes "allow s1 t1 class { all-permissions-of-class }"
    ∷ codes "allow s1 t2 class { all-permissions-of-class }"
    ∷ codes "allow s2 t1 class { all-permissions-of-class }"
    ∷ codes "allow s2 t2 class { all-permissions-of-class }"
    ∷ codes ""
    ∷ codes "** Extended permissions:"
    ∷ codes ""
    ∷ codes "The only supported operation for extended permissions right now is 'ioctl'."
    ∷ codes "xperm_set is one or multiple hexadecimal numeric values ranging from 0x0000 to 0xFFFF."
    ∷ codes "Multiple values consist of a space separated list enclosed in braces ({})."
    ∷ codes
        "Use the complement operator (~) to specify all permissions except those explicitly listed."
    ∷ codes "Use the range operator (-) to specify all permissions within the low – high range."
    ∷ codes "Use the match all operator (*) to match all ioctl commands (0x0000-0xFFFF)."
    ∷ codes "The special value 0 is used to clear all rules."
    ∷ codes ""
    ∷ codes "Some examples:"
    ∷ codes "allowxperm source target class ioctl 0x8910"
    ∷ codes "allowxperm source target class ioctl { 0x8910-0x8926 0x892A-0x8935 }"
    ∷ codes "allowxperm source target class ioctl ~{ 0x8910 0x892A }"
    ∷ codes "allowxperm source target class ioctl *"
    ∷ codes ""
    ∷ codes "** Supported policy statements:"
    ∷ codes ""
    ∷ []

-- The forms that the help lists.
abbrev pub listed_forms : List ParseError
listed_forms =
    avtab_av al
    ∷ avtab_av dn
    ∷ avtab_av aa
    ∷ avtab_av da
    ∷ avtab_xperms ax
    ∷ avtab_xperms ay
    ∷ avtab_xperms dx
    ∷ type_state pm
    ∷ type_state ef
    ∷ type_attr
    ∷ new_type
    ∷ new_attr
    ∷ type_trans
    ∷ avtab_type tc
    ∷ avtab_type tm
    ∷ genfs_con
    ∷ []

unfoldable pub format_statement_help : Bytes
unfolding lines_text hint_text
format_statement_help = lines_text help_lines ++ lines_text (map hint_text listed_forms)

-- `Display for ParseError`
unfoldable pub error_text : ParseError → Bytes
unfolding hint_text format_statement_help
error_text show_help = format_statement_help
error_text e = hint_text e
