-- ===== src/Sepolicy/Tests.antt =====
-- Runs of native/src/sepolicy/statement.rs, and the theorems at concrete inputs.
use magisk_t.Prelude.{
  String, ◌≡◌, refl, sym, ◌∙◌, true, some, List, [], ◌∷◌, ◌++◌, Bytes, codes, split,
}
use magisk_t.Sepolicy.{
  Token, al, Call, lb, rb, cm, st, tl, hx, id, avtab_av, allow, allowxperm, unknown_action,
}
use magisk_t.Sepolicy.Lexer.{tokenize_statement, parse_xperm_range}
use magisk_t.Sepolicy.Terms.{
  xperm, parse_id, parse_sterm, parse_xperms, parse_xperm, match_string, no_more,
}
use magisk_t.Sepolicy.Statement.{
  made, hint, exec_statement, exec_av, exec_xperms, load_rules, or_hint,
}
use magisk_t.Sepolicy.Terms.Grammar.{nil, cons, Sterm, all}
use magisk_t.Sepolicy.Terms.GrammarSound.{Read}
use magisk_t.Sepolicy.Terms.Xperms.{Xperms, OneXperm, except, last, parse_xperms-Xperms}
use magisk_t.Sepolicy.Terms.XpermsSound.{parse_xperms_sound}
use magisk_t.Sepolicy.Statement.Grammar.{IsStatement, allow_is, av}
use magisk_t.Sepolicy.Statement.Complete.{exec_statement-IsStatement}
use magisk_t.Sepolicy.Statement.Sound.{exec_statement_sound}
use magisk_t.Sepolicy.Statement.Hints.{hint_of, exec_statement-hint}
use magisk_t.Sepolicy.Lexer.{is_whitespace, lookup_word}
use magisk_t.Sepolicy.Display.RoundTrip.{IsPrintable, print}
use magisk_t.Sepolicy.{ef, enforce}
use magisk_t.Sepolicy.Statement.Grammar.{enforce_is, state}
use magisk_t.Sepolicy.Display.{token_text}
use magisk_t.Sepolicy.Display.Lines.{load_rules-print}

tokens_run :
    tokenize_statement (codes "allow {s1 s2} *  class { read,write}")
    ≡ al
      ∷ lb
      ∷ id (codes "s1")
      ∷ id (codes "s2")
      ∷ rb
      ∷ st
      ∷ id (codes "class")
      ∷ lb
      ∷ id (codes "read")
      ∷ cm
      ∷ id (codes "write")
      ∷ rb
      ∷ []
unfolding tokenize_statement
tokens_run = refl

rules_run :
    load_rules
      (codes "# c\nallow a b c *\n\nallowxperm a b c ioctl ~{ 0x8910 0x1-0x2 }\nallow a\nfoo")
    ≡ made (allow (codes "a" ∷ []) (codes "b" ∷ []) (codes "c" ∷ []) [])
      ∷ made (
          allowxperm
            (codes "a" ∷ [])
            (codes "b" ∷ [])
            (codes "c" ∷ [])
            (xperm 0x8910 0x8910 true ∷ xperm 1 2 true ∷ []))
      ∷ hint (avtab_av al)
      ∷ hint (unknown_action (id (codes "foo")))
      ∷ []
unfolding load_rules exec_av exec_xperms or_hint parse_id parse_sterm parse_xperms parse_xperm
    match_string no_more split parse_xperm_range
rules_run = refl

abbrev name : String → Bytes
name s = codes s

abbrev starred_names : List Token
starred_names = lb ∷ id (name "a") ∷ st ∷ rb ∷ []

starred_read : parse_sterm (starred_names ++ cm ∷ []) ≡ some ([], cm ∷ [])
unfolding parse_sterm
starred_read = refl

abbrev but_one : List Token
but_one = tl ∷ lb ∷ hx 0x8910 ∷ rb ∷ []

parse_xperms-Xperms_example :
    parse_xperms (but_one ++ []) ≡ some (xperm 0x8910 0x8910 true ∷ [], [])
parse_xperms-Xperms_example = parse_xperms-Xperms [] (except (last (OneXperm.hex 0x8910)))

but_one_read : parse_xperms but_one ≡ some (xperm 0x8910 0x8910 true ∷ [], [])
unfolding parse_xperms parse_xperm
but_one_read = refl

parse_xperms_sound_example : Read Xperms but_one (xperm 0x8910 0x8910 true ∷ []) []
parse_xperms_sound_example =
    parse_xperms_sound but_one (xperm 0x8910 0x8910 true ∷ []) [] but_one_read

abbrev allow_tokens : List Token
allow_tokens = al ∷ id (name "a") ∷ st ∷ id (name "c") ∷ lb ∷ id (name "read") ∷ rb ∷ []

abbrev allow_call : Call
allow_call = allow (name "a" ∷ []) [] (name "c" ∷ []) (name "read" ∷ [])

exec_statement-IsStatement_example : exec_statement allow_tokens ≡ made allow_call
exec_statement-IsStatement_example = exec_statement-IsStatement (
    allow_is
      (av (Sterm.one (name "a")) all (Sterm.one (name "c")) (Sterm.group (cons (name "read") nil))))

allow_run : exec_statement allow_tokens ≡ made allow_call
unfolding exec_statement exec_av or_hint parse_sterm no_more
allow_run = refl

exec_statement_sound_example : IsStatement allow_tokens allow_call
exec_statement_sound_example = exec_statement_sound allow_tokens allow_call allow_run

short_run : exec_statement (al ∷ id (name "a") ∷ []) ≡ hint (avtab_av al)
unfolding exec_statement exec_av or_hint parse_sterm no_more
short_run = refl

-- One name alone is no rule.
short_fits_nothing : (call : Call) → IsStatement (al ∷ id (name "a") ∷ []) call → ⊥
short_fits_nothing call fits =
    let wrong : hint (avtab_av al) ≡ made call = sym short_run ∙ exec_statement-IsStatement fits in
    absurd (cc wrong)

exec_statement-hint_example :
    exec_statement (al ∷ id (name "a") ∷ []) ≡ hint (hint_of (al ∷ id (name "a") ∷ []))
exec_statement-hint_example = exec_statement-hint (al ∷ id (name "a") ∷ []) short_fits_nothing

a_name : IsPrintable (id (name "a"))
unfolding is_whitespace lookup_word
a_name = record {
  chars = ((refl, refl, refl, refl), tt);
  there = refl;
  no_tilde = refl;
  no_number = refl;
  no_word = refl;
}

abbrev enforce_tokens : List Token
enforce_tokens = ef ∷ id (name "a") ∷ []

allow_text : load_rules (print allow_tokens) ≡ made allow_call ∷ []
unfolding load_rules print token_text exec_av or_hint parse_sterm no_more split
allow_text = refl

load_rules-print_example : load_rules (print enforce_tokens) ≡ made (enforce (name "a" ∷ [])) ∷ []
load_rules-print_example =
    load_rules-print (enforce_is (state (Sterm.one (name "a")))) (tt, (a_name, tt))
