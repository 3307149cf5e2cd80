-- ===== src/Sepolicy/Display/Lines.antt =====
-- A statement's text makes its call (native/src/sepolicy/statement.rs).
use magisk_t.Prelude.{
  ℕ, ◌≡◌, refl, sym, ap, ◌∙◌, false, some, List, [], ◌∷◌, ◌++◌, arith, ◌==◌, Bytes, codes, All,
  All-append, split,
}
use magisk_t.Sepolicy.{Token, al, dn, aa, da, ax, ay, dx, pm, ef, ta, ty, at, tt_, tc, tm, gf, Call}
use magisk_t.Sepolicy.Lexer.{is_whitespace, tokenize_statement}
use magisk_t.Sepolicy.Statement.{
  made, exec_statement, trim_start, trim_end, parse_statement, parse_lines, load_rules,
}
use magisk_t.Sepolicy.Statement.Grammar.{
  IsStatement, allow_is, deny_is, auditallow_is, dontaudit_is, allowxperm_is, auditallowxperm_is,
  dontauditxperm_is, permissive_is, enforce_is, typeattribute_is, type_is, type_with, attribute_is,
  type_change_is, type_member_is, type_transition_is, type_transition_with, genfscon_is,
}
use magisk_t.Sepolicy.Statement.Complete.{exec_statement-IsStatement}
use magisk_t.Sepolicy.Display.{token_text}
use magisk_t.Sepolicy.Display.RoundTrip.{
  IsPrintable, All-map, print, token_text-IsWord, tokenize_statement-print,
}
use magisk_t.Sepolicy.Display.Trim.{tokenize_statement-trim}

-- The first token's text starts with neither a blank nor `#`.
record Opens (ts : List Token) : Type 0 where
  token : Token
  rest : List Token
  first : ℕ
  others : Bytes
  splits : ts ≡ token ∷ rest
  text : token_text token ≡ first ∷ others
  no_blank : is_whitespace first ≡ false
  no_comment : first == b'#' ≡ false

opens :
    (t : Token) (ts : List Token) (c : ℕ) (w : Bytes)
    → token_text t ≡ c ∷ w
    → is_whitespace c ≡ false
    → c == b'#' ≡ false
    → Opens (t ∷ ts)
opens t ts c w e n m = record {
  token = t;
  rest = ts;
  first = c;
  others = w;
  splits = refl;
  text = e;
  no_blank = n;
  no_comment = m;
}

IsStatement-Opens : {ts : List Token} {call : Call} → IsStatement ts call → Opens ts
unfolding token_text is_whitespace
IsStatement-Opens (allow_is f) = opens al _ b'a' (codes "llow") refl refl refl
IsStatement-Opens (deny_is f) = opens dn _ b'd' (codes "eny") refl refl refl
IsStatement-Opens (auditallow_is f) = opens aa _ b'a' (codes "uditallow") refl refl refl
IsStatement-Opens (dontaudit_is f) = opens da _ b'd' (codes "ontaudit") refl refl refl
IsStatement-Opens (allowxperm_is f) = opens ax _ b'a' (codes "llowxperm") refl refl refl
IsStatement-Opens (auditallowxperm_is f) = opens ay _ b'a' (codes "uditallowxperm") refl refl refl
IsStatement-Opens (dontauditxperm_is f) = opens dx _ b'd' (codes "ontauditxperm") refl refl refl
IsStatement-Opens (permissive_is f) = opens pm _ b'p' (codes "ermissive") refl refl refl
IsStatement-Opens (enforce_is f) = opens ef _ b'e' (codes "nforce") refl refl refl
IsStatement-Opens (typeattribute_is f) = opens ta _ b't' (codes "ypeattribute") refl refl refl
IsStatement-Opens (type_is t) = opens ty _ b't' (codes "ype") refl refl refl
IsStatement-Opens (type_with t f) = opens ty _ b't' (codes "ype") refl refl refl
IsStatement-Opens (attribute_is t) = opens at _ b'a' (codes "ttribute") refl refl refl
IsStatement-Opens (type_change_is s t c d) = opens tc _ b't' (codes "ype_change") refl refl refl
IsStatement-Opens (type_member_is s t c d) = opens tm _ b't' (codes "ype_member") refl refl refl
IsStatement-Opens (type_transition_is s t c d) =
    opens tt_ _ b't' (codes "ype_transition") refl refl refl
IsStatement-Opens (type_transition_with s t c d o) =
    opens tt_ _ b't' (codes "ype_transition") refl refl refl
IsStatement-Opens (genfscon_is s t c) = opens gf _ b'g' (codes "enfscon") refl refl refl

module _ (c : ℕ) (s : Bytes) (no_blank : is_whitespace c ≡ false) where
  trim_start-blank : trim_start (b' ' ∷ c ∷ s) ≡ c ∷ s
  unfolding trim_start is_whitespace
  trim_start-blank = rw (no_blank, trim_start)

  trim_end_first : trim_end (c ∷ s) ≡ c ∷ trim_end s
  unfolding trim_end
  trim_end_first = rw (no_blank, trim_end)

  parse_statement_opens :
      c == b'#' ≡ false
      → parse_statement (b' ' ∷ c ∷ s) ≡ some (exec_statement (tokenize_statement (b' ' ∷ c ∷ s)))
  unfolding parse_statement
  parse_statement_opens no_comment =
      let trimmed : trim_end (trim_start (b' ' ∷ c ∷ s)) ≡ c ∷ trim_end s =
        ap trim_end trim_start-blank ∙ trim_end_first in
      let tokens = tokenize_statement-trim (b' ' ∷ c ∷ s) in
      rw (trimmed, parse_statement)
        (rw no_comment
          (ap (λ ts. some (exec_statement ts)) (ap tokenize_statement (sym trimmed) ∙ tokens)))

parse_statement-print :
    {ts : List Token}
    → Opens ts
    → All IsPrintable ts
    → parse_statement (print ts) ≡ some (exec_statement ts)
unfolding print
parse_statement-print {ts} o h =
    let tail = o.others ++ print o.rest in
    let e : print ts ≡ b' ' ∷ o.first ∷ tail =
      ap print o.splits ∙ ap (λ w. b' ' ∷ w ++ print o.rest) o.text in
    ap parse_statement e
    ∙ parse_statement_opens o.first tail o.no_blank o.no_comment
    ∙ ap (λ ts'. some (exec_statement ts'))
        (ap tokenize_statement (sym e) ∙ tokenize_statement-print ts h)

abbrev NoNewline : ℕ → Type 0
NoNewline c = c == b'\n' ≡ false

split_alone : (c : ℕ) (s : Bytes) → All (λ x. x == c ≡ false) s → split c s ≡ s ∷ []
unfolding split
split_alone c [] h = refl
split_alone c (x ∷ s) h = rw h.0 (rw (split_alone c s h.1))

no_newline : (c : ℕ) → is_whitespace c ≡ false → NoNewline c
unfolding is_whitespace
no_newline c h = ground arith

print-NoNewline : (ts : List Token) → All IsPrintable ts → All NoNewline (print ts)
unfolding print
print-NoNewline [] h = tt
print-NoNewline (t ∷ ts) h = (
  refl,
  All-append NoNewline (print ts) (token_text t) (print-NoNewline ts h.1)
      (All-map (token_text t) no_newline (token_text-IsWord t h.0)),
)

-- The text of a statement of the grammar whose tokens can be printed, as a text of rules, makes the
-- call of that statement and nothing else.
pub load_rules-print :
    {ts : List Token} {call : Call}
    → IsStatement ts call
    → All IsPrintable ts
    → load_rules (print ts) ≡ made call ∷ []
unfolding load_rules parse_lines
load_rules-print {ts} statement printable =
    ap parse_lines (split_alone b'\n' (print ts) (print-NoNewline ts printable))
    ∙ rw (parse_statement-print (IsStatement-Opens statement) printable, parse_lines)
        (ap (λ e. e ∷ []) (exec_statement-IsStatement statement))
