-- ===== src/Sepolicy/Lexer.antt =====
-- The tokeniser of native/src/sepolicy/statement.rs.
pub mod Pieces
use magisk_t.Prelude.{
  ℕ, zero, suc, ◌+◌, ◌-◌, ◌*◌, Bool, true, false, ◌&&◌, ◌||◌, Option, none, some, List, [], ◌∷◌,
  ◌++◌, leb, ◌==◌, if◌then◌else◌, Bytes, codes, length, drop, is_empty, bytes_eq, starts_with,
  strip_prefix, prepend_first,
}
use magisk_t.Sepolicy.{
  Token, al, dn, aa, da, ax, ay, dx, pm, ef, ta, ty, at, tt_, tc, tm, gf, lb, rb, cm, st, tl, hx,
  id,
}

-- `c.to_digit(16)`
pub hex_digit : ℕ → Option ℕ
hex_digit c =
    if leb b'0' c && leb c b'9'
    then some (c - b'0')
    else if leb b'a' c && leb c b'f'
    then some (c - 87)
    else if leb b'A' c && leb c b'F'
    then some (c - 55)
    else none

-- The checked loop of `u16::from_str_radix(_, 16)`.
unfoldable pub radix_from : ℕ → Bytes → Option ℕ
unfolding hex_digit
radix_from acc [] = some acc
radix_from acc (c ∷ s) = elim (hex_digit c) [
  | none ↦ none
  | some d ↦ elim (leb (acc * 16 + d) 0xFFFF) [ true ↦ radix_from (acc * 16 + d) s | false ↦ none ]
]

-- One leading `+` is allowed, and at least one digit is wanted.
unfoldable pub from_str_radix : Bytes → Option ℕ
unfolding radix_from
from_str_radix s =
    let digits = if starts_with s (codes "+") then drop 1 s else s in
    if is_empty digits then none else radix_from 0 digits

unfoldable pub parse_xperm_hex : Bytes → Option ℕ
unfolding from_str_radix
parse_xperm_hex s = elim (strip_prefix s (codes "0x")) [ none ↦ none | some d ↦ from_str_radix d ]

-- `s.split_once(c)`
unfoldable pub split_once : ℕ → Bytes → Option (Bytes × Bytes)
split_once c [] = none
split_once c (x ∷ s) =
    let rest = split_once c s in
    if x == c then some ([], s) else elim rest [ none ↦ none | some (a, b) ↦ some (x ∷ a, b) ]

unfoldable pub parse_xperm_range : Bytes → Option (ℕ × ℕ)
unfolding parse_xperm_hex split_once
parse_xperm_range s = elim (split_once b'-' s) [
  | none ↦ none
  | some (low, high) ↦ elim (parse_xperm_hex low) [
    | none ↦ none
    | some l ↦ elim (parse_xperm_hex high) [ none ↦ none | some h ↦ some (l, h) ]
  ]
]

-- The words that `extract_token` knows.
abbrev pub words : List (Bytes × Token)
words =
    (codes "allow", al)
    ∷ (codes "deny", dn)
    ∷ (codes "auditallow", aa)
    ∷ (codes "dontaudit", da)
    ∷ (codes "allowxperm", ax)
    ∷ (codes "auditallowxperm", ay)
    ∷ (codes "dontauditxperm", dx)
    ∷ (codes "permissive", pm)
    ∷ (codes "enforce", ef)
    ∷ (codes "typeattribute", ta)
    ∷ (codes "type", ty)
    ∷ (codes "attribute", at)
    ∷ (codes "type_transition", tt_)
    ∷ (codes "type_change", tc)
    ∷ (codes "type_member", tm)
    ∷ (codes "genfscon", gf)
    ∷ (codes "*", st)
    ∷ []

unfoldable pub lookup_word : List (Bytes × Token) → Bytes → Option Token
lookup_word [] s = none
lookup_word ((w, t) ∷ ws) s = if bytes_eq w s then some t else lookup_word ws s

-- The last two branches: a number or a name.
unfoldable pub atom : Bytes → Token
unfolding parse_xperm_hex
atom s = elim (parse_xperm_hex s) [ some n ↦ hx n | none ↦ id s ]

-- The branches behind the words, given the function for the pieces.
unfoldable pub extract_pieces : (Bytes → List Token) → Bytes → List Token
extract_pieces extract s = elim (split_once b'{' s) [
  | some (a, b) ↦ extract a ++ lb ∷ extract b
  | none ↦ elim (split_once b'}' s) [
    | some (a, b) ↦ extract a ++ rb ∷ extract b
    | none ↦ elim (split_once b',' s) [
      | some (a, b) ↦ extract a ++ cm ∷ extract b
      | none ↦ elim (strip_prefix s (codes "~")) [ some b ↦ tl ∷ extract b | none ↦ atom s ∷ [] ]
    ]
  ]
]

-- One call of `extract_token`: the tokens that it pushes.
unfoldable pub extract_with : (Bytes → List Token) → Bytes → List Token
extract_with extract s = elim (lookup_word words s) [
  | some t ↦ t ∷ []
  | none ↦ if is_empty s then [] else extract_pieces extract s
]

-- The recursion, on fuel: each piece is shorter (Lexer.Pieces).
unfoldable pub extract_fuel : ℕ → Bytes → List Token
extract_fuel zero s = []
extract_fuel (suc fuel) s = extract_with (extract_fuel fuel) s

unfoldable pub extract_token : Bytes → List Token
unfolding extract_fuel extract_with extract_pieces lookup_word split_once atom
extract_token s = extract_fuel (length s + 1) s

-- `char::is_whitespace`
unfoldable pub is_whitespace : ℕ → Bool
is_whitespace c =
    (leb 9 c && leb c 13)
    || c == 0x20
    || c == 0x85
    || c == 0xA0
    || c == 0x1680
    || (leb 0x2000 c && leb c 0x200A)
    || c == 0x2028
    || c == 0x2029
    || c == 0x202F
    || c == 0x205F
    || c == 0x3000

-- `split_whitespace`, with an empty word between two blanks, which pushes no token.
unfoldable pub split_whitespace : Bytes → List Bytes
unfolding is_whitespace
split_whitespace [] = [] ∷ []
split_whitespace (c ∷ s) =
    let rest = split_whitespace s in if is_whitespace c then [] ∷ rest else prepend_first c rest

unfoldable pub extract_all : List Bytes → List Token
unfolding extract_token
extract_all [] = []
extract_all (w ∷ ws) = extract_token w ++ extract_all ws

unfoldable pub tokenize_statement : Bytes → List Token
unfolding extract_all split_whitespace
tokenize_statement statement = extract_all (split_whitespace statement)
