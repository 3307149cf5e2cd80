-- ===== src/Sepolicy/Display/RoundTrip.antt =====
-- Printed tokens are read back by the tokeniser (native/src/sepolicy/statement.rs).
use magisk_t.Prelude.{
  ℕ, ◌≡◌, refl, ap, ap₂, ◌∙◌, inl, inr, Bool, true, false, not, ◌&&◌, none, some, List, [], ◌∷◌,
  ◌++◌, map, append-nil, arith, ◌==◌, Bool-cases, Bytes, codes, is_empty, All, starts_with,
  prepend_first,
}
use magisk_t.Sepolicy.{
  Token, al, dn, aa, da, ax, ay, dx, pm, ef, ta, ty, at, tt_, tc, tm, gf, lb, rb, cm, st, tl, hp,
  hx, id,
}
use magisk_t.Sepolicy.Lexer.{
  words, lookup_word, split_once, parse_xperm_hex, is_whitespace, extract_token, extract_with,
  extract_pieces, atom, split_whitespace, extract_all, tokenize_statement,
}
use magisk_t.Sepolicy.Lexer.Pieces.{extract_token_lem}
use magisk_t.Sepolicy.Display.{token_text}

-- A character that the tokeniser does not split at.
abbrev pub IsNameChar : ℕ → Type 0
IsNameChar c =
    (is_whitespace c ≡ false) × (c == b'{' ≡ false) × (c == b'}' ≡ false) × (c == b',' ≡ false)

-- A name that is read as one: no word of the language and no number.
pub record IsName (s : Bytes) : Type 0 where
  pub chars : All IsNameChar s
  pub there : is_empty s ≡ false
  pub no_tilde : starts_with s (codes "~") ≡ false
  pub no_number : starts_with s (codes "0x") ≡ false
  pub no_word : lookup_word words s ≡ none

-- What can be printed and read back. A number is printed without `0x`, and `-` is read as a name.
abbrev pub IsPrintable : Token → Type 0
IsPrintable (id s) = IsName s
IsPrintable (hx n) = ⊥
IsPrintable hp = ⊥
IsPrintable _ = Unit

split_once-none : (c : ℕ) (s : Bytes) → All (λ x. x == c ≡ false) s → split_once c s ≡ none
unfolding split_once
split_once-none c [] h = refl
split_once-none c (x ∷ s) h = rw (h.0, split_once-none c s h.1)

pub All-map : {P Q : ℕ → Type 0} (s : Bytes) → ((c : ℕ) → P c → Q c) → All P s → All Q s
All-map [] f h = tt
All-map (c ∷ s) f h = (f c h.0, All-map s f h.1)

extract_token-IsName : (s : Bytes) → IsName s → extract_token s ≡ id s ∷ []
unfolding extract_with extract_pieces atom parse_xperm_hex
extract_token-IsName s h =
    let no_lb = split_once-none b'{' s (All-map s (λ c n. n.1) h.chars) in
    let no_rb = split_once-none b'}' s (All-map s (λ c n. n.2) h.chars) in
    let no_cm = split_once-none b',' s (All-map s (λ c n. n.3) h.chars) in
    extract_token_lem s
    ∙ rw (h.no_word, extract_with)
        (rw h.there (
          rw (no_lb, extract_pieces)
            (rw no_rb (rw no_cm (rw h.no_tilde (rw (h.no_number, atom, parse_xperm_hex)))))))

extract_token_word :
    (s : Bytes) (t : Token) → lookup_word words s ≡ some t → extract_token s ≡ t ∷ []
unfolding extract_with
extract_token_word s t e = extract_token_lem s ∙ rw (e, extract_with)

extract_token-token_text : (t : Token) → IsPrintable t → extract_token (token_text t) ≡ t ∷ []
unfolding token_text lookup_word
extract_token-token_text (id s) h = extract_token-IsName s h
extract_token-token_text (hx n) h = absurd h
extract_token-token_text hp h = absurd h
extract_token-token_text al h = extract_token_word (codes "allow") al refl
extract_token-token_text dn h = extract_token_word (codes "deny") dn refl
extract_token-token_text aa h = extract_token_word (codes "auditallow") aa refl
extract_token-token_text da h = extract_token_word (codes "dontaudit") da refl
extract_token-token_text ax h = extract_token_word (codes "allowxperm") ax refl
extract_token-token_text ay h = extract_token_word (codes "auditallowxperm") ay refl
extract_token-token_text dx h = extract_token_word (codes "dontauditxperm") dx refl
extract_token-token_text pm h = extract_token_word (codes "permissive") pm refl
extract_token-token_text ef h = extract_token_word (codes "enforce") ef refl
extract_token-token_text ta h = extract_token_word (codes "typeattribute") ta refl
extract_token-token_text ty h = extract_token_word (codes "type") ty refl
extract_token-token_text at h = extract_token_word (codes "attribute") at refl
extract_token-token_text tt_ h = extract_token_word (codes "type_transition") tt_ refl
extract_token-token_text tc h = extract_token_word (codes "type_change") tc refl
extract_token-token_text tm h = extract_token_word (codes "type_member") tm refl
extract_token-token_text gf h = extract_token_word (codes "genfscon") gf refl
extract_token-token_text st h = extract_token_word (codes "*") st refl
extract_token-token_text lb h = unfold extract_token in refl
extract_token-token_text rb h = unfold extract_token in refl
extract_token-token_text cm h = unfold extract_token in refl
extract_token-token_text tl h = unfold extract_token in refl

-- Tokens printed with a blank in front of each.
unfoldable pub print : List Token → Bytes
print [] = []
print (t ∷ ts) = b' ' ∷ token_text t ++ print ts

-- No blank.
abbrev pub IsWord : Bytes → Type 0
IsWord = All (λ c. is_whitespace c ≡ false)

no_blank : Bytes → Bool
no_blank [] = true
no_blank (c ∷ w) = not (is_whitespace c) && no_blank w

no_blank-IsWord : (w : Bytes) → no_blank w ≡ true → IsWord w
unfolding no_blank
no_blank-IsWord [] h = tt
no_blank-IsWord (c ∷ w) h = elim (Bool-cases (is_whitespace c)) [
  | inl blank ↦ absurd (ground (arith, blank))
  | inr other ↦ (other, no_blank-IsWord w (ground (arith, other)))
]

pub token_text-IsWord : (t : Token) → IsPrintable t → IsWord (token_text t)
unfolding token_text is_whitespace no_blank
token_text-IsWord (id s) h = All-map s (λ c n. n.0) h.chars
token_text-IsWord (hx n) h = absurd h
token_text-IsWord hp h = absurd h
token_text-IsWord al h = no_blank-IsWord (codes "allow") refl
token_text-IsWord dn h = no_blank-IsWord (codes "deny") refl
token_text-IsWord aa h = no_blank-IsWord (codes "auditallow") refl
token_text-IsWord da h = no_blank-IsWord (codes "dontaudit") refl
token_text-IsWord ax h = no_blank-IsWord (codes "allowxperm") refl
token_text-IsWord ay h = no_blank-IsWord (codes "auditallowxperm") refl
token_text-IsWord dx h = no_blank-IsWord (codes "dontauditxperm") refl
token_text-IsWord pm h = no_blank-IsWord (codes "permissive") refl
token_text-IsWord ef h = no_blank-IsWord (codes "enforce") refl
token_text-IsWord ta h = no_blank-IsWord (codes "typeattribute") refl
token_text-IsWord ty h = no_blank-IsWord (codes "type") refl
token_text-IsWord at h = no_blank-IsWord (codes "attribute") refl
token_text-IsWord tt_ h = no_blank-IsWord (codes "type_transition") refl
token_text-IsWord tc h = no_blank-IsWord (codes "type_change") refl
token_text-IsWord tm h = no_blank-IsWord (codes "type_member") refl
token_text-IsWord gf h = no_blank-IsWord (codes "genfscon") refl
token_text-IsWord st h = no_blank-IsWord (codes "*") refl
token_text-IsWord lb h = no_blank-IsWord (codes "{") refl
token_text-IsWord rb h = no_blank-IsWord (codes "}") refl
token_text-IsWord cm h = no_blank-IsWord (codes ",") refl
token_text-IsWord tl h = no_blank-IsWord (codes "~") refl

split_whitespace-word :
    (w s : Bytes) (first : Bytes) (rest : List Bytes)
    → IsWord w
    → split_whitespace s ≡ first ∷ rest
    → split_whitespace (w ++ s) ≡ (w ++ first) ∷ rest
unfolding split_whitespace
split_whitespace-word [] s first rest h e = e
split_whitespace-word (c ∷ w) s first rest h e =
    rw (h.0, split_whitespace) (ap (prepend_first c) (split_whitespace-word w s first rest h.1 e))

split_whitespace-print :
    (ts : List Token) → All IsPrintable ts → split_whitespace (print ts) ≡ [] ∷ map token_text ts
unfolding split_whitespace print is_whitespace
split_whitespace-print [] h = refl
split_whitespace-print (t ∷ ts) h = ap (◌∷◌ []) (
    split_whitespace-word (token_text t) (print ts) [] (map token_text ts) (token_text-IsWord t h.0)
      (split_whitespace-print ts h.1)
    ∙ ap (λ w. w ∷ map token_text ts) (append-nil (token_text t)))

extract_all-map : (ts : List Token) → All IsPrintable ts → extract_all (map token_text ts) ≡ ts
unfolding extract_all
extract_all-map [] h = refl
extract_all-map (t ∷ ts) h = ap₂ ◌++◌ (extract_token-token_text t h.0) (extract_all-map ts h.1)

-- Printable tokens, each printed with a blank in front of it, are read back by `tokenize_statement`.
pub tokenize_statement-print :
    (ts : List Token) → All IsPrintable ts → tokenize_statement (print ts) ≡ ts
unfolding tokenize_statement
tokenize_statement-print ts h = ap extract_all (split_whitespace-print ts h) ∙ extract_all-map ts h
