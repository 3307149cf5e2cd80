-- ===== src/Sepolicy/Display/Trim.antt =====
-- `trim` does not change the tokens of a statement (native/src/sepolicy/statement.rs).
use magisk_t.Prelude.{
  ℕ, zero, suc, ◌≡◌, refl, sym, ap, ◌∙◌, inl, inr, true, false, List, [], ◌∷◌, ◌++◌, append-nil,
  append_assoc, arith, Bool-cases, Bytes, replicate, is_empty, prepend_first,
}
use magisk_t.Sepolicy.Lexer.{
  is_whitespace, extract_token, split_whitespace, extract_all, tokenize_statement,
}
use magisk_t.Sepolicy.Statement.Hints.{prepend_first-append}
use magisk_t.Sepolicy.Statement.{trim_start, trim_end}

extract_token-nil : extract_token [] ≡ []
unfolding extract_token
extract_token-nil = refl

tokenize_statement-blank :
    (c : ℕ) (s : Bytes) → is_whitespace c ≡ true → tokenize_statement (c ∷ s) ≡ tokenize_statement s
unfolding tokenize_statement split_whitespace extract_all
tokenize_statement-blank c s blank = rw (blank, split_whitespace)

tokenize_statement-trim_start :
    (s : Bytes) → tokenize_statement (trim_start s) ≡ tokenize_statement s
unfolding trim_start
tokenize_statement-trim_start [] = refl
tokenize_statement-trim_start (c ∷ s) = elim (Bool-cases (is_whitespace c)) [
  | inl blank ↦
      rw (blank, trim_start)
        (tokenize_statement-trim_start s ∙ sym (tokenize_statement-blank c s blank))
  | inr other ↦ rw (other, trim_start)
]

split_whitespace-is_empty : (s : Bytes) → is_empty (split_whitespace s) ≡ false
unfolding split_whitespace
split_whitespace-is_empty [] = refl
split_whitespace-is_empty (c ∷ s) = ground arith

is_empty_lem : (s : Bytes) → is_empty s ≡ true → s ≡ []
is_empty_lem [] h = refl
is_empty_lem (c ∷ s) h = absurd (cc)

-- The words of a text are those of the text without the blanks at its end, and empty ones.
split_whitespace-trim_end :
    (s : Bytes) → (n : ℕ) × (split_whitespace s ≡ split_whitespace (trim_end s) ++ replicate n [])
unfolding split_whitespace trim_end
split_whitespace-trim_end [] = (0, refl)
split_whitespace-trim_end (c ∷ s) =
    let (n, ih) = split_whitespace-trim_end s in
    elim (Bool-cases (is_whitespace c)) [
      | inr other ↦ (
        n,
        rw other (
            rw (other, split_whitespace)
              (ap (prepend_first c) ih
                ∙ prepend_first-append c (split_whitespace (trim_end s)) (replicate n [])
                    (split_whitespace-is_empty (trim_end s)))),
      )
      | inl blank ↦ elim (Bool-cases (is_empty (trim_end s))) [
        | inr more ↦ (n, rw blank (rw more (rw (blank, split_whitespace) (ap (◌∷◌ []) ih))))
        | inl nothing ↦ (
          suc n,
          rw blank (
              rw nothing (
                ap (◌∷◌ []) (
                  ih
                  ∙ ap (λ t. split_whitespace t ++ replicate n [])
                      (is_empty_lem (trim_end s) nothing)))),
        )
      ]
    ]

extract_all-append :
    (xs ys : List Bytes) → extract_all (xs ++ ys) ≡ extract_all xs ++ extract_all ys
unfolding extract_all
extract_all-append [] ys = refl
extract_all-append (x ∷ xs) ys =
    rw (extract_all-append xs ys)
      (sym (append_assoc (extract_token x) (extract_all xs) (extract_all ys)))

extract_all-replicate : (n : ℕ) → extract_all (replicate n []) ≡ []
unfolding extract_all
extract_all-replicate zero = refl
extract_all-replicate (suc n) = rw extract_token-nil (extract_all-replicate n)

tokenize_statement-trim_end : (s : Bytes) → tokenize_statement (trim_end s) ≡ tokenize_statement s
unfolding tokenize_statement
tokenize_statement-trim_end s =
    let (n, e) = split_whitespace-trim_end s in
    sym (
      ap extract_all e
      ∙ extract_all-append (split_whitespace (trim_end s)) (replicate n [])
      ∙ ap (λ ts. extract_all (split_whitespace (trim_end s)) ++ ts) (extract_all-replicate n)
      ∙ append-nil (extract_all (split_whitespace (trim_end s))))

-- A text has the same tokens with the blanks at both its ends and without them.
pub tokenize_statement-trim :
    (s : Bytes) → tokenize_statement (trim_end (trim_start s)) ≡ tokenize_statement s
tokenize_statement-trim s =
    tokenize_statement-trim_end (trim_start s) ∙ tokenize_statement-trim_start s
