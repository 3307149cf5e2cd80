-- ===== src/Boot/Patch/Flags.antt =====
-- The flags that native/src/boot/patch.rs removes, by their names.
use magisk_t.Prelude.{
  ℕ, ◌+◌, ◌≡◌, refl, sym, ap, subst, ◌∙◌, inl, inr, true, false, Option, none, some, List, [], ◌∷◌,
  arith, if◌then◌else◌, Bool-cases, Option-cases, Bytes, codes, length, drop, is_empty, All,
  starts_with,
}
use magisk_t.Boot.Patch.{
  first_pattern, leading_comma, match_patterns, verity_patterns, encryption_patterns, patch_verity,
  patch_encryption,
}
use magisk_t.Boot.Patch.Removal.{padded, strip}
use magisk_t.Boot.Patch.Matching.{NonEmpty, Listed, Matched, match_patterns-Matched, patch-strip}

abbrev pub verity_flags : List Bytes
verity_flags =
    codes "verifyatboot"
    ∷ codes "verify"
    ∷ codes "avb_keys"
    ∷ codes "avb"
    ∷ codes "support_scfs"
    ∷ codes "fsverity"
    ∷ []

abbrev pub encryption_flags : List Bytes
encryption_flags = codes "forceencrypt" ∷ codes "forcefdeorfbe" ∷ codes "fileencryption" ∷ []

-- What is found at the front of a text: one of the flags, or that none of them stands there, behind
-- a comma if there is one.
abbrev pub Decided : List Bytes → Bytes → Option ℕ → Type 0
Decided flags b none =
    (flag : Bytes) → Listed flag flags → starts_with (drop (leading_comma b) b) flag ≡ false
Decided flags b (some n) = Matched flags b n

first_pattern-none :
    (ps : List Bytes) (b p : Bytes)
    → first_pattern ps b ≡ none
    → Listed p ps
    → starts_with b p ≡ false
unfolding first_pattern
first_pattern-none [] b p e never = absurd never
first_pattern-none (q ∷ ps) b p e listed = elim (Bool-cases (starts_with b q)) [
  | inl fits ↦
      absurd (cc (ap (λ x. if x then some (length q) else first_pattern ps b) (sym fits) ∙ e))
  | inr other ↦ elim listed [
    | inl here ↦ ap (starts_with b) here ∙ other
    | inr later ↦
        first_pattern-none ps b p
          (ap (λ x. if x then some (length q) else first_pattern ps b) (sym other) ∙ e) later
  ]
]

Listed-NonEmpty : (ps : List Bytes) (p : Bytes) → All NonEmpty ps → Listed p ps → NonEmpty p
Listed-NonEmpty [] p all never = absurd never
Listed-NonEmpty (q ∷ ps) p (some_byte, others) (inl here) = subst NonEmpty (sym here) some_byte
Listed-NonEmpty (q ∷ ps) p (some_byte, others) (inr later) = Listed-NonEmpty ps p others later

starts_with-nothing : (b p : Bytes) → is_empty b ≡ true → NonEmpty p → starts_with b p ≡ false
starts_with-nothing [] [] e some_byte = absurd (omega (arith, some_byte))
starts_with-nothing [] (c ∷ p) e some_byte = refl
starts_with-nothing (x ∷ b) p e some_byte = absurd (cc e)

match_patterns-none :
    (ps : List Bytes) (b p : Bytes)
    → All NonEmpty ps
    → match_patterns ps b ≡ none
    → Listed p ps
    → starts_with (drop (leading_comma b) b) p ≡ false
unfolding match_patterns
match_patterns-none ps b p all e listed =
    let behind = drop (leading_comma b) b in
    elim (Bool-cases (is_empty behind)) [
      | inl nothing ↦ starts_with-nothing behind p nothing (Listed-NonEmpty ps p all listed)
      | inr some_left ↦ elim (Option-cases (first_pattern ps behind)) [
        | inl no_pattern ↦ first_pattern-none ps behind p no_pattern listed
        | inr (k, found) ↦ absurd (ground (arith, some_left, found, e))
      ]
    ]

match_patterns-Decided :
    (ps : List Bytes) (b : Bytes) → All NonEmpty ps → Decided ps b (match_patterns ps b)
match_patterns-Decided ps b all = go (match_patterns ps b) refl
  where
    go : (found : Option ℕ) → match_patterns ps b ≡ found → Decided ps b found
    go none e = λ p listed. match_patterns-none ps b p all e listed
    go (some n) e = match_patterns-Matched ps b n e

-- `patch_verity` and `patch_encryption` never run out of fuel: on every buffer they drop, from left to
-- right, what a test finds, pad with zeros, and return the size that is left. The test finds, at every
-- place where one of their flags stands, an optional comma, the first of the flags that stands there,
-- and the `=` value behind it up to the next blank, line end or NUL, if there is one. The flags are verifyatboot, verify, avb_keys, avb,
-- support_scfs and fsverity, and forceencrypt, forcefdeorfbe and fileencryption.
pub patch-flags :
    (buf : Bytes)
    → ((found : Bytes → Option ℕ) × ((b : Bytes) → Decided verity_flags b (found b))
        × (patch_verity buf ≡ some (padded buf (strip found (length buf + 1) buf))))
      × ((found : Bytes → Option ℕ) × ((b : Bytes) → Decided encryption_flags b (found b))
          × (patch_encryption buf ≡ some (padded buf (strip found (length buf + 1) buf))))
patch-flags buf =
    let (verity, encryption) = patch-strip buf in
    (
      (
        match_patterns verity_patterns,
        λ b. match_patterns-Decided verity_patterns b (omega arith),
        verity,
      ),
      (
        match_patterns encryption_patterns,
        λ b. match_patterns-Decided encryption_patterns b (omega arith),
        encryption,
      ),
    )
