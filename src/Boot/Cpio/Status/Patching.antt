-- ===== src/Boot/Cpio/Status/Patching.antt =====
-- What `patch` of native/src/boot/cpio.rs does to each entry.
use magisk_t.Prelude.{
  ℕ, zero, suc, ◌+◌, ◌-◌, ◌≤◌, ◌≡◌, refl, ◌∙◌, inl, inr, Bool, true, false, not, ◌&&◌, ◌||◌, Option,
  none, some, List, [], ◌∷◌, ◌++◌, append-nil, arith, ◌==◌, if◌then◌else◌, ==_iff, Option-cases,
  Bytes, codes, length, drop, replicate, length-append, length-drop, take-append, bytes_eq,
  starts_with,
}
use magisk_t.BtreeMap.{get}
use magisk_t.BtreeMap.Laws.{IsSorted, get-retain}
use magisk_t.Boot.Patch.{
  match_patterns, verity_patterns, encryption_patterns, patch_verity, patch_encryption,
}
use magisk_t.Boot.Patch.Removal.{padded, strip}
use magisk_t.Boot.Patch.Matching.{patch-strip}
use magisk_t.Boot.Cpio.{CpioEntry, Entries, is_regular}
use magisk_t.Boot.Cpio.Status.{
  resize, patched, is_fstab, strip_verity, strip_encryption, patch_entry, patch,
}

-- A text without what the patterns match.
unfoldable pub without : List Bytes → Bytes → Bytes
without patterns text = strip (match_patterns patterns) (length text + 1) text

-- A file system table: a regular file whose name starts with `fstab`.
abbrev pub names_fstab : Bytes → CpioEntry → Bool
names_fstab name e = is_regular e && starts_with name (codes "fstab")

abbrev pub without_verity : Bool → Bytes → Bytes
without_verity keep_verity text = if keep_verity then text else without verity_patterns text

abbrev pub without_encryption : Bool → Bytes → Bytes
without_encryption keep_force_encrypt text =
    if keep_force_encrypt then text else without encryption_patterns text

-- What is left of an entry.
abbrev pub patched_entry : Bool → Bool → Bytes → CpioEntry → Option CpioEntry
patched_entry keep_verity keep_force_encrypt name e =
    if names_fstab name e
    then some (record e {
      content = without_encryption keep_force_encrypt (without_verity keep_verity e.content);
    })
    else if not keep_verity && bytes_eq name (codes "verity_key")
    then none
    else some e

strip-length : (m : Bytes → Option ℕ) (fuel : ℕ) (s : Bytes) → length (strip m fuel s) ≤ length s
unfolding strip
strip-length m zero s = omega arith
strip-length m (suc fuel) [] = omega arith
strip-length m (suc fuel) (c ∷ s) = elim (Option-cases (m (c ∷ s))) [
  | inl e ↦ rw (e, strip) (omega (arith, strip-length m fuel s))
  | inr (n, e) ↦
      rw (e, strip) (omega (arith, strip-length m fuel (drop n (c ∷ s)), length-drop n (c ∷ s)))
]

resize-append : (kept zeros : Bytes) → resize (kept ++ zeros) (length kept) ≡ kept
unfolding resize
resize-append kept zeros =
    let shorter : length kept - length (kept ++ zeros) ≡ 0 =
      omega (arith, length-append kept zeros) in
    rw (take-append kept zeros) (rw shorter (append-nil kept))

-- `resize` takes the zeros away again.
resized-zeros :
    (text kept : Bytes)
    → length kept ≤ length text
    → (if length kept == length text
        then (padded text kept).0
        else resize (padded text kept).0 (length kept))
      ≡ kept
resized-zeros text kept h =
    grind (arith, resize-append kept (replicate (length text - length kept) 0), append-nil kept)

patched-padded :
    (f : Bytes → Option (Bytes × ℕ)) (text kept : Bytes)
    → f text ≡ some (padded text kept)
    → length kept ≤ length text
    → patched f text ≡ kept
unfolding patched resize
patched-padded f text kept e h = rw (e, patched) (resized-zeros text kept h)

starts_with-fstab :
    (name : Bytes)
    → starts_with name (codes "fstab") ≡ true
    → (starts_with name (codes ".backup") ≡ false)
      × (starts_with name (codes "twrp") ≡ false)
      × (starts_with name (codes "recovery") ≡ false)
      × (bytes_eq name (codes "verity_key") ≡ false)
starts_with-fstab [] h = absurd (cc)
starts_with-fstab (c ∷ name) h = ground (arith, ==_iff c 102)

patched-verity : (text : Bytes) → patched patch_verity text ≡ without verity_patterns text
unfolding without
patched-verity text =
    patched-padded patch_verity text _ (patch-strip text).0 (strip-length _ (length text + 1) text)

patched-encryption :
    (text : Bytes) → patched patch_encryption text ≡ without encryption_patterns text
unfolding without
patched-encryption text =
    patched-padded patch_encryption text _ (patch-strip text).1
      (strip-length _ (length text + 1) text)

last_decides :
    (a r b t c f : Bool)
    → (f ≡ true → (b ≡ false) × (t ≡ false) × (c ≡ false))
    → (a && r && not b && not t && not c && f) ≡ (a && (r && f))
last_decides a r b t c true h = let (b', t', c') = h refl in ground (arith, b', t', c')
last_decides a r b t c false h = ground arith

is_fstab-names_fstab :
    (keep_verity keep_force_encrypt : Bool) (name : Bytes) (e : CpioEntry)
    → is_fstab keep_verity keep_force_encrypt name e
      ≡ ((not keep_verity || not keep_force_encrypt) && names_fstab name e)
unfolding is_fstab
is_fstab-names_fstab v f name e =
    last_decides (not v || not f) (is_regular e) _ _ _ (starts_with name (codes "fstab"))
      (λ fstab. let (b, t, r, _) = starts_with-fstab name fstab in (b, t, r))

patch_entry-patched_entry :
    (keep_verity keep_force_encrypt : Bool) (name : Bytes) (e : CpioEntry)
    → patch_entry keep_verity keep_force_encrypt name e
      ≡ patched_entry keep_verity keep_force_encrypt name e
unfolding patch_entry strip_verity strip_encryption
patch_entry-patched_entry v f name e = ground (
  arith,
  is_fstab-names_fstab v f name e,
  patched-verity e.content,
  patched-encryption e.content,
  patched-encryption (without verity_patterns e.content),
)

-- After `patch` on entries in key order, with either flag: a regular file whose name starts with `fstab` lacks what
-- the verity patterns match unless KEEPVERITY is set, and then what the encryption patterns match
-- unless KEEPFORCEENCRYPT is set, and is as long as what is left; `verity_key` is gone unless
-- KEEPVERITY is set; every other entry is as before.
pub get-patch :
    (keep_verity keep_force_encrypt : Bool) (entries : Entries) (name : Bytes)
    → IsSorted entries
    → get name (patch keep_verity keep_force_encrypt entries) ≡ elim (get name entries) [
      | none ↦ none
      | some e ↦ patched_entry keep_verity keep_force_encrypt name e
    ]
unfolding patch
get-patch v f entries name s =
    get-retain name (patch_entry v f) entries s ∙ (elim (Option-cases (get name entries)) [
      | inl e ↦ rw e
      | inr (x, e) ↦ rw e (patch_entry-patched_entry v f name x)
    ])
