-- ===== src/Boot/Patch/Tests.antt =====
-- Runs of native/src/boot/patch.rs on fstab lines, and the theorems at concrete inputs.
use magisk_t.Prelude.{
  ℕ, ◌+◌, ◌≡◌, refl, false, Option, none, some, [], ◌∷◌, ◌++◌, arith, Bytes, codes, length,
  replicate,
}
use magisk_t.Boot.Patch.{
  match_patterns, verity_patterns, remove_pattern, patch_verity, patch_encryption, hex2byte,
  hexpatch,
}
use magisk_t.Boot.Patch.Removal.{padded, strip, remove_pattern-eq-strip}
use magisk_t.Boot.Patch.Flags.{verity_flags, encryption_flags, Decided, patch-flags}
use magisk_t.Boot.Patch.Matching.{match_patterns-IsMatcher}

abbrev fstab : Bytes
fstab = codes "/dev/a / ext4 ro wait,verify=/dev/b,avb\n"

fstab_verity : patch_verity fstab ≡ some (codes "/dev/a / ext4 ro wait\n" ++ replicate 18 0, 22)
unfolding patch_verity
fstab_verity = refl

fstab_encryption :
    patch_encryption (codes "wait,forceencrypt=footer x")
    ≡ some (codes "wait x" ++ replicate 20 0, 6)
unfolding patch_encryption
fstab_encryption = refl

-- `verifyatboot` is tried before its own prefix `verify`.
longest_first : match_patterns verity_patterns (codes ",verifyatboot x") ≡ some 13
unfolding match_patterns
longest_first = refl

remove_pattern-eq-strip_example :
    remove_pattern (match_patterns verity_patterns) fstab
    ≡ some (padded fstab (strip (match_patterns verity_patterns) 41 fstab))
remove_pattern-eq-strip_example =
    remove_pattern-eq-strip (match_patterns verity_patterns) fstab
      (match_patterns-IsMatcher verity_patterns (omega arith))

hex_text : hex2byte (codes "49010054011440B9") ≡ 73 ∷ 1 ∷ 0 ∷ 84 ∷ 1 ∷ 20 ∷ 64 ∷ 185 ∷ []
unfolding hex2byte
hex_text = refl

-- A file that cannot be opened is not patched.
hexpatch_no_file : hexpatch (λ m f t. (m, [])) none (codes "00") (codes "01") ≡ (false, none)
unfolding hexpatch
hexpatch_no_file = refl

patch-flags_example :
    ((found : Bytes → Option ℕ) × ((b : Bytes) → Decided verity_flags b (found b))
      × (patch_verity fstab ≡ some (padded fstab (strip found (length fstab + 1) fstab))))
    × ((found : Bytes → Option ℕ) × ((b : Bytes) → Decided encryption_flags b (found b))
        × (patch_encryption fstab ≡ some (padded fstab (strip found (length fstab + 1) fstab))))
patch-flags_example = patch-flags fstab
