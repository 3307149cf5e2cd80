-- ===== src/Boot/Patch.antt =====
-- native/src/boot/patch.rs: fstab flags are stripped in place, and hexadecimal patches applied.
pub mod Removal
pub mod Matching
pub mod Flags
pub mod Hex
mod Tests
use Prim.Native.Nat.{bit_or}
use magisk_t.Prelude.{
  ℕ, zero, suc, ◌+◌, ◌-◌, ◌*◌, ◌%◌, Bool, true, false, not, ◌&&◌, Option, none, some, List, [], ◌∷◌,
  ◌++◌, map, ltb, leb, ◌==◌, if◌then◌else◌, Bytes, codes, length, take, drop, replicate, is_empty,
  starts_with, contains,
}

-- `for c in b.iter()`: the bytes up to the first blank, line end or NUL.
pub value_len : Bytes → ℕ
value_len [] = 0
value_len (c ∷ b) = if contains (codes " \n" ++ 0 ∷ []) c then 0 else suc (value_len b)

-- The chain of `b.starts_with($str)`: the length of the first pattern that fits.
pub first_pattern : List Bytes → Bytes → Option ℕ
first_pattern [] b = none
first_pattern (p ∷ ps) b = if starts_with b p then some (length p) else first_pattern ps b

-- `if *$buf.get_unchecked(0) == b','`; the caller passes no empty buffer.
pub leading_comma : Bytes → ℕ
leading_comma [] = 0
leading_comma (c ∷ _) = if c == b',' then 1 else 0

-- `if found { .. }`: the value behind the pattern, if a `=` follows it.
pub with_value : Bytes → ℕ → ℕ
unfolding value_len
with_value buf len =
    let b = drop len buf in if starts_with b (codes "=") then len + value_len b else len

unfoldable pub match_patterns : List Bytes → Bytes → Option ℕ
unfolding first_pattern leading_comma with_value
match_patterns ps buf =
    let lead = leading_comma buf in
    let b = drop lead buf in
    if is_empty b
    then none
    else elim (first_pattern ps b) [ none ↦ none | some n ↦ some (with_value buf (lead + n)) ]

-- The buffer and the variables of `remove_pattern`.
pub record RemoveState : Type 0 where
  pub buf : Bytes
  pub write : ℕ
  pub read : ℕ
  pub sz : ℕ

-- `*buf.get_unchecked_mut(write) = *buf.get_unchecked(read)`
pub copy_byte : Bytes → ℕ → ℕ → Bytes
copy_byte buf write read = elim (drop read buf) [
  | [] ↦ buf
  | c ∷ _ ↦ take write buf ++ c ∷ drop (suc write) buf
]

abbrev pub skip_match : RemoveState → ℕ → RemoveState
skip_match s len = record s { read = s.read + len; sz = s.sz - len }

abbrev pub keep_byte : RemoveState → RemoveState
keep_byte s = record s {
  buf = copy_byte s.buf s.write s.read;
  write = s.write + 1;
  read = s.read + 1;
}

-- `while read < buf.len()`, on fuel; `none` means that the fuel ran out.
pub remove_loop : (Bytes → Option ℕ) → ℕ → RemoveState → Option RemoveState
remove_loop pattern_matcher zero s = none
remove_loop pattern_matcher (suc fuel) s = elim (ltb s.read (length s.buf)) [
  | false ↦ some s
  | true ↦ elim (pattern_matcher (drop s.read s.buf)) [
    | some len ↦ remove_loop pattern_matcher fuel (skip_match s len)
    | none ↦ remove_loop pattern_matcher fuel (keep_byte s)
  ]
]

-- `if let Some(buf) = buf.get_mut(write..) { buf.fill(0) }`
pub fill_rest : Bytes → ℕ → Bytes
fill_rest buf write =
    if leb write (length buf) then take write buf ++ replicate (length buf - write) 0 else buf

-- The buffer that is left, and the returned size.
unfoldable pub remove_pattern : (Bytes → Option ℕ) → Bytes → Option (Bytes × ℕ)
unfolding remove_loop fill_rest copy_byte
remove_pattern pattern_matcher buf =
    let start : RemoveState = record { buf = buf; write = 0; read = 0; sz = length buf } in
    elim (remove_loop pattern_matcher (length buf + 1) start) [
      | none ↦ none
      | some s ↦ some (fill_rest s.buf s.write, s.sz)
    ]

abbrev pub verity_patterns : List Bytes
verity_patterns =
    codes "verifyatboot"
    ∷ codes "verify"
    ∷ codes "avb_keys"
    ∷ codes "avb"
    ∷ codes "support_scfs"
    ∷ codes "fsverity"
    ∷ []

abbrev pub encryption_patterns : List Bytes
encryption_patterns = codes "forceencrypt" ∷ codes "forcefdeorfbe" ∷ codes "fileencryption" ∷ []

unfoldable pub patch_verity : Bytes → Option (Bytes × ℕ)
unfolding remove_pattern match_patterns
patch_verity = remove_pattern (match_patterns verity_patterns)

unfoldable pub patch_encryption : Bytes → Option (Bytes × ℕ)
unfolding remove_pattern match_patterns
patch_encryption = remove_pattern (match_patterns encryption_patterns)

-- `u8::to_ascii_uppercase`
pub to_ascii_uppercase : ℕ → ℕ
to_ascii_uppercase c = if leb b'a' c && leb c b'z' then c - 32 else c

-- `bytes[i].to_ascii_uppercase() - b'0'` and the step down of letters, on u8.
pub nibble : ℕ → ℕ
unfolding to_ascii_uppercase
nibble c = let d = (to_ascii_uppercase c + 256 - b'0') % 256 in if ltb 9 d then d - 7 else d

-- The loop over `hex.chunks(2)`; a last chunk of one byte ends it.
unfoldable pub hex2byte : Bytes → Bytes
unfolding nibble
hex2byte (a ∷ b ∷ hex) = bit_or ((nibble a * 16) % 256) (nibble b) ∷ hex2byte hex
hex2byte _ = []

-- `map` is the opened file, `none` if it cannot be opened; `patch` is the C++ routine behind
-- `MutBytesExt::patch`, which returns the new bytes and the offsets that it changed.
unfoldable pub hexpatch :
    (Bytes → Bytes → Bytes → Bytes × List ℕ) → Option Bytes → Bytes → Bytes → Bool × Option Bytes
unfolding hex2byte
hexpatch patch none from to = (false, none)
hexpatch patch (some map) from to =
    let (bytes, v) = patch map (hex2byte from) (hex2byte to) in (not (is_empty v), some bytes)
