-- ===== src/Boot/Cpio/Display.antt =====
-- `Display for CpioEntry` of native/src/boot/cpio.rs. The text of a size, of the crate `size`, is a
-- parameter.
use Prim.Native.Nat.{bit_and}
use magisk_t.Prelude.{
  ℕ, zero, suc, ◌+◌, ◌/◌, ◌%◌, [], ◌∷◌, ◌++◌, ltb, ◌==◌, if◌then◌else◌, Bytes, codes, length,
}
use magisk_t.Boot.Cpio.{CpioEntry, s_ifmt, s_ifdir, s_ifreg, s_iflnk, s_ifblk, s_ifchr}

-- The digits of a number below `10 ^ fuel`.
unfoldable pub decimal_fuel : ℕ → ℕ → Bytes
decimal_fuel zero n = []
decimal_fuel (suc fuel) n =
    let rest = decimal_fuel fuel (n / 10) in (if ltb n 10 then [] else rest) ++ (n % 10 + b'0') ∷ []

-- `{}` for an unsigned number; `n < 10 ^ (n + 1)`.
unfoldable pub decimal : ℕ → Bytes
unfolding decimal_fuel
decimal n = decimal_fuel (n + 1) n

unfoldable pub file_type_text : ℕ → Bytes
file_type_text mode =
    let kind = bit_and mode s_ifmt in
    if kind == s_ifdir
    then codes "d"
    else if kind == s_ifreg
    then codes "-"
    else if kind == s_iflnk
    then codes "l"
    else if kind == s_ifblk
    then codes "b"
    else if kind == s_ifchr
    then codes "c"
    else codes "?"

-- `if self.mode & bit != 0 { c } else { "-" }`
unfoldable pub permission_text : ℕ → ℕ → ℕ → ℕ
permission_text mode bit c = if bit_and mode bit == 0 then b'-' else c

unfoldable pub permissions_text : ℕ → Bytes
unfolding permission_text
permissions_text mode =
    permission_text mode 0o400 b'r'
    ∷ permission_text mode 0o200 b'w'
    ∷ permission_text mode 0o100 b'x'
    ∷ permission_text mode 0o040 b'r'
    ∷ permission_text mode 0o020 b'w'
    ∷ permission_text mode 0o010 b'x'
    ∷ permission_text mode 0o004 b'r'
    ∷ permission_text mode 0o002 b'w'
    ∷ permission_text mode 0o001 b'x'
    ∷ []

unfoldable pub entry_text : (ℕ → Bytes) → CpioEntry → Bytes
unfolding file_type_text permissions_text decimal
entry_text size_text e =
    file_type_text e.mode
    ++ permissions_text e.mode
    ++ codes "\t"
    ++ decimal e.uid
    ++ codes "\t"
    ++ decimal e.gid
    ++ codes "\t"
    ++ size_text (length e.content)
    ++ codes "\t"
    ++ decimal e.rdevmajor
    ++ codes ":"
    ++ decimal e.rdevminor
