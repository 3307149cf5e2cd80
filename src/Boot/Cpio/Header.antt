-- ===== src/Boot/Cpio/Header.antt =====
-- The header of an archive member in native/src/boot/cpio.rs: its fields, and the hexadecimal
-- numbers in them.
pub mod Numbers
use magisk_t.Prelude.{
  ℕ, zero, suc, ◌+◌, ◌-◌, ◌*◌, ◌/◌, ◌%◌, ◌^◌, ◌&&◌, Option, none, some, [], ◌∷◌, ◌++◌, ltb, leb,
  ◌==◌, if◌then◌else◌, Bytes, take, drop, Outcome, ok, err,
}
use magisk_t.Prelude.Utf8.{is_utf8}

pub record CpioHeader : Type 0 where
  pub magic : Bytes
  pub ino : Bytes
  pub mode : Bytes
  pub uid : Bytes
  pub gid : Bytes
  pub nlink : Bytes
  pub mtime : Bytes
  pub filesize : Bytes
  pub devmajor : Bytes
  pub devminor : Bytes
  pub rdevmajor : Bytes
  pub rdevminor : Bytes
  pub namesize : Bytes
  pub check : Bytes

-- `size_of::<CpioHeader>()`: 6 bytes, then thirteen fields of 8.
abbrev pub hdr_sz : ℕ
hdr_sz = 110

abbrev pub field : ℕ → Bytes → Bytes
field i hdr = take 8 (drop (6 + 8 * i) hdr)

-- `from_bytes::<CpioHeader>` of a slice of `hdr_sz` bytes; the layout is `repr(C, packed)`.
unfoldable pub from_bytes : Bytes → CpioHeader
from_bytes hdr = record {
  magic = take 6 hdr;
  ino = field 0 hdr;
  mode = field 1 hdr;
  uid = field 2 hdr;
  gid = field 3 hdr;
  nlink = field 4 hdr;
  mtime = field 5 hdr;
  filesize = field 6 hdr;
  devmajor = field 7 hdr;
  devminor = field 8 hdr;
  rdevmajor = field 9 hdr;
  rdevminor = field 10 hdr;
  namesize = field 11 hdr;
  check = field 12 hdr;
}

-- `c.to_digit(16)`, of an ASCII character; any other byte begins a character that is no digit.
pub to_digit : ℕ → Option ℕ
to_digit c =
    if leb b'0' c && leb c b'9'
    then some (c - b'0')
    else if leb b'a' c && leb c b'f'
    then some (c - 87)
    else if leb b'A' c && leb c b'F'
    then some (c - 55)
    else none

-- The loop of `x8u` on u32.
pub x8u_from : ℕ → Bytes → Outcome ℕ
x8u_from ret [] = ok ret
x8u_from ret (c ∷ s) = elim (to_digit c) [
  | none ↦ err
  | some d ↦ x8u_from ((ret * 16 + d) % 2 ^ 32) s
]

unfoldable pub x8u : Bytes → Outcome ℕ
unfolding x8u_from to_digit is_utf8
x8u x = if is_utf8 x then x8u_from 0 x else err

-- One digit of `{:x}`.
abbrev pub lower_digit : ℕ → ℕ
lower_digit d = if ltb d 10 then d + 48 else d + 87

-- The last `width` hexadecimal digits of `n`, most significant first.
unfoldable pub hex_digits : ℕ → ℕ → Bytes
hex_digits zero n = []
hex_digits (suc width) n = hex_digits width (n / 16) ++ lower_digit (n % 16) ∷ []

-- How many hexadecimal digits `n` has, at most `fuel`.
pub digit_count : ℕ → ℕ → ℕ
digit_count zero n = 0
digit_count (suc fuel) n = let rest = digit_count fuel (n / 16) in if n == 0 then 0 else suc rest

-- `{:08x}`: eight digits, or more where the number (of at most 64 bits) needs them.
unfoldable pub fmt_08x : ℕ → Bytes
unfolding hex_digits digit_count
fmt_08x n = if ltb n (2 ^ 32) then hex_digits 8 n else hex_digits (digit_count 16 n) n
