-- ===== src/Boot/Patch/Hex.antt =====
-- `hex2byte` of native/src/boot/patch.rs reads back hexadecimal text.
use Prim.Native.Nat.{bit_or}
use magisk_t.Prelude.{
  ℕ, zero, suc, ◌+◌, ◌*◌, ◌/◌, ◌%◌, ◌<◌, ◌≡◌, refl, ap₂, Bool, true, Bool-cases, inl, inr, ◌&&◌, [],
  ◌∷◌, ◌++◌, arith, ltb, ◌==◌, if◌then◌else◌, ==_iff, Bytes, All,
}
use magisk_t.Boot.Patch.{nibble, hex2byte}

-- The digit of a value below 16, in upper or lower case.
abbrev pub hex_digit : Bool → ℕ → ℕ
hex_digit upper v = if ltb v 10 then v + b'0' else (if upper then v + 55 else v + 87)

abbrev pub hex_of : Bool → Bytes → Bytes
hex_of upper [] = []
hex_of upper (b ∷ bs) = hex_digit upper (b / 16) ∷ hex_digit upper (b % 16) ∷ hex_of upper bs

nibble-hex_digit : (upper : Bool) (v : ℕ) → v < 16 → nibble (hex_digit upper v) ≡ v
unfolding nibble
nibble-hex_digit upper v h = ground arith

-- The nibbles of a byte are joined to that byte again.
joins : ℕ → Bool
joins b = bit_or ((b / 16 * 16) % 256) (b % 16) == b

joins_up_to : ℕ → Bool
joins_up_to zero = true
joins_up_to (suc top) = joins_up_to top && joins top

joins_up_to_lem : (top : ℕ) → joins_up_to top ≡ true → (b : ℕ) → b < top → joins b ≡ true
unfolding joins_up_to
joins_up_to_lem zero table b below = absurd (omega arith)
joins_up_to_lem (suc top) table b below = elim (Bool-cases (joins_up_to top)) [
  | inl earlier ↦ ground (arith, earlier, joins_up_to_lem top earlier b)
  | inr broken ↦ absurd (ground (arith, broken))
]

join_table : joins_up_to 256 ≡ true
unfolding joins_up_to joins
join_table = refl

join_nibbles : (x : ℕ) → x < 256 → bit_or ((x / 16 * 16) % 256) (x % 16) ≡ x
unfolding joins
join_nibbles x h = (==_iff _ x).0 (joins_up_to_lem 256 join_table x h)

abbrev pub IsByte : ℕ → Type 0
IsByte b = b < 256

-- `hex2byte` decodes the hexadecimal text of any bytes, in either case; one digit more at the end
-- is ignored.
pub hex2byte-hex_of :
    (upper : Bool) (bs : Bytes)
    → All IsByte bs
    → (hex2byte (hex_of upper bs) ≡ bs) × ((c : ℕ) → hex2byte (hex_of upper bs ++ c ∷ []) ≡ bs)
unfolding hex2byte
hex2byte-hex_of upper [] h = (refl, λ c. refl)
hex2byte-hex_of upper (b ∷ bs) h =
    let ih = hex2byte-hex_of upper bs h.1 in
    let first : bit_or ((nibble (hex_digit upper (b / 16)) * 16) % 256)
          (nibble (hex_digit upper (b % 16)))
        ≡ b =
      rw
        (
          nibble-hex_digit upper (b / 16) (omega arith),
          nibble-hex_digit upper (b % 16) (omega arith),
        )
        (join_nibbles b h.0) in
    (ap₂ ◌∷◌ first ih.0, λ c. ap₂ ◌∷◌ first (ih.1 c))
