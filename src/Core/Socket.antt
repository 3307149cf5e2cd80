-- ===== src/Core/Socket.antt =====
-- `Encodable` and `Decodable` of native/src/core/socket.rs. A writer is the bytes written, and a
-- reader the bytes that are still to come; `err` is an `io::Error`.
pub mod RoundTrip
mod Tests
use magisk_t.Prelude.{
  ℕ, zero, suc, ◌+◌, ◌*◌, ◌/◌, ◌%◌, ◌^◌, Bool, not, List, [], ◌∷◌, ◌++◌, ltb, leb, ◌==◌,
  if◌then◌else◌, Bytes, length, take, drop, ◌>>=◌, Outcome, ok, err, panic,
}
use magisk_t.Prelude.Utf8.{is_utf8}

abbrev pub Decoder {ℓ} : Type ℓ → Type ℓ
Decoder A = Bytes → Outcome (A × Bytes)

-- `E: Decodable`, which is `Encodable` as well.
pub record Decodable {ℓ} (A : Type ℓ) : Type ℓ where
  pub encode : A → Bytes
  pub decode : Decoder A

-- `read_exact`
unfoldable pub read_exact : ℕ → Decoder Bytes
read_exact len bytes = if leb len (length bytes) then ok (take len bytes, drop len bytes) else err

-- The memory of an unsigned number of `w` bytes on a little-endian machine.
unfoldable pub write_pod : ℕ → ℕ → Bytes
write_pod zero n = []
write_pod (suc w) n = n % 256 ∷ write_pod w (n / 256)

unfoldable pub from_le : Bytes → ℕ
from_le [] = 0
from_le (b ∷ bytes) = b + 256 * from_le bytes

unfoldable pub read_pod : ℕ → Decoder ℕ
unfolding from_le read_exact
read_pod w bytes = do (raw, rest) ← read_exact w bytes; ok (from_le raw, rest)

-- `impl_pod_encodable!`; an i32 is given by its two's complement.
unfoldable pub pod : ℕ → Decodable ℕ
pod w = record { encode = write_pod w; decode = read_pod w }

unfoldable pub encode_bool : Bool → Bytes
encode_bool b = if b then write_pod 1 1 else write_pod 1 0

unfoldable pub decode_bool : Decoder Bool
decode_bool bytes = do (n, rest) ← read_pod 1 bytes; ok (not (n == 0), rest)

unfoldable pub bool : Decodable Bool
bool = record { encode = encode_bool; decode = decode_bool }

-- `self.len() as i32`
unfoldable pub encode_len : ℕ → Bytes
encode_len len = write_pod 4 (len % 2 ^ 32)

-- The length, and `with_capacity(len as usize)`, which panics for a negative one.
unfoldable pub decode_len : Decoder ℕ
decode_len bytes = do
  (len, rest) ← read_pod 4 bytes
  if ltb len (2 ^ 31) then ok (len, rest) else panic

module _ {ℓ} {A : Type ℓ} (element : Decodable A) where
  -- `self.iter().try_for_each(|e| e.encode(w))`
  unfoldable pub encode_each : List A → Bytes
  encode_each [] = []
  encode_each (a ∷ values) = element.encode a ++ encode_each values

  -- `for _ in 0..len`
  unfoldable pub decode_each : ℕ → Decoder (List A)
  decode_each zero bytes = ok ([], bytes)
  decode_each (suc len) bytes = do
    (a, rest) ← element.decode bytes
    (values, rest') ← decode_each len rest
    ok (a ∷ values, rest')

  unfoldable pub encode_vec : List A → Bytes
  encode_vec values = encode_len (length values) ++ encode_each values

  unfoldable pub decode_vec : Decoder (List A)
  decode_vec bytes = do (len, rest) ← decode_len bytes; decode_each len rest

  unfoldable pub vec : Decodable (List A)
  vec = record { encode = encode_vec; decode = decode_vec }

unfoldable pub encode_str : Bytes → Bytes
encode_str s = encode_len (length s) ++ s

-- `r.take(len).read_to_string`, which stops at the end of the input without an error.
unfoldable pub decode_string : Decoder Bytes
decode_string bytes = do
  (len, rest) ← decode_len bytes
  if is_utf8 (take len rest) then ok (take len rest, drop len rest) else err

unfoldable pub string : Decodable Bytes
string = record { encode = encode_str; decode = decode_string }

-- Two fields of a struct, as `derive(Decodable)` of native/src/base/derive/decodable.rs writes and
-- reads them: in order.
module _ {ℓ κ} {A : Type ℓ} {B : Type κ} (first : Decodable A) (second : Decodable B) where
  unfoldable pub encode_fields : A × B → Bytes
  encode_fields (a, b) = first.encode a ++ second.encode b

  unfoldable pub decode_fields : Decoder (A × B)
  decode_fields bytes = do
    (a, rest) ← first.decode bytes
    (b, rest') ← second.decode rest
    ok ((a, b), rest')

  unfoldable pub fields : Decodable (A × B)
  fields = record { encode = encode_fields; decode = decode_fields }
