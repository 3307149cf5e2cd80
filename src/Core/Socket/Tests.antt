-- ===== src/Core/Socket/Tests.antt =====
-- Runs of native/src/core/socket.rs, and the theorems at concrete inputs.
use magisk_t.Prelude.{ℕ, ◌≡◌, refl, true, List, [], ◌∷◌, ◌++◌, arith, codes, ok, panic}
use magisk_t.Prelude.Utf8.{is_utf8}
use magisk_t.Core.Socket.{pod, read_pod, encode_len, decode_len, decode_vec, vec, decode_string}
use magisk_t.Core.Socket.RoundTrip.{pod-RoundTrips, vec-RoundTrips, decode_string_short}

-- A negative length panics.
negative_len_run : decode_vec (pod 1) (codes "" ++ 255 ∷ 255 ∷ 255 ∷ 255 ∷ []) ≡ panic
unfolding decode_vec decode_len read_pod
negative_len_run = refl

abbrev two_numbers : List ℕ
two_numbers = 1 ∷ 70000 ∷ []

vec-RoundTrips_example :
    (vec (pod 4)).decode ((vec (pod 4)).encode two_numbers ++ codes "x")
    ≡ ok (two_numbers, codes "x")
vec-RoundTrips_example =
    vec-RoundTrips (pod 4) (pod-RoundTrips 4) two_numbers (codes "x")
      (omega arith, (omega arith, (omega arith, tt)))

su_is_utf8 : is_utf8 (codes "su") ≡ true
unfolding is_utf8
su_is_utf8 = refl

decode_string_short_example : decode_string (encode_len 5 ++ codes "su") ≡ ok (codes "su", [])
decode_string_short_example =
    decode_string_short 5 (codes "su") (omega arith) (omega arith) su_is_utf8
