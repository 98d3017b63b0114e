-- ===== src/Base62/Tests.antt =====
-- Runs of the base-62 codec of packages/golib/base62/base62.go, and its theorems at concrete inputs.
use gpass.Prelude.{codes, ℕ, ◌≡◌, refl, false, some, List, [], ◌∷◌, arith, ok}
use gpass.Base62.Digits.{char_at, index_rune}
use gpass.Base62.Encode.{digits, encode_int, set_bytes, leading_zeros, encode, encode_base62}
use gpass.Base62.Decode.{decode_int_loop, decode_int, decode_loop, to_bytes, decode, is_valid}
use gpass.Base62.Bytes.{strip, decode-encode}
use gpass.Base62.RoundTrip.{decode_int-encode_int}

program : Unit {0}
unfolding digits encode_int set_bytes leading_zeros encode encode_base62 char_at index_rune
    decode_int_loop decode_int decode_loop to_bytes decode is_valid strip
program = tt

encoded_125 : encode_int 125 ≡ some (codes "21")
unfolding program
encoded_125 = refl

leading_zero_lost : decode (codes "0001") ≡ ok (some (1 ∷ []))
unfolding program
leading_zero_lost = refl

invalid_text : is_valid (codes "a-b") ≡ false
unfolding program
invalid_text = refl

decode-encode_example :
    (s : List ℕ) × (encode (0 ∷ 255 ∷ 7 ∷ []) ≡ some s)
    × (decode s ≡ ok (some (strip (0 ∷ 255 ∷ 7 ∷ []))))
decode-encode_example =
    decode-encode (0 ∷ 255 ∷ 7 ∷ []) (omega arith, (omega arith, (omega arith, tt)))

decode_int-encode_int_example : (s : List ℕ) × (encode_int 125 ≡ some s) × (decode_int s ≡ ok 125)
decode_int-encode_int_example = decode_int-encode_int 125 (omega arith)
