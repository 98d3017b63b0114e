-- ===== src/Base62/Decode.antt =====
-- Decoding.
use gpass.Prelude.{
  ℕ, zero, suc, ◌+◌, ◌*◌, ◌/◌, ◌%◌, ◌^◌, Bool, true, false, Option, none, some, List, [], ◌∷◌, eqb,
  if◌then◌else◌, Result, ok, err,
}
use gpass.Base62.Digits.{charset, index_rune}

-- The error of a text that is empty, or has a character outside the alphabet.
pub data DecodeError : Type 0 where
  empty_string : DecodeError
  invalid_character : ℕ → DecodeError

-- the loop of `DecodeInt`, whose sums and products wrap
unfoldable pub decode_int_loop : ℕ → List ℕ → Result DecodeError ℕ
decode_int_loop n [] = ok n
decode_int_loop n (c ∷ s) = elim (index_rune charset c 0) [
  | none ↦ err (invalid_character c)
  | some i ↦ decode_int_loop ((n * 62 + i) % 2 ^ 64) s
]

unfoldable pub decode_int : List ℕ → Result DecodeError ℕ
unfolding decode_int_loop
decode_int [] = err empty_string
decode_int (c ∷ s) = decode_int_loop 0 (c ∷ s)

-- the loop of `Decode`, on a big integer
unfoldable pub decode_loop : ℕ → List ℕ → Result DecodeError ℕ
decode_loop n [] = ok n
decode_loop n (c ∷ s) = elim (index_rune charset c 0) [
  | none ↦ err (invalid_character c)
  | some i ↦ decode_loop (n * 62 + i) s
]

-- `n.Bytes()`: big-endian, without leading zeros; on fuel, of which `suc n` is enough
unfoldable pub to_bytes : ℕ → ℕ → List ℕ → Option (List ℕ)
to_bytes zero n bytes = none
to_bytes (suc fuel) n bytes =
    let rest = to_bytes fuel (n / 256) (n % 256 ∷ bytes) in if eqb n 0 then some bytes else rest

-- The result of `Decode` is `none` if the fuel of `to_bytes` runs out.
unfoldable pub decode : List ℕ → Result DecodeError (Option (List ℕ))
decode [] = ok (some [])
decode (c ∷ s) = elim (decode_loop 0 (c ∷ s)) [ err e ↦ err e | ok n ↦ ok (to_bytes (suc n) n []) ]

unfoldable pub is_valid : List ℕ → Bool
is_valid [] = true
is_valid (c ∷ s) = elim (index_rune charset c 0) [ none ↦ false | some _ ↦ is_valid s ]
