-- ===== src/Base62/Encode.antt =====
-- Encoding. A `*big.Int` is a natural number. The loops run on fuel, and `none` says that it ran
-- out; one more than the number is enough.
use gpass.Prelude.{
  ℕ, zero, suc, ◌+◌, ◌*◌, ◌/◌, ◌%◌, ◌<◌, ◌≡◌, refl, inl, inr, Option, none, some, map_some, List,
  [], ◌∷◌, ◌++◌, reverse, arith, eqb, if◌then◌else◌, Bool-cases,
}
use gpass.Base62.Digits.{charset, base62_alphabet, char_at}

-- the loop that all encoders share: `result` gets the digits of `n`, the lowest first
unfoldable pub digits : List ℕ → ℕ → ℕ → List ℕ → Option (List ℕ)
digits alphabet zero n result = none
digits alphabet (suc fuel) n result =
    let rest = digits alphabet fuel (n / 62) (result ++ (char_at alphabet (n % 62) ∷ [])) in
    if eqb n 0 then some result else rest

-- `EncodeInt`; the loop that swaps the ends towards the middle is `reverse`
unfoldable pub encode_int : ℕ → Option (List ℕ)
encode_int n =
    if eqb n 0
    then some (char_at charset 0 ∷ [])
    else map_some reverse (digits charset (suc n) n [])

-- `SetBytes`: big-endian, from the number that was read so far
unfoldable pub set_bytes : ℕ → List ℕ → ℕ
set_bytes n [] = n
set_bytes n (b ∷ bytes) = set_bytes (n * 256 + b) bytes

-- the loop over the leading zero bytes of `Encode`
unfoldable pub leading_zeros : List ℕ → List ℕ → List ℕ
leading_zeros [] result = result
leading_zeros (b ∷ bytes) result =
    if eqb b 0 then leading_zeros bytes (result ++ (char_at charset 0 ∷ [])) else result

unfoldable pub encode : List ℕ → Option (List ℕ)
encode [] = some []
encode (b ∷ rest) =
    let bytes = b ∷ rest in
    let n = set_bytes 0 bytes in
    if eqb n 0
    then some (char_at charset 0 ∷ [])
    else map_some (λ result. reverse (leading_zeros bytes result)) (digits charset (suc n) n [])

-- `encodeBase62` of services/garudaportal/apikey/generator.go
unfoldable pub encode_base62 : List ℕ → Option (List ℕ)
encode_base62 bytes =
    let num = set_bytes 0 bytes in
    if eqb num 0
    then some (char_at base62_alphabet 0 ∷ [])
    else map_some reverse (digits base62_alphabet (suc num) num [])

pub digits_total :
    (alphabet : List ℕ) (fuel n : ℕ) (result : List ℕ)
    → n < fuel
    → (r : List ℕ) × (digits alphabet fuel n result ≡ some r)
unfolding digits
digits_total alphabet zero n result h = absurd (omega arith)
digits_total alphabet (suc fuel) n result h = elim (Bool-cases (eqb n 0)) [
  | inl done ↦ (result, rw done refl)
  | inr more ↦ rw more (digits_total alphabet fuel (n / 62) _ (ground arith))
]
