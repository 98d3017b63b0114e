-- ===== src/Base62/Bytes.antt =====
-- What `Decode` makes of encoded bytes: all of them but the leading zeros.
use gpass.Prelude.{
  All, ℕ, zero, suc, ◌+◌, ◌*◌, ◌/◌, ◌%◌, ◌≤◌, ◌<◌, ◌≡◌, refl, sym, ap, ◌∙◌, inl, inr, true, false,
  Option, some, List, [], ◌∷◌, ◌++◌, reverse, append-nil, arith, eqb, if◌then◌else◌, Bool-cases, ok,
}
use gpass.Base62.Encode.{set_bytes, leading_zeros, encode, digits_total}
use gpass.Base62.Decode.{to_bytes, decode_loop, decode}
use gpass.Base62.Digits.{charset, char_at, index_rune}
use gpass.Base62.RoundTrip.{last-first, read_digit, decode-digits}

abbrev pub IsByte : ℕ → Type 0
IsByte b = b < 256

-- the bytes from the first that is not zero on
unfoldable pub strip : List ℕ → List ℕ
strip [] = []
strip (b ∷ bytes) = if eqb b 0 then strip bytes else b ∷ bytes

to_bytes_fuel :
    (f g n : ℕ) (bytes : List ℕ) → n < f → n < g → to_bytes f n bytes ≡ to_bytes g n bytes
unfolding to_bytes
to_bytes_fuel zero g n bytes p q = absurd (omega arith)
to_bytes_fuel (suc f) zero n bytes p q = absurd (omega arith)
to_bytes_fuel (suc f) (suc g) n bytes p q = elim (Bool-cases (eqb n 0)) [
  | inl z ↦ rw z refl
  | inr m ↦ rw m (to_bytes_fuel f g (n / 256) (n % 256 ∷ bytes) (ground arith) (ground arith))
]

abbrev all_bytes : ℕ → List ℕ → Option (List ℕ)
all_bytes n bytes = to_bytes (suc n) n bytes

-- The last byte of a positive number comes off first.
all_bytes_step :
    (n b : ℕ) (bytes : List ℕ)
    → IsByte b
    → 1 ≤ n * 256 + b
    → all_bytes (n * 256 + b) bytes ≡ all_bytes n (b ∷ bytes)
unfolding to_bytes
all_bytes_step n b bytes l p =
    let more : eqb (n * 256 + b) 0 ≡ false = ground arith in
    let high : (n * 256 + b) / 256 ≡ n = omega arith in
    let low : (n * 256 + b) % 256 ≡ b = omega arith in
    rw (more, high, low, to_bytes)
      (to_bytes_fuel (n * 256 + b) (suc n) n (b ∷ bytes) (omega arith) (omega arith))

all_bytes-set_bytes :
    (n : ℕ) (bytes rest : List ℕ)
    → All IsByte bytes
    → 1 ≤ n
    → all_bytes (set_bytes n bytes) rest ≡ all_bytes n (bytes ++ rest)
unfolding set_bytes
all_bytes-set_bytes n [] rest h p = refl
all_bytes-set_bytes n (b ∷ bytes) rest h p =
    all_bytes-set_bytes (n * 256 + b) bytes rest h.1 (omega arith)
    ∙ all_bytes_step n b (bytes ++ rest) h.0 (omega arith)

all_bytes-strip :
    (bytes : List ℕ) → All IsByte bytes → all_bytes (set_bytes 0 bytes) [] ≡ some (strip bytes)
unfolding set_bytes strip to_bytes
all_bytes-strip [] h = refl
all_bytes-strip (b ∷ bytes) h = elim (Bool-cases (eqb b 0)) [
  | inl z ↦
      let none_yet : 0 * 256 + b ≡ 0 = ground (arith, z) in
      ap (λ m. all_bytes (set_bytes m bytes) []) none_yet ∙ all_bytes-strip bytes h.1 ∙ rw z refl
  | inr m ↦
      all_bytes-set_bytes (0 * 256 + b) bytes [] h.1 (ground (arith, m))
      ∙ all_bytes_step 0 b (bytes ++ []) h.0 (ground (arith, m))
      ∙ rw (append-nil bytes) (rw m refl)
]

-- Leading zero digits add nothing to the number.
zeros_vanish :
    (bytes result : List ℕ)
    → decode_loop 0 (reverse (leading_zeros bytes result)) ≡ decode_loop 0 (reverse result)
unfolding leading_zeros
zeros_vanish [] result = refl
zeros_vanish (b ∷ bytes) result = elim (Bool-cases (eqb b 0)) [
  | inr m ↦ rw m refl
  | inl z ↦ rw z (
      zeros_vanish bytes (result ++ (char_at charset 0 ∷ []))
      ∙ ap (decode_loop 0) (last-first (char_at charset 0) result)
      ∙ read_digit 0 0 (reverse result) (omega arith))
]

decode_of_loop : (s : List ℕ) (n : ℕ) → decode_loop 0 s ≡ ok n → decode s ≡ ok (all_bytes n [])
unfolding decode decode_loop to_bytes
decode_of_loop [] n h = let zero : 0 ≡ n = ground (arith, h) in ap (λ m. ok (all_bytes m [])) zero
decode_of_loop (c ∷ s) n h = rw (h, decode) refl

zero_bytes : decode (char_at charset 0 ∷ []) ≡ ok (some [])
unfolding decode decode_loop index_rune char_at to_bytes
zero_bytes = refl

only_zeros : (bytes : List ℕ) → eqb (set_bytes 0 bytes) 0 ≡ true → set_bytes 0 bytes ≡ 0
only_zeros bytes z = ground (arith, z)

-- `Encode` ends on every list of bytes, and `Decode` reads its text back as those bytes without the
-- zeros that they begin with.
pub decode-encode :
    (bytes : List ℕ)
    → All IsByte bytes
    → (s : List ℕ) × (encode bytes ≡ some s) × (decode s ≡ ok (some (strip bytes)))
unfolding encode decode decode_loop strip to_bytes
decode-encode [] h = ([], refl, refl)
decode-encode (b ∷ bytes) h = elim (Bool-cases (eqb (set_bytes 0 (b ∷ bytes)) 0)) [
  | inl z ↦ (
    char_at charset 0 ∷ [],
    rw z refl,
    zero_bytes
        ∙ ap ok (
            ap (λ m. all_bytes m []) (sym (only_zeros (b ∷ bytes) z))
            ∙ all_bytes-strip (b ∷ bytes) h),
  )
  | inr m ↦
      let n = set_bytes 0 (b ∷ bytes) in
      let (r, e) = digits_total charset (suc n) n [] (omega arith) in
      let number : decode_loop 0 (reverse (leading_zeros (b ∷ bytes) r)) ≡ ok n =
        zeros_vanish (b ∷ bytes) r ∙ decode-digits (suc n) n [] r e in
      (
        reverse (leading_zeros (b ∷ bytes) r),
        rw m (rw e refl),
        decode_of_loop _ n number ∙ ap ok (all_bytes-strip (b ∷ bytes) h),
      )
]
