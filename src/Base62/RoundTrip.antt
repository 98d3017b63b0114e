-- ===== src/Base62/RoundTrip.antt =====
-- What decoding makes of an encoded number, and of encoded bytes.
use gpass.Prelude.{
  ℕ, zero, suc, ◌+◌, ◌*◌, ◌/◌, ◌%◌, ◌^◌, ◌<◌, ◌≡◌, refl, ap, ◌∙◌, inl, inr, false, some, List, [],
  ◌∷◌, ◌++◌, reverse, reverse-append, arith, eqb, Bool-cases, ok,
}
use gpass.Base62.Digits.{charset, char_at, charset_digit, index_rune}
use gpass.Base62.Encode.{digits, encode_int, digits_total}
use gpass.Base62.Decode.{decode_int_loop, decode_int, decode_loop}

pub last-first : (c : ℕ) (s : List ℕ) → reverse (s ++ (c ∷ [])) ≡ c ∷ reverse s
last-first c s = rw reverse-append refl

read_int_digit :
    (n d : ℕ) (s : List ℕ)
    → d < 62
    → decode_int_loop n (char_at charset d ∷ s) ≡ decode_int_loop ((n * 62 + d) % 2 ^ 64) s
unfolding decode_int_loop
read_int_digit n d s l = rw (charset_digit d l, decode_int_loop) refl

pub read_digit :
    (n d : ℕ) (s : List ℕ)
    → d < 62
    → decode_loop n (char_at charset d ∷ s) ≡ decode_loop (n * 62 + d) s
unfolding decode_loop
read_digit n d s l = rw (charset_digit d l, decode_loop) refl

-- Reading all digits from nothing on is reading those of `result` from `n` on.
decode_int-digits :
    (fuel n : ℕ) (result r : List ℕ)
    → n < 2 ^ 64
    → digits charset fuel n result ≡ some r
    → decode_int_loop 0 (reverse r) ≡ decode_int_loop n (reverse result)
unfolding digits
decode_int-digits zero n result r l h = cc
decode_int-digits (suc fuel) n result r l h = elim (Bool-cases (eqb n 0)) [
  | inl done ↦ ground (arith, done, h)
  | inr more ↦
      let c = char_at charset (n % 62) in
      let later : digits charset fuel (n / 62) (result ++ (c ∷ [])) ≡ some r =
        ground (arith, more, h) in
      let whole : (n / 62 * 62 + n % 62) % 2 ^ 64 ≡ n = omega arith in
      decode_int-digits fuel (n / 62) (result ++ (c ∷ [])) r (omega arith) later
      ∙ ap (decode_int_loop (n / 62)) (last-first c result)
      ∙ read_int_digit (n / 62) (n % 62) (reverse result) (omega arith)
      ∙ ap (λ m. decode_int_loop m (reverse result)) whole
]

pub decode-digits :
    (fuel n : ℕ) (result r : List ℕ)
    → digits charset fuel n result ≡ some r
    → decode_loop 0 (reverse r) ≡ decode_loop n (reverse result)
unfolding digits
decode-digits zero n result r h = cc
decode-digits (suc fuel) n result r h = elim (Bool-cases (eqb n 0)) [
  | inl done ↦ ground (arith, done, h)
  | inr more ↦
      let c = char_at charset (n % 62) in
      let later : digits charset fuel (n / 62) (result ++ (c ∷ [])) ≡ some r =
        ground (arith, more, h) in
      let whole : n / 62 * 62 + n % 62 ≡ n = omega arith in
      decode-digits fuel (n / 62) (result ++ (c ∷ [])) r later
      ∙ ap (decode_loop (n / 62)) (last-first c result)
      ∙ read_digit (n / 62) (n % 62) (reverse result) (omega arith)
      ∙ ap (λ m. decode_loop m (reverse result)) whole
]

nonempty_int :
    (s : List ℕ) (n : ℕ) → decode_int_loop 0 s ≡ ok n → eqb n 0 ≡ false → decode_int s ≡ ok n
unfolding decode_int decode_int_loop
nonempty_int [] n h e = absurd (ground (arith, h, e))
nonempty_int (c ∷ s) n h e = h

zero_text : decode_int (char_at charset 0 ∷ []) ≡ ok 0
unfolding decode_int decode_int_loop index_rune char_at
zero_text = refl

-- `EncodeInt` ends on every number, and `DecodeInt` reads every uint64 back.
pub decode_int-encode_int :
    (n : ℕ) → n < 2 ^ 64 → (s : List ℕ) × (encode_int n ≡ some s) × (decode_int s ≡ ok n)
unfolding encode_int decode_int_loop
decode_int-encode_int n l = elim (Bool-cases (eqb n 0)) [
  | inl z ↦ (char_at charset 0 ∷ [], rw z refl, zero_text ∙ ap ok (ground (arith, z)))
  | inr p ↦
      let (r, e) = digits_total charset (suc n) n [] (omega arith) in
      (
        reverse r,
        rw p (rw e refl),
        nonempty_int (reverse r) n (decode_int-digits (suc n) n [] r l e) p,
      )
]
