-- ===== src/Base62/Size.antt =====
-- How long the texts of the key encoder are.
use native.Mathlib.Nat.{pow-succ'}
use gpass.Prelude.{
  length, All, length-append, length-reverse, ℕ, zero, suc, ◌+◌, ◌*◌, ◌/◌, ◌%◌, ◌^◌, ◌≤◌, ◌<◌, ◌≡◌,
  refl, ap, inl, inr, some, List, [], ◌∷◌, ◌++◌, reverse, arith, eqb, Bool-cases,
}
use gpass.Base62.Encode.{digits, set_bytes, encode_base62, digits_total}
use gpass.Base62.Bytes.{IsByte}
use gpass.Base62.Digits.{base62_alphabet, char_at}

scaled : (m n p : ℕ) → m ≤ n → m * p ≤ n * p
scaled m n p h = grind arith

set_bytes_bound :
    (n : ℕ) (bytes : List ℕ) → All IsByte bytes → set_bytes n bytes < suc n * 256 ^ length bytes
unfolding set_bytes
set_bytes_bound n [] h = omega arith
set_bytes_bound n (b ∷ bytes) h =
    let p = 256 ^ length bytes in
    omega (
      arith,
      set_bytes_bound (n * 256 + b) bytes h.1,
      pow-succ' 256 (length bytes),
      scaled (suc (n * 256 + b)) (suc n * 256) p (omega arith),
      ap (λ q. suc n * q) (pow-succ' 256 (length bytes)),
    )

digits_bound :
    (alphabet : List ℕ) (fuel k n : ℕ) (result r : List ℕ)
    → n < 62 ^ k
    → digits alphabet fuel n result ≡ some r
    → length r ≤ length result + k
unfolding digits
digits_bound alphabet zero k n result r l h = cc
digits_bound alphabet (suc fuel) zero n result r l h = ground (arith, h, l)
digits_bound alphabet (suc fuel) (suc k) n result r l h = elim (Bool-cases (eqb n 0)) [
  | inl z ↦ ground (arith, z, h)
  | inr m ↦
      let c = char_at alphabet (n % 62) in
      let later : digits alphabet fuel (n / 62) (result ++ (c ∷ [])) ≡ some r =
        ground (arith, m, h) in
      omega (
        arith,
        digits_bound alphabet fuel k (n / 62) (result ++ (c ∷ [])) r (omega (arith, pow-succ' 62 k))
            later,
        length-append result (c ∷ []),
      )
]

-- A key's random part: the encoder ends on every 48 bytes, and its text has at most 65 characters.
pub encode_base62_bound :
    (bytes : List ℕ)
    → All IsByte bytes
    → length bytes ≡ 48
    → (s : List ℕ) × (encode_base62 bytes ≡ some s) × (length s ≤ 65)
unfolding encode_base62
encode_base62_bound bytes h l = elim (Bool-cases (eqb (set_bytes 0 bytes) 0)) [
  | inl z ↦ (char_at base62_alphabet 0 ∷ [], rw z refl, omega arith)
  | inr m ↦
      let n = set_bytes 0 bytes in
      let (r, e) = digits_total base62_alphabet (suc n) n [] (omega arith) in
      let small : n < 62 ^ 65 =
        omega (arith, ap (λ (k : ℕ). 256 ^ k) l, set_bytes_bound 0 bytes h) in
      (
        reverse r,
        rw m (rw e refl),
        omega (arith, length-reverse r, digits_bound base62_alphabet (suc n) 65 n [] r small e),
      )
]
