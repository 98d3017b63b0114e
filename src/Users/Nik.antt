-- ===== src/Users/Nik.antt =====
-- `ValidateNIKFormat` of services/identity/crypto/nik.go.
use gpass.Prelude.{
  codes, length, ℕ, ◌+◌, ◌-◌, ◌*◌, String, Bool, true, not, ◌&&◌, ◌||◌, List, [], ◌∷◌, ltb, leb,
  eqb, ◌>>◌, reject, Check,
}

-- `\d` of the expression
unfoldable pub is_digit : ℕ → Bool
is_digit c = leb 48 c && leb c 57

unfoldable pub all_digits : List ℕ → Bool
unfolding is_digit
all_digits [] = true
all_digits (c ∷ cs) = is_digit c && all_digits cs

-- `nikRegex`: sixteen digits
abbrev pub nik_regex : List ℕ → Bool
nik_regex s = eqb (length s) 16 && all_digits s

pub data NikError : Type 0 where
  not_sixteen_digits : NikError
  invalid_province : ℕ → NikError

-- `strconv.Atoi(nik[:2])`, for a NIK of digits
unfoldable pub province_code : List ℕ → ℕ
province_code (a ∷ b ∷ rest) = (a - 48) * 10 + (b - 48)
province_code _ = 0

unfoldable pub validate_nik_format : String → Check NikError
unfolding all_digits province_code
validate_nik_format nik = do
  reject (not (nik_regex (codes nik))) not_sixteen_digits
  reject (ltb (province_code (codes nik)) 11 || ltb 99 (province_code (codes nik)))
      (invalid_province (province_code (codes nik)))
