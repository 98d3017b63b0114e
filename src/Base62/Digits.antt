-- ===== src/Base62/Digits.antt =====
-- The two alphabets, and the lookups in them. A text is the list of its code points.
use gpass.Prelude.{
  codes, ℕ, zero, suc, ◌<◌, ◌≡◌, refl, Bool, true, false, ◌&&◌, Option, none, some, List, [], ◌∷◌,
  arith, eqb, if◌then◌else◌, Option-cases,
}

abbrev pub charset : List ℕ
charset = codes "0123456789ABCDEFGHIJKLMNOPQRSTUVWXYZabcdefghijklmnopqrstuvwxyz"

abbrev pub base62_alphabet : List ℕ
base62_alphabet = codes "0123456789abcdefghijklmnopqrstuvwxyzABCDEFGHIJKLMNOPQRSTUVWXYZ"

-- `charset[i]`; an index out of range, which Go would panic on, does not occur
unfoldable pub char_at : List ℕ → ℕ → ℕ
char_at [] i = 0
char_at (c ∷ cs) zero = c
char_at (c ∷ cs) (suc i) = char_at cs i

-- `strings.IndexRune(charset, c)`, from a position on; `none` is -1
unfoldable pub index_rune : List ℕ → ℕ → ℕ → Option ℕ
index_rune [] c i = none
index_rune (d ∷ ds) c i = if eqb d c then some i else index_rune ds c (suc i)

-- every digit below `n` is found at its own position
unfoldable pub finds : List ℕ → ℕ → Bool
finds alphabet zero = true
finds alphabet (suc n) = elim (index_rune alphabet (char_at alphabet n) 0) [
  | none ↦ false
  | some i ↦ eqb i n && finds alphabet n
]

pub index_rune-char_at :
    (alphabet : List ℕ) (n d : ℕ)
    → finds alphabet n ≡ true
    → d < n
    → index_rune alphabet (char_at alphabet d) 0 ≡ some d
unfolding finds
index_rune-char_at alphabet zero d h l = absurd (omega arith)
index_rune-char_at alphabet (suc n) d h l = ground (
  arith,
  index_rune-char_at alphabet n d,
  Option-cases (index_rune alphabet (char_at alphabet n) 0),
)

finds_all : finds charset 62 ≡ true
unfolding finds index_rune char_at
finds_all = refl

pub charset_digit : (d : ℕ) → d < 62 → index_rune charset (char_at charset d) 0 ≡ some d
charset_digit d l = index_rune-char_at charset 62 d finds_all l
