-- ===== src/Policy/Globs.antt =====
-- What the patterns of packages/golib/policy/engine.go describe, and that `Match` accepts nothing else.
use gpass.Prelude.{
  codes, same_codes, same_codes-eq, length, ℕ, suc, ◌+◌, String, ◌≡◌, refl, sym, ap, ◌∙◌, inl, inr,
  true, false, not, ◌&&◌, some, List, [], ◌∷◌, ◌++◌, append_assoc, append-nil, arith, eqb,
  Bool-cases, Option-cases,
}
use mathlib.Core.Path.{subst}
use gpass.Policy.Match.{
  star, has_star, split_star, strip_part, find_part, match_parts, ends_with_star, is_empty,
  matches_codes, matches,
}

-- A star stands for any text, every other character for itself.
pub data Globs : List ℕ → List ℕ → Type 0 where
  end : Globs [] []
  same : (c : ℕ) {p s : List ℕ} → Globs p s → Globs (c ∷ p) (c ∷ s)
  skip : {p s : List ℕ} → Globs p s → Globs (star ∷ p) s
  pass : (c : ℕ) {p s : List ℕ} → Globs (star ∷ p) s → Globs (star ∷ p) (c ∷ s)

same_append : (part : List ℕ) {p s : List ℕ} → Globs p s → Globs (part ++ p) (part ++ s)
same_append [] g = g
same_append (c ∷ part) g = same c (same_append part g)

pass_append : (before : List ℕ) {p s : List ℕ} → Globs (star ∷ p) s → Globs (star ∷ p) (before ++ s)
pass_append [] g = g
pass_append (c ∷ before) g = pass c (pass_append before g)

same_all : (p : List ℕ) → Globs p p
same_all [] = end
same_all (c ∷ p) = same c (same_all p)

star_all : (s : List ℕ) → Globs (star ∷ []) s
star_all [] = skip end
star_all (c ∷ s) = pass c (star_all s)

-- the pattern after its first part
abbrev after_part : List (List ℕ) → List ℕ
after_part [] = []
after_part (part ∷ parts) = star ∷ (part ++ after_part parts)

-- The parts, put together again, are the pattern.
split_star-append :
    (p part : List ℕ)
    → (q : List ℕ) × (qs : List (List ℕ)) × (split_star part p ≡ q ∷ qs)
      × (q ++ after_part qs ≡ part ++ p)
unfolding split_star
split_star-append [] part = (part, [], refl, refl)
split_star-append (c ∷ p) part = elim (Bool-cases (eqb c star)) [
  | inl e ↦
      let (q, qs, split, whole) = split_star-append p [] in
      let mark : c ≡ star = ground (arith, e) in
      (
        part,
        q ∷ qs,
        rw (e, split_star) (ap (λ l. part ∷ l) split),
        ap (λ l. part ++ l) (ap (λ l. star ∷ l) whole ∙ ap (λ d. d ∷ p) (sym mark)),
      )
  | inr e ↦
      let (q, qs, split, whole) = split_star-append p (part ++ c ∷ []) in
      (q, qs, rw (e, split_star) split, whole ∙ append_assoc part (c ∷ []) p)
]

strip_part-append : (part s rest : List ℕ) → strip_part part s ≡ some rest → s ≡ part ++ rest
unfolding strip_part
strip_part-append [] s rest h = ground (arith, h)
strip_part-append (c ∷ part) [] rest h = absurd (ground (arith, h))
strip_part-append (c ∷ part) (d ∷ s) rest h = ground (arith, h, strip_part-append part s rest)

find_part-append :
    (part s : List ℕ) (i idx : ℕ) (rest : List ℕ)
    → find_part part s i ≡ some (idx, rest)
    → (before : List ℕ) × (s ≡ before ++ (part ++ rest)) × (idx ≡ i + length before)
unfolding find_part
find_part-append part [] i idx rest h = elim (Option-cases (strip_part part [])) [
  | inl e ↦ let failure = rw (e, find_part) at h in absurd (ground (arith, failure))
  | inr (r, e) ↦
      let found = rw (e, find_part) at h in
      ([], strip_part-append part [] rest (e ∙ ground (arith, found)), ground (arith, found))
]
find_part-append part (d ∷ s) i idx rest h = elim (Option-cases (strip_part part (d ∷ s))) [
  | inl e ↦
      let (before, cut, at) = find_part-append part s (suc i) idx rest (rw (e, find_part) at h) in
      (d ∷ before, ap (λ l. d ∷ l) cut, omega (arith, at))
  | inr (r, e) ↦
      let found = rw (e, find_part) at h in
      ([], strip_part-append part (d ∷ s) rest (e ∙ ground (arith, found)), ground (arith, found))
]

prefix_cut :
    (before part u found rest s : List ℕ)
    → s ≡ before ++ (part ++ found)
    → found ≡ u ++ rest
    → s ≡ (before ++ (part ++ u)) ++ rest
prefix_cut before part u found rest s cut more =
    cut
    ∙ ap (λ l. before ++ (part ++ l)) more
    ∙ sym (append_assoc before (part ++ u) rest ∙ ap (λ l. before ++ l) (append_assoc part u rest))

-- After the first part, what the loop consumes is described by the rest of the pattern.
match_parts-Globs :
    (i : ℕ) (parts : List (List ℕ)) (s rest : List ℕ)
    → match_parts (suc i) parts s ≡ some rest
    → (u : List ℕ) × (s ≡ u ++ rest) × Globs (after_part parts) u
unfolding match_parts
match_parts-Globs i [] s rest h = ([], ground (arith, h), end)
match_parts-Globs i ([] ∷ parts) s rest h =
    let (u, cut, g) = match_parts-Globs (suc i) parts s rest h in (u, cut, skip g)
match_parts-Globs i ((c ∷ part) ∷ parts) s rest h = elim (Option-cases (find_part (c ∷ part) s 0)) [
  | inl e ↦ let failure = rw (e, match_parts) at h in absurd (ground (arith, failure))
  | inr ((idx, found), e) ↦
      let later : eqb (suc i) 0 ≡ false = ground arith in
      let (before, cut, _) = find_part-append (c ∷ part) s 0 idx found e in
      let (u, more, g) =
        match_parts-Globs (suc i) parts found rest (rw later at (rw (e, match_parts) at h)) in
      (
        before ++ ((c ∷ part) ++ u),
        prefix_cut before (c ∷ part) u found rest s cut more,
        pass_append before (skip (same_append (c ∷ part) g)),
      )
]

no_length : (xs : List ℕ) → length xs ≡ 0 → xs ≡ []
no_length [] h = refl
no_length (x ∷ xs) h = absurd (omega (arith, h))

-- The whole loop: the first part stands at the beginning.
match_parts-start :
    (q : List ℕ) (qs : List (List ℕ)) (s rest : List ℕ)
    → match_parts 0 (q ∷ qs) s ≡ some rest
    → (u : List ℕ) × (s ≡ u ++ rest) × Globs (q ++ after_part qs) u
unfolding match_parts
match_parts-start [] qs s rest h = match_parts-Globs 0 qs s rest h
match_parts-start (c ∷ part) qs s rest h = elim (Option-cases (find_part (c ∷ part) s 0)) [
  | inl e ↦ let failure = rw (e, match_parts) at h in absurd (ground (arith, failure))
  | inr ((idx, found), e) ↦ elim (Bool-cases (eqb idx 0)) [
    | inr n ↦ let failure = rw n at (rw (e, match_parts) at h) in absurd (ground (arith, failure))
    | inl z ↦
        let (before, cut, at) = find_part-append (c ∷ part) s 0 idx found e in
        let (u, more, g) = match_parts-Globs 0 qs found rest (rw z at (rw (e, match_parts) at h)) in
        (
          (c ∷ part) ++ u,
          prefix_cut [] (c ∷ part) u found rest s
              (cut
                ∙ ap (λ l. l ++ ((c ∷ part) ++ found)) (no_length before (ground (arith, at, z))))
              more,
          same_append (c ∷ part) g,
        )
  ]
]

-- A pattern that ends with a star goes on to match.
ends_with_star-Globs :
    (rest : List ℕ) {p u : List ℕ} → Globs p u → ends_with_star p ≡ true → Globs p (u ++ rest)
unfolding ends_with_star
ends_with_star-Globs rest end h = absurd (ground (arith, h))
ends_with_star-Globs rest (same c {p = []} end) h =
    let mark : star ≡ c = ground (arith, h) in
    subst (λ d. Globs (d ∷ []) (d ∷ rest)) mark (star_all (star ∷ rest))
ends_with_star-Globs rest (same c {p = d ∷ p} g) h = same c (ends_with_star-Globs rest g h)
ends_with_star-Globs rest (skip {p = []} end) h = star_all rest
ends_with_star-Globs rest (skip {p = d ∷ p} g) h = skip (ends_with_star-Globs rest g h)
ends_with_star-Globs rest (pass c g) h = pass c (ends_with_star-Globs rest g h)

matches_codes-Globs : (p s : List ℕ) → matches_codes p s ≡ true → Globs p s
unfolding matches_codes
matches_codes-Globs p s h = elim (Bool-cases (same_codes p (star ∷ []))) [
  | inl e ↦ subst (λ q. Globs q s) (sym (same_codes-eq p (star ∷ []) e)) (star_all s)
  | inr e ↦ elim (Bool-cases (has_star p)) [
    | inr n ↦
        subst (λ t. Globs p t) (same_codes-eq p s (rw n at (rw (e, matches_codes) at h)))
          (same_all p)
    | inl y ↦ elim (Option-cases (match_parts 0 (split_star [] p) s)) [
      | inl m ↦
          let failure = rw m at (rw y at (rw (e, matches_codes) at h)) in
          absurd (ground (arith, failure))
      | inr (rest, m) ↦
          let passed = rw m at (rw y at (rw (e, matches_codes) at h)) in
          let (q, qs, split, whole) = split_star-append p [] in
          let (u, cut, g) = match_parts-start q qs s rest (rw split at m) in
          subst (λ t. Globs p t) (sym cut)
            (consumed p u rest (subst (λ r. Globs r u) whole g) passed)
    ]
  ]
]
  where
    consumed :
        (p u rest : List ℕ)
        → Globs p u
        → not (not (ends_with_star p) && not (is_empty rest)) ≡ true
        → Globs p (u ++ rest)
    consumed p u [] g h = subst (λ t. Globs p t) (sym (append-nil u)) g
    consumed p u (c ∷ rest) g h = ends_with_star-Globs (c ∷ rest) g (ground (arith, h))

-- `Match` accepts a text only if the pattern describes it, each star standing for some text.
pub matches-Globs :
    (pattern value : String) → matches pattern value ≡ true → Globs (codes pattern) (codes value)
unfolding matches
matches-Globs pattern value h = matches_codes-Globs (codes pattern) (codes value) h
