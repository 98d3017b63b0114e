-- ===== src/Info/Acceptable.antt =====
-- What `ValidateConsent` (services/garudainfo/store/validate.go) accepts, described without its
-- order of tests.
use gpass.Prelude.{
  rune_count, one_of, IsBounded, IsRequired, length, any_of, Dict, Each, ℤ, pos, pos_part, ltb_ℤ, ℕ,
  ◌≤◌, String, ◌≡◌, refl, ◌↔◌, Bool, true, false, not, ◌&&◌, ◌||◌, List, [], ◌∷◌, arith, ◌==◌,
  eq_iff, ltb, leb, eqb, if◌then◌else◌, ok, reject, Result-cases, >>-eq-ok, >>=-eq-ok,
}
use gpass.Info.Validate.{
  Consent, max_user_id_len, max_client_id_len, max_client_name_len, max_purpose_len, max_field_keys,
  max_field_key_len, max_duration, allowed_field_keys, bounded, require_bounded, check_key,
  check_fields, validate_consent, below_minimum, exceeds_maximum, no_fields, too_many_fields,
  nothing_granted,
}

abbrev pub IsAllowedKey : String → Bool → Type 0
IsAllowedKey k v = one_of allowed_field_keys k ≡ true

-- Each text is present and short, the duration lies between a second and five years, and the
-- fields are allowed ones, at least one and at most fifty, with at least one granted.
pub record IsAcceptable (c : Consent) : Type 0 where
  pub user_id : IsRequired c.user_id max_user_id_len
  pub client_id : IsRequired c.client_id max_client_id_len
  pub client_name : IsRequired c.client_name max_client_name_len
  pub purpose : IsRequired c.purpose max_purpose_len
  pub seconds : ℕ
  pub lasts : c.duration_seconds ≡ pos seconds
  pub long_enough : 1 ≤ seconds
  pub short_enough : seconds ≤ max_duration
  pub some_field : 1 ≤ length c.fields
  pub few_fields : length c.fields ≤ max_field_keys
  pub allowed : Each IsAllowedKey c.fields
  pub grants : any_of (λ (e : String × Bool). e.1) c.fields ≡ true

pub bounded-eq-ok : (name v : String) (max : ℕ) → bounded name v max ≡ ok tt → IsBounded v max
unfolding bounded
bounded-eq-ok name v max h = ground arith

pub bounded_of_IsBounded :
    (name v : String) (max : ℕ) → IsBounded v max → bounded name v max ≡ ok tt
unfolding bounded
bounded_of_IsBounded name v max h = ground arith

pub require_bounded-eq-ok :
    (name v : String) (max : ℕ) → require_bounded name v max ≡ ok tt → IsRequired v max
unfolding require_bounded
require_bounded-eq-ok name v max h = ground (arith, bounded-eq-ok name v max)

pub require_bounded_of_IsRequired :
    (name v : String) (max : ℕ) → IsRequired v max → require_bounded name v max ≡ ok tt
unfolding require_bounded
require_bounded_of_IsRequired name v max h = ground (arith, bounded_of_IsBounded name v max h.bound)

-- Every allowed key is present and short, so the two tests before the allow-list never decide.
all_short : List String → Bool
all_short [] = true
all_short (k ∷ ks) = (not (k == "") && leb (rune_count k) max_field_key_len) && all_short ks

one_of_short :
    (k : String) (l : List String)
    → all_short l ≡ true
    → one_of l k ≡ true
    → ((k == "") ≡ false) × (rune_count k ≤ max_field_key_len)
unfolding all_short one_of
one_of_short k [] h e = cc
one_of_short k (a ∷ l) h e = ground (arith, eq_iff k a, one_of_short k l)

check_key-eq-ok : (k : String) (v : Bool) → check_key k ≡ ok tt → IsAllowedKey k v
unfolding check_key
check_key-eq-ok k v h = ground arith

check_key_of_IsAllowedKey : (k : String) (v : Bool) → IsAllowedKey k v → check_key k ≡ ok tt
unfolding check_key all_short
check_key_of_IsAllowedKey k v h = ground (arith, one_of_short k allowed_field_keys refl h)

abbrev granted_in : Dict Bool → Bool
granted_in m = any_of (λ (e : String × Bool). e.1) m

check_fields-eq-ok :
    (granted : Bool) (m : Dict Bool) (result : Bool)
    → check_fields granted m ≡ ok result
    → Each IsAllowedKey m × (result ≡ (granted || granted_in m))
unfolding check_fields any_of
check_fields-eq-ok granted [] result h = ground arith
check_fields-eq-ok granted ((k, v) ∷ m) result h = ground (
  arith,
  check_key-eq-ok k v,
  check_fields-eq-ok (if v then true else granted) m result,
  Result-cases (check_key k),
)

check_fields_of_Each :
    (granted : Bool) (m : Dict Bool)
    → Each IsAllowedKey m
    → check_fields granted m ≡ ok (granted || granted_in m)
unfolding check_fields any_of
check_fields_of_Each granted [] h = ground arith
check_fields_of_Each granted ((k, v) ∷ m) h =
    rw (check_key_of_IsAllowedKey k v h.0)
      (ground (arith, check_fields_of_Each (if v then true else granted) m h.1))

duration_in_range :
    (d : ℤ)
    → reject (ltb_ℤ d (pos 1)) below_minimum ≡ ok tt
    → reject (ltb_ℤ (pos max_duration) d) exceeds_maximum ≡ ok tt
    → (d ≡ pos (pos_part d)) × (1 ≤ pos_part d) × (pos_part d ≤ max_duration)
duration_in_range d low high = ground arith

fields_in_range :
    (n : ℕ)
    → reject (eqb n 0) no_fields ≡ ok tt
    → reject (ltb max_field_keys n) too_many_fields ≡ ok tt
    → (1 ≤ n) × (n ≤ max_field_keys)
fields_in_range n low high = ground arith

granted_of_ok :
    (b granted : Bool)
    → b ≡ (false || granted)
    → reject (not b) nothing_granted ≡ ok tt
    → granted ≡ true
granted_of_ok b granted e h = ground arith

validate_consent-eq-ok : (c : Consent) → validate_consent c ≡ ok tt → IsAcceptable c
unfolding validate_consent
validate_consent-eq-ok c h =
    let (h₁, r₁) = >>-eq-ok _ _ h in
    let (h₂, r₂) = >>-eq-ok _ _ r₁ in
    let (h₃, r₃) = >>-eq-ok _ _ r₂ in
    let (h₄, r₄) = >>-eq-ok _ _ r₃ in
    let (h₅, r₅) = >>-eq-ok _ _ r₄ in
    let (h₆, r₆) = >>-eq-ok _ _ r₅ in
    let (h₇, r₇) = >>-eq-ok _ _ r₆ in
    let (h₈, r₈) = >>-eq-ok _ _ r₇ in
    let (granted, h₉, r₉) = >>=-eq-ok _ _ r₈ in
    let (allowed, e) = check_fields-eq-ok false c.fields granted h₉ in
    let lasts = duration_in_range c.duration_seconds h₅ h₆ in
    let count = fields_in_range (length c.fields) h₇ h₈ in
    record {
      user_id = require_bounded-eq-ok _ _ _ h₁;
      client_id = require_bounded-eq-ok _ _ _ h₂;
      client_name = require_bounded-eq-ok _ _ _ h₃;
      purpose = require_bounded-eq-ok _ _ _ h₄;
      seconds = pos_part c.duration_seconds;
      lasts = lasts.0;
      long_enough = lasts.1;
      short_enough = lasts.2;
      some_field = count.0;
      few_fields = count.1;
      allowed = allowed;
      grants = granted_of_ok granted _ e r₉;
    }

validate_consent_of_IsAcceptable : (c : Consent) → IsAcceptable c → validate_consent c ≡ ok tt
unfolding validate_consent
validate_consent_of_IsAcceptable c a =
    rw
      (
        require_bounded_of_IsRequired _ _ _ a.user_id,
        require_bounded_of_IsRequired _ _ _ a.client_id,
        require_bounded_of_IsRequired _ _ _ a.client_name,
        require_bounded_of_IsRequired _ _ _ a.purpose,
        a.lasts,
        check_fields_of_Each false c.fields a.allowed,
        a.grants,
      )
      (ground arith)

-- The validator accepts a consent exactly when it is acceptable.
pub validate_consent_iff : (c : Consent) → (validate_consent c ≡ ok tt) ↔ IsAcceptable c
validate_consent_iff c = (validate_consent-eq-ok c, validate_consent_of_IsAcceptable c)
