-- ===== src/Info/Disclosure.antt =====
-- What services/garudainfo/handler/person.go discloses under a consent.
use gpass.Prelude.{
  one_of, Dict, lookup, insert, Each, lookup-insert, Each-lookup, ℕ, String, ◌≡◌, refl, ◌∙◌, inl,
  inr, Bool, true, false, not, ◌&&◌, ◌||◌, Option, none, some, [], ◌∷◌, arith, ◌==◌, eq_iff,
  if◌then◌else◌, Bool-cases, Option-cases, reply, fault,
}
use gpass.Info.Validate.{Consent, allowed_field_keys}
use gpass.Info.Consents.{Store, get_by_id, is_stale}
use gpass.Info.Grants.{FieldValue, filter_fields, get_person, revoke_consent}
use gpass.Info.Revocation.{Reach-IsRevoked, revoke_consent-IsRevoked}
use gpass.Info.Acceptable.{IsAllowedKey}
use gpass.Info.Lifecycle.{IsSound, Reach, Reach-IsSoundStore}

-- The fields of a consent grant the key.
unfoldable pub grants_key : String → Dict Bool → Bool
grants_key k [] = false
grants_key k ((j, granted) ∷ m) = (j == k && granted) || grants_key k m

grants_key-allowed :
    (k : String) (m : Dict Bool)
    → Each IsAllowedKey m
    → grants_key k m ≡ true
    → one_of allowed_field_keys k ≡ true
unfolding grants_key
grants_key-allowed k [] a h = cc
grants_key-allowed k ((j, v) ∷ m) a h = ground (arith, eq_iff j k, grants_key-allowed k m a.1)

abbrev or_else : Option FieldValue → Option FieldValue → Option FieldValue
or_else none b = b
or_else (some a) b = some a

or_else-none : (a : Option FieldValue) → or_else a none ≡ a
or_else-none none = refl
or_else-none (some a) = refl

filter_fields-lookup :
    (known : Dict FieldValue) (m : Dict Bool) (filtered : Dict FieldValue) (k : String)
    → lookup k (filter_fields known m filtered)
      ≡ (if grants_key k m then or_else (lookup k known) (lookup k filtered) else lookup k filtered)
unfolding filter_fields grants_key
filter_fields-lookup known [] filtered k = refl
filter_fields-lookup known ((j, false) ∷ m) filtered k =
    ground (arith, filter_fields-lookup known m filtered k)
filter_fields-lookup known ((j, true) ∷ m) filtered k = elim (Option-cases (lookup j known)) [
  | inl e ↦ rw e (ground (arith, eq_iff j k, filter_fields-lookup known m filtered k))
  | inr (v, e) ↦ rw e (
      ground (
        arith,
        eq_iff j k,
        lookup-insert j k v filtered,
        filter_fields-lookup known m (insert j v filtered) k,
      ))
]

-- What a successful read tells.
pub record IsDisclosure (user_data : String → Dict FieldValue) (id : String) (s : Store)
    (fields : Dict FieldValue) : Type 0 where
  pub consent : Consent
  pub held : lookup id s ≡ some consent
  pub is_active : consent.status ≡ "ACTIVE"
  pub exact :
      (k : String)
      → lookup k fields
        ≡ (if grants_key k consent.fields then lookup k (user_data consent.user_id) else none)

module _ (user_data : String → Dict FieldValue) (id : String) where
  get_person_missing :
      (s : Store)
      → (id == "") ≡ false
      → lookup id s ≡ none
      → get_person user_data id s ≡ fault 404 "not_found" "consent not found"
  unfolding get_person get_by_id
  get_person_missing s named e = rw named (rw (e, get_by_id) refl)

  get_person_held :
      (s : Store) (c : Consent)
      → (id == "") ≡ false
      → lookup id s ≡ some c
      → get_person user_data id s ≡ (
          if not (c.status == "ACTIVE")
          then fault 403 "consent_inactive" "consent is not active"
          else reply 200 (filter_fields (user_data c.user_id) c.fields []))
  unfolding get_person get_by_id
  get_person_held s c named e = rw named (rw (e, get_by_id) refl)

  get_person_unnamed :
      (s : Store)
      → (id == "") ≡ true
      → get_person user_data id s
        ≡ fault 400 "invalid_request" "consent_id query parameter is required"
  unfolding get_person
  get_person_unnamed s e = rw e refl

  get_person_revoked :
      (s : Store) (c : Consent)
      → (id == "") ≡ false
      → lookup id s ≡ some c
      → c.status ≡ "REVOKED"
      → get_person user_data id s ≡ fault 403 "consent_inactive" "consent is not active"
  get_person_revoked s c named e r = get_person_held s c named e ∙ rw r refl

  filtered :
      (s : Store) (c : Consent) (fields : Dict FieldValue)
      → (id == "") ≡ false
      → lookup id s ≡ some c
      → get_person user_data id s ≡ reply 200 fields
      → fields ≡ filter_fields (user_data c.user_id) c.fields []
  filtered s c fields named e h = ground (arith, get_person_held s c named e)

  -- A read that succeeds goes through an active consent, and discloses of each field what the
  -- sources know if the consent grants it, and nothing otherwise.
  pub get_person-IsDisclosure :
      (s : Store) (fields : Dict FieldValue)
      → get_person user_data id s ≡ reply 200 fields
      → IsDisclosure user_data id s fields
  get_person-IsDisclosure s fields h = elim (Bool-cases (id == "")) [
    | inl e ↦ absurd (ground (arith, get_person_unnamed s e))
    | inr named ↦ elim (Option-cases (lookup id s)) [
      | inl e ↦ absurd (ground (arith, get_person_missing s named e))
      | inr (c, e) ↦ record {
        consent = c;
        held = e;
        is_active = ground (arith, get_person_held s c named e, eq_iff c.status "ACTIVE");
        exact = λ k. rw (filtered s c fields named e h) (
            unfold lookup in
            ground (
              arith,
              filter_fields-lookup (user_data c.user_id) c.fields [] k,
              or_else-none (lookup k (user_data c.user_id)),
            ));
      }
    ]
  ]

  -- Whatever calls led from the empty store to the present one, a read discloses only fields of the
  -- closed set of personal data.
  pub disclosed_allowed :
      {s : Store} (fields : Dict FieldValue) (k : String) (v : FieldValue)
      → Reach [] s
      → get_person user_data id s ≡ reply 200 fields
      → lookup k fields ≡ some v
      → one_of allowed_field_keys k ≡ true
  disclosed_allowed {s} fields k v r h e =
      let d = get_person-IsDisclosure s fields h in
      let sound = Each-lookup IsSound id s d.consent (Reach-IsSoundStore r) d.held in
      grants_key-allowed k d.consent.fields sound.acceptable.allowed (ground (arith, d.exact k))

  -- Once `Revoke` has answered 200, every later read under that consent answers 403, whatever
  -- grants (under fresh ids), revocations and expiry runs come in between.
  pub revoke_consent-blocks-get_person :
      (now : ℕ) (s : Store) {t u : Store}
      → revoke_consent now id s ≡ (t, reply 200 tt)
      → Reach t u
      → get_person user_data id u ≡ fault 403 "consent_inactive" "consent is not active"
  revoke_consent-blocks-get_person now s {t} {u} h r =
      let before = revoke_consent-IsRevoked now id s t h in
      let after = Reach-IsRevoked id before.1 r in
      get_person_revoked u after.consent before.0 after.held after.final

  -- A consent that has run out is still honoured: a read does not look at the expiry, so until an
  -- `ExpireStale` run it answers 200 under a consent that such a run at `now` would expire.
  pub get_person_stale :
      (now : ℕ) (s : Store) (c : Consent)
      → (id == "") ≡ false
      → lookup id s ≡ some c
      → is_stale now c ≡ true
      → get_person user_data id s ≡ reply 200 (filter_fields (user_data c.user_id) c.fields [])
  get_person_stale now s c named e stale = get_person_held s c named e ∙ ground (arith, stale)
