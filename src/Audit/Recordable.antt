-- ===== src/Audit/Recordable.antt =====
-- What `ValidateEvent` (services/garudaaudit/store/validate.go) accepts, described without its order
-- of tests.
use gpass.Prelude.{
  rune_count, one_of, contains_any, IsBounded, IsRequired, length, Dict, Each, ℕ, ◌≤◌, String, ◌≡◌,
  refl, ◌↔◌, Bool, true, false, not, [], ◌∷◌, arith, ◌==◌, ltb, ok, reject, >>-eq-ok,
}
use gpass.Audit.Validate.{
  AuditEvent, unknown_actor_type, unknown_status, too_many_keys, allowed_actor_types,
  allowed_statuses, max_metadata_keys, max_metadata_key_len, max_metadata_value_len, text_bounded,
  text_required, check_entry, check_metadata, validate_event,
}

-- a key that is present, short and on one line, with a short value
pub record IsEntry (k v : String) : Type 0 where
  pub present : (k == "") ≡ false
  pub short : rune_count k ≤ max_metadata_key_len
  pub short_value : rune_count v ≤ max_metadata_value_len
  pub one_line : contains_any (0 ∷ 10 ∷ 13 ∷ []) k ≡ false

-- Event type, actor and action are present; every text is short and has no null byte; the type of
-- the actor and the status, which may be empty, are known ones; and there are at most fifty entries
-- of metadata.
pub record IsRecordable (e : AuditEvent) : Type 0 where
  pub event_type : IsRequired e.event_type 64
  pub actor_id : IsRequired e.actor_id 128
  pub action : IsRequired e.action 64
  pub actor_type : IsBounded e.actor_type 32
  pub known_actor : one_of allowed_actor_types e.actor_type ≡ true
  pub resource_id : IsBounded e.resource_id 128
  pub resource_type : IsBounded e.resource_type 64
  pub ip_address : IsBounded e.ip_address 45
  pub user_agent : IsBounded e.user_agent 512
  pub service_name : IsBounded e.service_name 64
  pub request_id : IsBounded e.request_id 128
  pub status : IsBounded e.status 32
  pub known_status : one_of allowed_statuses e.status ≡ true
  pub few_entries : length e.metadata ≤ max_metadata_keys
  pub entries : Each IsEntry e.metadata

text_bounded-eq-ok : (name v : String) (max : ℕ) → text_bounded name v max ≡ ok tt → IsBounded v max
unfolding text_bounded
text_bounded-eq-ok name v max h = ground arith

text_bounded_of_IsBounded :
    (name v : String) (max : ℕ) → IsBounded v max → text_bounded name v max ≡ ok tt
unfolding text_bounded
text_bounded_of_IsBounded name v max h = ground arith

text_required-eq-ok :
    (name v : String) (max : ℕ) → text_required name v max ≡ ok tt → IsRequired v max
unfolding text_required
text_required-eq-ok name v max h = ground (arith, text_bounded-eq-ok name v max)

text_required_of_IsRequired :
    (name v : String) (max : ℕ) → IsRequired v max → text_required name v max ≡ ok tt
unfolding text_required
text_required_of_IsRequired name v max h =
    ground (arith, text_bounded_of_IsBounded name v max h.bound)

check_entry-eq-ok : (k v : String) → check_entry k v ≡ ok tt → IsEntry k v
unfolding check_entry
check_entry-eq-ok k v h = ground arith

check_entry_of_IsEntry : (k v : String) → IsEntry k v → check_entry k v ≡ ok tt
unfolding check_entry
check_entry_of_IsEntry k v h = ground arith

check_metadata-eq-ok : (m : Dict String) → check_metadata m ≡ ok tt → Each IsEntry m
unfolding check_metadata
check_metadata-eq-ok [] h = tt
check_metadata-eq-ok ((k, v) ∷ m) h =
    let (first, others) = >>-eq-ok _ _ h in
    (check_entry-eq-ok k v first, check_metadata-eq-ok m others)

check_metadata_of_Each : (m : Dict String) → Each IsEntry m → check_metadata m ≡ ok tt
unfolding check_metadata
check_metadata_of_Each [] h = refl
check_metadata_of_Each ((k, v) ∷ m) h =
    rw (check_entry_of_IsEntry k v h.0) (check_metadata_of_Each m h.1)

passes : {E : Type 0} (b : Bool) (why : E) → reject (not b) why ≡ ok tt → b ≡ true
passes b why h = ground arith

within : {E : Type 0} (n max : ℕ) (why : E) → reject (ltb max n) why ≡ ok tt → n ≤ max
within n max why h = ground arith

validate_event-eq-ok : (e : AuditEvent) → validate_event e ≡ ok tt → IsRecordable e
unfolding validate_event
validate_event-eq-ok e h₀ =
    let (a₁, h₁) = >>-eq-ok _ _ h₀ in
    let (a₂, h₂) = >>-eq-ok _ _ h₁ in
    let (a₃, h₃) = >>-eq-ok _ _ h₂ in
    let (a₄, h₄) = >>-eq-ok _ _ h₃ in
    let (a₅, h₅) = >>-eq-ok _ _ h₄ in
    let (a₆, h₆) = >>-eq-ok _ _ h₅ in
    let (a₇, h₇) = >>-eq-ok _ _ h₆ in
    let (a₈, h₈) = >>-eq-ok _ _ h₇ in
    let (a₉, h₉) = >>-eq-ok _ _ h₈ in
    let (b₁, k₁) = >>-eq-ok _ _ h₉ in
    let (b₂, k₂) = >>-eq-ok _ _ k₁ in
    let (b₃, k₃) = >>-eq-ok _ _ k₂ in
    let (b₄, k₄) = >>-eq-ok _ _ k₃ in
    let (b₅, k₅) = >>-eq-ok _ _ k₄ in
    record {
      event_type = text_required-eq-ok _ _ _ a₁;
      actor_id = text_required-eq-ok _ _ _ a₂;
      action = text_required-eq-ok _ _ _ a₃;
      actor_type = text_bounded-eq-ok _ _ _ a₄;
      known_actor = passes _ _ a₅;
      resource_id = text_bounded-eq-ok _ _ _ a₆;
      resource_type = text_bounded-eq-ok _ _ _ a₇;
      ip_address = text_bounded-eq-ok _ _ _ a₈;
      user_agent = text_bounded-eq-ok _ _ _ a₉;
      service_name = text_bounded-eq-ok _ _ _ b₁;
      request_id = text_bounded-eq-ok _ _ _ b₂;
      status = text_bounded-eq-ok _ _ _ b₃;
      known_status = passes _ _ b₄;
      few_entries = within _ _ _ b₅;
      entries = check_metadata-eq-ok _ k₅;
    }

admits : {E : Type 0} (b : Bool) (why : E) → b ≡ true → reject (not b) why ≡ ok tt
admits b why h = ground arith

fits : {E : Type 0} (n max : ℕ) (why : E) → n ≤ max → reject (ltb max n) why ≡ ok tt
fits n max why h = ground arith

validate_event_of_IsRecordable : (e : AuditEvent) → IsRecordable e → validate_event e ≡ ok tt
unfolding validate_event
validate_event_of_IsRecordable e r =
    rw
      (
        text_required_of_IsRequired "event_type" _ _ r.event_type,
        text_required_of_IsRequired "actor_id" _ _ r.actor_id,
        text_required_of_IsRequired "action" _ _ r.action,
        text_bounded_of_IsBounded "actor_type" _ _ r.actor_type,
        admits _ (unknown_actor_type e.actor_type) r.known_actor,
        text_bounded_of_IsBounded "resource_id" _ _ r.resource_id,
        text_bounded_of_IsBounded "resource_type" _ _ r.resource_type,
        text_bounded_of_IsBounded "ip_address" _ _ r.ip_address,
        text_bounded_of_IsBounded "user_agent" _ _ r.user_agent,
        text_bounded_of_IsBounded "service_name" _ _ r.service_name,
        text_bounded_of_IsBounded "request_id" _ _ r.request_id,
        text_bounded_of_IsBounded "status" _ _ r.status,
        admits _ (unknown_status e.status) r.known_status,
        fits _ _ (too_many_keys (length e.metadata)) r.few_entries,
      )
      (check_metadata_of_Each e.metadata r.entries)

-- The validator accepts an event exactly when it is recordable.
pub validate_event_iff : (e : AuditEvent) → (validate_event e ≡ ok tt) ↔ IsRecordable e
validate_event_iff e = (validate_event-eq-ok e, validate_event_of_IsRecordable e)
