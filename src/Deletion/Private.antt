-- ===== src/Deletion/Private.antt =====
-- Who reads a deletion request (services/identity/handler/deletion.go).
use gpass.Prelude.{
  one_of, lookup, insert, lookup-insert_self, lookup-insert_ne, ℕ, String, ◌≡◌, refl, sym, ap, ◌∙◌,
  inl, inr, true, false, Option, none, some, arith, ◌==◌, eq_refl, Bool-cases, ok, Result-cases,
  Reply, reply, is_fault,
}
use gpass.Deletion.Requests.{
  DeletionRequest, DeletionStore, DeletionError, invalid_reason, valid_reasons,
  validate_deletion_request, deletion_stamped, create_deletion, get_deletion,
}
use gpass.Deletion.Serve.{
  deletion_asked, DeletionResponse, deletion_response, deletion_fault, request_deletion,
  get_deletion_status,
}

create_deletion-eq-ok :
    (now : ℕ) (id : String) (r stored : DeletionRequest) (s t : DeletionStore)
    → create_deletion now (some id) r s ≡ ok (stored, t)
    → (validate_deletion_request r ≡ ok tt)
      × (stored ≡ deletion_stamped now id r)
      × (t ≡ insert id (deletion_stamped now id r) s)
unfolding create_deletion
create_deletion-eq-ok now id r stored s t h = elim (Result-cases (validate_deletion_request r)) [
  | inl (u, e) ↦
      let made = rw (e, create_deletion) at h in (e, ground (arith, made), ground (arith, made))
  | inr (x, e) ↦ let failure = rw (e, create_deletion) at h in absurd (ground (arith, failure))
]

valid_reason :
    (r : DeletionRequest)
    → validate_deletion_request r ≡ ok tt
    → one_of valid_reasons r.reason ≡ true
unfolding validate_deletion_request
valid_reason r h = ground (arith, h)

deletion_fault_lem : (e : DeletionError) → is_fault (deletion_fault e) ≡ true
deletion_fault_lem invalid_reason = refl
deletion_fault_lem _ = refl

request_deletion-eq-reply :
    (now : ℕ) (id user_id : String) (body : Option String) (s t : DeletionStore)
    (response : DeletionResponse)
    → request_deletion now (some id) user_id body s ≡ (t, reply 202 response)
    → (reason : String) × (r : DeletionRequest) × (one_of valid_reasons reason ≡ true)
      × ((user_id == "") ≡ false)
      × (r ≡ deletion_stamped now id (deletion_asked user_id reason))
      × (t ≡ insert id r s)
      × (response ≡ deletion_response r)
unfolding request_deletion
request_deletion-eq-reply now id user_id none s t response h = elim (Bool-cases (user_id == "")) [
  | inl e ↦ let failure = rw (e, request_deletion) at h in absurd (ground (arith, failure))
  | inr e ↦ let failure = rw (e, request_deletion) at h in absurd (ground (arith, failure))
]
request_deletion-eq-reply now id user_id (some reason) s t response h =
    elim (Bool-cases (user_id == "")) [
      | inl e ↦ let failure = rw (e, request_deletion) at h in absurd (ground (arith, failure))
      | inr e ↦
          elim (Result-cases (create_deletion now (some id) (deletion_asked user_id reason) s)) [
            | inr (x, c) ↦
                let sent = rw c at (rw (e, request_deletion) at h) in
                let answer : is_fault (deletion_fault x) ≡ false =
                  ap (λ (p : DeletionStore × Reply DeletionResponse). is_fault p.1) sent in
                absurd (ground (arith, answer, deletion_fault_lem x))
            | inl ((made, u), c) ↦
                let sent = rw c at (rw (e, request_deletion) at h) in
                let (valid, stored, new) =
                  create_deletion-eq-ok now id (deletion_asked user_id reason) made s u c in
                let same : deletion_response made ≡ response = ground (arith, sent) in
                let after : u ≡ t = ground (arith, sent) in
                (
                  reason,
                  made,
                  valid_reason (deletion_asked user_id reason) valid,
                  e,
                  stored,
                  sym after ∙ new ∙ ap (λ x. insert id x s) (sym stored),
                  sym same,
                )
          ]
    ]

-- A request that is answered with 202 has a valid reason and is stored as pending for the caller, under
-- the id, the status and the time of the answer, and the caller reads it back; every other user is refused it, and no other request changes.
pub request_deletion-private :
    (now : ℕ) (id user_id other : String) (body : Option String) (s t : DeletionStore)
    (response : DeletionResponse)
    → request_deletion now (some id) user_id body s ≡ (t, reply 202 response)
    → (id == "") ≡ false
    → (user_id == other) ≡ false
    → (r : DeletionRequest) × (response ≡ deletion_response r)
      × (one_of valid_reasons r.reason ≡ true)
      × (r.status ≡ "PENDING")
      × (get_deletion_status user_id id t ≡ reply 200 r)
      × (is_fault (get_deletion_status other id t) ≡ true)
      × ((k : String) → (id == k) ≡ false → lookup k t ≡ lookup k s)
unfolding get_deletion_status get_deletion
request_deletion-private now id user_id other body s t response h i o =
    let (reason, r, valid, caller, e, w, answer) =
      request_deletion-eq-reply now id user_id body s t response h in
    let held : lookup id t ≡ some r = rw w (lookup-insert_self id r s) in
    let owner : r.user_id ≡ user_id = ap (λ (x : DeletionRequest). x.user_id) e in
    (
      r,
      answer,
      rw e valid,
      rw e refl,
      rw (caller, get_deletion_status)
          (rw i (rw (held, get_deletion) (rw owner (rw (eq_refl user_id) refl)))),
      elim (Bool-cases (other == "")) [
        | inl m ↦ rw (m, get_deletion_status) refl
        | inr m ↦
            rw (m, get_deletion_status) (rw i (rw (held, get_deletion) (rw owner (rw o refl))))
      ],
      λ k n. rw w (lookup-insert_ne id k r s n),
    )
