-- ===== src/Audit/Append.antt =====
-- The log of services/garudaaudit over any sequence of calls of handler/audit.go: it only grows.
use gpass.Prelude.{
  lookup, insert, lookup-insert_self, lookup-insert_fresh, ℕ, String, ◌≡◌, refl, sym, ap, ◌∙◌, ◌⊎◌,
  inl, inr, true, false, Option, none, some, List, [], ◌∷◌, ◌++◌, arith, ◌==◌, ok, Result-cases,
  Reply, reply, is_fault,
}
use gpass.Audit.Validate.{AuditEvent, validate_event}
use gpass.Audit.Events.{AuditStore, recorded, append, get_event_by_id}
use gpass.Audit.Serve.{Parsers, ingest_event, get_event}

abbrev pub logged : ℕ → String → AuditEvent → AuditStore → AuditStore
logged now id e s = record {
  events = s.events ++ (recorded now id e ∷ []);
  by_id = insert id (recorded now id e) s.by_id;
}

abbrev pub IsRefused : AuditStore → AuditStore × Reply AuditEvent → Type 0
IsRefused s out = (out.0 ≡ s) × (is_fault out.1 ≡ true)

abbrev pub IsLogged :
    ℕ → String → Option AuditEvent → AuditStore → AuditStore × Reply AuditEvent → Type 0
IsLogged now id body s out =
    (e : AuditEvent) × (body ≡ some e)
    × (validate_event e ≡ ok tt)
    × (out ≡ (logged now id e s, reply 201 (recorded now id e)))

-- A call of the ingest handler answers with an error and leaves the log as it was, or its body is a
-- valid event, which is appended with the id and the time of the call and returned.
pub ingest_event_cases :
    (ps : Parsers) (now : ℕ) (id : String) (body : Option AuditEvent) (s : AuditStore)
    → IsRefused s (ingest_event ps now id body s)
      ⊎ IsLogged now id body s (ingest_event ps now id body s)
unfolding ingest_event append
ingest_event_cases ps now id none s = inl (refl, refl)
ingest_event_cases ps now id (some e) s = elim (Result-cases (validate_event e)) [
  | inr (why, v) ↦ inl (rw (v, append, ingest_event) refl, rw (v, append, ingest_event) refl)
  | inl (_, v) ↦ inr (e, refl, v, rw (v, append, ingest_event) refl)
]

-- One event after the other; the identifier of a new event is fresh.
pub data AuditRun (s : AuditStore) : AuditStore → Type 0 where
  begin : AuditRun s s
  ingest :
      {t : AuditStore} (ps : Parsers) (now : ℕ) (id : String) (body : Option AuditEvent)
      → AuditRun s t
      → lookup id t.by_id ≡ none
      → AuditRun s (ingest_event ps now id body t).0

-- The later log has the earlier one as a prefix and serves every event that the earlier one served.
pub record IsExtension (s t : AuditStore) : Type 0 where
  pub added : List AuditEvent
  pub grown : t.events ≡ s.events ++ added
  pub kept :
      (id : String) (e : AuditEvent) → get_event_by_id id s ≡ ok e → get_event_by_id id t ≡ ok e

append_assoc : (xs ys zs : List AuditEvent) → (xs ++ ys) ++ zs ≡ xs ++ (ys ++ zs)
append_assoc [] ys zs = refl
append_assoc (x ∷ xs) ys zs = rw (append_assoc xs ys zs) refl

append_none : (xs : List AuditEvent) → xs ≡ xs ++ []
append_none [] = refl
append_none (x ∷ xs) = rw (← append_none xs) refl

found_in :
    (id : String) (s : AuditStore) (e : AuditEvent)
    → get_event_by_id id s ≡ ok e
    → lookup id s.by_id ≡ some e
unfolding get_event_by_id
found_in id s e h = ground arith

logged-kept :
    (now : ℕ) (id : String) (e : AuditEvent) (s : AuditStore) (k : String) (d : AuditEvent)
    → lookup id s.by_id ≡ none
    → get_event_by_id k s ≡ ok d
    → get_event_by_id k (logged now id e s) ≡ ok d
unfolding get_event_by_id
logged-kept now id e s k d fresh h =
    rw
      (
        lookup-insert_fresh id k (recorded now id e) d s.by_id fresh (found_in k s d h),
        get_event_by_id,
      )
      refl

-- The log is append-only. After any run of calls, the events are those of before, unchanged and in
-- their order, followed by the new ones, and every event that could be read by its id is still read
-- as it was.
pub AuditRun-IsExtension : {s t : AuditStore} → AuditRun s t → IsExtension s t
AuditRun-IsExtension {s} begin = record {
  added = [];
  grown = append_none s.events;
  kept = λ id e h. h;
}
AuditRun-IsExtension {s} (ingest {t} ps now id body r fresh) =
    let before = AuditRun-IsExtension r in
    elim (ingest_event_cases ps now id body t) [
      | inl (same, _) ↦ rw same before
      | inr (e, _, _, done) ↦ rw done (record {
        added = before.added ++ (recorded now id e ∷ []);
        grown =
            ap (λ (l : List AuditEvent). l ++ (recorded now id e ∷ [])) before.grown
            ∙ append_assoc s.events before.added (recorded now id e ∷ []);
        kept = λ k d h. logged-kept now id e t k d fresh (before.kept k d h);
      })
    ]

-- What the ingest handler returns is in the log, under the id of the call.
ingested_found :
    (ps : Parsers) (now : ℕ) (id : String) (body : Option AuditEvent) (s : AuditStore)
    (e : AuditEvent)
    → (ingest_event ps now id body s).1 ≡ reply 201 e
    → (e.id ≡ id) × (get_event_by_id id (ingest_event ps now id body s).0 ≡ ok e)
unfolding get_event_by_id
ingested_found ps now id body s e accepted = elim (ingest_event_cases ps now id body s) [
  | inl (_, failed) ↦ absurd (ground (arith, failed, accepted))
  | inr (d, _, _, done) ↦
      let same : recorded now id d ≡ e = ground (arith, done, accepted) in
      (
        ap (λ (x : AuditEvent). x.id) (sym same),
        rw (done, get_event_by_id)
            (rw (lookup-insert_self id (recorded now id d) s.by_id) (ap ok same)),
      )
]

-- An event that the ingest handler has accepted, under an id that is not empty, is what the read
-- handler answers for that id, after whatever further calls.
pub get_event-ingest :
    (ps : Parsers) (now : ℕ) (id : String) (body : Option AuditEvent) (s : AuditStore)
    (e : AuditEvent) (t : AuditStore)
    → (id == "") ≡ false
    → (ingest_event ps now id body s).1 ≡ reply 201 e
    → AuditRun (ingest_event ps now id body s).0 t
    → (e.id ≡ id) × (get_event id t ≡ reply 200 e)
unfolding get_event
get_event-ingest ps now id body s e t named accepted r =
    let (same, found) = ingested_found ps now id body s e accepted in
    let later = (AuditRun-IsExtension r).kept id e found in (same, rw (named, later) refl)
