-- ===== src/Audit/Events.antt =====
-- services/garudaaudit/store/event.go: the append-only log. The store copies every event on its way
-- in and out. The time of a call and the random identifier are arguments.
use gpass.Prelude.{
  Dict, lookup, insert, ℕ, String, none, some, List, [], ◌∷◌, ◌++◌, ◌==◌, if◌then◌else◌, Result, ok,
  err,
}
use gpass.Audit.Validate.{AuditEvent, EventFault, validate_event}

pub record AuditStore : Type 0 where
  pub events : List AuditEvent
  pub by_id : Dict AuditEvent

-- What `Append` writes into the event.
abbrev pub recorded : ℕ → String → AuditEvent → AuditEvent
recorded now id e = record e {
  id = id;
  created_at = now;
  actor_type = if e.actor_type == "" then "USER" else e.actor_type;
  status = if e.status == "" then "SUCCESS" else e.status;
}

-- The event as it is written back to the caller, and the new store.
unfoldable pub append :
    ℕ → String → AuditEvent → AuditStore → Result EventFault (AuditEvent × AuditStore)
append now id e s = elim (validate_event e) [
  | err why ↦ err why
  | ok _ ↦ ok (
    recorded now id e,
    record {
      events = s.events ++ (recorded now id e ∷ []);
      by_id = insert id (recorded now id e) s.by_id;
    },
  )
]

-- The error names the identifier.
unfoldable pub get_event_by_id : String → AuditStore → Result String AuditEvent
get_event_by_id id s = elim (lookup id s.by_id) [ none ↦ err id | some e ↦ ok e ]
