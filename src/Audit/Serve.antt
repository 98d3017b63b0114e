-- ===== src/Audit/Serve.antt =====
-- services/garudaaudit/handler/audit.go and handler/stats.go. The query parameters are a function
-- from names to texts; the parsers of times and numbers, and the text of a validation error, are
-- parameters.
use gpass.Prelude.{
  Dict, lookup, insert, ℤ, pos, ℕ, suc, String, Option, none, some, List, [], ◌∷◌, ◌==◌,
  if◌then◌else◌, ok, err, Reply, reply, fault,
}
use gpass.Audit.Validate.{AuditEvent, EventFault}
use gpass.Audit.Events.{AuditStore, append, get_event_by_id}
use gpass.Audit.Query.{AuditFilter, page_limit, query, count}

pub record Parsers : Type 0 where
  pub parse_time : String → Option ℕ
  pub atoi : String → Option ℤ
  pub error_text : EventFault → String

-- A body is the event that it describes, whose identifier and time the store sets.
unfoldable pub ingest_event :
    Parsers → ℕ → String → Option AuditEvent → AuditStore → AuditStore × Reply AuditEvent
ingest_event ps now id none s = (s, fault 400 "invalid_request" "invalid JSON body")
ingest_event ps now id (some e) s = elim (append now id e s) [
  | err why ↦ (s, fault 400 "validation_error" (ps.error_text why))
  | ok (stored, s') ↦ (s', reply 201 stored)
]

-- A parameter that is missing or does not parse leaves the field as it was.
abbrev pub time_of : Parsers → String → ℕ
time_of ps text = if text == "" then 0 else elim (ps.parse_time text) [ none ↦ 0 | some t ↦ t ]

abbrev pub number_of : Parsers → String → ℤ
number_of ps text = if text == "" then pos 0 else elim (ps.atoi text) [ none ↦ pos 0 | some n ↦ n ]

abbrev pub filter_of : Parsers → (String → String) → AuditFilter
filter_of ps get = record {
  actor_id = get "actor_id";
  resource_id = get "resource_id";
  resource_type = get "resource_type";
  event_type = get "event_type";
  action = get "action";
  service_name = get "service";
  status = get "status";
  from = time_of ps (get "from");
  to = time_of ps (get "to");
  limit = number_of ps (get "limit");
  offset = number_of ps (get "offset");
}

pub record QueryResponse : Type 0 where
  pub events : List AuditEvent
  pub total : ℕ
  pub limit : ℕ
  pub offset : ℤ

unfoldable pub query_events : Parsers → (String → String) → AuditStore → Reply QueryResponse
query_events ps get s =
    let f = filter_of ps get in
    reply 200 (record {
      events = query f s;
      total = count f s;
      limit = page_limit f.limit;
      offset = f.offset;
    })

unfoldable pub get_event : String → AuditStore → Reply AuditEvent
get_event id s =
    if id == ""
    then fault 400 "invalid_request" "event ID is required"
    else elim (get_event_by_id id s) [
      | err _ ↦ fault 404 "not_found" "audit event not found"
      | ok e ↦ reply 200 e
    ]

pub record StatsResponse : Type 0 where
  pub total_events : ℕ
  pub by_action : Dict ℕ
  pub by_service : Dict ℕ
  pub by_status : Dict ℕ

-- `m[k]`, with 0 for a missing key
unfoldable pub counted : String → Dict ℕ → ℕ
counted k m = elim (lookup k m) [ none ↦ 0 | some n ↦ n ]

-- `m[k]++` for the key of each event
unfoldable pub count_by : (AuditEvent → String) → List AuditEvent → Dict ℕ → Dict ℕ
count_by key [] m = m
count_by key (e ∷ es) m = count_by key es (insert (key e) (suc (counted (key e) m)) m)

abbrev pub stats_filter : String → ℕ → ℕ → ℤ → AuditFilter
stats_filter service from to limit = record {
  actor_id = "";
  resource_id = "";
  resource_type = "";
  event_type = "";
  action = "";
  service_name = service;
  status = "";
  from = from;
  to = to;
  limit = limit;
  offset = pos 0;
}

unfoldable pub get_stats : Parsers → (String → String) → AuditStore → Reply StatsResponse
get_stats ps get s =
    let from = time_of ps (get "from") in
    let to = time_of ps (get "to") in
    let events = query (stats_filter (get "service") from to (pos 1_000_000)) s in
    reply 200 (record {
      total_events = count (stats_filter (get "service") from to (pos 0)) s;
      by_action = count_by (λ e. e.action) events [];
      by_service = count_by (λ e. e.service_name) events [];
      by_status = count_by (λ e. e.status) events [];
    })
