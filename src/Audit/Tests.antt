-- ===== src/Audit/Tests.antt =====
-- Runs of the audit log of services/garudaaudit, and its theorems at concrete inputs.
use gpass.Prelude.{
  one_of, contains_any, length, take, drop, select, lookup, insert, pos, pos_part, ◌≤◌, String, ◌≡◌,
  refl, ◌||◌, none, some, [], ◌∷◌, ◌==◌, if◌then◌else◌, reply, fault,
}
use gpass.Audit.Validate.{
  AuditEvent, text_bounded, text_required, check_entry, check_metadata, validate_event,
}
use gpass.Audit.Events.{AuditStore, recorded, append, get_event_by_id}
use gpass.Audit.Query.{matches_filter, page_limit, query_loop, query, count_loop, count}
use gpass.Audit.Serve.{
  Parsers, ingest_event, filter_of, QueryResponse, query_events, get_event, counted, count_by,
  get_stats,
}
use gpass.Audit.Pages.{selected}
use gpass.Audit.Append.{logged, begin, ingest, IsExtension, AuditRun-IsExtension, get_event-ingest}
use gpass.Audit.Stats.{query_events_lem}

program : Unit {0}
unfolding validate_event text_required text_bounded check_metadata check_entry append
    get_event_by_id matches_filter page_limit query_loop query count_loop count ingest_event
    query_events get_event counted count_by get_stats lookup insert select contains_any one_of
program = tt

abbrev login : AuditEvent
login = record {
  id = "";
  event_type = "auth";
  actor_id = "ani";
  actor_type = "";
  resource_id = "";
  resource_type = "";
  action = "LOGIN";
  metadata = ("device", "phone") ∷ [];
  ip_address = "10.0.0.1";
  user_agent = "";
  service_name = "identity";
  request_id = "";
  status = "";
  created_at = 0;
}

abbrev denied : AuditEvent
denied = record login { actor_id = "budi"; status = "DENIED" }

abbrev parsers : Parsers
parsers = record {
  parse_time = λ text. none;
  atoi = λ text. if text == "1" then some (pos 1) else none;
  error_text = λ why. "invalid";
}

abbrev empty_log : AuditStore
empty_log = record { events = []; by_id = [] }

abbrev one_event : AuditStore
one_event = logged 5 "e1" login empty_log

abbrev two_events : AuditStore
two_events = logged 6 "e2" denied one_event

ingest_runs :
    (ingest_event parsers 5 "e1" (some login) empty_log
      ≡ (one_event, reply 201 (recorded 5 "e1" login)))
    × (ingest_event parsers 6 "e2" (some denied) one_event
        ≡ (two_events, reply 201 (recorded 6 "e2" denied)))
    × (ingest_event parsers 7 "e3" (some (record login { status = "MAYBE" })) one_event
        ≡ (one_event, fault 400 "validation_error" "invalid"))
unfolding program
ingest_runs = (refl, refl, refl)

-- The second page of a page size of one, and the statistics.
read_runs :
    (query_events parsers
        (λ name. if name == "limit" || name == "offset" then "1" else "")
        two_events
      ≡ reply 200
          (record { events = recorded 6 "e2" denied ∷ []; total = 2; limit = 1; offset = pos 1 }))
    × (get_event "e1" two_events ≡ reply 200 (recorded 5 "e1" login))
    × (get_event "e9" two_events ≡ fault 404 "not_found" "audit event not found")
    × (get_stats parsers (λ name. "") two_events
        ≡ reply 200 (record {
          total_events = 2;
          by_action = ("LOGIN", 2) ∷ [];
          by_service = ("identity", 2) ∷ [];
          by_status = ("SUCCESS", 1) ∷ ("DENIED", 1) ∷ [];
        }))
unfolding program
read_runs = (refl, refl, refl, refl)

AuditRun-IsExtension_example : IsExtension one_event two_events
unfolding program
AuditRun-IsExtension_example =
    AuditRun-IsExtension {s = one_event} {t = two_events}
      (ingest parsers 6 "e2" (some denied) begin refl)

get_event-ingest_example :
    ((recorded 5 "e1" login).id ≡ "e1")
    × (get_event "e1" two_events ≡ reply 200 (recorded 5 "e1" login))
unfolding program
get_event-ingest_example =
    get_event-ingest parsers 5 "e1" (some login) empty_log (recorded 5 "e1" login) two_events refl
      refl (ingest parsers 6 "e2" (some denied) begin refl)

abbrev second_page : String → String
second_page name = if name == "limit" || name == "offset" then "1" else ""

query_events_lem_example :
    (r : QueryResponse) × (query_events parsers second_page two_events ≡ reply 200 r)
    × (r.events
        ≡ take r.limit
            (drop (pos_part r.offset) (selected (filter_of parsers second_page) two_events.events)))
    × (length r.events ≤ r.limit)
    × (1 ≤ r.limit)
    × (r.limit ≤ 1000)
    × (r.total ≡ length (selected (filter_of parsers second_page) two_events.events))
query_events_lem_example = query_events_lem parsers second_page two_events

abbrev everything : String → String
everything name = ""
