-- ===== src/Audit/Query.antt =====
-- services/garudaaudit/store/event.go: filters, `Query` and `Count`.
use gpass.Prelude.{
  length, ℤ, pos, negsuc, ltb_ℤ, ℕ, suc, String, Bool, true, false, not, ◌&&◌, List, [], ◌∷◌, ◌++◌,
  ◌==◌, ltb, leb, eqb, if◌then◌else◌,
}
use gpass.Audit.Validate.{AuditEvent}
use gpass.Audit.Events.{AuditStore}

-- A zero time is no bound.
pub record AuditFilter : Type 0 where
  pub actor_id : String
  pub resource_id : String
  pub resource_type : String
  pub event_type : String
  pub action : String
  pub service_name : String
  pub status : String
  pub from : ℕ
  pub to : ℕ
  pub limit : ℤ
  pub offset : ℤ

-- `f.X != "" && e.X != f.X`
abbrev pub differs : String → String → Bool
differs wanted held = not (wanted == "") && not (held == wanted)

unfoldable pub matches_filter : AuditEvent → AuditFilter → Bool
matches_filter e f =
    if differs f.actor_id e.actor_id
    then false
    else if differs f.resource_id e.resource_id
    then false
    else if differs f.resource_type e.resource_type
    then false
    else if differs f.event_type e.event_type
    then false
    else if differs f.action e.action
    then false
    else if differs f.service_name e.service_name
    then false
    else if differs f.status e.status
    then false
    else if not (eqb f.from 0) && ltb e.created_at f.from
    then false
    else if not (eqb f.to 0) && ltb f.to e.created_at
    then false
    else true

-- 100 by default, and at most 1000
unfoldable pub page_limit : ℤ → ℕ
page_limit (negsuc n) = 100
page_limit (pos n) = if eqb n 0 then 100 else if ltb 1000 n then 1000 else n

-- the loop of `Query`, with its counter of skipped events and the matches so far
unfoldable pub query_loop :
    AuditFilter → ℕ → ℕ → List AuditEvent → List AuditEvent → List AuditEvent
query_loop f limit skipped matched [] = matched
query_loop f limit skipped matched (e ∷ es) = elim (matches_filter e f) [
  | false ↦ query_loop f limit skipped matched es
  | true ↦ elim (ltb_ℤ (pos skipped) f.offset) [
    | true ↦ query_loop f limit (suc skipped) matched es
    | false ↦ elim (leb limit (length matched)) [
      | true ↦ matched
      | false ↦ query_loop f limit skipped (matched ++ (e ∷ [])) es
    ]
  ]
]

unfoldable pub query : AuditFilter → AuditStore → List AuditEvent
unfolding page_limit query_loop
query f s = query_loop f (page_limit f.limit) 0 [] s.events

-- the loop of `Count`
unfoldable pub count_loop : AuditFilter → ℕ → List AuditEvent → ℕ
count_loop f count [] = count
count_loop f count (e ∷ es) = count_loop f (if matches_filter e f then suc count else count) es

unfoldable pub count : AuditFilter → AuditStore → ℕ
unfolding count_loop
count f s = count_loop f 0 s.events
