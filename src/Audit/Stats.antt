-- ===== src/Audit/Stats.antt =====
-- The numbers of services/garudaaudit/handler/stats.go, and of a page of handler/audit.go.
use gpass.Prelude.{
  eq_of_test, length, take, drop, select, length-take-le, Dict, lookup, insert, lookup-insert, ℤ,
  pos, negsuc, pos_part, ℕ, suc, ◌+◌, ◌≤◌, String, ◌≡◌, refl, ap, ◌∙◌, inl, inr, List, [], ◌∷◌,
  arith, ◌==◌, if◌then◌else◌, Bool-cases, reply,
}
use gpass.Audit.Validate.{AuditEvent}
use gpass.Audit.Serve.{
  counted, count_by, Parsers, time_of, filter_of, QueryResponse, query_events, StatsResponse,
  stats_filter, get_stats,
}
use gpass.Audit.Query.{matches_filter, page_limit, query}
use gpass.Audit.Pages.{selected, query_lem, count_lem}
use gpass.Audit.Events.{AuditStore}

-- the events whose key is `k`
abbrev pub having : (AuditEvent → String) → String → List AuditEvent → List AuditEvent
having key k es = select (λ e. key e == k) es

counted-insert :
    (a k : String) (n : ℕ) (m : Dict ℕ)
    → counted k (insert a n m) ≡ (if a == k then n else counted k m)
unfolding counted
counted-insert a k n m = ground (arith, lookup-insert a k n m, Bool-cases (a == k))

count_by_lem :
    (key : AuditEvent → String) (k : String) (es : List AuditEvent) (m : Dict ℕ)
    → counted k (count_by key es m) ≡ counted k m + length (having key k es)
unfolding count_by select
count_by_lem key k [] m = omega arith
count_by_lem key k (e ∷ es) m =
    rw
      (
        count_by_lem key k es (insert (key e) (suc (counted (key e) m)) m),
        counted-insert (key e) k (suc (counted (key e) m)) m,
      )
      (elim (Bool-cases (key e == k)) [
        | inr d ↦ rw d refl
        | inl d ↦ rw d (rw (eq_of_test (key e) k d) (omega arith))
      ])

page_limit_range : (i : ℤ) → (1 ≤ page_limit i) × (page_limit i ≤ 1000)
unfolding page_limit
page_limit_range (pos n) = ground arith
page_limit_range (negsuc n) = ground arith

-- The page handler answers with the matching events after the first `offset` ones, in the order of
-- the log, at most `limit` of them, a limit between 1 and 1000; and its total is the number of all
-- matching events.
pub query_events_lem :
    (ps : Parsers) (get : String → String) (s : AuditStore)
    → (r : QueryResponse) × (query_events ps get s ≡ reply 200 r)
      × (r.events ≡ take r.limit (drop (pos_part r.offset) (selected (filter_of ps get) s.events)))
      × (length r.events ≤ r.limit)
      × (1 ≤ r.limit)
      × (r.limit ≤ 1000)
      × (r.total ≡ length (selected (filter_of ps get) s.events))
unfolding query_events
query_events_lem ps get s =
    let f = filter_of ps get in
    let (low, high) = page_limit_range f.limit in
    (
      _,
      refl,
      query_lem f s,
      rw (query_lem f s) (length-take-le (page_limit f.limit) _),
      low,
      high,
      count_lem f s,
    )

-- the events that the statistics are about
abbrev pub concerned : Parsers → (String → String) → AuditStore → List AuditEvent
concerned ps get s =
    selected
      (stats_filter (get "service") (time_of ps (get "from")) (time_of ps (get "to")) (pos 0))
      s.events

count_by_none :
    (key : AuditEvent → String) (k : String) (es : List AuditEvent)
    → counted k (count_by key es []) ≡ length (having key k es)
unfolding counted lookup
count_by_none key k es = rw (count_by_lem key k es []) (omega arith)

first_thousand :
    (key : AuditEvent → String) (k service : String) (from to : ℕ) (s : AuditStore)
    → counted k (count_by key (query (stats_filter service from to (pos 1_000_000)) s) [])
      ≡ length (having key k (take 1000 (selected (stats_filter service from to (pos 0)) s.events)))
unfolding page_limit matches_filter counted lookup
first_thousand key k service from to s =
    count_by_none key k (query (stats_filter service from to (pos 1_000_000)) s)
    ∙ ap (λ l. length (having key k l)) (query_lem (stats_filter service from to (pos 1_000_000)) s)

-- The statistics count every event that they concern in the total, and only the oldest thousand of
-- them by action, by service and by status.
pub get_stats_lem :
    (ps : Parsers) (get : String → String) (s : AuditStore)
    → (r : StatsResponse) × (get_stats ps get s ≡ reply 200 r)
      × (r.total_events ≡ length (concerned ps get s))
      × ((k : String)
          → (counted k r.by_action
              ≡ length (having (λ e. e.action) k (take 1000 (concerned ps get s))))
            × (counted k r.by_service
                ≡ length (having (λ e. e.service_name) k (take 1000 (concerned ps get s))))
            × (counted k r.by_status
                ≡ length (having (λ e. e.status) k (take 1000 (concerned ps get s)))))
unfolding get_stats
get_stats_lem ps get s =
    let from = time_of ps (get "from") in
    let to = time_of ps (get "to") in
    (
      _,
      refl,
      count_lem (stats_filter (get "service") from to (pos 0)) s,
      λ k. (
        first_thousand (λ e. e.action) k (get "service") from to s,
        first_thousand (λ e. e.service_name) k (get "service") from to s,
        first_thousand (λ e. e.status) k (get "service") from to s,
      ),
    )
