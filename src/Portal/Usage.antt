-- ===== src/Portal/Usage.antt =====
-- services/garudaportal/store/usage.go: how often an app is called. The days of the code are texts
-- YYYY-MM-DD, which are arguments here: the day of the call in `increment`, and the first and last
-- day of a range. Counts are far from 2^63. `GetUsageRange` is not modelled.
use Prim.Native.String.{compare}
use text.Mathlib.Text.{is_lt}
use gpass.Prelude.{
  Dict, lookup, insert, values, ℕ, suc, ◌+◌, String, Bool, not, ◌&&◌, ◌||◌, none, some, List, [],
  ◌∷◌, ◌==◌, if◌then◌else◌,
}

pub record UsageKey : Type 0 where
  pub app_id : String
  pub date : String
  pub endpoint : String

pub record UsageRecord : Type 0 where
  pub calls : ℕ
  pub errors : ℕ

abbrev pub UsageStore : Type 0
UsageStore = List (UsageKey × UsageRecord)

abbrev pub same_key : UsageKey → UsageKey → Bool
same_key j k = (j.app_id == k.app_id && j.date == k.date) && j.endpoint == k.endpoint

abbrev pub counted_call : Bool → UsageRecord → UsageRecord
counted_call is_error r = record {
  calls = suc r.calls;
  errors = if is_error then suc r.errors else r.errors;
}

-- `Increment` under the key of the call: a new record, or one more call of the one that is there
unfoldable pub increment : UsageKey → Bool → UsageStore → UsageStore
increment k is_error [] = (k, counted_call is_error (record { calls = 0; errors = 0 })) ∷ []
increment k is_error ((j, r) ∷ s) =
    if same_key j k then (j, counted_call is_error r) ∷ s else (j, r) ∷ increment k is_error s

unfoldable pub get_daily_usage : String → String → UsageStore → ℕ
get_daily_usage app_id date [] = 0
get_daily_usage app_id date ((k, r) ∷ s) =
    let rest = get_daily_usage app_id date s in
    if k.app_id == app_id && k.date == date then r.calls + rest else rest

pub record EndpointUsage : Type 0 where
  pub endpoint : String
  pub calls : ℕ
  pub errors : ℕ

abbrev pub in_range : String → String → String → Bool
in_range from to date = not (is_lt (compare date from)) && not (is_lt (compare to date))

abbrev pub grown : EndpointUsage → UsageRecord → EndpointUsage
grown eu r = record eu { calls = eu.calls + r.calls; errors = eu.errors + r.errors }

-- the loop of `GetUsageByEndpoint`, with the totals so far
unfoldable pub endpoint_loop :
    String → String → String → UsageStore → Dict EndpointUsage → Dict EndpointUsage
endpoint_loop app_id from to [] totals = totals
endpoint_loop app_id from to ((k, r) ∷ s) totals =
    if not (k.app_id == app_id) || not (in_range from to k.date)
    then endpoint_loop app_id from to s totals
    else elim (lookup k.endpoint totals) [
      | none ↦ endpoint_loop app_id from to s (
          insert k.endpoint (grown (record { endpoint = k.endpoint; calls = 0; errors = 0 }) r)
            totals)
      | some eu ↦ endpoint_loop app_id from to s (insert k.endpoint (grown eu r) totals)
    ]

unfoldable pub get_usage_by_endpoint : String → String → String → UsageStore → List EndpointUsage
unfolding endpoint_loop
get_usage_by_endpoint app_id from to s = values (endpoint_loop app_id from to s [])
