-- ===== src/Audit/Pages.antt =====
-- What `Query` and `Count` of services/garudaaudit/store/event.go return, without their loops.
use gpass.Prelude.{
  length, take, drop, select, length-append, ℤ, pos, negsuc, pos_part, ltb_ℤ, ℕ, zero, suc, ◌+◌,
  ◌≡◌, refl, sym, ◌∙◌, inl, inr, true, false, List, [], ◌∷◌, ◌++◌, arith, leb, if◌then◌else◌,
  Bool-cases,
}
use gpass.Audit.Validate.{AuditEvent}
use gpass.Audit.Events.{AuditStore}
use gpass.Audit.Query.{
  AuditFilter, matches_filter, page_limit, query_loop, query, count_loop, count,
}

-- the events that match the filter, oldest first
abbrev pub selected : AuditFilter → List AuditEvent → List AuditEvent
selected f es = select (λ e. matches_filter e f) es

abbrev nothing : List AuditEvent
nothing = []

append_nil : (xs : List AuditEvent) → xs ++ [] ≡ xs
append_nil [] = refl
append_nil (x ∷ xs) = rw (append_nil xs) refl

append_one :
    (xs : List AuditEvent) (x : AuditEvent) (ys : List AuditEvent)
    → (xs ++ (x ∷ [])) ++ ys ≡ xs ++ (x ∷ ys)
append_one [] x ys = refl
append_one (a ∷ xs) x ys = rw (append_one xs x ys) refl

take-nothing : (n : ℕ) → take n nothing ≡ nothing
take-nothing zero = refl
take-nothing (suc n) = refl

drop-nothing : (n : ℕ) → drop n nothing ≡ nothing
drop-nothing zero = refl
drop-nothing (suc n) = refl

reaches : (i : ℤ) (skipped : ℕ) → pos_part i ≡ skipped → ltb_ℤ (pos skipped) i ≡ false
reaches (pos n) skipped h = ground arith
reaches (negsuc n) skipped h = ground arith

falls_short :
    (i : ℤ) (skipped ahead : ℕ) → pos_part i ≡ skipped + suc ahead → ltb_ℤ (pos skipped) i ≡ true
falls_short (pos n) skipped ahead h = ground arith
falls_short (negsuc n) skipped ahead h = absurd (ground arith)

-- The loop with room for `room` more events, and `ahead` more to skip.
query_loop_lem :
    (f : AuditFilter) (limit skipped : ℕ) (matched es : List AuditEvent) (room ahead : ℕ)
    → limit ≡ length matched + room
    → pos_part f.offset ≡ skipped + ahead
    → query_loop f limit skipped matched es ≡ matched ++ take room (drop ahead (selected f es))
unfolding query_loop select
query_loop_lem f limit skipped matched [] room ahead l o =
    rw (drop-nothing ahead, take-nothing room) (sym (append_nil matched))
query_loop_lem f limit skipped matched (e ∷ es) room (suc ahead) l o =
    elim (Bool-cases (matches_filter e f)) [
      | inr m ↦ rw (m, query_loop) (query_loop_lem f limit skipped matched es room (suc ahead) l o)
      | inl m ↦
          rw (m, falls_short f.offset skipped ahead o, query_loop)
            (query_loop_lem f limit (suc skipped) matched es room ahead l (omega arith))
    ]
query_loop_lem f limit skipped matched (e ∷ es) zero zero l o =
    elim (Bool-cases (matches_filter e f)) [
      | inr m ↦ rw (m, query_loop) (query_loop_lem f limit skipped matched es zero zero l o)
      | inl m ↦
          let full : leb limit (length matched) ≡ true = ground arith in
          rw (m, reaches f.offset skipped (omega arith), full, query_loop)
            (sym (append_nil matched))
    ]
query_loop_lem f limit skipped matched (e ∷ es) (suc room) zero l o =
    elim (Bool-cases (matches_filter e f)) [
      | inr m ↦ rw (m, query_loop) (query_loop_lem f limit skipped matched es (suc room) zero l o)
      | inl m ↦
          let open_page : leb limit (length matched) ≡ false = ground arith in
          rw (m, reaches f.offset skipped (omega arith), open_page, query_loop)
            (query_loop_lem f limit skipped (matched ++ (e ∷ [])) es room zero
                (omega (arith, length-append matched (e ∷ []))) o
              ∙ append_one matched e (take room (selected f es)))
    ]

count_loop_lem :
    (f : AuditFilter) (n : ℕ) (es : List AuditEvent)
    → count_loop f n es ≡ n + length (selected f es)
unfolding count_loop select
count_loop_lem f n [] = omega arith
count_loop_lem f n (e ∷ es) =
    rw (count_loop_lem f (if matches_filter e f then suc n else n) es)
      (elim (Bool-cases (matches_filter e f)) [ inl m ↦ rw m (omega arith) | inr m ↦ rw m refl ])

-- `Query` returns the matching events in the order of the log, without the first `offset` of them
-- (a negative offset is none), and at most the page's limit.
pub query_lem :
    (f : AuditFilter) (s : AuditStore)
    → query f s ≡ take (page_limit f.limit) (drop (pos_part f.offset) (selected f s.events))
unfolding query
query_lem f s =
    query_loop_lem f (page_limit f.limit) 0 [] s.events (page_limit f.limit) (pos_part f.offset)
      (omega arith) (omega arith)

-- `Count` is the number of all matching events, whatever the limit and the offset.
pub count_lem : (f : AuditFilter) (s : AuditStore) → count f s ≡ length (selected f s.events)
unfolding count
count_lem f s = count_loop_lem f 0 s.events ∙ omega arith
