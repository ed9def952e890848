-- ===== src/News/Waits.antt =====
-- Every call keeps the public's wait (apps/api/internal/news/news.go).
use stockastic.News.Timers.{
  Keeps, schedule_public-KeepsLead, wake-KeepsLead, stop-KeepsLead, reset-KeepsLead,
}
use mathlib.Core.Path.{subst}
use stockastic.Prelude.Str.{Str, str_eq, str_eq_iff}
use stockastic.Prelude.Dict.{lookup, some_eq, lookup-insert_self, str_key, insert, lookup-insert}
use stockastic.Prelude.{
  Bool, List, ℕ, All, if-cases, get_elem?, ◌≡◌, [], ◌∷◌, some, arith, if◌then◌else◌, All-append,
  length, refl, sym, ◌∙◌, true, get_elem?-last, ap, ◌++◌, ◌<◌, ◌≢◌, Bool-cases, inl, length-append,
  inr, get_elem?-append, update-last,
}
use stockastic.Prelude.Int.{ℤ, ◌+ℤ◌, ◌≤ℤ◌, int_laws}
use stockastic.News.{
  new, Dispatcher, Release, Timer, Item, publish, schedule_public, enter, deliver, tiered,
  unreleased, fund_manager_feed, stamped, public_feed, subscribe,
}
use stockastic.News.Lead.{LeadKept, DueBy, InTime, KeepsLead}
use stockastic.News.Runs.{
  Call, publish_item, wake_timer, subscribe_to, stop_all, reset_all, step, run, AllStaggered,
  IsStaggered, IsNew, Call,
}

entered_in_bounds :
    (d : Dispatcher) (r : Release) (id : Str) (i : ℕ)
    → ((k : Str) (j : ℕ) → lookup k d.by_id ≡ some j → j < length d.releases)
    → lookup id (insert r.item.id (length d.releases) d.by_id) ≡ some i
    → i < length (d.releases ++ r ∷ [])
entered_in_bounds d r id i bounds found = elim (Bool-cases (str_eq r.item.id id)) [
  | inl same ↦
      let last =
        some_eq (length d.releases) i
          (rw (lookup-insert r.item.id id (length d.releases) d.by_id, same) at found) in
      omega (arith, last, length-append d.releases (r ∷ []))
  | inr other ↦ omega (
    arith,
    length-append d.releases (r ∷ []),
    bounds id i (rw (lookup-insert r.item.id id (length d.releases) d.by_id, other) at found),
  )
]

-- A new release changes nothing for the items that were there.
DueBy-enter :
    (d : Dispatcher) (r : Release) (id : Str) (z : ℤ)
    → ((k : Str) (j : ℕ) → lookup k d.by_id ≡ some j → j < length d.releases)
    → id ≢ r.item.id
    → DueBy d id z
    → DueBy (enter d r) id z
DueBy-enter d r id z bounds other due i x found e = elim (Bool-cases (str_eq r.item.id id)) [
  | inl same ↦ absurd (other (sym ((str_eq_iff r.item.id id).0 same)))
  | inr differs ↦
      let found' = rw (lookup-insert r.item.id id (length d.releases) d.by_id, differs) at found in
      due i x found' (sym (get_elem?-append d.releases (r ∷ []) i (bounds id i found')) ∙ e)
]

entered-InTime :
    (d : Dispatcher) (r : Release) (ts : List Timer)
    → KeepsLead d
    → All (InTime d) ts
    → All (λ (t : Timer). t.item.id ≢ r.item.id) ts
    → All (InTime (enter d r)) ts
entered-InTime d r [] h intime apart = tt
entered-InTime d r (t ∷ ts) h intime apart = (
  (
    DueBy-enter d r t.item.id (t.set_at +ℤ t.left) h.in_bounds apart.0 intime.0.0,
    intime.0.1,
    intime.0.2,
  ),
  entered-InTime d r ts h intime.1 apart.1,
)

enter-KeepsLead :
    (d : Dispatcher) (r : Release)
    → KeepsLead d
    → IsNew d r.item.id
    → LeadKept d.lead r
    → KeepsLead (enter d r)
enter-KeepsLead d r h (unseen, apart) ok = record {
  kept = All-append (LeadKept d.lead) d.releases (r ∷ []) h.kept (ok, tt);
  in_bounds = λ id i found. entered_in_bounds d r id i h.in_bounds found;
  in_time = entered-InTime d r d.timers h h.in_time apart;
}

entered_due :
    (d : Dispatcher) (r : Release) (a z : ℤ)
    → r.fund_manager_at ≡ some a
    → a +ℤ d.lead ≤ℤ z
    → DueBy (enter d r) r.item.id z
entered_due d r a z at late i x found e =
    let last =
      some_eq (length d.releases) i
        (sym (lookup-insert_self r.item.id (length d.releases) d.by_id) ∙ found) in
    let same : r ≡ x =
      some_eq r x
        (sym (get_elem?-last d.releases r) ∙ ap (get_elem? (d.releases ++ r ∷ [])) last ∙ e) in
    (a, ap (λ (o : Release). o.fund_manager_at) (sym same) ∙ at, late)

pub first_delivery :
    (d : Dispatcher) (item : Item) (now : ℤ)
    → (deliver (enter d (unreleased item)) fund_manager_feed item now).0
      ≡ enter d (stamped fund_manager_feed now (unreleased item))
unfolding deliver
first_delivery d item now =
    rw
      (
        lookup-insert_self item.id (length d.releases) d.by_id,
        get_elem?-last d.releases (unreleased item),
        update-last d.releases (unreleased item) (stamped fund_manager_feed now),
        deliver,
      )
      refl

publish-KeepsLead :
    (d : Dispatcher) (item : Item) (phase2 paused : Bool) (now : ℤ)
    → KeepsLead d
    → IsNew d item.id
    → tiered item.kind phase2 ≡ true
    → Keeps (publish d item phase2 paused now)
unfolding publish
publish-KeepsLead d item phase2 paused now h unused phase =
    let first = stamped fund_manager_feed now (unreleased item) in
    subst
      (λ d'. Keeps (
        if tiered item.kind phase2
        then schedule_public d' item d'.lead paused now
        else deliver d' public_feed item now))
      (sym (first_delivery d item now))
      (if-cases Keeps (tiered item.kind phase2) _ _
        (λ _.
          schedule_public-KeepsLead (enter d first) item d.lead paused now
            (enter-KeepsLead d first h unused (λ p is. cc))
            (entered_due d first now (now +ℤ d.lead) refl (omega int_laws)))
        (λ off. cc))

step-KeepsLead :
    (d : Dispatcher) (c : Call) (now : ℤ) → KeepsLead d → IsStaggered d c → Keeps (step d c now)
unfolding step subscribe
step-KeepsLead d (publish_item item phase2 paused) now h (unused, phase) =
    publish-KeepsLead d item phase2 paused now h unused phase
step-KeepsLead d (wake_timer i paused) now h _ = wake-KeepsLead d i paused now h
step-KeepsLead d (subscribe_to s) now h _ = record {
  kept = h.kept;
  in_bounds = h.in_bounds;
  in_time = h.in_time;
}
step-KeepsLead d (stop_all begun) now h _ = stop-KeepsLead d begun h
step-KeepsLead d (reset_all begun) now h _ = reset-KeepsLead d begun h

run-KeepsLead :
    (cs : List (Call × ℤ)) (d : Dispatcher) → KeepsLead d → AllStaggered d cs → Keeps (run d cs)
unfolding run
run-KeepsLead [] d h _ = h
run-KeepsLead ((c, now) ∷ cs) d h (good, rest) =
    run-KeepsLead cs (step d c now).0 (step-KeepsLead d c now h good) rest

-- In phase 2, whatever is published, paused, stopped, reset and woken, in whatever order: an item
-- reaches the public, if at all, at least the lead time after it reached fund managers. Every item
-- is news, with an id that neither a release nor a timer had.
pub run-LeadKept :
    (lead : ℤ) (watches : Bool) (cs : List (Call × ℤ))
    → AllStaggered (new lead watches) cs
    → let d = (run (new lead watches) cs).0 in All (LeadKept d.lead) d.releases
unfolding new lookup
run-LeadKept lead watches cs good =
    (run-KeepsLead cs (new lead watches)
      (record { kept = tt; in_bounds = λ id i found. cc; in_time = tt }) good).kept
