-- ===== src/News/Timers.antt =====
-- Timers, stopping and resetting keep the public's wait (apps/api/internal/news/news.go).
use mathlib.Core.Path.{subst}
use stockastic.Prelude.Str.{Str}
use stockastic.Prelude.Dict.{lookup, found-cases, Dict, str_key}
use stockastic.Prelude.{
  Bool, List, ℕ, All, All-weaken, if-cases, get_elem?, not, [], ◌∷◌, suc, ◌&&◌, arith, zero,
  if◌then◌else◌, refl, true, false, All-get_elem?,
}
use stockastic.Prelude.Int.{ℤ, ◌+ℤ◌, ◌≤ℤ◌, leb_ℤ, pos, ltb_ℤ, ◌-ℤ◌, int_laws}
use stockastic.News.{
  Dispatcher, Timer, Item, wake, run_timer, schedule_public, stop, reset, Told, not_stopped,
  without_at, pending, is_among,
}
use stockastic.News.Lead.{
  DueBy, InTime, KeepsLead, deliver-KeepsLead, finish-KeepsLead, wait_on-KeepsLead,
  set_timer-KeepsLead, later, no_later,
}

abbrev pub Keeps : Told → Type 0
Keeps o = KeepsLead o.0

pub schedule_public-KeepsLead :
    (d : Dispatcher) (item : Item) (after : ℤ) (paused : Bool) (now : ℤ)
    → KeepsLead d
    → DueBy d item.id (now +ℤ after)
    → Keeps (schedule_public d item after paused now)
unfolding schedule_public
schedule_public-KeepsLead d item after paused now h due =
    if-cases Keeps (leb_ℤ after (pos 0) && not (d.watches && paused)) _ _
      (λ over.
        deliver-KeepsLead d item now h
          (later d item.id (now +ℤ after) now due (no_later after (d.watches && paused) now over)))
      (λ waits.
        if-cases Keeps (not d.watches) _ _
          (λ plain. set_timer-KeepsLead d item after after now h due (ground arith) (λ _. refl))
          (λ watches.
            wait_on-KeepsLead d item after (d.watches && paused) now h due (ground arith)))

pub still_due :
    (set_at left wait now : ℤ) (paused : Bool)
    → pos 0 ≤ℤ wait
    → set_at +ℤ wait ≤ℤ now
    → set_at +ℤ left ≤ℤ now +ℤ (if paused then left else left -ℤ wait)
still_due set_at left wait now true nonneg over = omega int_laws
still_due set_at left wait now false nonneg over = omega int_laws

pub run_timer-KeepsLead :
    (d : Dispatcher) (t : Timer) (paused : Bool) (now : ℤ)
    → KeepsLead d
    → InTime d t
    → t.set_at +ℤ t.wait ≤ℤ now
    → Keeps (run_timer d t paused now)
unfolding run_timer
run_timer-KeepsLead d t paused now h (due, nonneg, plain) over =
    if-cases Keeps (not d.watches) _ _
      (λ off. finish-KeepsLead d t.item now h (
        later d t.item.id _ now due
          (subst (λ w. t.set_at +ℤ w ≤ℤ now) (plain (ground arith)) over)))
      (λ watches.
        if-cases Keeps (not (pending d t.item.id)) _ _ (λ _. h)
          (λ _.
            wait_on-KeepsLead d t.item _ paused now h
              (later d t.item.id _ _ due (still_due t.set_at t.left t.wait now paused nonneg over))
              (ground arith)))

pub All-without_at :
    (P : Timer → Type 0) (ts : List Timer) (i : ℕ) → All P ts → All P (without_at ts i)
All-without_at P [] i h = h
All-without_at P (t ∷ ts) zero h = h.1
All-without_at P (t ∷ ts) (suc i) h = (h.0, All-without_at P ts i h.1)

pub wake-KeepsLead :
    (d : Dispatcher) (i : ℕ) (paused : Bool) (now : ℤ) → KeepsLead d → Keeps (wake d i paused now)
unfolding wake
wake-KeepsLead d i paused now h =
    found-cases Keeps (get_elem? d.timers i) (d, []) _ (λ _. h)
      (λ t e.
        if-cases Keeps (ltb_ℤ now (t.set_at +ℤ t.wait)) (d, []) _ (λ _. h)
          (λ over.
            run_timer-KeepsLead (record d { timers = without_at d.timers i }) t paused now
              (record {
                kept = h.kept;
                in_bounds = h.in_bounds;
                in_time = All-without_at (InTime d) d.timers i h.in_time;
              })
              (All-get_elem? (InTime d) d.timers i t h.in_time e) (ground arith)))

pub All-not_stopped :
    (P : Timer → Type 0) (cancels : Dict Str ℕ) (begun : ℕ → Bool) (ts : List Timer)
    → All P ts
    → All P (not_stopped cancels begun ts)
unfolding not_stopped
All-not_stopped P cancels begun [] h = h
All-not_stopped P cancels begun (t ∷ ts) h =
    if-cases (All P) (is_among t.number cancels && not (begun t.number)) _ _
      (λ _. All-not_stopped P cancels begun ts h.1)
      (λ _. (h.0, All-not_stopped P cancels begun ts h.1))

pub stop-KeepsLead : (d : Dispatcher) (begun : ℕ → Bool) → KeepsLead d → KeepsLead (stop d begun)
unfolding stop
stop-KeepsLead d begun h = record {
  kept = h.kept;
  in_bounds = h.in_bounds;
  in_time = All-not_stopped (InTime d) d.cancels begun d.timers h.in_time;
}

pub reset-KeepsLead : (d : Dispatcher) (begun : ℕ → Bool) → KeepsLead d → KeepsLead (reset d begun)
unfolding reset stop lookup
reset-KeepsLead d begun h = record {
  kept = tt;
  in_bounds = λ id i found. cc;
  in_time =
      All-weaken (InTime (stop d begun)) (InTime (reset d begun)) (stop d begun).timers
        (λ t k. (λ i r found e. cc, k.1, k.2)) (stop-KeepsLead d begun h).in_time;
}
