-- ===== src/News/Waking.antt =====
-- How long the public waits at most (apps/api/internal/news/news.go, `step` of `schedulePublic`).
use stockastic.News.Waits.{first_delivery}
use mathlib.Core.Path.{subst}
use stockastic.Prelude.Str.{Str}
use stockastic.Prelude.Int.{◌≤ℤ◌, ℤ, ◌+ℤ◌, int_laws, pos, ◌-ℤ◌, ltb_ℤ, leb_ℤ}
use stockastic.Prelude.Dict.{Dict, lookup, str_key, insert, lookup-insert_self}
use stockastic.Prelude.{
  Option, ℕ, get_elem?, ◌≡◌, ◌⊎◌, Bool, some, suc, false, true, [], inr, zero, ◌∷◌, ap, ◌∙◌, arith,
  none, refl, if-cases, get_elem?-update_self, ◌&&◌, ◌*◌, sym, length, if◌then◌else◌,
  get_elem?-last,
}
use stockastic.News.{
  Dispatcher, Release, Timer, Item, wake, wait_for, hold_step, public_feed, is_out, finish, deliver,
  run_timer, Told, wait_on, stamped, publish, news, schedule_public, fund_manager_feed, unreleased,
  tiered, enter,
}

abbrev woken : Dispatcher → Option Timer → Dispatcher
woken d none = d
woken d (some t) = (wake d 0 false (t.set_at +ℤ t.wait)).0

-- The first timer runs the moment that it is due, and the event is running, so many times.
unfoldable pub wake_when_due : ℕ → Dispatcher → Dispatcher
unfolding wake
wake_when_due zero d = d
wake_when_due (suc n) d = wake_when_due n (woken d (get_elem? d.timers 0))

abbrev pub IsOutAt : ℕ → Dispatcher → Type 0
IsOutAt i d = (r : Release) × (get_elem? d.releases i ≡ some r) × (is_out public_feed r ≡ true)

-- A dispatcher whose one timer is for the public's wait for an item.
abbrev waiting : Dispatcher → Dict Str ℕ → ℕ → Timer → Dispatcher
waiting d cancels next t = record d {
  watches = true;
  cancels = cancels;
  timers = t ∷ [];
  next = next;
}

asleep : (n : ℕ) (d : Dispatcher) → d.timers ≡ [] → wake_when_due n d ≡ d
unfolding wake_when_due
asleep zero d none_left = refl
asleep (suc n) d none_left =
    ap (λ ts. wake_when_due n (woken d (get_elem? ts 0))) none_left ∙ asleep n d none_left

-- A timer waits for all that is left, or for a step at least.
wait_for-Waits :
    (left : ℤ) (held : Bool) → (left ≤ℤ wait_for left held) ⊎ (hold_step ≤ℤ wait_for left held)
wait_for-Waits left true = inr (omega int_laws)
wait_for-Waits left false = ground arith

module _ (d : Dispatcher) (i : ℕ) (r : Release) (item : Item)
    (points : lookup item.id d.by_id ≡ some i) (there : get_elem? d.releases i ≡ some r) where
  finished-IsOutAt :
      (cancels : Dict Str ℕ) (next : ℕ) (now : ℤ)
      → let d' = record d { watches = true; cancels = cancels; timers = []; next = next } in
        IsOutAt i (finish d' item now).0 × ((finish d' item now).0.timers ≡ [])
  unfolding finish deliver
  finished-IsOutAt cancels next now =
      rw (points, there, deliver, finish)
        (if-cases (λ (o : Told). IsOutAt i o.0 × (o.0.timers ≡ [])) (is_out public_feed r) _ _
          (λ out. ((r, there, out), refl))
          (λ _. (
            (
              stamped public_feed now r,
              get_elem?-update_self d.releases i (stamped public_feed now) r there,
              refl,
            ),
            refl,
          )))

  abbrev timer_of : ℕ → ℤ → ℤ → ℤ → Timer
  timer_of number left wait set_at = record {
    number = number;
    item = item;
    left = left;
    wait = wait;
    set_at = set_at;
  }

  -- One look: the item is out, or the dispatcher waits again, for less.
  woken_waits :
      (P : Dispatcher → Type 0) (cancels : Dict Str ℕ) (next number m : ℕ) (left wait set_at : ℤ)
      → lookup item.id cancels ≡ some m
      → ((d' : Dispatcher) → IsOutAt i d' → d'.timers ≡ [] → P d')
      → (pos 1 ≤ℤ left -ℤ wait
          → P (
              waiting d
                (insert item.id next cancels)
                (suc next)
                (timer_of next (left -ℤ wait) (wait_for (left -ℤ wait) false) (set_at +ℤ wait))))
      → P (
          woken
            (waiting d cancels next (timer_of number left wait set_at))
            (some (timer_of number left wait set_at)))
  unfolding wake run_timer wait_on lookup
  woken_waits P cancels next number m left wait set_at pending out again =
      let Then : Told → Type 0 = λ o. P o.0 in
      if-cases Then (ltb_ℤ (set_at +ℤ wait) (set_at +ℤ wait)) _ _ (λ early. absurd (ground arith))
        (λ _. rw pending (
          if-cases Then (leb_ℤ (left -ℤ wait) (pos 0) && true) _ _
            (λ _.
              let (o, none_left) = finished-IsOutAt cancels next (set_at +ℤ wait) in
              out _ o none_left)
            (λ more. again (ground arith))))

  out_after :
      (n : ℕ) (cancels : Dict Str ℕ) (next number m : ℕ) (left wait set_at : ℤ)
      → lookup item.id cancels ≡ some m
      → (left ≤ℤ wait) ⊎ (hold_step ≤ℤ wait)
      → left ≤ℤ pos (suc n * 250_000_000)
      → IsOutAt i
          (wake_when_due (suc n) (waiting d cancels next (timer_of number left wait set_at)))
  unfolding wake_when_due
  out_after zero cancels next number m left wait set_at pending waits bound =
      woken_waits (IsOutAt i) cancels next number m left wait set_at pending (λ d' o none_left. o)
        (λ more. absurd (omega (int_laws, waits)))
  out_after (suc n) cancels next number m left wait set_at pending waits bound =
      woken_waits (λ d'. IsOutAt i (wake_when_due (suc n) d')) cancels next number m left wait
        set_at pending (λ d' o none_left. subst (IsOutAt i) (sym (asleep (suc n) d' none_left)) o)
        (λ more.
          out_after n (insert item.id next cancels) (suc next) next next (left -ℤ wait)
            (wait_for (left -ℤ wait) false) (set_at +ℤ wait)
            (lookup-insert_self item.id next cancels) (wait_for-Waits (left -ℤ wait) false)
            (omega (int_laws, waits)))

set_out :
    (d : Dispatcher) (item : Item) (n : ℕ) (now : ℤ)
    → item.kind ≡ news
    → pos 1 ≤ℤ d.lead
    → d.lead ≤ℤ pos (suc n * 250_000_000)
    → IsOutAt (length d.releases) (
        wake_when_due
          (suc n)
          (publish (record d { watches = true; timers = [] }) item true false now).0)
unfolding publish schedule_public wait_on
set_out d item n now kind some_lead bound =
    let d₀ : Dispatcher = record d { watches = true; timers = [] } in
    let first = stamped fund_manager_feed now (unreleased item) in
    let Out : Told → Type 0 = λ o. IsOutAt (length d.releases) (wake_when_due (suc n) o.0) in
    subst
      (λ d'. Out (
        if tiered item.kind true
        then schedule_public d' item d'.lead false now
        else deliver d' public_feed item now))
      (sym (first_delivery d₀ item now))
      (if-cases Out (tiered item.kind true) _ _
        (λ _.
          if-cases Out (leb_ℤ d.lead (pos 0) && true) _ _ (λ over. absurd (ground arith))
            (λ waits.
              if-cases Out (leb_ℤ d.lead (pos 0) && true) _ _ (λ over. absurd (ground arith))
                (λ _.
                  out_after (enter d₀ first) (length d.releases) first item
                    (lookup-insert_self item.id (length d.releases) d.by_id)
                    (get_elem?-last d.releases first) n (insert item.id d.next d.cancels)
                    (suc d.next) d.next d.next d.lead (wait_for d.lead false) now
                    (lookup-insert_self item.id d.next d.cancels) (wait_for-Waits d.lead false)
                    bound)))
        (λ off. absurd (ground arith)))

-- The public's wait ends: an item of phase 2 that is published while the event runs is out after as
-- many looks, each at the moment that its timer is due, as there are steps of 250 milliseconds in
-- the lead time, or fewer. No other timer is set, the event does not pause, and there is a lead time.
pub publish-IsOutAt :
    (d : Dispatcher) (item : Item) (n : ℕ) (now : ℤ)
    → item.kind ≡ news
    → d.watches ≡ true
    → d.timers ≡ []
    → pos 1 ≤ℤ d.lead
    → d.lead ≤ℤ pos (suc n * 250_000_000)
    → IsOutAt (length d.releases) (wake_when_due (suc n) (publish d item true false now).0)
publish-IsOutAt d item n now kind watches idle some_lead bound =
    let d₀ : Dispatcher = record d { watches = true; timers = [] } in
    let same : d₀ ≡ d =
      ap (λ w. record d { watches = w; timers = [] }) (sym watches)
      ∙ ap (λ ts. record d { timers = ts }) (sym idle) in
    subst
      (λ x. IsOutAt (length d.releases) (wake_when_due (suc n) (publish x item true false now).0))
      same (set_out d item n now kind some_lead bound)
