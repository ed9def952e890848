-- ===== src/News.antt =====
-- The two-tier news dispatcher (apps/api/internal/news/news.go). A `*Release` is its place in the list of
-- releases, a subscriber is a number, and a delivery is in the result. A zero time is `none`. The stage
-- and whether the event is paused are arguments of each call. A timer is known by a number and runs
-- its function once its wait is over.
pub mod Runs
pub mod Lead
pub mod Timers
pub mod Waits
pub mod Waking
use stockastic.Prelude.{
  ℕ, Bool, Option, List, update, length, get_elem?, map, [], ◌++◌, false, some, if◌then◌else◌, ◌&&◌,
  none, ◌∷◌, true, suc, not, zero, ◌==◌, ◌||◌,
}
use stockastic.Prelude.Int.{ℤ, pos, leb_ℤ, ltb_ℤ, max_ℤ, ◌+ℤ◌, ◌-ℤ◌}
use stockastic.Prelude.Str.{Str}
use stockastic.Prelude.Dict.{Dict, lookup, insert, erase, str_key}

pub data NewsKind : Type 0 where
  news regime : NewsKind

pub data Feed : Type 0 where
  fund_manager_feed public_feed : Feed

pub record Item : Type 0 where
  pub id : Str
  pub kind : NewsKind
  pub headline : Str
  pub body : Str
  pub created_at : ℤ

pub record Delivery : Type 0 where
  pub feed : Feed
  pub item : Item
  pub at : ℤ

pub record Release : Type 0 where
  pub item : Item
  pub fund_manager_at : Option ℤ
  pub public_at : Option ℤ

-- A call of the scheduler's `After`: what is left of the item's wait, and how long this timer waits from
-- when it was set.
pub record Timer : Type 0 where
  pub number : ℕ
  pub item : Item
  pub left : ℤ
  pub wait : ℤ
  pub set_at : ℤ

-- `watches`: whether `Held` is set.
pub record Dispatcher : Type 0 where
  pub lead : ℤ
  pub watches : Bool
  pub releases : List Release
  pub by_id : Dict Str ℕ
  pub subs : List ℕ
  pub cancels : Dict Str ℕ
  pub timers : List Timer
  pub next : ℕ

abbrev pub Told : Type 0
Told = Dispatcher × List (ℕ × Delivery)

unfoldable pub new : ℤ → Bool → Dispatcher
new lead watches = record {
  lead = lead;
  watches = watches;
  releases = [];
  by_id = [];
  subs = [];
  cancels = [];
  timers = [];
  next = 0;
}

unfoldable pub subscribe : Dispatcher → ℕ → Dispatcher
subscribe d s = record d { subs = d.subs ++ s ∷ [] }

-- 250 milliseconds, and the second between two looks at a paused event.
abbrev pub hold_step : ℤ
hold_step = pos 250_000_000

abbrev pub second : ℤ
second = pos 1_000_000_000

abbrev pub tiered : NewsKind → Bool → Bool
tiered news phase2 = phase2
tiered regime phase2 = false

abbrev pub stamp : Feed → Release → Option ℤ
stamp fund_manager_feed r = r.fund_manager_at
stamp public_feed r = r.public_at

abbrev pub stamped : Feed → ℤ → Release → Release
stamped fund_manager_feed at r = record r { fund_manager_at = some at }
stamped public_feed at r = record r { public_at = some at }

abbrev pub is_out : Feed → Release → Bool
is_out feed r = elim (stamp feed r) [ none ↦ false | some _ ↦ true ]

unfoldable pub deliver : Dispatcher → Feed → Item → ℤ → Told
deliver d feed item at = elim (lookup item.id d.by_id) [
  | none ↦ (d, [])
  | some i ↦ elim (get_elem? d.releases i) [
    | none ↦ (d, [])
    | some r ↦ if is_out feed r then (d, []) else (
      record d { releases = update d.releases i (stamped feed at) },
      map (λ s. (s, record { feed = feed; item = item; at = at })) d.subs,
    )
  ]
]

unfoldable pub finish : Dispatcher → Item → ℤ → Told
unfolding deliver
finish d item now = deliver (record d { cancels = erase item.id d.cancels }) public_feed item now

-- `setCancel` with the cancel function of a new timer.
abbrev pub set_timer : Dispatcher → Item → ℤ → ℤ → ℤ → Dispatcher
set_timer d item left wait now = record d {
  cancels = insert item.id d.next d.cancels;
  timers =
      d.timers
      ++ record { number = d.next; item = item; left = left; wait = wait; set_at = now } ∷ [];
  next = suc d.next;
}

abbrev pub wait_for : ℤ → Bool → ℤ
wait_for left held =
    let least = max_ℤ left (pos 0) in
    let wait = if ltb_ℤ hold_step least then hold_step else least in
    if held then second else if leb_ℤ wait (pos 0) then hold_step else wait

-- `step`, of `schedulePublic`
unfoldable pub wait_on : Dispatcher → Item → ℤ → Bool → ℤ → Told
unfolding finish
wait_on d item left held now =
    if leb_ℤ left (pos 0) && not held
    then finish d item now
    else (set_timer d item left (wait_for left held) now, [])

unfoldable pub schedule_public : Dispatcher → Item → ℤ → Bool → ℤ → Told
unfolding wait_on deliver
schedule_public d item after paused now =
    let held = d.watches && paused in
    if leb_ℤ after (pos 0) && not held
    then deliver d public_feed item now
    else if not d.watches
    then (set_timer d item after after now, [])
    else wait_on d item after held now

abbrev pub and_then : Told → (Dispatcher → Told) → Told
and_then (d, out) next = let (d', more) = next d in (d', out ++ more)

abbrev pub enter : Dispatcher → Release → Dispatcher
enter d r = record d {
  releases = d.releases ++ r ∷ [];
  by_id = insert r.item.id (length d.releases) d.by_id;
}

abbrev pub unreleased : Item → Release
unreleased item = record { item = item; fund_manager_at = none; public_at = none }

unfoldable pub publish : Dispatcher → Item → Bool → Bool → ℤ → Told
unfolding deliver schedule_public
publish d item phase2 paused now =
    and_then (deliver (enter d (unreleased item)) fund_manager_feed item now) λ d'.
      if tiered item.kind phase2
      then schedule_public d' item d'.lead paused now
      else deliver d' public_feed item now

abbrev pub pending : Dispatcher → Str → Bool
pending d id = elim (lookup id d.cancels) [ none ↦ false | some _ ↦ true ]

-- The function of a timer.
unfoldable pub run_timer : Dispatcher → Timer → Bool → ℤ → Told
unfolding finish wait_on
run_timer d t paused now =
    let left = if paused then t.left else t.left -ℤ t.wait in
    if not d.watches
    then finish d t.item now
    else if not (pending d t.item.id)
    then (d, [])
    else wait_on d t.item left paused now

abbrev pub without_at : {A : Type 0} → List A → ℕ → List A
without_at [] i = []
without_at (x ∷ xs) zero = xs
without_at (x ∷ xs) (suc i) = x ∷ without_at xs i

-- The `i`-th timer runs, if its wait is over.
unfoldable pub wake : Dispatcher → ℕ → Bool → ℤ → Told
unfolding run_timer
wake d i paused now = elim (get_elem? d.timers i) [
  | none ↦ (d, [])
  | some t ↦
      if ltb_ℤ now (t.set_at +ℤ t.wait)
      then (d, [])
      else run_timer (record d { timers = without_at d.timers i }) t paused now
]

unfoldable pub shown : Feed → List Release → List Item
shown feed [] = []
shown feed (r ∷ rs) = if is_out feed r then r.item ∷ shown feed rs else shown feed rs

unfoldable pub history : Dispatcher → Feed → List Item
unfolding shown
history d feed = shown feed d.releases

unfoldable pub enter_all : Dispatcher → List Release → Dispatcher
enter_all d [] = d
enter_all d (r ∷ rs) = enter_all (enter d r) rs

abbrev pub remaining : Dispatcher → Release → Bool → ℤ → ℤ
remaining d r phase2 now = elim r.fund_manager_at [
  | none ↦ pos 0
  | some at ↦ if tiered r.item.kind phase2 then at +ℤ d.lead -ℤ now else pos 0
]

-- One release of the log: what is still to be delivered.
unfoldable pub complete : Dispatcher → Release → Bool → Bool → ℤ → Told
unfolding deliver schedule_public
complete d r phase2 paused now =
    and_then
      (if is_out fund_manager_feed r then (d, []) else deliver d fund_manager_feed r.item now)
      λ d'.
        if is_out public_feed r
        then (d', [])
        else schedule_public d' r.item (remaining d r phase2 now) paused now

unfoldable pub complete_all : Dispatcher → List Release → Bool → Bool → ℤ → Told
unfolding complete
complete_all d [] phase2 paused now = (d, [])
complete_all d (r ∷ rs) phase2 paused now =
    and_then (complete d r phase2 paused now) λ d'. complete_all d' rs phase2 paused now

unfoldable pub recover : Dispatcher → List Release → Bool → Bool → ℤ → Told
unfolding enter_all complete_all
recover d log phase2 paused now = complete_all (enter_all d log) log phase2 paused now

abbrev pub is_among : ℕ → Dict Str ℕ → Bool
is_among n [] = false
is_among n ((_, m) ∷ d) = n == m || is_among n d

-- The timers of `cancels` are stopped, but for those whose function has begun.
unfoldable pub not_stopped : Dict Str ℕ → (ℕ → Bool) → List Timer → List Timer
not_stopped cancels begun [] = []
not_stopped cancels begun (t ∷ ts) =
    let rest = not_stopped cancels begun ts in
    if is_among t.number cancels && not (begun t.number) then rest else t ∷ rest

unfoldable pub stop : Dispatcher → (ℕ → Bool) → Dispatcher
unfolding not_stopped
stop d begun = record d { cancels = []; timers = not_stopped d.cancels begun d.timers }

unfoldable pub reset : Dispatcher → (ℕ → Bool) → Dispatcher
unfolding stop
reset d begun = record (stop d begun) { releases = []; by_id = [] }
