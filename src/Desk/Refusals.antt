-- ===== src/Desk/Refusals.antt =====
-- What a refusal leaves behind (trades.go, `Trade`): nothing.
use stockastic.EventClock.Access.{market_open}
use mathlib.Core.Path.{subst}
use stockastic.Trading.Outcomes.{
  Executed, rejected, placed, Placed, refused, unstored, stored, repeated, execute-Executed,
}
use stockastic.Prelude.Int.{ℤ}
use stockastic.Prelude.Str.{Str, str_eq}
use stockastic.Prelude.{
  ◌≡◌, ◌⊎◌, if◌then◌else◌, inl, inr, ◌∙◌, ap, Bool, refl, sym, Option, false, true, some, none,
  arith,
}
use stockastic.Desk.{
  Desk, Reply, traded, trade_at_desk, if_allowed, after_counted, after_seen, closed_because, Closed,
  if_open,
}
use stockastic.Trading.{
  Setup, State, Request, Trade, Result, completed, deduped, failed, execute, seen_before, new_trade,
}
use stockastic.RateLimit.{Limiter, Answer, allowed, denied, panicked, allow, hits_of}
use stockastic.RateLimit.Hits.{kept, not_allowed_hits, denied_not_allowed, panicked_not_allowed}
use stockastic.RateLimit.Retry.{hits_of-refund-allow}
use stockastic.EventClock.State.{Clock}

abbrev pub IsTraded : {G : Type 0} → Reply G → Type 0
IsTraded (traded t) = Unit
IsTraded _ = ⊥

-- Nothing is traded, and the only times that the limiter forgets are those outside its window.
abbrev pub NothingLeft : {J : Type 0} → Desk J → Desk J → Str → ℤ → Type 0
NothingLeft d d' key now =
    (d'.exec.ledger ≡ d.exec.ledger)
    × (d'.exec.seen ≡ d.exec.seen)
    × ((k : Str)
        → hits_of d'.limiter k
            ≡ (if str_eq key k then kept d.limiter key now else hits_of d.limiter k)
          ⊎ (hits_of d'.limiter k ≡ hits_of d.limiter k))

closed_because-none :
    (c : Clock) (now : ℤ) (known paused : Bool)
    → closed_because c now known paused ≡ none
    → (market_open c now ≡ true) × (c.ov.frozen ≡ false) × (paused ≡ false)
unfolding closed_because
closed_because-none c now known paused h = ground arith

module _ {J G : Type 0} (s : Setup J G) (d : Desk J) (r : Request) (id : Str) (now : ℤ) where
  execute-still :
      (x : State J × Result G)
      → Executed s d.exec r id now x
      → ((t : Trade) × (x.1 ≡ completed t))
        ⊎ ((x.0.ledger ≡ d.exec.ledger) × (x.0.seen ≡ d.exec.seen))
  execute-still _ (rejected e) = inr (refl, refl)
  execute-still _ (repeated prev known same) = inr (refl, refl)
  execute-still x (placed price _ valid new fine how) = placing x how
    where
      placing :
          (y : State J × Result G)
          → Placed s d.exec (new_trade s r price id now) y
          → ((t : Trade) × (y.1 ≡ completed t))
            ⊎ ((y.0.ledger ≡ d.exec.ledger) × (y.0.seen ≡ d.exec.seen))
      placing _ (refused e) = inr (refl, refl)
      placing _ (unstored l' j' e text replayed ran why) = inr (refl, refl)
      placing _ (stored l' j' replayed ran) = inl (new_trade s r price id now, refl)

  seen-left :
      (key : Str) (x : State J × Result G)
      → Executed s d.exec r id now x
      → ¬ IsTraded (after_seen s d x).1
      → NothingLeft d (after_seen s d x).0 key now
  seen-left key (e, completed t) how untraded = absurd (untraded tt)
  seen-left key (e, deduped t) how untraded = elim (execute-still (e, deduped t) how) [
    | inl (u, same) ↦ cc
    | inr (ledger, seen) ↦ (ledger, seen, λ k. inr refl)
  ]
  seen-left key (e, failed err) how untraded = elim (execute-still (e, failed err) how) [
    | inl (u, same) ↦ cc
    | inr (ledger, seen) ↦ (ledger, seen, λ k. inr refl)
  ]

  counted-left :
      (key : Str) (x : State J × Result G)
      → Executed s d.exec r id now x
      → (allow d.limiter key now).1 ≡ allowed
      → let r' = after_counted s (record d { limiter = (allow d.limiter key now).0 }) key x in
        ¬ IsTraded r'.1 → NothingLeft d r'.0 key now
  counted-left key (e, completed t) how ok untraded = absurd (untraded tt)
  counted-left key (e, deduped t) how ok untraded = elim (execute-still (e, deduped t) how) [
    | inl (u, same) ↦ cc
    | inr (ledger, seen) ↦ (ledger, seen, λ k. inl (hits_of-refund-allow d.limiter key k now ok))
  ]
  counted-left key (e, failed err) how ok untraded = elim (execute-still (e, failed err) how) [
    | inl (u, same) ↦ cc
    | inr (ledger, seen) ↦ (ledger, seen, λ k. inl (hits_of-refund-allow d.limiter key k now ok))
  ]

  limited-left :
      (key : Str) (a : Limiter × Answer)
      → allow d.limiter key now ≡ a
      → ¬ IsTraded (if_allowed s d key r id now a).1
      → NothingLeft d (if_allowed s d key r id now a).0 key now
  limited-left key (l, allowed) eq untraded =
      subst
        (λ l'.
          ¬ IsTraded (after_counted s (record d { limiter = l' }) key (execute s d.exec r id now)).1
          → NothingLeft d
              (after_counted s (record d { limiter = l' }) key (execute s d.exec r id now)).0 key
              now)
        (ap (λ (z : Limiter × Answer). z.0) eq)
        (counted-left key (execute s d.exec r id now) (execute-Executed s d.exec r id now)
          (ap (λ (z : Limiter × Answer). z.1) eq))
        untraded
  limited-left key (l, denied retry) eq untraded = (
    refl,
    refl,
    λ k. inl (
        ap (λ (z : Limiter × Answer). hits_of z.0 k) (sym eq)
        ∙ not_allowed_hits d.limiter key k now
            (λ e. (denied_not_allowed retry) (sym (ap (λ (z : Limiter × Answer). z.1) eq) ∙ e))),
  )
  limited-left key (l, panicked) eq untraded = (
    refl,
    refl,
    λ k. inl (
        ap (λ (z : Limiter × Answer). hits_of z.0 k) (sym eq)
        ∙ not_allowed_hits d.limiter key k now
            (λ e. panicked_not_allowed (sym (ap (λ (z : Limiter × Answer). z.1) eq) ∙ e))),
  )

  open-left :
      (key : Str) (o : Option Closed) (seen : Bool)
      → ¬ IsTraded (if_open s d key r id now o seen).1
      → NothingLeft d (if_open s d key r id now o seen).0 key now
  open-left key (some why) seen untraded = (refl, refl, λ k. inr refl)
  open-left key none true untraded =
      seen-left key (execute s d.exec r id now) (execute-Executed s d.exec r id now) untraded
  open-left key none false untraded = limited-left key (allow d.limiter key now) refl untraded

  made-allowed :
      (key : Str) (a : Limiter × Answer)
      → IsTraded (if_allowed s d key r id now a).1
      → a.1 ≡ allowed
  made-allowed key (l, allowed) made = refl
  made-allowed key (l, denied retry) made = absurd made
  made-allowed key (l, panicked) made = absurd made

  made-open :
      (key : Str) (o : Option Closed) (seen : Bool)
      → seen ≡ false
      → IsTraded (if_open s d key r id now o seen).1
      → (o ≡ none) × ((allow d.limiter key now).1 ≡ allowed)
  made-open key (some why) seen unseen made = absurd made
  made-open key none true unseen made = cc
  made-open key none false unseen made = (refl, made-allowed key (allow d.limiter key now) made)

-- A trade that is not made leaves nothing behind and does not use up one of the account's trades:
-- whatever the reply is, if nothing is traded (the market is closed, the limit is reached, the executor refuses, or the
-- trade is a repeat), then the ledger and the trades seen are as before, and so are the trades that the limiter
-- counts, for the account and for every other, except that those which have left the window may be forgotten.
pub trade_at_desk-NothingLeft :
    {J G : Type 0} (s : Setup J G) (d : Desk J) (c : Clock) (key : Str) (known paused : Bool)
    (r : Request) (id : Str) (now : ℤ)
    → ¬ IsTraded (trade_at_desk s d c key known paused r id now).1
    → NothingLeft d (trade_at_desk s d c key known paused r id now).0 key now
unfolding trade_at_desk
trade_at_desk-NothingLeft s d c key known paused r id now untraded =
    open-left s d r id now key (closed_because c now known paused)
      (seen_before d.exec r.account_id r.client_trade_id) untraded

-- A new trade is made only while the market is open: a trade that was not seen before is made only if
-- the clock says that the market is open, nothing is frozen and neither the event nor the company is
-- paused, and only if the limiter allowed it.
pub trade_at_desk-IsOpen :
    {J G : Type 0} (s : Setup J G) (d : Desk J) (c : Clock) (key : Str) (known paused : Bool)
    (r : Request) (id : Str) (now : ℤ)
    → seen_before d.exec r.account_id r.client_trade_id ≡ false
    → IsTraded (trade_at_desk s d c key known paused r id now).1
    → (market_open c now ≡ true)
      × (c.ov.frozen ≡ false)
      × (paused ≡ false)
      × ((allow d.limiter key now).1 ≡ allowed)
unfolding trade_at_desk
trade_at_desk-IsOpen s d c key known paused r id now unseen made =
    let (open_now, ok) =
      made-open s d r id now key (closed_because c now known paused)
        (seen_before d.exec r.account_id r.client_trade_id) unseen made in
    let (market, calm, going) = closed_because-none c now known paused open_now in
    (market, calm, going, ok)
