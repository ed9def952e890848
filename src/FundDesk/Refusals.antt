-- ===== src/FundDesk/Refusals.antt =====
-- What an order leaves behind, from the limiter on (apps/api/internal/app/funds.go, `Allocate` and
-- `Redeem`).
use stockastic.FundDesk.Allocating.{Allocated, allocate-Allocates}
use stockastic.FundDesk.Replay.{IsReplayable, Allocated-IsReplayable}
use stockastic.Funds.Indexed.{IsIndexed}
use stockastic.RateLimit.Retry.{hits_of-refund-allow}
use mathlib.Core.Path.{subst}
use stockastic.RateLimit.Hits.{kept, denied_not_allowed, not_allowed_hits, panicked_not_allowed}
use stockastic.FundDesk.Carrying.{Told, Untouched, Told-map}
use stockastic.RateLimit.{hits_of, allow, Limiter, allowed, Answer, refund, denied, panicked}
use stockastic.FundDesk.Orders.{Order, Asked, allocate}
use stockastic.Prelude.{◌≡◌, if◌then◌else◌, inl, ap, ◌∙◌, inr, ◌≢◌, sym, refl}
use stockastic.Prelude.Str.{Str, str_eq}
use stockastic.Funds.Float.{Float}
use stockastic.FundDesk.{FundDesk, Around, OrderError, Receipt, User}
use stockastic.FundDesk.Redeeming.{allocate_limited, if_order_allowed, after_order}

module _ {J W G : Type 0} ⦃f : Float W⦄ (a : Around J W G) (d : FundDesk J W) (key : Str) where
  -- No cash has moved, no trade and no change of the book was made, and the only times that the
  -- limiter forgets are the account's own that had left the window.
  abbrev pub NothingSpent : FundDesk J W → Type 0
  NothingSpent d' =
      (d'.exec.ledger ≡ d.exec.ledger)
      × (d'.exec.seen ≡ d.exec.seen)
      × (d'.book ≡ d.book)
      × ((k : Str)
          → hits_of d'.limiter k
            ≡ (if str_eq key k then kept d.limiter key a.now else hits_of d.limiter k))

  after_order-NothingSpent :
      (Done : FundDesk J W → Type 0) (o : Order a)
      → (allow d.limiter key a.now).1 ≡ allowed
      → Told a (Untouched a (record d { limiter = (allow d.limiter key a.now).0 })) Done o
      → Told a NothingSpent Done (after_order a key o)
  after_order-NothingSpent Done (d', inl e) ok (ledger, seen, book, limit) = (
    ledger,
    seen,
    book,
    λ k. ap (λ l. hits_of (refund l key) k) limit ∙ hits_of-refund-allow d.limiter key k a.now ok,
  )
  after_order-NothingSpent Done (d', inr r) ok h = h

  not_counted :
      (l : Limiter) (x : Answer)
      → allow d.limiter key a.now ≡ (l, x)
      → (allow d.limiter key a.now).1 ≢ allowed
      → (k : Str)
      → hits_of l k ≡ (if str_eq key k then kept d.limiter key a.now else hits_of d.limiter k)
  not_counted l x e fails k =
      ap (λ (z : Limiter × Answer). hits_of z.0 k) (sym e)
      ∙ not_allowed_hits d.limiter key k a.now fails

  if_order_allowed-NothingSpent :
      (Done : FundDesk J W → Type 0) (act : FundDesk J W → Order a) (x : Limiter × Answer)
      → allow d.limiter key a.now ≡ x
      → ((l : Limiter)
          → Told a (Untouched a (record d { limiter = l })) Done (act (record d { limiter = l })))
      → Told a NothingSpent Done (if_order_allowed a d key x act)
  if_order_allowed-NothingSpent Done act (l, allowed) e told =
      subst (λ l'. Told a NothingSpent Done (after_order a key (act (record d { limiter = l' }))))
        (ap (λ (z : Limiter × Answer). z.0) e)
        (after_order-NothingSpent Done _ (ap (λ (z : Limiter × Answer). z.1) e)
          (told (allow d.limiter key a.now).0))
  if_order_allowed-NothingSpent Done act (l, denied t) e told = (
    refl,
    refl,
    refl,
    not_counted l (denied t) e
        (λ ok. denied_not_allowed t (sym (ap (λ (z : Limiter × Answer). z.1) e) ∙ ok)),
  )
  if_order_allowed-NothingSpent Done act (l, panicked) e told = (
    refl,
    refl,
    refl,
    not_counted l panicked e
        (λ ok. panicked_not_allowed (sym (ap (λ (z : Limiter × Answer). z.1) e) ∙ ok)),
  )

module _ {J W G : Type 0} ⦃f : Float W⦄ (a : Around J W G) where
  allocate_limited-NothingSpent :
      (d : FundDesk J W) (u : User) (fund_id : Str) (req : Asked W)
      → IsIndexed d.book
      → Told a (NothingSpent a d u.id) (IsReplayable a d) (allocate_limited a d u fund_id req)
  unfolding allocate_limited
  allocate_limited-NothingSpent d u fund_id req indexed =
      if_order_allowed-NothingSpent a d u.id (IsReplayable a d) (λ d'. allocate a d' u fund_id req)
        (allow d.limiter u.id a.now) refl
        (λ l.
          Told-map a (Untouched a (record d { limiter = l }))
            (Allocated a (record d { limiter = l }) u fund_id) (IsReplayable a d)
            (allocate a (record d { limiter = l }) u fund_id req)
            (λ d' h. Allocated-IsReplayable a (record d { limiter = l }) d' u fund_id indexed h)
            (allocate-Allocates a (record d { limiter = l }) u fund_id indexed req))

  -- A refused allocation moves no cash, makes no change of the book and costs none of the account's
  -- calls: the limiter forgets only those that had left its window, whatever the reason was. Every
  -- id of the book points at the fund that has it.
  pub allocate_limited-refused :
      (d d' : FundDesk J W) (u : User) (fund_id : Str) (req : Asked W) (e : OrderError G)
      → IsIndexed d.book
      → allocate_limited a d u fund_id req ≡ (d', inl e)
      → NothingSpent a d u.id d'
  allocate_limited-refused d d' u fund_id req e indexed h =
      subst (Told a (NothingSpent a d u.id) (IsReplayable a d)) h
        (allocate_limited-NothingSpent d u fund_id req indexed)

  -- When an allocation is accepted, one event was stored, and replaying it after a restart, on the
  -- ledger and the book as they were, gives the ledger and the book that the allocation left. Every
  -- id of the book points at the fund that has it.
  pub allocate_limited-IsReplayable :
      (d d' : FundDesk J W) (u : User) (fund_id : Str) (req : Asked W) (r : Receipt W)
      → IsIndexed d.book
      → allocate_limited a d u fund_id req ≡ (d', inr r)
      → IsReplayable a d d'
  allocate_limited-IsReplayable d d' u fund_id req r indexed h =
      subst (Told a (NothingSpent a d u.id) (IsReplayable a d)) h
        (allocate_limited-NothingSpent d u fund_id req indexed)
