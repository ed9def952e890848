-- ===== src/Market/History.antt =====
-- The history of a price (market.go, `setLocked`): it runs forward in time, ends with the current
-- price and is bounded.
use stockastic.Prelude.Dict.{lookup, str_key, Every-insert, Every, insert, Every-nil, lookup-insert}
use stockastic.Prelude.Str.{Str, str_eq}
use stockastic.Prelude.Int.{ℤ, ◌≤ℤ◌, ltb_ℤ, leb_ℤ, pos}
use stockastic.Prelude.{
  ℕ, List, ◌≡◌, Option, some, All, drop, ◌++◌, ◌<◌, Option-cases, ◌∷◌, none, length, [], ◌≤◌, suc,
  inl, if◌then◌else◌, All-append, arith, Bool-cases, inr, zero, refl, ltb, length-append, ◌-◌, ◌∙◌,
  length-drop, false,
}
use stockastic.Market.{
  Point, Series, Prices, push, drop_later, keep_recent, set_price, set_all, new, reset,
  add_companies, max_history, price, open_series, frozen_price, freeze, all_prices,
}

-- Every point is at or after all the points before it.
abbrev pub Ascending : List Point → Type 0
Ascending [] = Unit
Ascending (p ∷ ps) = All (λ q. p.at ≤ℤ q.at) ps × Ascending ps

abbrev pub last_price : List Point → Option ℤ
last_price [] = none
last_price (p ∷ []) = some p.price
last_price (p ∷ q ∷ ps) = last_price (q ∷ ps)

pub record IsHistory (s : Series) : Type 0 where
  pub ascending : Ascending s.pts
  pub current : last_price s.pts ≡ some s.cur
  pub bounded : length s.pts ≤ 2_000

drop_later-All :
    (P : Point → Type 0) (at : ℤ) (ps : List Point) → All P ps → All P (drop_later at ps)
unfolding drop_later
drop_later-All P at [] h = h
drop_later-All P at (p ∷ ps) h = go (drop_later at ps) (drop_later-All P at ps h.1)
  where
    go :
        (qs : List Point)
        → All P qs
        → All P (elim qs [ [] ↦ if ltb_ℤ at p.at then [] else p ∷ [] | q ∷ qs' ↦ p ∷ q ∷ qs' ])
    go [] k = elim (Bool-cases (ltb_ℤ at p.at)) [ inl e ↦ rw e tt | inr e ↦ rw e (h.0, tt) ]
    go (q ∷ qs) k = (h.0, k)

drop_later-Ascending : (at : ℤ) (ps : List Point) → Ascending ps → Ascending (drop_later at ps)
unfolding drop_later
drop_later-Ascending at [] h = tt
drop_later-Ascending at (p ∷ ps) h =
    go (drop_later at ps) (drop_later-All (λ q. p.at ≤ℤ q.at) at ps h.0)
      (drop_later-Ascending at ps h.1)
  where
    go :
        (qs : List Point)
        → All (λ q. p.at ≤ℤ q.at) qs
        → Ascending qs
        → Ascending (elim qs [ [] ↦ if ltb_ℤ at p.at then [] else p ∷ [] | q ∷ qs' ↦ p ∷ q ∷ qs' ])
    go [] k a = elim (Bool-cases (ltb_ℤ at p.at)) [ inl e ↦ rw e tt | inr e ↦ rw e (tt, tt) ]
    go (q ∷ qs) k a = (k, a)

drop_later-past :
    (at : ℤ) (ps : List Point) → Ascending ps → All (λ q. q.at ≤ℤ at) (drop_later at ps)
unfolding drop_later
drop_later-past at [] h = tt
drop_later-past at (p ∷ ps) h =
    go (drop_later at ps) (drop_later-All (λ q. p.at ≤ℤ q.at) at ps h.0) (drop_later-past at ps h.1)
  where
    go :
        (qs : List Point)
        → All (λ q. p.at ≤ℤ q.at) qs
        → All (λ q. q.at ≤ℤ at) qs
        → All
            (λ q. q.at ≤ℤ at)
            (elim qs [ [] ↦ if ltb_ℤ at p.at then [] else p ∷ [] | q ∷ qs' ↦ p ∷ q ∷ qs' ])
    go [] k a = elim (Bool-cases (ltb_ℤ at p.at)) [
      | inl e ↦ rw e tt
      | inr e ↦ rw e (ground arith, tt)
    ]
    go (q ∷ qs) k a = (omega arith, a)

Ascending-append :
    (ps : List Point) (x : Point)
    → Ascending ps
    → All (λ q. q.at ≤ℤ x.at) ps
    → Ascending (ps ++ x ∷ [])
Ascending-append [] x h k = (tt, tt)
Ascending-append (p ∷ ps) x h k =
    (All-append (λ q. p.at ≤ℤ q.at) ps (x ∷ []) h.0 (k.0, tt), Ascending-append ps x h.1 k.1)

Ascending-drop : (n : ℕ) (ps : List Point) → Ascending ps → Ascending (drop n ps)
Ascending-drop zero ps h = h
Ascending-drop (suc n) [] h = tt
Ascending-drop (suc n) (p ∷ ps) h = Ascending-drop n ps h.1

last_price-append : (ps : List Point) (x : Point) → last_price (ps ++ x ∷ []) ≡ some x.price
last_price-append [] x = refl
last_price-append (p ∷ []) x = refl
last_price-append (p ∷ q ∷ ps) x = last_price-append (q ∷ ps) x

last_price-drop : (n : ℕ) (ps : List Point) → n < length ps → last_price (drop n ps) ≡ last_price ps
last_price-drop zero ps h = refl
last_price-drop (suc n) [] h = absurd (omega arith)
last_price-drop (suc n) (p ∷ []) h = absurd (omega arith)
last_price-drop (suc n) (p ∷ q ∷ ps) h = last_price-drop n (q ∷ ps) (omega arith)

keep_recent-IsHistory :
    (opening : ℤ) (ps : List Point) (price : ℤ)
    → Ascending ps
    → last_price ps ≡ some price
    → 1 ≤ length ps
    → IsHistory (record { opening = opening; cur = price; pts = keep_recent ps })
keep_recent-IsHistory opening ps price up last some_point =
    elim (Bool-cases (ltb max_history (length ps))) [
      | inl full ↦ rw full (record {
        ascending = Ascending-drop (length ps - max_history) ps up;
        current = last_price-drop (length ps - max_history) ps (ground arith) ∙ last;
        bounded = rw (length-drop (length ps - max_history) ps) (omega arith);
      })
      | inr room ↦ rw room (record { ascending = up; current = last; bounded = ground arith })
    ]

push-IsHistory : (s : Series) (price at : ℤ) → IsHistory s → IsHistory (push s price at)
unfolding push
push-IsHistory s price at h =
    let x : Point = record { price = price; at = at } in
    let kept = drop_later at s.pts in
    keep_recent-IsHistory s.opening (kept ++ x ∷ []) price
      (Ascending-append kept x (drop_later-Ascending at s.pts h.ascending)
        (drop_later-past at s.pts h.ascending))
      (last_price-append kept x) (omega (arith, length-append kept (x ∷ [])))

abbrev pub AllHistories : Prices → Type 0
AllHistories p = Every IsHistory p

set_price-AllHistories :
    (p : Prices) (symbol : Str) (px at : ℤ)
    → AllHistories p
    → AllHistories (set_price p symbol px at)
unfolding set_price
set_price-AllHistories p symbol px at h = elim (Option-cases (lookup symbol p)) [
  | inl missing ↦ rw (missing, set_price) h
  | inr (s, found) ↦
      rw (found, set_price)
        (elim (Bool-cases (leb_ℤ px (pos 0))) [
          | inl bad ↦ rw bad h
          | inr good ↦ rw good (
              Every-insert IsHistory symbol (push s px at) p h
                (push-IsHistory s px at (h symbol s found)))
        ])
]

set_all-AllHistories :
    (p : Prices) (prices : List (Str × ℤ)) (at : ℤ)
    → AllHistories p
    → AllHistories (set_all p prices at)
unfolding set_all
set_all-AllHistories p [] at h = h
set_all-AllHistories p ((symbol, px) ∷ prices) at h =
    set_all-AllHistories (set_price p symbol px at) prices at
      (set_price-AllHistories p symbol px at h)

add_companies-AllHistories :
    (p : Prices) (cs : List (Str × ℤ)) (start : ℤ)
    → AllHistories p
    → AllHistories (add_companies p cs start)
add_companies-AllHistories p [] start h = h
add_companies-AllHistories p ((symbol, opening) ∷ cs) start h =
    add_companies-AllHistories (insert symbol (open_series opening start) p) cs start (
      Every-insert IsHistory symbol (open_series opening start) p h
        (record { ascending = (tt, tt); current = refl; bounded = omega arith }))

-- What changes the market: a price, prices at one moment, or a new start.
pub data Change : Type 0 where
  sets : Str → ℤ → ℤ → Change
  sets_all : List (Str × ℤ) → ℤ → Change
  resets : List (Str × ℤ) → ℤ → Change

unfoldable pub changed : Prices → List Change → Prices
changed p [] = p
changed p (sets symbol px at ∷ cs) = changed (set_price p symbol px at) cs
changed p (sets_all prices at ∷ cs) = changed (set_all p prices at) cs
changed p (resets companies start ∷ cs) = changed (reset p companies start) cs

changed-AllHistories :
    (p : Prices) (cs : List Change) → AllHistories p → AllHistories (changed p cs)
unfolding changed reset new
changed-AllHistories p [] h = h
changed-AllHistories p (sets symbol px at ∷ cs) h =
    changed-AllHistories (set_price p symbol px at) cs (set_price-AllHistories p symbol px at h)
changed-AllHistories p (sets_all prices at ∷ cs) h =
    changed-AllHistories (set_all p prices at) cs (set_all-AllHistories p prices at h)
changed-AllHistories p (resets companies start ∷ cs) h =
    changed-AllHistories (new companies start) cs
      (add_companies-AllHistories [] companies start (Every-nil IsHistory))

-- However the market is started and its prices are then set, alone, together or anew, and in whatever
-- order the times come: every company's history runs forward in time, ends with the current price, and
-- has at most 2,000 points.
pub changed-new :
    (companies : List (Str × ℤ)) (start : ℤ) (cs : List Change)
    → AllHistories (changed (new companies start) cs)
unfolding new
changed-new companies start cs =
    changed-AllHistories (new companies start) cs
      (add_companies-AllHistories [] companies start (Every-nil IsHistory))

set_price-known :
    (p : Prices) (symbol : Str) (px at : ℤ) (s : Series)
    → leb_ℤ px (pos 0) ≡ false
    → lookup symbol p ≡ some s
    → set_price p symbol px at ≡ insert symbol (push s px at) p
unfolding set_price
set_price-known p symbol px at s positive found = rw (found, set_price) (rw positive refl)

-- A price that is set is the current price from then on, if it is positive and the company is known,
-- and no other company's price changes.
pub price-set_price :
    (p : Prices) (symbol k : Str) (px at : ℤ) (s : Series)
    → pos 1 ≤ℤ px
    → lookup symbol p ≡ some s
    → price (set_price p symbol px at) k ≡ (if str_eq symbol k then some px else price p k)
unfolding price push
price-set_price p symbol k px at s good found =
    let positive : leb_ℤ px (pos 0) ≡ false = ground arith in
    rw (set_price-known p symbol px at s positive found) (
      rw (lookup-insert symbol k (push s px at) p, price)
        (elim (Bool-cases (str_eq symbol k)) [
          | inl same ↦ rw same refl
          | inr other ↦ rw other refl
        ]))

-- A snapshot has the price of every company at the moment at which it was taken.
pub frozen_price-freeze :
    (p : Prices) (name symbol : Str) (at : ℤ)
    → frozen_price (freeze p name at) symbol ≡ price p symbol
unfolding frozen_price freeze all_prices price lookup
frozen_price-freeze [] name symbol at = refl
frozen_price-freeze ((k, s) ∷ p) name symbol at = elim (Bool-cases (str_eq k symbol)) [
  | inl here ↦ rw (here, price) refl
  | inr other ↦ rw (other, price) (frozen_price-freeze p name symbol at)
]
