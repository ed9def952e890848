-- ===== src/FundDesk/Forming.antt =====
-- Forming and dissolving the funds (apps/api/internal/app/funds.go, `seedFunds`, `FormFunds` and
-- `DissolveFunds`). The change of the members' roles, the audit entries and the messages are left out.
use stockastic.Prelude.Int64.{add64, mul64}
use stockastic.Prelude.Int.{ℤ, leb_ℤ, ltb_ℤ, pos}
use stockastic.Prelude.Dict.{Dict, lookup, insert, str_key}
use stockastic.Funds.Float.{Float, rupees}
use stockastic.Prelude.Str.{Str, codes, str_eq}
use stockastic.Prelude.{
  ℕ, List, ◌⊎◌, Option, Bool, inl, ◌∷◌, if◌then◌else◌, true, none, inr, [], false, ◌++◌, suc, some,
  not, ◌&&◌, ◌||◌, map, take, ltb, length,
}
use stockastic.Scoring.Ranking.{
  Ranked, Standing, DecidedBy, TieBreakStep, rank_phase1, by_value, by_peak, by_fewer_txns,
  by_coin_toss, unresolved,
}
use stockastic.Scoring.Pairing.{
  FundPairing, Paired, mirror_pairing, pairs, odd_or_empty, out_of_range,
}
use stockastic.FundDesk.{FundDesk, Around, User}
use stockastic.FundDesk.Orders.{store_event, no_event}
use stockastic.FundDesk.Replay.{apply_fund_event, EventError}
use stockastic.Funds.Reads.{investors}
use stockastic.Funds.Events.{
  Move, SeedUnits, Formed, MovedShares, RankRow, Event, Fund, op_dissolve, op_formed,
}
use stockastic.Funds.Book.{Book, decimal}
use stockastic.Ledger.Valuation.{snapshot, Snapshot}
use stockastic.Ledger.State.{Position, Ledger, Error}

pub data FormError : Type 0 where
  already_formed phase1_not_frozen not_enough_teams pairing_failed too_many_funds : FormError
  not_formed : FormError
  has_invested funds_traded : FormError
  invalid_pair : ℕ → FormError
  unstored : Error → FormError
  unapplied : EventError → FormError

abbrev pub moved_shares : Position → MovedShares
moved_shares p = record { symbol = p.symbol; qty = p.qty; cost = p.cost }

unfoldable pub shares_moved : List Position → List MovedShares
shares_moved [] = []
shares_moved (p ∷ ps) =
    let rest = shares_moved ps in if leb_ℤ p.qty (pos 0) then rest else moved_shares p ∷ rest

-- `value += price * money.Paise(p.Qty)`
unfoldable pub value_brought : (Str → Option ℤ) → ℤ → List Position → ℤ
value_brought price total [] = total
value_brought price total (p ∷ ps) =
    value_brought price
      (if leb_ℤ p.qty (pos 0)
        then total
        else elim (price p.symbol) [ none ↦ total | some px ↦ add64 total (mul64 px p.qty) ])
      ps

abbrev pub Seeding : Type 0 → Type 0
Seeding W = List Move × List (SeedUnits W)

abbrev pub is_empty_list : List MovedShares → Bool
is_empty_list [] = true
is_empty_list (_ ∷ _) = false

module _ {W : Type 0} ⦃f : Float W⦄ (l : Ledger) (price : Str → Option ℤ) (launch_nav : W) where
  abbrev pub brought : Formed → Str → Snapshot → Move × SeedUnits W
  brought g team s = (
    record {
      from = team;
      to = g.account;
      cash = if ltb_ℤ s.cash (pos 0) then pos 0 else s.cash;
      shares = shares_moved s.positions;
    },
    record {
      fund_id = g.id;
      team = team;
      amount = value_brought price s.cash s.positions;
      units = f.div (rupees (value_brought price s.cash s.positions)) launch_nav;
    },
  )

  abbrev pub seed_team : Formed → Str → Seeding W → Seeding W
  seed_team g team rest = elim (snapshot l team) [
    | none ↦ rest
    | some s ↦
        if leb_ℤ s.cash (pos 0) && is_empty_list (shares_moved s.positions)
        then rest
        else ((brought g team s).0 ∷ rest.0, (brought g team s).1 ∷ rest.1)
  ]

  unfoldable pub seed_funds : List Formed → Seeding W
  unfolding shares_moved value_brought
  seed_funds [] = ([], [])
  seed_funds (g ∷ gs) =
      let rest = seed_funds gs in seed_team g g.member (seed_team g g.other_member rest)

unfoldable pub find_user : Str → List User → Option User
find_user id [] = none
find_user id (u ∷ us) = if str_eq u.id id then some u else find_user id us

unfoldable pub can_play : Str → List User → Bool
unfolding find_user
can_play id us = elim (find_user id us) [
  | none ↦ false
  | some u ↦ not (u.is_admin || u.disqualified)
]

abbrev pub or_false : Option Bool → Bool
or_false none = false
or_false (some t) = t

abbrev pub is_used : Dict Str Bool → Str → Bool
is_used used id = or_false (lookup id used)

abbrev pub new_formed : ℕ → Str → Str → (Str → ℤ) → Formed
new_formed n p q ranks =
    let id = codes "F" ++ decimal (pos n) in
    record {
      id = id;
      number = pos n;
      account = codes "fund:" ++ id;
      member = p;
      other_member = q;
      trader = p;
      ranks = (ranks p, ranks q);
    }

abbrev pub prepend : Formed → FormError ⊎ List Formed → FormError ⊎ List Formed
prepend g (inl e) = inl e
prepend g (inr gs) = inr (g ∷ gs)

-- The funds of the pairs, numbered from `n + 1`, where no team of `used` may come again.
unfoldable pub form_pairs :
    List User → (Str → ℤ) → ℕ → Dict Str Bool → List (List Str) → FormError ⊎ List Formed
unfolding can_play
form_pairs users ranks n used [] = inr []
form_pairs users ranks n used ((p ∷ q ∷ []) ∷ ps) =
    let rest = form_pairs users ranks (suc n) (insert q true (insert p true used)) ps in
    if str_eq p q
      || (not (can_play p users)
          || (is_used used p || (not (can_play q users) || is_used (insert p true used) q)))
    then inl (invalid_pair (suc n))
    else prepend (new_formed (suc n) p q ranks) rest
form_pairs users ranks n used (_ ∷ ps) = inl (invalid_pair (suc n))

abbrev pub decided_name : DecidedBy → Str
decided_name by_value = codes "value"
decided_name by_peak = codes "peak_portfolio_value"
decided_name by_fewer_txns = codes "fewer_transactions"
decided_name by_coin_toss = codes "coin_toss"
decided_name unresolved = codes "unresolved"

abbrev pub rank_row : Ranked → RankRow
rank_row r = record {
  account = r.standing.account_id;
  rank = pos r.rank;
  value = r.standing.final_value;
  decided_by = decided_name r.decided_by;
}

-- `ranks[account]`, zero for an account that has no rank.
unfoldable pub rank_in : List Ranked → Str → ℤ
rank_in [] account = pos 0
rank_in (r ∷ rs) account =
    if str_eq r.standing.account_id account then pos r.rank else rank_in rs account

abbrev pub pair_ids : FundPairing Ranked → List Str
pair_ids p = p.stronger.standing.account_id ∷ p.weaker.standing.account_id ∷ []

-- The rulebook's numbers, the frozen standings of phase 1, a new seed and its coin toss.
pub record Qualifying : Type 0 where
  pub qualifying_teams : ℕ
  pub fund_count : ℕ
  pub tie_break : List TieBreakStep
  pub frozen : Option (List Standing)
  pub new_seed : ℤ
  pub coin_key : ℤ → Str → ℤ

-- The ranking, empty without frozen standings.
unfoldable pub ranking_of : Qualifying → List Ranked
ranking_of c = elim c.frozen [
  | none ↦ []
  | some st ↦ rank_phase1 (c.coin_key c.new_seed) c.tie_break st
]

abbrev pub Pairs : Type 0
Pairs = List (List Str) × List RankRow

abbrev pub paired : List Ranked → Paired Ranked → FormError ⊎ Pairs
paired top (odd_or_empty n) = inl pairing_failed
paired top out_of_range = inl pairing_failed
paired top (pairs ps) = inr (map pair_ids ps, map rank_row top)

-- The pairs that were chosen, or else the top of the ranking paired mirror-style.
unfoldable pub pairs_of : Qualifying → List (List Str) → FormError ⊎ Pairs
unfolding ranking_of
pairs_of c [] = elim c.frozen [
  | none ↦ inl phase1_not_frozen
  | some st ↦
      let top = take c.qualifying_teams (ranking_of c) in
      if ltb (length st) c.qualifying_teams
      then inl not_enough_teams
      else paired top (mirror_pairing top)
]
pairs_of c (p ∷ ps) = inr (p ∷ ps, [])

module _ {J W G : Type 0} ⦃f : Float W⦄ (a : Around J W G) where
  abbrev pub Formation : Type 0
  Formation = FundDesk J W × Option FormError

  abbrev pub after_event : FundDesk J W → Ledger × Book W × Option EventError → Formation
  after_event d (l, b, e) = (
    record d { exec = let x = d.exec in record x { ledger = l }; book = b },
    elim e [ none ↦ none | some e ↦ some (unapplied e) ],
  )

  abbrev pub once_stored : FundDesk J W → Event W → J × Option Error → Formation
  once_stored d ev (j, some e) =
      (record d { exec = let x = d.exec in record x { journal = j } }, some (unstored e))
  once_stored d ev (j, none) =
      after_event (record d { exec = let x = d.exec in record x { journal = j } })
        (apply_fund_event a.rules d.exec.ledger d.book ev false)

  -- `fundAppend`, then `applyFundEvent`
  unfoldable pub store_event_and_apply : FundDesk J W → Event W → Formation
  store_event_and_apply d ev = once_stored d ev (store_event a ev d.exec.journal)

  abbrev pub forming : FundDesk J W → Qualifying → List RankRow → List Formed → Event W
  forming d c rows gs =
      let seeding = seed_funds d.exec.ledger a.setup.price d.book.launch_nav gs in
      record (no_event a) {
        op = op_formed;
        funds = gs;
        ranking = rows;
        seed = elim c.frozen [ none ↦ pos 0 | some _ ↦ c.new_seed ];
        moves = seeding.0;
        seeds = seeding.1;
      }

  unfoldable pub form_funds : FundDesk J W → Qualifying → List (List Str) → Formation
  unfolding pairs_of form_pairs seed_funds store_event_and_apply rank_in
  form_funds d c chosen =
      if d.book.formed then (d, some already_formed) else elim (pairs_of c chosen) [
        | inl e ↦ (d, some e)
        | inr (ps, rows) ↦
            if ltb c.fund_count (length ps)
            then (d, some too_many_funds)
            else elim (form_pairs a.users (rank_in (ranking_of c)) 0 [] ps) [
              | inl e ↦ (d, some e)
              | inr gs ↦ store_event_and_apply d (forming d c rows gs)
            ]
      ]

  abbrev pub back : Move → Move
  back m = record m { from = m.to; to = m.from }

  -- Whether the account of a fund has traded.
  unfoldable pub have_traded : (Str → Bool) → List (Fund W) → Bool
  have_traded traded [] = false
  have_traded traded (fd ∷ fs) = traded fd.formed.account || have_traded traded fs

  abbrev pub is_nil : List Str → Bool
  is_nil [] = true
  is_nil (_ ∷ _) = false

  unfoldable pub dissolve_funds : FundDesk J W → (Str → Bool) → Formation
  unfolding have_traded store_event_and_apply
  dissolve_funds d traded =
      if not d.book.formed
      then (d, some not_formed)
      else if not (is_nil (investors d.book))
      then (d, some has_invested)
      else if have_traded traded d.book.funds
      then (d, some funds_traded)
      else store_event_and_apply d
          (record (no_event a) { op = op_dissolve; moves = map back d.book.seed_moves })
