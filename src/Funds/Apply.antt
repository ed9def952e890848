-- ===== src/Funds/Apply.antt =====
-- The remaining events, and the one function that applies them all (funds.go, `Apply`). A Go map in an
-- event is a list of its entries, in the order that the loop takes.
use stockastic.Prelude.Int64.{sub64}
use stockastic.Prelude.Str.{Str, is_empty, str_eq}
use stockastic.Prelude.Dict.{Dict, insert, lookup, str_key}
use stockastic.Prelude.Int.{ℤ, ltb_ℤ, pos}
use stockastic.Prelude.{
  ℕ, Option, suc, if◌then◌else◌, get_elem?, update, none, List, some, Bool, true, ◌∷◌, ◌++◌, [],
  ◌||◌,
}
use stockastic.Funds.Float.{Float}
use stockastic.Funds.Book.{Book, Outcome, if_fund, form, set_profile, alloc, redeem, reset_locked}
use stockastic.Funds.Events.{
  Op, Event, Fund, Risk, FundCheckpoint, Checkpoint, unknown_fund, bad_event, op_formed, op_profile,
  op_alloc, op_redeem, op_series, op_checkpoint, op_log, op_score, op_fund_dq, op_trader,
  op_dissolve, op_other,
}

module _ {W : Type 0} ⦃f : Float W⦄ where
  abbrev fresh_risk : ℤ → Risk W
  fresh_risk v = record {
    first = v;
    peak = v;
    max_dd = f.zero_float;
    div_sum = f.zero_float;
    div_n = 0;
  }

  abbrev pub seen_value : Risk W → ℤ → Risk W
  seen_value r v =
      let r' = if ltb_ℤ r.peak v then record r { peak = v } else r in
      if ltb_ℤ (pos 0) r'.peak
      then record r' {
        max_dd = f.max r'.max_dd (f.div (f.of_int (sub64 r'.peak v)) (f.of_int r'.peak));
      }
      else r'

  abbrev risk_or : Option (Risk W) → Risk W → Risk W
  risk_or none r = r
  risk_or (some r') r = r'

  unfoldable pub add_values : Dict Str (Risk W) → Dict Str ℤ → Dict Str (Risk W)
  add_values rs [] = rs
  add_values rs ((id, v) ∷ vs) =
      add_values (insert id (seen_value (risk_or (lookup id rs) (fresh_risk v)) v) rs) vs

  abbrev spread : Risk W → W → Risk W
  spread r d = record r { div_sum = f.add r.div_sum d; div_n = suc r.div_n }

  unfoldable pub add_spreads : Dict Str (Risk W) → Dict Str W → Dict Str (Risk W)
  add_spreads rs [] = rs
  add_spreads rs ((id, d) ∷ ds) =
      add_spreads (insert id (spread (risk_or (lookup id rs) (fresh_risk (pos 0))) d) rs) ds

  abbrev pub seen_nav : W → Fund W → Fund W
  seen_nav nav fd =
      let fd' = if f.lt fd.peak_nav nav then record fd { peak_nav = nav } else fd in
      if f.lt f.zero_float fd'.peak_nav
      then record fd' { max_dd = f.max fd'.max_dd (f.div (f.sub fd'.peak_nav nav) fd'.peak_nav) }
      else fd'

  abbrev pub update_at : Option ℕ → (Fund W → Fund W) → List (Fund W) → List (Fund W)
  update_at none g fs = fs
  update_at (some i) g fs = update fs i g

  -- A change of the fund that an id points to, if there is one.
  abbrev pub with_fund : Dict Str ℕ → Str → (Fund W → Fund W) → List (Fund W) → List (Fund W)
  with_fund by_id id g fs = update_at (lookup id by_id) g fs

  unfoldable pub add_navs : Dict Str ℕ → Dict Str W → List (Fund W) → List (Fund W)
  add_navs by_id [] fs = fs
  add_navs by_id ((id, nav) ∷ navs) fs = add_navs by_id navs (with_fund by_id id (seen_nav nav) fs)

  abbrev pub seen_aum : ℤ → Fund W → Fund W
  seen_aum aum fd = record fd { aum_sum = f.add fd.aum_sum (f.of_int aum); aum_n = suc fd.aum_n }

  unfoldable pub add_aums : Dict Str ℕ → Dict Str ℤ → List (Fund W) → List (Fund W)
  add_aums by_id [] fs = fs
  add_aums by_id ((id, aum) ∷ aums) fs = add_aums by_id aums (with_fund by_id id (seen_aum aum) fs)

  unfoldable pub sample : Book W → Event W → Book W
  unfolding add_values add_spreads add_navs add_aums
  sample b ev = record b {
    risks = add_spreads (add_values b.risks ev.values) ev.div;
    funds = add_aums b.by_id ev.aums (add_navs b.by_id ev.navs b.funds);
  }

  abbrev pub settled : FundCheckpoint W → Fund W → Fund W
  settled fc fd = record fd { hwm = fc.hwm_after; aum_sum = f.zero_float; aum_n = 0 }

  unfoldable pub settle_all : Dict Str ℕ → List (FundCheckpoint W) → List (Fund W) → List (Fund W)
  settle_all by_id [] fs = fs
  settle_all by_id (fc ∷ fcs) fs = settle_all by_id fcs (with_fund by_id fc.fund_id (settled fc) fs)

  abbrev pub pass_checkpoint : Book W → Option (Checkpoint W) → Outcome W
  pass_checkpoint b none = (b, some bad_event)
  pass_checkpoint b (some c) =
      (record b { funds = settle_all b.by_id c.funds b.funds; checks = b.checks ++ c ∷ [] }, none)

  abbrev pub add_log : Book W → Event W → Outcome W
  add_log b ev = elim ev.log [
    | none ↦ (b, some bad_event)
    | some l ↦ (record b { logs = b.logs ++ l ∷ [] }, none)
  ]

  abbrev pub add_scores : Book W → Event W → Outcome W
  add_scores b ev =
      if is_empty ev.investor
      then (b, some bad_event)
      else (record b { scores = insert ev.investor ev.scores b.scores }, none)

  abbrev pub is_member : Fund W → Str → Bool
  is_member fd account = str_eq account fd.formed.member || str_eq account fd.formed.other_member

  abbrev pub set_trader : Str → Fund W → Fund W
  set_trader account fd = record fd { formed = let g = fd.formed in record g { trader = account } }

  unfoldable pub choose_trader : Book W → Event W → Outcome W
  choose_trader b ev = if_fund b ev.fund_id λ i. elim (get_elem? b.funds i) [
    | none ↦ (b, some unknown_fund)
    | some fd ↦
        if is_member fd ev.investor
        then (record b { funds = update b.funds i (set_trader ev.investor) }, none)
        else (b, some unknown_fund)
  ]

  unfoldable pub disqualify : Book W → Event W → Outcome W
  disqualify b ev =
      if_fund b ev.fund_id
        λ i. (record b { funds = update b.funds i (λ fd. record fd { disqualified = true }) }, none)

  abbrev pub apply_op : Op → Book W → Event W → Outcome W
  apply_op op_formed b ev = form b ev
  apply_op op_profile b ev = set_profile b ev
  apply_op op_alloc b ev = alloc b ev
  apply_op op_redeem b ev = redeem b ev
  apply_op op_series b ev = (sample b ev, none)
  apply_op op_checkpoint b ev = pass_checkpoint b ev.checkpoint
  apply_op op_log b ev = add_log b ev
  apply_op op_score b ev = add_scores b ev
  apply_op op_trader b ev = choose_trader b ev
  apply_op op_dissolve b ev = (reset_locked b, none)
  apply_op op_fund_dq b ev = disqualify b ev
  apply_op op_other b ev = (b, some bad_event)

  unfoldable pub apply : Book W → Event W → Outcome W
  apply b ev = apply_op ev.op b ev
