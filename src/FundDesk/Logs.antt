-- ===== src/FundDesk/Logs.antt =====
-- Strategy logs, the trader of a fund and a fund's disqualification (apps/api/internal/app/funds.go,
-- `SubmitLog`, `SetFundTrader` and `DisqualifyFund`). The audit entries and messages are left out.
use stockastic.Ledger.State.{Error}
use stockastic.Funds.Float.{Float}
use stockastic.Funds.Book.{Book, Outcome}
use stockastic.Prelude.Int.{ℤ, pos, eqb_ℤ, ltb_ℤ}
use stockastic.Prelude.{
  ℕ, List, Bool, Option, none, true, suc, if◌then◌else◌, some, ◌∷◌, false, ◌&&◌, not, [], ◌==◌,
  ◌||◌, ltb, leb, ◌*◌, length,
}
use stockastic.Prelude.Str.{Str, codes, str_eq, is_empty}
use stockastic.Funds.Events.{
  FundError, StrategyLog, Checkpoint, Event, op_log, unknown_fund, op_trader, op_fund_dq,
}
use stockastic.FundDesk.{FundDesk, Around, User}
use stockastic.FundDesk.Orders.{store_event, no_event}
use stockastic.FundDesk.Limits.{is_investor}
use stockastic.Funds.Reads.{fund, logs_of}
use stockastic.Funds.Apply.{apply, is_member}

pub data DeskError : Type 0 where
  not_for_investors not_in_phase2 invalid_log too_many_logs not_a_member : DeskError
  from_book : FundError → DeskError
  from_journal : Error → DeskError

-- `strings.HasPrefix(s, prefix)`
unfoldable pub has_prefix : Str → Str → Bool
has_prefix s [] = true
has_prefix [] (c ∷ prefix) = false
has_prefix (b ∷ s) (c ∷ prefix) = let rest = has_prefix s prefix in b == c && rest

abbrev pub is_later_window : Str → Bool
is_later_window name = has_prefix name (codes "window ") && not (str_eq name (codes "window 0"))

abbrev pub max_log_chars : ℕ
max_log_chars = 600

abbrev pub max_logs_per_checkpoint : ℕ
max_logs_per_checkpoint = 3

unfoldable pub count_at : ℤ → List StrategyLog → ℕ
count_at n [] = 0
count_at n (l ∷ ls) = let rest = count_at n ls in if eqb_ℤ l.checkpoint n then suc rest else rest

module _ {W : Type 0} where
  unfoldable pub count_windows_closed : List (Checkpoint W) → ℕ
  unfolding has_prefix
  count_windows_closed [] = 0
  count_windows_closed (c ∷ cs) =
      let rest = count_windows_closed cs in if is_later_window c.name then suc rest else rest

  -- At most the rulebook's number of checkpoints.
  unfoldable pub log_checkpoint : Book W → ℤ → ℤ
  unfolding count_windows_closed
  log_checkpoint b most =
      let n = pos (suc (count_windows_closed b.checks)) in if ltb_ℤ most n then most else n

module _ {J W G : Type 0} ⦃f : Float W⦄ (a : Around J W G) where
  abbrev pub Ended : Type 0
  Ended = FundDesk J W × Option DeskError

  abbrev pub applied : FundDesk J W → Outcome W → Ended
  applied d (b, none) = (record d { book = b }, none)
  applied d (b, some e) = (record d { book = b }, some (from_book e))

  abbrev pub if_stored : FundDesk J W → Event W → J × Option Error → Ended
  if_stored d ev (j, some e) =
      (record d { exec = let x = d.exec in record x { journal = j } }, some (from_journal e))
  if_stored d ev (j, none) =
      applied (record d { exec = let x = d.exec in record x { journal = j } }) (apply d.book ev)

  -- `fundAppend`, then `Apply`
  unfoldable pub store_and_apply : FundDesk J W → Event W → Ended
  store_and_apply d ev = if_stored d ev (store_event a ev d.exec.journal)

  abbrev pub log_event : Str → Str → ℤ → Event W
  log_event account text checkpoint = record (no_event a) {
    op = op_log;
    log = some (record { account = account; checkpoint = checkpoint; text = text; at = a.at });
  }

  -- `text` without spaces around it, and how many characters it has.
  unfoldable pub submit_log : FundDesk J W → User → Str → ℕ → Bool → ℤ → Ended
  unfolding store_and_apply log_checkpoint count_at
  submit_log d u text chars phase2 most =
      let mine = logs_of u.id d.book.logs in
      let here = log_checkpoint d.book most in
      if not (is_investor u.role) || u.is_admin
      then (d, some not_for_investors)
      else if not phase2
      then (d, some not_in_phase2)
      else if is_empty text || ltb max_log_chars chars
      then (d, some invalid_log)
      else if leb max_logs_per_checkpoint (count_at here mine)
          || leb (max_logs_per_checkpoint * 4) (length mine)
      then (d, some too_many_logs)
      else store_and_apply d (log_event u.id text here)

  unfoldable pub set_fund_trader : FundDesk J W → Str → Str → Ended
  unfolding store_and_apply
  set_fund_trader d fund_id account = elim (fund d.book fund_id) [
    | none ↦ (d, some (from_book unknown_fund))
    | some fd ↦
        if not (is_member fd account)
        then (d, some not_a_member)
        else store_and_apply d
            (record (no_event a) { op = op_trader; fund_id = fund_id; investor = account })
  ]

  unfoldable pub disqualify_fund : FundDesk J W → Str → Ended
  unfolding store_and_apply
  disqualify_fund d id = elim (fund d.book id) [
    | none ↦ (d, some (from_book unknown_fund))
    | some _ ↦ store_and_apply d (record (no_event a) { op = op_fund_dq; fund_id = id })
  ]
