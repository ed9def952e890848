-- ===== src/FundDesk/LogBounds.antt =====
-- How many strategy logs an account has (apps/api/internal/app/funds.go, `SubmitLog`).
use stockastic.FundDesk.Orders.{store_event}
use stockastic.FundDesk.Limits.{is_investor}
use stockastic.Prelude.Dict.{eqb_ℤ_iff}
use stockastic.Ledger.State.{Error}
use mathlib.Core.Path.{subst}
use stockastic.Funds.Apply.{apply}
use stockastic.Funds.Float.{Float}
use stockastic.Funds.Events.{StrategyLog}
use stockastic.Prelude.{
  List, ◌++◌, ◌<◌, ◌∷◌, ◌≡◌, length, [], false, if◌then◌else◌, ◌≤◌, Bool-cases, ◌||◌, arith, suc,
  inl, inr, ◌∙◌, Option, ℕ, if-cases, Bool, not, some, length-append, none, sym, ltb, refl, leb,
  ◌*◌,
}
use stockastic.Prelude.Int.{ℤ, eqb_ℤ}
use stockastic.Prelude.Str.{Str, is_empty, str_eq, str_eq_iff}
use stockastic.FundDesk.{FundDesk, Around, User}
use stockastic.FundDesk.Logs.{
  submit_log, count_at, log_checkpoint, if_stored, log_event, Ended, store_and_apply, max_log_chars,
  max_logs_per_checkpoint,
}
use stockastic.Funds.Reads.{logs_of}

logs_of-append :
    (account : Str) (ls : List StrategyLog) (l : StrategyLog)
    → logs_of account (ls ++ l ∷ []) ≡ (
        if is_empty account || str_eq l.account account
        then logs_of account ls ++ l ∷ []
        else logs_of account ls)
unfolding logs_of
logs_of-append account [] l = ground arith
logs_of-append account (x ∷ ls) l = rw (logs_of-append account ls l) (ground arith)

count_at-append :
    (n : ℤ) (ls : List StrategyLog) (l : StrategyLog)
    → count_at n (ls ++ l ∷ [])
      ≡ (if eqb_ℤ l.checkpoint n then suc (count_at n ls) else count_at n ls)
unfolding count_at
count_at-append n [] l = ground arith
count_at-append n (x ∷ ls) l = rw (count_at-append n ls l) (ground arith)

-- No account has more than three logs for one checkpoint, nor more than twelve.
abbrev pub IsWithinLimits : List StrategyLog → Type 0
IsWithinLimits logs =
    (account : Str)
    → is_empty account ≡ false
    → ((n : ℤ) → count_at n (logs_of account logs) ≤ 3) × (length (logs_of account logs) ≤ 12)

one_more-IsWithinLimits :
    (logs : List StrategyLog) (l : StrategyLog)
    → IsWithinLimits logs
    → count_at l.checkpoint (logs_of l.account logs) < 3
    → length (logs_of l.account logs) < 12
    → IsWithinLimits (logs ++ l ∷ [])
one_more-IsWithinLimits logs l h few some_left account named =
    elim (Bool-cases (str_eq l.account account)) [
      | inl own ↦
          let who = (str_eq_iff l.account account).0 own in
          let now : logs_of account (logs ++ l ∷ []) ≡ logs_of account logs ++ l ∷ [] =
            logs_of-append account logs l ∙ rw own (ground arith) in
          let few' = subst (λ x. count_at l.checkpoint (logs_of x logs) < 3) who few in
          let some_left' = subst (λ x. length (logs_of x logs) < 12) who some_left in
          (
            λ n.
                rw (now, count_at-append n (logs_of account logs) l)
                  (if-cases (λ m. m ≤ 3) (eqb_ℤ l.checkpoint n)
                    (suc (count_at n (logs_of account logs))) (count_at n (logs_of account logs))
                    (λ same.
                      subst (λ k. suc (count_at k (logs_of account logs)) ≤ 3)
                        ((eqb_ℤ_iff l.checkpoint n).0 same) few')
                    (λ _. (h account named).0 n)),
            rw now (omega (arith, some_left', length-append (logs_of account logs) (l ∷ []))),
          )
      | inr other ↦
          subst (λ (ls : List StrategyLog). ((n : ℤ) → count_at n ls ≤ 3) × (length ls ≤ 12))
            (sym (logs_of-append account logs l ∙ rw (named, other) refl)) (h account named)
    ]

module _ {J W G : Type 0} ⦃f : Float W⦄ (a : Around J W G) where
  abbrev Limited : Ended a → Type 0
  Limited o = IsWithinLimits o.0.book.logs

  stored-Limited :
      (d : FundDesk J W) (account text : Str) (checkpoint : ℤ) (x : J × Option Error)
      → IsWithinLimits d.book.logs
      → count_at checkpoint (logs_of account d.book.logs) < 3
      → length (logs_of account d.book.logs) < 12
      → Limited (if_stored a d (log_event a account text checkpoint) x)
  unfolding apply
  stored-Limited d account text checkpoint (j, some e) h few some_left = h
  stored-Limited d account text checkpoint (j, none) h few some_left =
      one_more-IsWithinLimits d.book.logs _ h few some_left

  -- A submission of a strategy log, accepted or refused, keeps every account within the limits: if no
  -- account had more than three logs for one checkpoint, nor more than twelve in all, none has them
  -- afterwards.
  pub submit_log-IsWithinLimits :
      (d : FundDesk J W) (u : User) (text : Str) (chars : ℕ) (phase2 : Bool) (most : ℤ)
      → IsWithinLimits d.book.logs
      → IsWithinLimits (submit_log a d u text chars phase2 most).0.book.logs
  unfolding submit_log store_and_apply
  submit_log-IsWithinLimits d u text chars phase2 most h =
      let mine = logs_of u.id d.book.logs in
      let here = log_checkpoint d.book most in
      if-cases Limited (not (is_investor u.role) || u.is_admin) _ _ (λ _. h)
        (λ _.
          if-cases Limited (not phase2) _ _ (λ _. h)
            (λ _.
              if-cases Limited (is_empty text || ltb max_log_chars chars) _ _ (λ _. h)
                (λ _.
                  if-cases Limited
                    (leb max_logs_per_checkpoint (count_at here mine)
                      || leb (max_logs_per_checkpoint * 4) (length mine))
                    _ _ (λ _. h)
                    (λ room.
                      stored-Limited d u.id text here
                        (store_event a (log_event a u.id text here) d.exec.journal) h (ground arith)
                        (ground arith)))))
