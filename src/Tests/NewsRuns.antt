-- ===== src/Tests/NewsRuns.antt =====
-- One item of phase 2, and a pause of a second while the public waits for it.
use stockastic.News.Waking.{IsOutAt, wake_when_due, publish-IsOutAt}
use stockastic.Prelude.Dict.{lookup, insert, erase}
use stockastic.Prelude.Int.{ℤ, pos, ◌+ℤ◌, ◌-ℤ◌}
use stockastic.Prelude.{List, [], true, false, ◌∷◌, All, ◌≡◌, refl, arith}
use stockastic.Prelude.Str.{codes, str_eq}
use stockastic.News.{
  Item, new, news, public_feed, history, publish, deliver, schedule_public, wait_on, wake,
  run_timer, finish, shown,
}
use stockastic.News.Lead.{LeadKept}
use stockastic.News.Runs.{Call, publish_item, wake_timer, run, step}
use stockastic.News.Waits.{run-LeadKept}

abbrev item : Item
item = record { id = codes "n1"; kind = news; headline = codes "Up"; body = []; created_at = pos 0 }

abbrev calls : List (Call × ℤ)
calls =
    (publish_item item true false, pos 0)
    ∷ (wake_timer 0 true, pos 250_000_000)
    ∷ (wake_timer 0 false, pos 1_250_000_000)
    ∷ []

abbrev lead : ℤ
lead = pos 1_000_000_000

run-LeadKept_example : let d = (run (new lead true) calls).0 in All (LeadKept d.lead) d.releases
unfolding run step new publish deliver schedule_public wait_on wake run_timer finish lookup insert
    erase str_eq ◌+ℤ◌ ◌-ℤ◌
run-LeadKept_example = run-LeadKept lead true calls (((refl, tt), refl), (tt, (tt, tt)))

-- The event ran for a quarter of a second in all, and the public has the item.
public_has_item : history (run (new lead true) calls).0 public_feed ≡ item ∷ []
unfolding history run step new publish deliver schedule_public wait_on wake run_timer finish lookup
    insert erase str_eq ◌+ℤ◌ ◌-ℤ◌ shown
public_has_item = refl

publish-IsOutAt_example :
    IsOutAt 0 (wake_when_due 4 (publish (new lead true) item true false (pos 0)).0)
unfolding new
publish-IsOutAt_example =
    publish-IsOutAt (new lead true) item 3 (pos 0) refl refl refl (omega arith) (omega arith)
