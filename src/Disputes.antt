-- ===== src/Disputes.antt =====
-- Disputes (apps/api/internal/disputes/disputes.go). An incident without a time, the zero time, is
-- `none`; ids are given.
pub mod Lateness
use stockastic.Prelude.Int64.{mul64}
use stockastic.Prelude.Int.{ℤ, ◌+ℤ◌, ltb_ℤ}
use stockastic.Prelude.Str.{Str, codes}
use stockastic.Prelude.{ℕ, List, Option, Bool, ◌∷◌, false, [], some, none}
use stockastic.EventClock.State.{time_sub}
use stockastic.EventClock.Blocks.{minute, contains}

abbrev category_names : List Str
category_names =
    codes "incorrect_transaction"
    ∷ codes "missed_announcement"
    ∷ codes "fund_allocation"
    ∷ codes "news_release_timing"
    ∷ codes "suspected_violation"
    ∷ codes "final_settlement"
    ∷ codes "other"
    ∷ []

unfoldable pub valid : Str → Bool
unfolding contains
valid category = contains category_names category

pub record Ticket : Type 0 where
  pub id : Str
  pub account : Str
  pub category : Str
  pub summary : Str
  pub raised_at : ℤ
  pub incident_at : Option ℤ
  pub late : Bool
  pub due_by : ℤ

pub record Config : Type 0 where
  pub raise_within : ℤ
  pub decision_target : ℤ

unfoldable pub from_rulebook : ℤ → ℤ → Config
from_rulebook raise_within_minutes decision_target_minutes = record {
  raise_within = mul64 raise_within_minutes minute;
  decision_target = mul64 decision_target_minutes minute;
}

abbrev is_late : Config → Option ℤ → ℤ → Bool
is_late c none now = false
is_late c (some incident) now = ltb_ℤ c.raise_within (time_sub now incident)

unfoldable pub raise : Config → Str → Str → Str → Str → Option ℤ → ℤ → Ticket
raise c id account category summary incident_at now = record {
  id = id;
  account = account;
  category = category;
  summary = summary;
  raised_at = now;
  incident_at = incident_at;
  late = is_late c incident_at now;
  due_by = now +ℤ c.decision_target;
}
