-- ===== src/Log/Rules.antt =====
-- Which records a newer one replaces (apps/api/internal/app/app.go, `CompactRules`; the kinds are those of
-- apps/api/internal/store/store.go). `field` finds a text in a record's JSON, by its path, or gives the
-- empty text.
use stockastic.Log.Compaction.{Rule}
use stockastic.Log.Kinds
use stockastic.Market.{max_history}
use stockastic.Prelude.{none, some, List, [], ◌∷◌}
use stockastic.Prelude.Dict.{Dict}
use stockastic.Prelude.Str.{Str, codes}

module _ {V : Type 0} (field : List Str → V → Str) where
  latest_by : List Str → Rule V
  latest_by path = record { latest = 1; key = some (field path) }

  unfoldable pub compact_rules : Dict Str (Rule V)
  unfolding latest_by
  compact_rules =
      (Kinds.user, latest_by (codes "ID" ∷ []))
      ∷ (Kinds.member, latest_by (codes "ID" ∷ []))
      ∷ (Kinds.watch, latest_by (codes "team" ∷ []))
      ∷ (Kinds.clock, record { latest = 1; key = none })
      ∷ (Kinds.news, latest_by (codes "Item" ∷ codes "ID" ∷ []))
      ∷ (Kinds.ticket, latest_by (codes "Ticket" ∷ codes "ID" ∷ []))
      ∷ (Kinds.pause, latest_by (codes "symbol" ∷ []))
      ∷ (Kinds.setting, latest_by (codes "key" ∷ []))
      ∷ (Kinds.prices, record { latest = max_history; key = none })
      ∷ []
