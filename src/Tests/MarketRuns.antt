-- ===== src/Tests/MarketRuns.antt =====
-- A market of two companies, and its prices over a few ticks.
use stockastic.Prelude.Dict.{lookup, insert}
use stockastic.Prelude.Str.{codes, Str, str_eq}
use stockastic.Prelude.Int.{pos, ℤ}
use stockastic.Prelude.{List, ◌∷◌, [], ◌≡◌, some, refl}
use stockastic.Market.{new, set_price, set_all, price, push, drop_later}
use stockastic.Market.History.{AllHistories, changed, changed-new, Change, sets, sets_all}

abbrev companies : List (Str × ℤ)
companies = (codes "A", pos 100) ∷ (codes "B", pos 50) ∷ []

-- The second change is earlier than the first.
abbrev changes : List Change
changes = sets (codes "A") (pos 110) (pos 20) ∷ sets_all ((codes "A", pos 90) ∷ []) (pos 10) ∷ []

changed-new_example : AllHistories (changed (new companies (pos 0)) changes)
changed-new_example = changed-new companies (pos 0) changes

earlier_price_replaces : price (changed (new companies (pos 0)) changes) (codes "A") ≡ some (pos 90)
unfolding changed new set_price set_all push drop_later price lookup insert str_eq
earlier_price_replaces = refl
