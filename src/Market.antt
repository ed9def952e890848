-- ===== src/Market.antt =====
-- The current prices and their recent history (apps/api/internal/market/market.go). Of a company
-- (`universe.Company`) the market reads the symbol and the open_series price.
pub mod History
use stockastic.Prelude.Sort.{sort_by}
use stockastic.Prelude.Str.{Str, str_lt}
use stockastic.Prelude.Dict.{Dict, lookup, insert, str_key}
use stockastic.Prelude.Int.{ℤ, ltb_ℤ, leb_ℤ, pos}
use stockastic.Prelude.{
  ℕ, List, ◌∷◌, [], Option, if◌then◌else◌, ◌++◌, ltb, none, length, map, some, drop, ◌-◌,
}

abbrev pub max_history : ℕ
max_history = 2_000

pub record Point : Type 0 where
  pub price : ℤ
  pub at : ℤ

pub record Series : Type 0 where
  pub opening : ℤ
  pub cur : ℤ
  pub pts : List Point  -- oldest first

abbrev pub Prices : Type 0
Prices = Dict Str Series

abbrev pub open_series : ℤ → ℤ → Series
open_series opening start = record {
  opening = opening;
  cur = opening;
  pts = record { price = opening; at = start } ∷ [];
}

abbrev pub add_companies : Prices → List (Str × ℤ) → ℤ → Prices
add_companies p [] start = p
add_companies p ((symbol, opening) ∷ cs) start =
    add_companies (insert symbol (open_series opening start) p) cs start

unfoldable pub new : List (Str × ℤ) → ℤ → Prices
new cs start = add_companies [] cs start

unfoldable pub price : Prices → Str → Option ℤ
price p symbol = elim (lookup symbol p) [ none ↦ none | some s ↦ some s.cur ]

unfoldable pub open_price : Prices → Str → Option ℤ
open_price p symbol = elim (lookup symbol p) [ none ↦ none | some s ↦ some s.opening ]

-- The points at the end that are later than `at` go.
unfoldable pub drop_later : ℤ → List Point → List Point
drop_later at [] = []
drop_later at (p ∷ ps) = elim (drop_later at ps) [
  | [] ↦ if ltb_ℤ at p.at then [] else p ∷ []
  | q ∷ qs ↦ p ∷ q ∷ qs
]

abbrev pub keep_recent : List Point → List Point
keep_recent ps = if ltb max_history (length ps) then drop (length ps - max_history) ps else ps

unfoldable pub push : Series → ℤ → ℤ → Series
push s price at = record s {
  cur = price;
  pts = keep_recent (drop_later at s.pts ++ record { price = price; at = at } ∷ []);
}

unfoldable pub set_price : Prices → Str → ℤ → ℤ → Prices
set_price p symbol price at = elim (lookup symbol p) [
  | none ↦ p
  | some s ↦ if leb_ℤ price (pos 0) then p else insert symbol (push s price at) p
]

-- Go's order over the map is not fixed: the list is in the order that it takes.
unfoldable pub set_all : Prices → List (Str × ℤ) → ℤ → Prices
set_all p [] at = p
set_all p ((symbol, px) ∷ prices) at = set_all (set_price p symbol px at) prices at

unfoldable pub history : Prices → Str → List Point
history p symbol = elim (lookup symbol p) [ none ↦ [] | some s ↦ s.pts ]

unfoldable pub all_prices : Prices → Dict Str ℤ
all_prices [] = []
all_prices ((symbol, s) ∷ p) = (symbol, s.cur) ∷ all_prices p

unfoldable pub symbols : Prices → List Str
symbols p = sort_by str_lt (map (λ e. e.0) p)

pub record Frozen : Type 0 where
  pub name : Str
  pub at : ℤ
  pub prices : Dict Str ℤ

unfoldable pub freeze : Prices → Str → ℤ → Frozen
freeze p name at = record { name = name; at = at; prices = all_prices p }

unfoldable pub frozen_price : Frozen → Str → Option ℤ
frozen_price s symbol = lookup symbol s.prices

unfoldable pub reset : Prices → List (Str × ℤ) → ℤ → Prices
reset p cs start = new cs start
