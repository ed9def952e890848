-- ===== src/Tests/FundRuns.antt =====
-- Funds formed, and money put into one of them. A `float64` is a whole number here.
use stockastic.Prelude.Dict.{lookup, insert, some_eq, str_key}
use stockastic.Prelude.Int64.{wrap}
use stockastic.Prelude.Str.{Str, codes, str_eq}
use stockastic.Prelude.{
  if◌then◌else◌, List, ◌≡◌, ◌∷◌, true, [], none, ap, refl, some, sym, suc, zero, get_elem?,
}
use stockastic.Prelude.Int.{ℤ, pos, ltb_ℤ, leb_ℤ, max_ℤ, quot, ◌+ℤ◌, ◌-ℤ◌, ◌*ℤ◌}
use stockastic.Funds.Float.{Float}
use stockastic.Funds.Events.{Event, Formed, op_other, op_formed, op_alloc, Fund}
use stockastic.Funds.Book.{Book, new_book, form, add_funds, new_fund, add_seeds, alloc}
use stockastic.Funds.Inflow.{apply_all, allocated, inflow-apply_all}
use stockastic.Funds.Indexed.{IsIndexed, apply_all-IsIndexed, new_book-IsIndexed, fund-apply_all}
use stockastic.Funds.Marks.{Owns, get_elem?-checkpoint}
use stockastic.Funds.Reads.{inflow, fund, plan_checkpoint}
use stockastic.Funds.Apply.{pass_checkpoint, apply}

instance abbrev pub whole_float : Float ℤ
whole_float = record {
  zero_float = pos 0;
  one_float = pos 1;
  hundred = pos 100;
  add = ◌+ℤ◌;
  sub = ◌-ℤ◌;
  mul = ◌*ℤ◌;
  div = quot;
  lt = ltb_ℤ;
  le = leb_ℤ;
  max = max_ℤ;
  min = λ x y. if ltb_ℤ x y then x else y;
  floor = λ x. x;
  ceil = λ x. x;
  is_finite = λ x. true;
  million = pos 1000000;
  billionth = pos 0;
  millionth = pos 0;
  spare = pos 1;
  of_int = λ x. x;
  to_int = λ x. x;
  round = λ x. x;
}

abbrev pub blank : Event ℤ
blank = record {
  op = op_other;
  at = pos 0;
  funds = [];
  ranking = [];
  seed = pos 0;
  fund_id = [];
  profile = none;
  window = pos 0;
  investor = [];
  amount = pos 0;
  units = pos 0;
  nav = pos 0;
  values = [];
  navs = [];
  aums = [];
  div = [];
  checkpoint = none;
  moves = [];
  seeds = [];
  log = none;
  scores = [];
}

abbrev pub f1 : Str
f1 = codes "F1"

abbrev pub account1 : Str
account1 = codes "fund:F1"

abbrev pub first_fund : Formed
first_fund = record {
  id = f1;
  number = pos 1;
  account = account1;
  member = codes "a";
  other_member = codes "b";
  trader = codes "a";
  ranks = (pos 1, pos 2);
}

abbrev pub forming : Event ℤ
forming = record blank { op = op_formed; funds = first_fund ∷ [] }

abbrev putting : Str → ℤ → Event ℤ
putting id amount = record blank {
  op = op_alloc;
  fund_id = id;
  investor = codes "c";
  amount = amount;
  units = pos 1;
}

abbrev events : List (Event ℤ)
events = forming ∷ putting f1 (pos 300) ∷ putting (codes "F9") (pos 7) ∷ putting f1 (pos 200) ∷ []

inflow-apply_all_example :
    let (b, log) = apply_all (new_book (pos 10)) events in
    inflow b (pos 0) f1 ≡ wrap (allocated (pos 0) f1 (pos 0) log)
inflow-apply_all_example = inflow-apply_all (pos 10) events (pos 0) f1

inflow_sums : inflow (apply_all (new_book (pos 10)) events).0 (pos 0) f1 ≡ pos 500
unfolding inflow apply_all new_book apply form add_funds new_fund add_seeds alloc lookup insert
    str_eq wrap ◌+ℤ◌
inflow_sums = refl

fund-apply_all_example :
    let b = (apply_all (new_book (pos 10)) events).0 in
    (fd : Fund ℤ) × (fund b f1 ≡ some fd) × (fd.formed.id ≡ f1)
unfolding apply_all new_book apply form add_funds new_fund add_seeds alloc lookup insert str_eq
fund-apply_all_example = fund-apply_all (pos 10) events f1 0 refl

abbrev pub formed_book : Book ℤ
formed_book = (apply_all (new_book (pos 10)) (forming ∷ [])).0

abbrev pub formed_fund : Fund ℤ
formed_fund = new_fund (pos 10) first_fund

pub formed_book-IsIndexed : IsIndexed formed_book
formed_book-IsIndexed =
    apply_all-IsIndexed (forming ∷ []) (new_book (pos 10)) (new_book-IsIndexed (pos 10))

pub formed_book-Owns : Owns formed_book.by_id formed_book.funds
unfolding apply_all new_book apply form add_funds new_fund add_seeds lookup insert str_eq
formed_book-Owns zero fd h =
    ap (λ (x : Fund ℤ). lookup x.formed.id formed_book.by_id) (sym (some_eq _ fd h))
formed_book-Owns (suc i) fd h = cc

get_elem?-checkpoint_example :
    let c =
      plan_checkpoint formed_book (codes "w") (pos 0) ((f1, pos 12) ∷ []) [] (pos 0) (pos 0) in
    get_elem? (pass_checkpoint formed_book (some c)).0.funds 0
    ≡ some (record formed_fund { hwm = pos 12; aum_sum = pos 0; aum_n = 0 })
unfolding apply_all new_book apply form add_funds new_fund add_seeds lookup str_eq
get_elem?-checkpoint_example =
    get_elem?-checkpoint formed_book (codes "w") (pos 0) ((f1, pos 12) ∷ []) [] (pos 0) (pos 0) 0
      formed_fund formed_book-Owns refl
