-- ===== src/Log/Compaction.antt =====
-- Compaction (apps/api/internal/store/compact.go): the log is written again without the records that a
-- newer one has replaced. The map of maps of groups is one map, from pairs of a kind and a key. A rule's
-- number is not negative.
pub mod Rewriting
pub mod Positions
pub mod Scanning
pub mod Plans
pub mod Newest
pub mod Groups
pub mod Survivors
pub mod Lines
pub mod Kept
pub mod Outcome
use stockastic.Log.{Envelope, Json, lines, newline}
use stockastic.Prelude.{
  ℕ, ◌+◌, ◌-◌, Bool, true, false, ◌&&◌, ◌||◌, Option, none, some, List, [], ◌∷◌, ◌++◌, ◌==◌, ltb,
  leb, if◌then◌else◌, length, take, drop, set, get_or, replicate,
}
use stockastic.Prelude.Dict.{Dict, Eq, str_pair_key, str_key, nat_key, lookup, insert}
use stockastic.Prelude.Str.{Str, is_empty}

pub record Rule (V : Type 0) : Type 0 where
  pub latest : ℕ
  pub key : Option (V → Str)

-- The field `length` is `size`.
pub record RecPos : Type 0 where
  pub idx : ℕ
  pub off : ℕ
  pub size : ℕ

abbrev pub Group : Type 0
Group = Str × Str

-- The groups, where the valid part of the file ends, and the number of its records.
pub record Scan : Type 0 where
  pub groups : Dict Group (List RecPos)
  pub off : ℕ
  pub n : ℕ

pub record Plan : Type 0 where
  pub dropped : List Bool
  pub replace_with : Dict ℕ RecPos

unfoldable pub positions_in : Dict Group (List RecPos) → Group → List RecPos
positions_in groups g = elim (lookup g groups) [ none ↦ [] | some recs ↦ recs ]

unfoldable pub add_to_group :
    Dict Group (List RecPos) → Option Group → RecPos → Dict Group (List RecPos)
unfolding positions_in
add_to_group groups none p = groups
add_to_group groups (some g) p = insert g (positions_in groups g ++ p ∷ []) groups

abbrev pub no_groups : Scan
no_groups = record { groups = []; off = 0; n = 0 }

unfoldable pub mark_all : List RecPos → List Bool → List Bool
mark_all [] dropped = dropped
mark_all (p ∷ ps) dropped = mark_all ps (set dropped p.idx true)

unfoldable pub last_of : RecPos → List RecPos → RecPos
last_of p [] = p
last_of p (q ∷ ps) = last_of q ps

-- `Latest` is 1: the newest content goes where the first record was.
unfoldable pub keep_newest : Plan → List RecPos → Plan
unfolding mark_all last_of
keep_newest pl [] = pl
keep_newest pl (first ∷ rest) = record {
  dropped = mark_all rest pl.dropped;
  replace_with = insert first.idx (last_of first rest) pl.replace_with;
}

unfoldable pub count_dropped : List Bool → ℕ
count_dropped [] = 0
count_dropped (d ∷ ds) = (if d then 1 else 0) + count_dropped ds

module _ {V : Type 0} (j : Json V) where
  -- A line that is a record; the first that is none ends the valid part.
  unfoldable pub record_of : Str → Option (Envelope V)
  record_of line = elim (j.unmarshal line) [
    | none ↦ none
    | some e ↦ if is_empty e.k then none else some e
  ]

module _ {V : Type 0} (rules : Dict Str (Rule V)) where
  -- The group of a record that a rule covers.
  unfoldable pub group_of : Envelope V → Option Group
  group_of e = elim (lookup e.k rules) [
    | none ↦ none
    | some rule ↦
        if ltb 0 rule.latest then some (e.k, elim rule.key [ none ↦ [] | some f ↦ f e.v ]) else none
  ]

  unfoldable pub scan_line : Scan → Str → Envelope V → Scan
  unfolding add_to_group
  scan_line s line e = record {
    groups =
        add_to_group s.groups (group_of e) (record { idx = s.n; off = s.off; size = length line });
    off = s.off + length line;
    n = s.n + 1;
  }

  unfoldable pub latest_of : Str → ℕ
  latest_of kind = elim (lookup kind rules) [ none ↦ 0 | some rule ↦ rule.latest ]

  unfoldable pub plan_group : Plan → Group → List RecPos → Plan
  unfolding keep_newest latest_of
  plan_group pl g recs =
      let keep = latest_of g.0 in
      if leb (length recs) keep
      then pl
      else if keep == 1
      then keep_newest pl recs
      else record pl { dropped = mark_all (take (length recs - keep) recs) pl.dropped }

  unfoldable pub plan_all : Plan → Dict Group (List RecPos) → Plan
  plan_all pl [] = pl
  plan_all pl ((g, recs) ∷ groups) = plan_all (plan_group pl g recs) groups

module _ {V : Type 0} (j : Json V) (rules : Dict Str (Rule V)) where
  -- Pass 1.
  unfoldable pub scan_from : Scan → List Str → Scan
  unfolding record_of
  scan_from s [] = s
  scan_from s (line ∷ ls) = elim (record_of j line) [
    | none ↦ s
    | some e ↦ scan_from (scan_line rules s line e) ls
  ]
