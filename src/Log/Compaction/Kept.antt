-- ===== src/Log/Compaction/Kept.antt =====
-- What compaction keeps (apps/api/internal/store/compact.go).
use stockastic.Log.{Json, lines}
use stockastic.Log.Compaction.{
  Rule, RecPos, Plan, Scan, Group, latest_of, plan_all, positions_in, scan_from, no_groups,
}
use stockastic.Log.Compaction.Lines.{split_from-parts, record_lines-parts}
use stockastic.Log.Compaction.Rewriting.{read_at}
use stockastic.Log.Compaction.Positions.{
  positions, positions-TaggedAt, positions-IsIncreasing, positions-lt, TaggedAt, IsAt, joined,
  joined-append,
}
use stockastic.Log.Compaction.Scanning.{
  record_lines, AreRecords, record_lines-AreRecords, scan-counts, positions_in-scan,
  positions_in-missing, positions_in-found, scan-TaggedAt, scan-HasOnce,
}
use stockastic.Log.Compaction.Newest.{drop_nil}
use stockastic.Log.Compaction.Plans.{
  newest, FreshAt, SameAt, written_at, written_at-same, written_at-fresh,
}
use stockastic.Log.Compaction.Groups.{
  AreTagged, ReplacesAlike, plan_all-other, plan_all-newest, plan_all-ReplacesAlike,
}
use stockastic.Log.Compaction.Survivors.{written, in_group, select-written, select-positions}
use stockastic.Prelude.{
  ℕ, ◌+◌, ◌-◌, ◌<◌, ◌≡◌, ◌∙◌, inl, inr, false, Option, none, some, List, [], ◌++◌, map, select,
  length, All, refl, sym, ap, arith, Option-cases, All-weaken, All-of_each, get_or-replicate,
  length-replicate, replicate,
}
use mathlib.Core.Path.{subst}
use mathlib.Core.List.{append_assoc}
use stockastic.Prelude.Dict.{Dict, str_pair_key, nat_key, str_key, lookup, AllEntries, lookup-nil}
use stockastic.Prelude.Str.{Str}

module _ {V : Type 0} (j : Json V) (rules : Dict Str (Rule V)) where
  -- Of each group the newest records, as many as the rule says; of the others all; and all in order.
  pub record Keeps (old new : List Str) : Type 0 where
    pub newest_of :
        (g : Group)
        → select (in_group j rules (some g)) new
          ≡ newest (latest_of rules g.0) (select (in_group j rules (some g)) old)
    pub others : select (in_group j rules none) new ≡ select (in_group j rules none) old

  module _ (bytes : Str) where
    abbrev pub all : List Str
    all = record_lines j (lines bytes)

    abbrev pub pass1 : Scan
    pass1 = scan_from j rules no_groups all

    abbrev pub untouched : Plan
    untouched = record { dropped = replicate pass1.n false; replace_with = [] }

    abbrev pub plan : Plan
    plan = plan_all rules untouched pass1.groups

    pub IsAt-start : IsAt j rules bytes all 0 0 all
    unfolding lines
    IsAt-start =
        let (torn, e) = split_from-parts [] bytes in
        let (rest, is) = record_lines-parts j (lines bytes) in
        record {
          before = [];
          torn = joined rest ++ torn;
          parts = refl;
          number = refl;
          start = refl;
          file =
              e
              ∙ ap (λ l. joined l ++ torn) is
              ∙ rw (joined-append all rest) (append_assoc (joined all) (joined rest) torn);
        }

    pub are : AreRecords j all
    are = record_lines-AreRecords j (lines bytes)

    tagged : AllEntries (AreTagged j rules bytes all) pass1.groups
    tagged = scan-TaggedAt j rules bytes all no_groups all are IsAt-start tt

    pub count : pass1.n ≡ length all
    count = (scan-counts j rules no_groups all are).0 ∙ omega arith

    fresh : (ps : List RecPos) → All (λ q. FreshAt untouched q.idx) ps
    fresh ps =
        All-of_each (λ q. FreshAt untouched q.idx) ps
          (λ q. (get_or-replicate pass1.n q.idx false, lookup-nil q.idx))

    pub alike : ReplacesAlike j rules bytes all plan
    alike =
        plan_all-ReplacesAlike j rules bytes all untouched pass1.groups tagged
          (λ k p found. cc (lookup-nil {V = RecPos} k))

    abbrev pub here : Option Group → List RecPos
    here t = positions j rules t 0 0 all

    found_here : (g : Group) → positions_in pass1.groups g ≡ positions j rules (some g) 0 0 all
    unfolding positions_in lookup
    found_here g = positions_in-scan j rules no_groups all g are ∙ refl

    range : (t : Option Group) → All (λ q. q.idx < length untouched.dropped) (here t)
    range t =
        All-weaken (λ (q : RecPos). q.idx < 0 + length all) (λ q. q.idx < length untouched.dropped)
          (here t) (λ q lt. rw (length-replicate pass1.n false, count) (omega arith))
          (positions-lt j rules t 0 0 all)

    nothing_written : (n : ℕ) → written_at bytes plan [] ≡ newest n (map (read_at bytes) [])
    unfolding written_at
    nothing_written n = sym (drop_nil (0 - n))

    pub planned :
        (g : Group)
        → written_at bytes plan (positions j rules (some g) 0 0 all)
          ≡ newest (latest_of rules g.0) (map (read_at bytes) (positions j rules (some g) 0 0 all))
    planned g = elim (Option-cases (lookup g pass1.groups)) [
      | inl missing ↦
          let none_here : positions j rules (some g) 0 0 all ≡ [] =
            sym (found_here g) ∙ positions_in-missing pass1.groups g missing in
          subst
            (λ ps. written_at bytes plan ps ≡ newest (latest_of rules g.0) (map (read_at bytes) ps))
            (sym none_here) (nothing_written (latest_of rules g.0))
      | inr (recs, found) ↦
          let is_here : recs ≡ positions j rules (some g) 0 0 all =
            sym (positions_in-found pass1.groups g recs found) ∙ found_here g in
          plan_all-newest j rules bytes all untouched pass1.groups g (here (some g)) tagged
            (scan-HasOnce j rules no_groups all are tt) (found ∙ ap some is_here)
            (positions-TaggedAt j rules bytes all (some g) 0 0 all IsAt-start)
            (positions-IsIncreasing j rules (some g) 0 0 all) (range (some g))
            (fresh (here (some g)))
    ]

    left_alone :
        written_at bytes plan (positions j rules none 0 0 all)
        ≡ map (read_at bytes) (positions j rules none 0 0 all)
    left_alone =
        written_at-same bytes plan untouched (here none) (
          All-weaken (TaggedAt j rules bytes all none) (λ p. SameAt plan untouched p.idx)
            (here none)
            (λ p h.
              plan_all-other j rules bytes all untouched pass1.groups none p.idx tagged tt
                (h.line, h.found, h.tagged))
            (positions-TaggedAt j rules bytes all none 0 0 all IsAt-start))
        ∙ written_at-fresh bytes untouched (here none) (fresh (here none))

    pub written-Keeps : Keeps all (written j rules bytes plan 0 all)
    written-Keeps = record {
      newest_of = λ g.
          select-written j rules bytes all (some g) plan 0 0 all alike IsAt-start
          ∙ planned g
          ∙ ap (newest (latest_of rules g.0))
              (sym (select-positions j rules bytes all (some g) 0 0 all IsAt-start));
      others =
          select-written j rules bytes all none plan 0 0 all alike IsAt-start
          ∙ left_alone
          ∙ sym (select-positions j rules bytes all none 0 0 all IsAt-start);
    }
