-- ===== src/Log/Compaction/Scanning.antt =====
-- Pass 1 finds the positions of every group (apps/api/internal/store/compact.go).
use stockastic.Log.{Json}
use stockastic.Log.Compaction.{
  Rule, RecPos, Scan, Group, record_of, group_of, positions_in, add_to_group, scan_line, scan_from,
}
use stockastic.Log.Compaction.Positions.{
  same_group, tag, positions, TaggedAt, IsAt, IsAt-next, IsAt-here, joined,
}
use stockastic.Log.{Envelope}
use stockastic.Prelude.{
  ◌+◌, ◌≡◌, ◌∙◌, Bool, true, false, Option, none, some, List, [], ◌∷◌, ◌++◌, if◌then◌else◌, length,
  All, refl, sym, ap, arith, length-append, Bool-cases, Option-cases, All-append, inl, inr,
}
use mathlib.Core.List.{append_assoc, append-nil}
use stockastic.Prelude.Dict.{
  Dict, str_pair_key, pair_eq_iff, lookup, insert, lookup-insert, AllEntries, AllEntries-insert,
  AllEntries-lookup, HasOnce, HasOnce-insert, found-cases,
}
use stockastic.Prelude.Str.{Str}

positions_in-insert :
    (groups : Dict Group (List RecPos)) (h g : Group) (recs : List RecPos)
    → positions_in (insert h recs groups) g
      ≡ (if str_pair_key.beq h g then recs else positions_in groups g)
unfolding positions_in
positions_in-insert groups h g recs =
    rw (lookup-insert h g recs groups, positions_in)
      (elim (Bool-cases (str_pair_key.beq h g)) [
        | inl same ↦ rw same refl
        | inr other ↦ rw other refl
      ])

pub positions_in-missing :
    (groups : Dict Group (List RecPos)) (g : Group)
    → lookup g groups ≡ none
    → positions_in groups g ≡ []
unfolding positions_in
positions_in-missing groups g h = rw (h, positions_in) refl

pub positions_in-found :
    (groups : Dict Group (List RecPos)) (g : Group) (recs : List RecPos)
    → lookup g groups ≡ some recs
    → positions_in groups g ≡ recs
unfolding positions_in
positions_in-found groups g recs h = rw (h, positions_in) refl

regroup :
    (b : Bool) (xs : List RecPos) (p : RecPos) (ys : List RecPos)
    → (xs ++ (if b then p ∷ [] else [])) ++ ys ≡ xs ++ (if b then p ∷ ys else ys)
regroup true xs p ys = append_assoc xs (p ∷ []) ys
regroup false xs p ys = ap (λ r. r ++ ys) (append-nil xs)

-- A new position is the last of its own group and of no other.
positions_in-add_to_group :
    (groups : Dict Group (List RecPos)) (t : Option Group) (p : RecPos) (g : Group)
    → positions_in (add_to_group groups t p) g
      ≡ positions_in groups g ++ (if same_group t (some g) then p ∷ [] else [])
unfolding add_to_group same_group
positions_in-add_to_group groups none p g = sym (append-nil (positions_in groups g))
positions_in-add_to_group groups (some h) p g =
    positions_in-insert groups h g (positions_in groups h ++ p ∷ [])
    ∙ elim (Bool-cases (str_pair_key.beq h g)) [
      | inl same ↦ rw same (ap (λ k. positions_in groups k ++ p ∷ []) ((pair_eq_iff h g).0 same))
      | inr other ↦ rw other (sym (append-nil (positions_in groups g)))
    ]

add_to_group-HasOnce :
    (groups : Dict Group (List RecPos)) (t : Option Group) (p : RecPos)
    → HasOnce groups
    → HasOnce (add_to_group groups t p)
unfolding add_to_group
add_to_group-HasOnce groups none p h = h
add_to_group-HasOnce groups (some g) p h =
    HasOnce-insert g (positions_in groups g ++ p ∷ []) groups h

-- What holds of all positions in their groups holds after one more that has it.
add_to_group-AllEntries :
    (P : Group → RecPos → Type 0) (groups : Dict Group (List RecPos)) (t : Option Group)
    (p : RecPos)
    → AllEntries (λ g recs. All (P g) recs) groups
    → ((g : Group) → t ≡ some g → P g p)
    → AllEntries (λ g recs. All (P g) recs) (add_to_group groups t p)
unfolding add_to_group positions_in
add_to_group-AllEntries P groups none p h new = h
add_to_group-AllEntries P groups (some g) p h new =
    AllEntries-insert (λ g recs. All (P g) recs) g _ groups h
      (All-append (P g) (positions_in groups g) (p ∷ [])
        (found-cases (All (P g)) (lookup g groups) [] (λ recs. recs) (λ _. tt)
          (λ recs found. AllEntries-lookup (λ g recs. All (P g) recs) g recs groups h found))
        (new g refl, tt))

module _ {V : Type 0} (j : Json V) where
  -- The lines up to the first that is no record.
  unfoldable pub record_lines : List Str → List Str
  record_lines [] = []
  record_lines (line ∷ ls) = elim (record_of j line) [ none ↦ [] | some _ ↦ line ∷ record_lines ls ]

  abbrev pub AreRecords : List Str → Type 0
  AreRecords ls = All (λ line. (e : Envelope V) × (record_of j line ≡ some e)) ls

  pub record_lines-AreRecords : (ls : List Str) → AreRecords (record_lines ls)
  unfolding record_lines
  record_lines-AreRecords [] = tt
  record_lines-AreRecords (line ∷ ls) =
      found-cases AreRecords (record_of j line) [] _ (λ _. tt)
        (λ e is. ((e, is), record_lines-AreRecords ls))

module _ {V : Type 0} (j : Json V) (rules : Dict Str (Rule V)) where
  pub scan_from-records :
      (s : Scan) (ls : List Str) → scan_from j rules s ls ≡ scan_from j rules s (record_lines j ls)
  unfolding scan_from record_lines
  scan_from-records s [] = refl
  scan_from-records s (line ∷ ls) = elim (Option-cases (record_of j line)) [
    | inl e ↦ rw (e, scan_from, record_lines) refl
    | inr (e, is) ↦
        rw (is, scan_from, record_lines) (rw is (scan_from-records (scan_line rules s line e) ls))
  ]

  pub scan-counts :
      (s : Scan) (ls : List Str)
      → AreRecords j ls
      → let s' = scan_from j rules s ls in
        (s'.n ≡ s.n + length ls) × (s'.off ≡ s.off + length (joined ls))
  unfolding scan_from scan_line
  scan-counts s [] are = (omega arith, omega arith)
  scan-counts s (line ∷ ls) ((e, is), are) =
      let ih = scan-counts (scan_line rules s line e) ls are in
      rw (is, scan_from) (omega (arith, ih.0), omega (arith, ih.1, length-append line (joined ls)))

  pub positions_in-scan :
      (s : Scan) (ls : List Str) (g : Group)
      → AreRecords j ls
      → positions_in (scan_from j rules s ls).groups g
        ≡ positions_in s.groups g ++ positions j rules (some g) s.n s.off ls
  unfolding scan_from scan_line positions
  positions_in-scan s [] g are = sym (append-nil (positions_in s.groups g))
  positions_in-scan s (line ∷ ls) g ((e, is), are) =
      let p : RecPos = record { idx = s.n; off = s.off; size = length line } in
      let later = positions j rules (some g) (s.n + 1) (s.off + length line) ls in
      let old = positions_in s.groups g in
      rw (is, scan_from)
        (positions_in-scan (scan_line rules s line e) ls g are
          ∙ ap (λ r. r ++ later) (positions_in-add_to_group s.groups (group_of rules e) p g)
          ∙ regroup (same_group (group_of rules e) (some g)) old p later
          ∙ ap (λ t. old ++ (if same_group t (some g) then p ∷ later else later))
              (rw (is, tag) refl))

  module _ (bytes : Str) (all : List Str) where
    -- Every position of every group is that of a line of the group, and no group has two entries.
    pub scan-TaggedAt :
        (s : Scan) (ls : List Str)
        → AreRecords j ls
        → IsAt j rules bytes all s.n s.off ls
        → AllEntries (λ g recs. All (TaggedAt j rules bytes all (some g)) recs) s.groups
        → AllEntries
            (λ g recs. All (TaggedAt j rules bytes all (some g)) recs)
            (scan_from j rules s ls).groups
    unfolding scan_from scan_line
    scan-TaggedAt s [] are at h = h
    scan-TaggedAt s (line ∷ ls) ((e, is), are) at h =
        rw (is, scan_from)
          (scan-TaggedAt (scan_line rules s line e) ls are
            (IsAt-next j rules bytes all s.n s.off line ls at)
            (add_to_group-AllEntries (λ g. TaggedAt j rules bytes all (some g)) s.groups
              (group_of rules e) _ h
              (λ g of_g.
                IsAt-here j rules bytes all (some g) s.n s.off line ls at (rw (is, tag) of_g))))

  pub scan-HasOnce :
      (s : Scan) (ls : List Str)
      → AreRecords j ls
      → HasOnce s.groups
      → HasOnce (scan_from j rules s ls).groups
  unfolding scan_from scan_line
  scan-HasOnce s [] are h = h
  scan-HasOnce s (line ∷ ls) ((e, is), are) h =
      rw (is, scan_from)
        (scan-HasOnce (scan_line rules s line e) ls are
          (add_to_group-HasOnce s.groups (group_of rules e) _ h))
