-- ===== src/Log/Compaction/Positions.antt =====
-- What pass 1 finds: for each group, where its records are (apps/api/internal/store/compact.go).
use stockastic.Log.{Json}
use stockastic.Log.Compaction.{Rule, RecPos, Group, record_of, group_of}
use stockastic.Log.Compaction.Rewriting.{read_at}
use stockastic.Prelude.{
  ℕ, ◌+◌, ◌<◌, ◌≤◌, ◌≡◌, ◌∙◌, Bool, true, false, Option, none, some, List, [], ◌∷◌, ◌++◌,
  if◌then◌else◌, length, get_elem?, All, refl, sym, ap, arith, length-append, take-append_exact,
  drop-append_exact, get_elem?-middle, if-cases, All-weaken,
}
use mathlib.Core.List.{append_assoc}
use stockastic.Prelude.Dict.{Dict, str_pair_key, pair_eq_iff}
use stockastic.Prelude.Str.{Str}

unfoldable pub same_group : Option Group → Option Group → Bool
same_group none none = true
same_group none (some h) = false
same_group (some g) none = false
same_group (some g) (some h) = str_pair_key.beq g h

pub same_group_eq : (t u : Option Group) → same_group t u ≡ true → t ≡ u
unfolding same_group
same_group_eq none none h = refl
same_group_eq none (some g) h = cc
same_group_eq (some g) none h = cc
same_group_eq (some g) (some k) h = ap some ((pair_eq_iff g k).0 h)

abbrev pub joined : List Str → Str
joined [] = []
joined (line ∷ ls) = line ++ joined ls

pub joined-append : (xs ys : List Str) → joined (xs ++ ys) ≡ joined xs ++ joined ys
joined-append [] ys = refl
joined-append (x ∷ xs) ys = rw (joined-append xs ys) (sym (append_assoc x (joined xs) (joined ys)))

-- Each position is after the one before it.
abbrev pub IsIncreasing : List RecPos → Type 0
IsIncreasing [] = Unit
IsIncreasing (p ∷ ps) = All (λ q. p.idx < q.idx) ps × IsIncreasing ps

module _ {V : Type 0} (j : Json V) (rules : Dict Str (Rule V)) where
  -- The group of a line, if a rule covers it.
  abbrev pub tag : Str → Option Group
  tag line = elim (record_of j line) [ none ↦ none | some e ↦ group_of rules e ]

  -- The records of a group among the lines from record `i` on, which begin at `off`.
  unfoldable pub positions : Option Group → ℕ → ℕ → List Str → List RecPos
  positions t i off [] = []
  positions t i off (line ∷ ls) =
      let rest = positions t (i + 1) (off + length line) ls in
      if same_group (tag line) t
      then record { idx = i; off = off; size = length line } ∷ rest
      else rest

  module _ (bytes : Str) (all : List Str) where
    -- A position is that of a line of the group, and the bytes there are the line.
    pub record TaggedAt (t : Option Group) (p : RecPos) : Type 0 where
      pub line : Str
      pub found : get_elem? all p.idx ≡ some line
      pub tagged : tag line ≡ t
      pub reads : read_at bytes p ≡ line

    -- Record `i`, at `off`, is the first of `ls`.
    pub record IsAt (i off : ℕ) (ls : List Str) : Type 0 where
      pub before : List Str
      pub torn : Str
      pub parts : all ≡ before ++ ls
      pub number : i ≡ length before
      pub start : off ≡ length (joined before)
      pub file : bytes ≡ joined all ++ torn

    pub IsAt-next :
        (i off : ℕ) (line : Str) (ls : List Str)
        → IsAt i off (line ∷ ls)
        → IsAt (i + 1) (off + length line) ls
    IsAt-next i off line ls h = record {
      before = h.before ++ line ∷ [];
      torn = h.torn;
      parts = h.parts ∙ sym (append_assoc h.before (line ∷ []) ls);
      number = omega (arith, h.number, length-append h.before (line ∷ []));
      start = rw (joined-append h.before (line ∷ [])) (
          omega (
            arith,
            h.start,
            length-append (joined h.before) (line ++ []),
            length-append line ([]),
          ));
      file = h.file;
    }

    split_file :
        (i off : ℕ) (line : Str) (ls : List Str) (h : IsAt i off (line ∷ ls))
        → bytes ≡ joined h.before ++ (line ++ (joined ls ++ h.torn))
    split_file i off line ls h =
        h.file
        ∙ ap (λ l. joined l ++ h.torn) h.parts
        ∙ rw (joined-append h.before (line ∷ ls)) (simp append_assoc)

    pub IsAt-reads :
        (i off : ℕ) (line : Str) (ls : List Str)
        → IsAt i off (line ∷ ls)
        → read_at bytes (record { idx = i; off = off; size = length line }) ≡ line
    IsAt-reads i off line ls h =
        rw
          (
            split_file i off line ls h,
            h.start,
            drop-append_exact (joined h.before) (line ++ (joined ls ++ h.torn)),
          )
          (take-append_exact line (joined ls ++ h.torn))

    pub IsAt-here :
        (t : Option Group) (i off : ℕ) (line : Str) (ls : List Str)
        → IsAt i off (line ∷ ls)
        → tag line ≡ t
        → TaggedAt t (record { idx = i; off = off; size = length line })
    IsAt-here t i off line ls h is = record {
      line = line;
      found = rw (h.parts, h.number) (get_elem?-middle h.before ls line);
      tagged = is;
      reads = IsAt-reads i off line ls h;
    }

    pub positions-TaggedAt :
        (t : Option Group) (i off : ℕ) (ls : List Str)
        → IsAt i off ls
        → All (TaggedAt t) (positions t i off ls)
    unfolding positions
    positions-TaggedAt t i off [] h = tt
    positions-TaggedAt t i off (line ∷ ls) h =
        let rest =
          positions-TaggedAt t (i + 1) (off + length line) ls (IsAt-next i off line ls h) in
        if-cases (All (TaggedAt t)) (same_group (tag line) t) _ _
          (λ same. (IsAt-here t i off line ls h (same_group_eq (tag line) t same), rest))
          (λ _. rest)

  pub positions-le :
      (t : Option Group) (i off : ℕ) (ls : List Str) → All (λ p. i ≤ p.idx) (positions t i off ls)
  unfolding positions
  positions-le t i off [] = tt
  positions-le t i off (line ∷ ls) =
      let rest =
        All-weaken (λ (p : RecPos). i + 1 ≤ p.idx) (λ p. i ≤ p.idx)
          (positions t (i + 1) (off + length line) ls) (λ p h. omega arith)
          (positions-le t (i + 1) (off + length line) ls) in
      if-cases (All (λ p. i ≤ p.idx)) (same_group (tag line) t) _ _ (λ _. (omega arith, rest))
        (λ _. rest)

  pub positions-IsIncreasing :
      (t : Option Group) (i off : ℕ) (ls : List Str) → IsIncreasing (positions t i off ls)
  unfolding positions
  positions-IsIncreasing t i off [] = tt
  positions-IsIncreasing t i off (line ∷ ls) =
      let rest = positions-IsIncreasing t (i + 1) (off + length line) ls in
      if-cases IsIncreasing (same_group (tag line) t) _ _
        (λ _. (
          All-weaken (λ (p : RecPos). i + 1 ≤ p.idx) (λ p. i < p.idx)
              (positions t (i + 1) (off + length line) ls) (λ p h. omega arith)
              (positions-le t (i + 1) (off + length line) ls),
          rest,
        ))
        (λ _. rest)

  pub positions-lt :
      (t : Option Group) (i off : ℕ) (ls : List Str)
      → All (λ p. p.idx < i + length ls) (positions t i off ls)
  unfolding positions
  positions-lt t i off [] = tt
  positions-lt t i off (line ∷ ls) =
      let rest =
        All-weaken (λ (p : RecPos). p.idx < i + 1 + length ls) (λ p. p.idx < i + length (line ∷ ls))
          (positions t (i + 1) (off + length line) ls) (λ p h. omega arith)
          (positions-lt t (i + 1) (off + length line) ls) in
      if-cases (All (λ p. p.idx < i + length (line ∷ ls))) (same_group (tag line) t) _ _
        (λ _. (omega arith, rest)) (λ _. rest)
