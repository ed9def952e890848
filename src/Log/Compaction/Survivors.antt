-- ===== src/Log/Compaction/Survivors.antt =====
-- Which records a compacted log has (apps/api/internal/store/compact.go).
use stockastic.Log.{Json}
use stockastic.Log.Compaction.{Rule, Plan, Group}
use stockastic.Log.Compaction.Rewriting.{read_at, text_at, write_from}
use stockastic.Log.Compaction.Positions.{
  tag, same_group, positions, IsAt, IsAt-next, IsAt-reads, IsAt-here, joined,
}
use stockastic.Log.Compaction.Plans.{written_at}
use stockastic.Log.Compaction.Groups.{ReplacesAlike}
use stockastic.Prelude.{
  ℕ, ◌+◌, ◌≡◌, ◌∙◌, inl, inr, Bool, false, Option, List, [], ◌∷◌, map, select, if◌then◌else◌,
  length, get_or, All, refl, sym, ap, Bool-cases, if-cases, All-get_elem?,
}
use mathlib.Core.Path.{subst}
use stockastic.Prelude.Dict.{Dict, str_pair_key, nat_key, lookup, some_eq, found-cases}
use stockastic.Prelude.Str.{Str}

module _ {V : Type 0} (j : Json V) (rules : Dict Str (Rule V)) where
  abbrev pub in_group : Option Group → Str → Bool
  in_group t line = same_group (tag j rules line) t

module _ {V : Type 0} (j : Json V) (rules : Dict Str (Rule V)) (bytes : Str) where
  -- The lines that pass 2 writes.
  unfoldable pub written : Plan → ℕ → List Str → List Str
  written pl i [] = []
  written pl i (line ∷ ls) =
      let rest = written pl (i + 1) ls in
      if get_or pl.dropped i false then rest else text_at pl bytes i line ∷ rest

  pub write_from-written :
      (pl : Plan) (i : ℕ) (ls : List Str) → write_from pl bytes i ls ≡ joined (written pl i ls)
  unfolding write_from written
  write_from-written pl i [] = refl
  write_from-written pl i (line ∷ ls) =
      rw (write_from-written pl (i + 1) ls)
        (elim (Bool-cases (get_or pl.dropped i false)) [ inl e ↦ rw e refl | inr e ↦ rw e refl ])

  module _ (all : List Str) where
    -- What is written for a record is in the record's group.
    text_at-tag :
        (pl : Plan) (i off : ℕ) (line : Str) (ls : List Str)
        → ReplacesAlike j rules bytes all pl
        → IsAt j rules bytes all i off (line ∷ ls)
        → tag j rules (text_at pl bytes i line) ≡ tag j rules line
    text_at-tag pl i off line ls alike at =
        found-cases (λ text. tag j rules text ≡ tag j rules line) (lookup i pl.replace_with) line
          (read_at bytes) (λ _. refl)
          (λ p found.
            let (t, (its, at_i, is_t), has) = alike i p found in
            let here = IsAt-here j rules bytes all (tag j rules line) i off line ls at refl in
            ap (tag j rules) has.reads
            ∙ has.tagged
            ∙ sym is_t
            ∙ ap (tag j rules) (some_eq its here.line (sym at_i ∙ here.found))
            ∙ here.tagged)

    pub select-written :
        (t : Option Group) (pl : Plan) (i off : ℕ) (ls : List Str)
        → ReplacesAlike j rules bytes all pl
        → IsAt j rules bytes all i off ls
        → select (in_group j rules t) (written pl i ls)
          ≡ written_at bytes pl (positions j rules t i off ls)
    unfolding written written_at positions
    select-written t pl i off [] alike at = refl
    select-written t pl i off (line ∷ ls) alike at =
        let ih =
          select-written t pl (i + 1) (off + length line) ls alike
            (IsAt-next j rules bytes all i off line ls at) in
        let same_tag = text_at-tag pl i off line ls alike at in
        let reads = IsAt-reads j rules bytes all i off line ls at in
        elim (Bool-cases (get_or pl.dropped i false)) [
          | inl gone ↦ elim (Bool-cases (same_group (tag j rules line) t)) [
            | inl same ↦ rw (gone, same, written_at, gone) ih
            | inr other ↦ rw (gone, other) ih
          ]
          | inr stays ↦ elim (Bool-cases (same_group (tag j rules line) t)) [
            | inl same ↦
                rw (stays, same_tag, same, written_at, stays, reads)
                  (ap (λ r. text_at pl bytes i line ∷ r) ih)
            | inr other ↦ rw (stays, same_tag, other) ih
          ]
        ]

    -- Of the lines themselves, those of a group are at the group's positions.
    pub select-positions :
        (t : Option Group) (i off : ℕ) (ls : List Str)
        → IsAt j rules bytes all i off ls
        → select (in_group j rules t) ls ≡ map (read_at bytes) (positions j rules t i off ls)
    unfolding positions
    select-positions t i off [] at = refl
    select-positions t i off (line ∷ ls) at =
        let ih =
          select-positions t (i + 1) (off + length line) ls
            (IsAt-next j rules bytes all i off line ls at) in
        let reads = IsAt-reads j rules bytes all i off line ls at in
        elim (Bool-cases (same_group (tag j rules line) t)) [
          | inl same ↦ rw (same, reads) (ap (λ r. line ∷ r) ih)
          | inr other ↦ rw other ih
        ]

    -- What is written is whole lines of the log.
    pub written-All :
        (P : Str → Type 0) (pl : Plan) (i : ℕ) (ls : List Str)
        → ReplacesAlike j rules bytes all pl
        → All P all
        → All P ls
        → All P (written pl i ls)
    unfolding written
    written-All P pl i [] alike ok h = tt
    written-All P pl i (line ∷ ls) alike ok h =
        let rest = written-All P pl (i + 1) ls alike ok h.1 in
        if-cases (All P) (get_or pl.dropped i false) _ _ (λ _. rest)
          (λ _. (
            found-cases P (lookup i pl.replace_with) line (read_at bytes) (λ _. h.0)
                (λ p found.
                  let (t, has, is) = alike i p found in
                  subst P (sym is.reads) (All-get_elem? P all p.idx is.line ok is.found)),
            rest,
          ))
