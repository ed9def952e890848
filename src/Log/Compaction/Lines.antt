-- ===== src/Log/Compaction/Lines.antt =====
-- The lines of a file and the file of lines, where compaction reads and writes
-- (apps/api/internal/store/compact.go).
use stockastic.Log.{Json, lines, split_from, newline}
use stockastic.Log.Reading.{IsUnbroken, split_from-line}
use stockastic.Log.Compaction.{record_of}
use stockastic.Log.Compaction.Positions.{joined}
use stockastic.Log.Compaction.Scanning.{record_lines, AreRecords}
use stockastic.Prelude.{
  ℕ, ◌≡◌, ◌∙◌, ◌==◌, ==_iff, false, List, [], ◌∷◌, ◌++◌, length, take, All, refl, sym, ap,
  Bool-cases, Option-cases, take-append_exact, All-append, All-append_left, inl, inr,
}
use mathlib.Core.List.{append_assoc, append-nil}
use mathlib.Core.Path.{subst}
use stockastic.Prelude.Str.{Str}

abbrev pub IsWhole : Str → Type 0
IsWhole line = (s : Str) × (line ≡ s ++ newline ∷ []) × IsUnbroken s

split_line :
    (acc : Str) (b : ℕ) (s torn : Str)
    → (acc ++ b ∷ []) ++ joined (split_from [] s) ++ torn
      ≡ acc ++ b ∷ (joined (split_from [] s) ++ torn)
split_line acc b s torn = simp append_assoc

-- What is behind the last line feed.
pub split_from-parts : (acc s : Str) → (torn : Str) × (acc ++ s ≡ joined (split_from acc s) ++ torn)
unfolding split_from
split_from-parts acc [] = (acc, append-nil acc)
split_from-parts acc (b ∷ s) = elim (Bool-cases (b == newline)) [
  | inl ends ↦
      let (torn, e) = split_from-parts [] s in
      (torn, rw (ends, split_from) (ap (λ r. acc ++ b ∷ r) e ∙ sym (split_line acc b s torn)))
  | inr goes_on ↦
      let (torn, e) = split_from-parts (acc ++ b ∷ []) s in
      (torn, rw (goes_on, split_from) (sym (append_assoc acc (b ∷ []) s) ∙ e))
]

pub split_from-AreWhole : (acc s : Str) → IsUnbroken acc → All IsWhole (split_from acc s)
unfolding split_from
split_from-AreWhole acc [] h = tt
split_from-AreWhole acc (b ∷ s) h = elim (Bool-cases (b == newline)) [
  | inl ends ↦
      rw (ends, split_from)
        ((acc, ap (λ c. acc ++ c ∷ []) ((==_iff b newline).0 ends), h), split_from-AreWhole [] s tt)
  | inr goes_on ↦
      rw (goes_on, split_from)
        (split_from-AreWhole (acc ++ b ∷ []) s
          (All-append (λ c. (c == newline) ≡ false) acc (b ∷ []) h (goes_on, tt)))
]

pub lines-joined : (ws : List Str) → All IsWhole ws → lines (joined ws) ≡ ws
unfolding lines
lines-joined [] h = unfold split_from in refl
lines-joined (w ∷ ws) ((s, is, whole), h) =
    rw (is, append_assoc s (newline ∷ []) (joined ws))
      (split_from-line [] s (joined ws) whole
        ∙ ap (λ r. (s ++ newline ∷ []) ∷ r) (lines-joined ws h))

module _ {V : Type 0} (j : Json V) where
  pub record_lines-parts : (ls : List Str) → (rest : List Str) × (ls ≡ record_lines j ls ++ rest)
  unfolding record_lines
  record_lines-parts [] = ([], refl)
  record_lines-parts (line ∷ ls) = elim (Option-cases (record_of j line)) [
    | inl e ↦ (line ∷ ls, rw (e, record_lines) refl)
    | inr (v, e) ↦
        let (rest, is) = record_lines-parts ls in
        (rest, rw (e, record_lines) (ap (λ r. line ∷ r) is))
  ]

  pub take-record_lines : (ls : List Str) → take (length (record_lines j ls)) ls ≡ record_lines j ls
  take-record_lines ls =
      let (rest, is) = record_lines-parts ls in
      ap (take (length (record_lines j ls))) is ∙ take-append_exact (record_lines j ls) rest

  pub record_lines-same : (ls : List Str) → AreRecords j ls → record_lines j ls ≡ ls
  unfolding record_lines
  record_lines-same [] h = refl
  record_lines-same (line ∷ ls) ((e, is), h) =
      rw (is, record_lines) (ap (λ r. line ∷ r) (record_lines-same ls h))

  pub record_lines-All : (P : Str → Type 0) (ls : List Str) → All P ls → All P (record_lines j ls)
  record_lines-All P ls h =
      let (rest, is) = record_lines-parts ls in
      All-append_left P (record_lines j ls) rest (subst (All P) is h)
