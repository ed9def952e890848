-- ===== src/Log.antt =====
-- The write-ahead file (apps/api/internal/store/store.go): its lines, opening it and replaying it.
-- JSON is a parameter. `lines` is what repeated calls of `ReadBytes('\n')` give that end in a line feed.
pub mod FileLog
pub mod Crashes
pub mod Reading
pub mod Durability
pub mod Compaction
pub mod Kinds
pub mod Rules
use stockastic.Prelude.{
  ℕ, ◌+◌, ◌-◌, ◌≡◌, Bool, true, false, not, Option, none, some, List, [], ◌∷◌, ◌++◌, ◌==◌, ltb,
  if◌then◌else◌, length, take, All,
}
use stockastic.Prelude.Int.{ℤ}
use stockastic.Prelude.Str.{Str, is_empty}

abbrev pub newline : ℕ
newline = 10

pub record Envelope (V : Type 0) : Type 0 where
  pub k : Str
  pub at : ℤ
  pub v : V

-- `json.Marshal` of an envelope, and `json.Unmarshal` of a line without the space around it.
pub record Json (V : Type 0) : Type 0 where
  pub marshal : Envelope V → Option Str
  pub unmarshal : Str → Option (Envelope V)

-- The complete lines of `s` behind the bytes `acc` of the line that is being read.
unfoldable pub split_from : Str → Str → List Str
split_from acc [] = []
split_from acc (b ∷ s) = elim (b == newline) [
  | true ↦ (acc ++ b ∷ []) ∷ split_from [] s
  | false ↦ split_from (acc ++ b ∷ []) s
]

unfoldable pub lines : Str → List Str
unfolding split_from
lines s = split_from [] s

module _ {V : Type 0} (j : Json V) where
  abbrev pub is_record : Str → Bool
  is_record line = elim (j.unmarshal line) [ none ↦ false | some e ↦ not (is_empty e.k) ]

  valid_from : ℕ → List Str → ℕ
  valid_from good [] = good
  valid_from good (line ∷ ls) = elim (is_record line) [
    | true ↦ valid_from (good + length line) ls
    | false ↦ good
  ]

  unfoldable pub valid_length : Str → ℕ
  unfolding valid_from
  valid_length bytes = valid_from 0 (lines bytes)

  -- The file as it is left, and how many bytes were torn off.
  unfoldable pub open_file : Str → Str × ℕ
  unfolding valid_length
  open_file bytes =
      let good = valid_length bytes in
      if ltb good (length bytes) then (take good bytes, length bytes - good) else (bytes, 0)

  -- `fn` is called for each record, oldest first, until it fails.
  replay_from : {S X : Type 0} → (S → Str → V → S × Option X) → S → List Str → S × Option X
  replay_from fn s [] = (s, none)
  replay_from fn s (line ∷ ls) = elim (j.unmarshal line) [
    | none ↦ (s, none)
    | some e ↦
        let (s', failed) = fn s e.k e.v in
        elim failed [ none ↦ replay_from fn s' ls | some x ↦ (s', some x) ]
  ]

  unfoldable pub replay : {S X : Type 0} → (S → Str → V → S × Option X) → S → Str → S × Option X
  unfolding replay_from
  replay fn s bytes = replay_from fn s (lines bytes)
