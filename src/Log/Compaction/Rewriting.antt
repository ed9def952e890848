-- ===== src/Log/Compaction/Rewriting.antt =====
-- Pass 2, and `Compact` as a whole (apps/api/internal/store/compact.go).
use stockastic.Log.{Json, lines}
use stockastic.Log.Compaction.{
  Rule, RecPos, Scan, Plan, no_groups, scan_from, plan_all, count_dropped,
}
use stockastic.Prelude.{
  ℕ, ◌+◌, ◌-◌, Bool, true, false, ◌&&◌, ◌||◌, Option, none, some, List, [], ◌∷◌, ◌++◌, ◌==◌,
  if◌then◌else◌, length, take, drop, get_or, replicate,
}
use stockastic.Prelude.Dict.{Dict, nat_key, lookup}
use stockastic.Prelude.Str.{Str}

-- `ReadAt`
abbrev pub read_at : Str → RecPos → Str
read_at bytes p = take p.size (drop p.off bytes)

-- What is written for record `i`, whose own line is `line`.
abbrev pub text_at : Plan → Str → ℕ → Str → Str
text_at pl bytes i line = elim (lookup i pl.replace_with) [ none ↦ line | some p ↦ read_at bytes p ]

-- Pass 2, from record `i` on.
unfoldable pub write_from : Plan → Str → ℕ → List Str → Str
write_from pl bytes i [] = []
write_from pl bytes i (line ∷ ls) =
    let rest = write_from pl bytes (i + 1) ls in
    if get_or pl.dropped i false then rest else text_at pl bytes i line ++ rest

-- A fault of the disk at each of the calls, or none.
pub record Faults : Type 0 where
  pub on_open : Bool
  pub on_lock : Bool
  pub on_stat : Bool
  pub on_read : Bool
  pub on_create : Bool
  pub on_seek : Bool
  pub on_reread : Bool
  pub on_write : Bool
  pub on_flush : Bool
  pub on_sync : Bool
  pub on_close : Bool
  pub on_rename : Bool

pub record Compacted : Type 0 where
  pub before_bytes : ℕ
  pub after_bytes : ℕ
  pub kept : ℕ
  pub dropped : ℕ

-- The log's file and its copy under the name with `.compact.tmp`.
pub record Volume : Type 0 where
  pub log : Option Str
  pub copy : Option Str

-- The volume, the report, and whether there was an error.
abbrev pub CompactAnswer : Type 0
CompactAnswer = Volume × Compacted × Bool

abbrev pub nothing_done : Compacted
nothing_done = record { before_bytes = 0; after_bytes = 0; kept = 0; dropped = 0 }

module _ {V : Type 0} (j : Json V) (rules : Dict Str (Rule V)) (f : Faults) where
  unfoldable pub rewrite : Volume → Str → Scan → Plan → CompactAnswer
  rewrite v bytes sc pl =
      let res = record nothing_done { before_bytes = length bytes } in
      if f.on_create || f.on_seek || f.on_reread || f.on_write || f.on_flush || f.on_sync
        || f.on_close || f.on_rename
      then (v, res, true)
      else let out = write_from pl bytes 0 (take sc.n (lines bytes)) in
        let gone = count_dropped pl.dropped in
        (
          record { log = some out; copy = none },
          record res { after_bytes = length out; kept = sc.n - gone; dropped = gone },
          false,
        )

  unfoldable pub compact_bytes : Volume → Str → CompactAnswer
  unfolding rewrite
  compact_bytes v bytes =
      let sc = scan_from j rules no_groups (lines bytes) in
      let pl =
        plan_all rules (record { dropped = replicate sc.n false; replace_with = [] }) sc.groups in
      if (count_dropped pl.dropped == 0) && (sc.off == length bytes)
      then (
        v,
        record nothing_done {
          before_bytes = length bytes;
          after_bytes = length bytes;
          kept = sc.n;
        },
        false,
      )
      else rewrite v bytes sc pl

  -- A copy that an earlier run left is removed first.
  unfoldable pub compact : Volume → CompactAnswer
  unfolding compact_bytes
  compact v =
      let v' = record v { copy = none } in
      elim v.log [
        | none ↦ (v', nothing_done, false)
        | some bytes ↦
            if f.on_open || f.on_lock || f.on_stat
            then (v', nothing_done, true)
            else if f.on_read
            then (v', record nothing_done { before_bytes = length bytes }, true)
            else compact_bytes v' bytes
      ]
