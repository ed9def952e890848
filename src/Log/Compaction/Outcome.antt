-- ===== src/Log/Compaction/Outcome.antt =====
-- What compaction leaves on the disk (apps/api/internal/store/compact.go, `Compact`).
use stockastic.Log.{Json, Envelope, lines}
use stockastic.Log.Compaction.{Rule, RecPos, Plan, record_of, latest_of, no_groups, count_dropped}
use stockastic.Log.Compaction.Kept.{
  Keeps, all, pass1, plan, here, are, count, alike, planned, IsAt-start, written-Keeps,
}
use stockastic.Log.Compaction.Lines.{
  IsWhole, split_from-AreWhole, lines-joined, take-record_lines, record_lines-same,
  record_lines-All,
}
use stockastic.Log.Compaction.Plans.{newest, written_at}
use stockastic.Log.Compaction.Positions.{joined}
use stockastic.Log.Compaction.Rewriting.{
  read_at, write_from, Faults, Volume, CompactAnswer, rewrite, compact_bytes, compact,
}
use stockastic.Log.Compaction.Scanning.{record_lines, scan_from-records}
use stockastic.Log.Compaction.Survivors.{written, write_from-written, select-positions, written-All}
use stockastic.Prelude.{
  ℕ, ◌-◌, ◌≡◌, ◌∙◌, ◌==◌, ◌&&◌, ◌||◌, Bool, true, false, none, some, List, [], ◌∷◌, map, length,
  take, drop, get_or, All, refl, sym, ap, arith, if-cases, length-drop, length-map, zero, suc,
}
use mathlib.Core.Path.{subst}
use stockastic.Prelude.Dict.{Dict, str_key, found-cases, some_eq}
use stockastic.Prelude.Str.{Str}

lost {ℓ} : {A : Type ℓ} {x : A} → none ≡ some x → ⊥
lost h = cc

none_dropped : (d : List Bool) (k : ℕ) → count_dropped d ≡ 0 → get_or d k false ≡ false
unfolding count_dropped
none_dropped [] k h = refl
none_dropped (true ∷ d) k h = absurd (omega arith)
none_dropped (false ∷ d) zero h = refl
none_dropped (false ∷ d) (suc k) h = none_dropped d k (omega arith)

length-written_at :
    (bytes : Str) (pl : Plan) (ps : List RecPos)
    → count_dropped pl.dropped ≡ 0
    → length (written_at bytes pl ps) ≡ length ps
unfolding written_at
length-written_at bytes pl [] h = refl
length-written_at bytes pl (p ∷ ps) h =
    rw (none_dropped pl.dropped p.idx h) (ap suc (length-written_at bytes pl ps h))

newest_same {ℓ} :
    {A : Type ℓ} (n : ℕ) (xs : List A) → length (newest n xs) ≡ length xs → newest n xs ≡ xs
newest_same n xs h =
    let none_left : length xs - n ≡ 0 = omega (arith, length-drop (length xs - n) xs) in
    ap (λ k. drop k xs) none_left

module _ {V : Type 0} (j : Json V) (rules : Dict Str (Rule V)) (bytes : Str) where
  -- A plan that drops nothing replaces nothing that is needed: the log has what it has to keep.
  whole-Keeps :
      count_dropped (plan j rules bytes).dropped ≡ 0
      → Keeps j rules (all j rules bytes) (all j rules bytes)
  whole-Keeps h = record {
    newest_of = λ g.
        let xs = map (read_at bytes) (here j rules bytes (some g)) in
        let as_many : length (newest (latest_of rules g.0) xs) ≡ length xs =
          ap length (sym (planned j rules bytes g))
          ∙ length-written_at bytes (plan j rules bytes) (here j rules bytes (some g)) h
          ∙ sym (length-map (read_at bytes) (here j rules bytes (some g))) in
        let is =
          select-positions j rules bytes (all j rules bytes) (some g) 0 0 (all j rules bytes)
            (IsAt-start j rules bytes) in
        is
        ∙ sym (newest_same (latest_of rules g.0) xs as_many)
        ∙ ap (newest (latest_of rules g.0)) (sym is);
    others = refl;
  }

  abbrev out : Str
  out = write_from (plan j rules bytes) bytes 0 (take (pass1 j rules bytes).n (lines bytes))

  out-lines :
      record_lines j (lines out) ≡ written j rules bytes (plan j rules bytes) 0 (all j rules bytes)
  unfolding lines
  out-lines =
      let ws = written j rules bytes (plan j rules bytes) 0 (all j rules bytes) in
      let file : out ≡ joined ws =
        ap (λ n. write_from (plan j rules bytes) bytes 0 (take n (lines bytes)))
          (count j rules bytes)
        ∙ ap (write_from (plan j rules bytes) bytes 0) (take-record_lines j (lines bytes))
        ∙ write_from-written j rules bytes (plan j rules bytes) 0 (all j rules bytes) in
      let whole : All IsWhole (all j rules bytes) =
        record_lines-All j IsWhole (lines bytes) (split_from-AreWhole [] bytes tt) in
      ap (λ f. record_lines j (lines f)) file
      ∙ ap (record_lines j) (
          lines-joined ws (
            written-All j rules bytes (all j rules bytes) IsWhole (plan j rules bytes) 0
              (all j rules bytes) (alike j rules bytes) whole whole))
      ∙ record_lines-same j ws (
          written-All j rules bytes (all j rules bytes)
            (λ line. (e : Envelope V) × (record_of j line ≡ some e)) (plan j rules bytes) 0
            (all j rules bytes) (alike j rules bytes) (are j rules bytes) (are j rules bytes))

module _ {V : Type 0} (j : Json V) (rules : Dict Str (Rule V)) (f : Faults) where
  -- With an error the log is as it was; without one it has what compaction is to keep.
  abbrev pub IsCompacted : Volume → Str → CompactAnswer → Type 0
  IsCompacted v bytes a =
      (a.2 ≡ true → a.0.log ≡ v.log)
      × (a.2 ≡ false
          → (out : Str) × (a.0.log ≡ some out)
            × Keeps j rules (record_lines j (lines bytes)) (record_lines j (lines out)))

  compact_bytes-IsCompacted :
      (v : Volume) (bytes : Str)
      → v.log ≡ some bytes
      → IsCompacted v bytes (compact_bytes j rules f v bytes)
  unfolding compact_bytes rewrite
  compact_bytes-IsCompacted v bytes has = rw (scan_from-records j rules no_groups (lines bytes)) (
      if-cases (IsCompacted v bytes)
        ((count_dropped (plan j rules bytes).dropped == 0)
          && ((pass1 j rules bytes).off == length bytes))
        _ _ (λ same. (λ e. cc, λ _. (bytes, has, whole-Keeps j rules bytes (ground arith))))
        (λ _.
          if-cases (IsCompacted v bytes)
            (f.on_create || f.on_seek || f.on_reread || f.on_write || f.on_flush || f.on_sync
              || f.on_close || f.on_rename)
            _ _ (λ _. (λ _. refl, λ e. cc))
            (λ _. (
              λ e. cc,
              λ _. (
                out j rules bytes,
                refl,
                subst (Keeps j rules (all j rules bytes)) (sym (out-lines j rules bytes))
                    (written-Keeps j rules bytes),
              ),
            ))))

  -- Compaction keeps what the rules say: whatever is in the log's file, and whichever call of the disk
  -- fails, if there is no error then of each group of records that a rule covers the new log has the
  -- newest, as many as the rule says, and every record that no rule covers; in each group, and among those
  -- that no rule covers, the order is as before. If there is an error, then the log is as it was. The
  -- records are the lines of the file up to the first that is none.
  pub compact-IsCompacted :
      (v : Volume) (bytes : Str) → v.log ≡ some bytes → IsCompacted v bytes (compact j rules f v)
  unfolding compact
  compact-IsCompacted v bytes has =
      let v' : Volume = record v { copy = none } in
      found-cases (IsCompacted v bytes) v.log _ _ (λ missing. absurd (lost (sym missing ∙ has)))
        (λ b found.
          let is = some_eq b bytes (sym found ∙ has) in
          if-cases (IsCompacted v bytes) (f.on_open || f.on_lock || f.on_stat) _ _
            (λ _. (λ _. refl, λ e. cc))
            (λ _.
              if-cases (IsCompacted v bytes) f.on_read _ _ (λ _. (λ _. refl, λ e. cc))
                (λ _.
                  subst (λ c. IsCompacted v bytes (compact_bytes j rules f v' c)) (sym is)
                    (compact_bytes-IsCompacted v' bytes has))))
