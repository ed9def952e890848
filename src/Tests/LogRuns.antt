-- ===== src/Tests/LogRuns.antt =====
-- A log of three records, a crash in the middle of the third, and a compaction. The JSON of the tests writes
-- every number as one that is greater by eleven, so that none is a line feed.
use stockastic.Log.{Envelope, Json, newline, lines, open_file, replay}
use stockastic.Log.FileLog.{
  FileLog, Event, called, looked, sync_ended, opened, append, put_line, look, start_sync, end_sync,
  step, noted, run,
}
use stockastic.Log.Reading.{IsJson, IsUnbroken, bytes_of, hand_all}
use stockastic.Log.Durability.{append-Survives}
use stockastic.Log.Compaction.{count_dropped, plan_all, scan_from, scan_line, group_of, plan_group}
use stockastic.Log.Compaction.Outcome.{IsCompacted, compact-IsCompacted}
use stockastic.Log.Compaction.Rewriting.{Faults, Volume, compact, write_from}
use stockastic.Log.Rules.{compact_rules}
use stockastic.Log.Kinds
use stockastic.Prelude.{
  ℕ, ◌+◌, ◌-◌, ◌≡◌, ◌==◌, false, Option, none, some, List, [], ◌∷◌, ◌++◌, take, drop, if◌then◌else◌,
  refl, ap, arith,
}
use mathlib.Core.Path.{subst}
use stockastic.Prelude.Dict.{some_eq, lookup, insert}
use stockastic.Prelude.Int.{ℤ, pos, negsuc}
use stockastic.Prelude.Str.{Str, str_eq}

abbrev shift : Str → Str
shift [] = []
shift (b ∷ s) = (b + 11) ∷ shift s

abbrev unshift : Str → Str
unshift [] = []
unshift (b ∷ s) = let rest = unshift s in if b == newline then [] else (b - 11) ∷ rest

abbrev time_text : ℤ → Str
time_text (pos n) = 1 ∷ (n + 11) ∷ []
time_text (negsuc n) = 2 ∷ (n + 11) ∷ []

abbrev read_time : ℕ → ℕ → ℤ
read_time sign n = if sign == 1 then pos (n - 11) else negsuc (n - 11)

abbrev read_line : Str → Option (Envelope ℕ)
read_line (v ∷ sign ∷ n ∷ k) = some (record { k = unshift k; at = read_time sign n; v = v - 11 })
read_line _ = none

abbrev texts : Json ℕ
texts = record {
  marshal = λ e. some ((e.v + 11) ∷ (time_text e.at ++ shift e.k));
  unmarshal = read_line;
}

shift-IsUnbroken : (s : Str) → IsUnbroken (shift s)
shift-IsUnbroken [] = tt
shift-IsUnbroken (b ∷ s) = (ground arith, shift-IsUnbroken s)

unshift-shift : (s : Str) → unshift (shift s ++ newline ∷ []) ≡ s
unshift-shift [] = refl
unshift-shift (b ∷ s) =
    let not_end : ((b + 11) == newline) ≡ false = ground arith in
    let back : b + 11 - 11 ≡ b = omega arith in rw (not_end, unshift-shift s) (ap (λ c. c ∷ s) back)

abbrev text_of : ℕ → ℤ → Str → Str
text_of v at k = (v + 11) ∷ (time_text at ++ shift k)

text_of-IsUnbroken : (v : ℕ) (at : ℤ) (k : Str) → IsUnbroken (text_of v at k)
text_of-IsUnbroken v (pos n) k = (ground arith, (refl, (ground arith, shift-IsUnbroken k)))
text_of-IsUnbroken v (negsuc n) k = (ground arith, (refl, (ground arith, shift-IsUnbroken k)))

read_text_of :
    (v : ℕ) (at : ℤ) (k : Str)
    → read_line (text_of v at k ++ newline ∷ []) ≡ some (record { k = k; at = at; v = v })
read_text_of v (pos n) k =
    let back : (b : ℕ) → b + 11 - 11 ≡ b = λ b. omega arith in
    rw (unshift-shift k, back v, back n) refl
read_text_of v (negsuc n) k =
    let back : (b : ℕ) → b + 11 - 11 ≡ b = λ b. omega arith in
    rw (unshift-shift k, back v, back n) refl

texts-IsJson : IsJson texts
texts-IsJson = record {
  unbroken = λ e s m.
      subst IsUnbroken (some_eq (text_of e.v e.at e.k) s m) (text_of-IsUnbroken e.v e.at e.k);
  reads_back = λ e s m.
      subst (λ t. read_line (t ++ newline ∷ []) ≡ some e) (some_eq (text_of e.v e.at e.k) s m)
        (read_text_of e.v e.at e.k);
}

abbrev of_kind : Str → ℕ → Envelope ℕ
of_kind k v = record { k = k; at = pos 0; v = v }

abbrev before : List (Event ℕ)
before = called (of_kind Kinds.clock 1) none ∷ looked 1 false ∷ []

-- The second record is written while the first is synced, and waits for a sync of its own.
abbrev after : List (Event ℕ)
after =
    sync_ended false ∷ looked 2 false ∷ sync_ended false ∷ called (of_kind Kinds.clock 3) none ∷ []

abbrev log_later : FileLog
log_later =
    (run texts (run texts (opened [], []) before) (called (of_kind Kinds.trade 2) none ∷ after)).0

abbrev replayed : List Str → Str → ℕ → List Str × Option ℕ
replayed seen k v = (seen ++ k ∷ [], none)

append-Survives_example :
    let kept = run texts (opened [], []) before in
    let file = (open_file texts (log_later.disk ++ take 2 log_later.buffer)).0 in
    (more : List (Envelope ℕ)) × (rest : List (Envelope ℕ)) × ((run texts kept
        (called (of_kind Kinds.trade 2) none ∷ after)).1
      ≡ (kept.1 ++ of_kind Kinds.trade 2 ∷ more) ++ rest)
    × (file ≡ bytes_of texts ([] ++ (kept.1 ++ of_kind Kinds.trade 2 ∷ more)))
    × (replay texts replayed [] file
        ≡ hand_all replayed [] ([] ++ (kept.1 ++ of_kind Kinds.trade 2 ∷ more)))
unfolding run step noted opened append put_line look start_sync end_sync
append-Survives_example =
    append-Survives texts texts-IsJson replayed [] [] before after (of_kind Kinds.trade 2) 2 false
      (take 2 log_later.buffer) (drop 2 log_later.buffer) tt (refl, (tt, tt)) refl
      (tt, (tt, (tt, (refl, tt)))) refl refl refl

abbrev three : Str
three = bytes_of texts (of_kind Kinds.clock 1 ∷ of_kind Kinds.trade 2 ∷ of_kind Kinds.clock 3 ∷ [])

abbrev no_faults : Faults
no_faults = record {
  on_open = false;
  on_lock = false;
  on_stat = false;
  on_read = false;
  on_create = false;
  on_seek = false;
  on_reread = false;
  on_write = false;
  on_flush = false;
  on_sync = false;
  on_close = false;
  on_rename = false;
}

abbrev with_three : Volume
with_three = record { log = some three; copy = none }

abbrev no_field : List Str → ℕ → Str
no_field path v = []

-- The newer record of the clock stands where the older one stood.
compacted :
    (compact texts (compact_rules no_field) no_faults with_three).0.log
    ≡ some (bytes_of texts (of_kind Kinds.clock 3 ∷ of_kind Kinds.trade 2 ∷ []))
unfolding compact count_dropped plan_all scan_from lines scan_line group_of lookup compact_rules
    str_eq insert plan_group write_from
compacted = refl

compact-IsCompacted_example :
    IsCompacted texts
      (compact_rules no_field)
      no_faults
      with_three
      three
      (compact texts (compact_rules no_field) no_faults with_three)
compact-IsCompacted_example =
    compact-IsCompacted texts (compact_rules no_field) no_faults with_three three refl
