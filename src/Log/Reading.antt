-- ===== src/Log/Reading.antt =====
-- What reading a file of records gives (apps/api/internal/store/store.go): every whole line, and nothing
-- of a line that was cut.
use stockastic.Log.{
  Envelope, Json, newline, lines, split_from, valid_length, valid_from, open_file, replay,
  replay_from,
}
use stockastic.Prelude.{
  ℕ, ◌+◌, ◌≡◌, ◌⊎◌, inl, inr, false, Option, none, some, List, [], ◌∷◌, ◌++◌, ◌==◌, ltb, length,
  take, All, refl, sym, ap, ◌∙◌, arith, if-cases, take-append_exact, length-append, suc,
}
use native.Mathlib.Nat.{zero-add}
use mathlib.Core.List.{append_assoc, append-nil, head-eq_of_cons-eq, tail-eq_of_cons-eq, cons≢nil}
use stockastic.Prelude.Str.{Str, is_empty}

abbrev pub IsUnbroken : Str → Type 0
IsUnbroken s = All (λ b. (b == newline) ≡ false) s

module _ {V : Type 0} (j : Json V) where
  -- What Go's JSON promises: a text without line feeds, which reads back as what was written.
  pub record IsJson : Type 0 where
    pub unbroken : (e : Envelope V) (s : Str) → j.marshal e ≡ some s → IsUnbroken s
    pub reads_back :
        (e : Envelope V) (s : Str) → j.marshal e ≡ some s → j.unmarshal (s ++ newline ∷ []) ≡ some e

  -- A record with a kind, which has a text.
  abbrev pub IsGood : Envelope V → Type 0
  IsGood e = (is_empty e.k ≡ false) × ((s : Str) × (j.marshal e ≡ some s))

  abbrev pub line_of : Envelope V → Str
  line_of e = elim (j.marshal e) [ none ↦ [] | some s ↦ s ++ newline ∷ [] ]

  -- The bytes of a file of records.
  abbrev pub bytes_of : List (Envelope V) → Str
  bytes_of [] = []
  bytes_of (e ∷ es) = line_of e ++ bytes_of es

module _ {V : Type 0} (j : Json V) where
  pub line_of-eq :
      (e : Envelope V) (s : Str) → j.marshal e ≡ some s → line_of j e ≡ s ++ newline ∷ []
  line_of-eq e s m = rw (m, line_of) refl

  pub bytes_of-append :
      (xs ys : List (Envelope V)) → bytes_of j (xs ++ ys) ≡ bytes_of j xs ++ bytes_of j ys
  bytes_of-append [] ys = refl
  bytes_of-append (x ∷ xs) ys =
      rw (bytes_of-append xs ys) (sym (append_assoc (line_of j x) (bytes_of j xs) (bytes_of j ys)))

pub split_from-line :
    (acc s rest : Str)
    → IsUnbroken s
    → split_from acc (s ++ newline ∷ rest) ≡ (acc ++ (s ++ newline ∷ [])) ∷ split_from [] rest
unfolding split_from
split_from-line acc [] rest h = refl
split_from-line acc (b ∷ s) rest h =
    rw (h.0, split_from)
      (split_from-line (acc ++ b ∷ []) s rest h.1
        ∙ ap (λ l. l ∷ split_from [] rest) (append_assoc acc (b ∷ []) (s ++ newline ∷ [])))

split_from-cut : (acc s : Str) → IsUnbroken s → split_from acc s ≡ []
unfolding split_from
split_from-cut acc [] h = refl
split_from-cut acc (b ∷ s) h = rw (h.0, split_from) (split_from-cut (acc ++ b ∷ []) s h.1)

-- A beginning of a line and more either ends within the line or holds it whole.
cut_line :
    (p q s rest : Str)
    → IsUnbroken s
    → p ++ q ≡ s ++ newline ∷ rest
    → IsUnbroken p ⊎ ((p' : Str) × (p ≡ s ++ newline ∷ p') × (p' ++ q ≡ rest))
cut_line [] q s rest h e = inl tt
cut_line (b ∷ p) q [] rest h e =
    inr (p, ap (λ c. c ∷ p) (head-eq_of_cons-eq e), tail-eq_of_cons-eq e)
cut_line (b ∷ p) q (c ∷ s) rest h e = elim (cut_line p q s rest h.1 (tail-eq_of_cons-eq e)) [
  | inl u ↦ inl (rw (head-eq_of_cons-eq e) h.0, u)
  | inr (p', x, y) ↦ inr (p', rw (head-eq_of_cons-eq e) (ap (λ r. c ∷ r) x), y)
]

-- What is done with records as long as nothing fails.
abbrev pub hand_all :
    {V S X : Type 0} → (S → Str → V → S × Option X) → S → List (Envelope V) → S × Option X
hand_all fn s [] = (s, none)
hand_all fn s (e ∷ es) =
    let (s', failed) = fn s e.k e.v in
    elim failed [ none ↦ hand_all fn s' es | some x ↦ (s', some x) ]

nothing_left : (n : ℕ) (torn : Str) → ltb (0 + n) (n + length torn) ≡ false → torn ≡ []
nothing_left n [] h = refl
nothing_left n (b ∷ torn) h = absurd (ground arith)

module _ {V : Type 0} (j : Json V) (law : IsJson j) where
  line_of-good :
      (e : Envelope V) (s : Str) (rest : Str)
      → j.marshal e ≡ some s
      → line_of j e ++ rest ≡ s ++ newline ∷ rest
  line_of-good e s rest m = rw (line_of-eq j e s m) (append_assoc s (newline ∷ []) rest)

  -- A beginning of a file of records is some of its records and a piece of a line.
  pub cut_file :
      (es : List (Envelope V)) (p q : Str)
      → All (IsGood j) es
      → p ++ q ≡ bytes_of j es
      → (k : ℕ) × (torn : Str) × (p ≡ bytes_of j (take k es) ++ torn) × IsUnbroken torn
  cut_file [] [] q h e = (0, [], refl, tt)
  cut_file [] (b ∷ p) q h e = absurd (cons≢nil e)
  cut_file (x ∷ es) p q h e =
      let s = h.0.1.0 in
      let m = h.0.1.1 in
      elim (cut_line p q s (bytes_of j es) (law.unbroken x s m)
        (e ∙ line_of-good x s (bytes_of j es) m)) [
          | inl u ↦ (0, p, refl, u)
          | inr (p', begins, rest) ↦
              let (k, torn, p'_is, u) = cut_file es p' q h.1 rest in
              (
                suc k,
                torn,
                begins
                    ∙ ap (λ r. s ++ newline ∷ r) p'_is
                    ∙ sym (line_of-good x s (bytes_of j (take k es) ++ torn) m)
                    ∙ sym (append_assoc (line_of j x) (bytes_of j (take k es)) torn),
                u,
              )
        ]

  split_from-good :
      (e : Envelope V) (rest : Str)
      → IsGood j e
      → split_from [] (line_of j e ++ rest) ≡ line_of j e ∷ split_from [] rest
  split_from-good e rest (_, (s, m)) = rw (line_of-good e s rest m) (
      split_from-line [] s rest (law.unbroken e s m)
      ∙ ap (λ l. l ∷ split_from [] rest) (sym (line_of-eq j e s m)))

  reads_back_line : (e : Envelope V) → IsGood j e → j.unmarshal (line_of j e) ≡ some e
  reads_back_line e (_, (s, m)) = rw (line_of-eq j e s m) (law.reads_back e s m)

  valid_from-file :
      (n : ℕ) (es : List (Envelope V)) (torn : Str)
      → All (IsGood j) es
      → IsUnbroken torn
      → valid_from j n (split_from [] (bytes_of j es ++ torn)) ≡ n + length (bytes_of j es)
  unfolding valid_from
  valid_from-file n [] torn h u = rw (split_from-cut [] torn u) (omega arith)
  valid_from-file n (e ∷ es) torn h u = rw (append_assoc (line_of j e) (bytes_of j es) torn) (
      rw (split_from-good e (bytes_of j es ++ torn) h.0) (
        rw (reads_back_line e h.0, h.0.0, valid_from)
          (valid_from-file (n + length (line_of j e)) es torn h.1 u
            ∙ omega (arith, length-append (line_of j e) (bytes_of j es)))))

  -- Opening a file of records with a torn line leaves the records.
  pub open_file-torn :
      (es : List (Envelope V)) (torn : Str)
      → All (IsGood j) es
      → IsUnbroken torn
      → (open_file j (bytes_of j es ++ torn)).0 ≡ bytes_of j es
  unfolding open_file valid_length lines
  open_file-torn es torn h u =
      let file = bytes_of j es in
      rw (valid_from-file 0 es torn h u, length-append file torn)
        (if-cases (λ (r : Str × ℕ). r.0 ≡ file) (ltb (0 + length file) (length file + length torn))
          _ _ (λ _. rw (zero-add (length file)) (take-append_exact file torn))
          (λ same. rw (nothing_left (length file) torn same) (append-nil file)))

  pub replay-records :
      {S X : Type 0} (fn : S → Str → V → S × Option X) (s : S) (es : List (Envelope V))
      → All (IsGood j) es
      → replay j fn s (bytes_of j es) ≡ hand_all fn s es
  unfolding replay replay_from lines split_from
  replay-records fn s [] h = refl
  replay-records {S} {X} fn s (e ∷ es) h = rw (split_from-good e (bytes_of j es) h.0) (
      rw (reads_back_line e h.0, replay_from)
        (ap
          (λ (r : S × Option X). elim (fn s e.k e.v).1 [
            | none ↦ r
            | some x ↦ ((fn s e.k e.v).0, some x)
          ])
          (replay-records fn (fn s e.k e.v).0 es h.1)))
