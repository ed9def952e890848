-- ===== src/News/Lead.antt =====
-- The public's wait (apps/api/internal/news/news.go, `schedulePublic` and `deliver`).
use mathlib.Core.Path.{subst}
use stockastic.Prelude.Dict.{lookup, str_key, some_eq, found-cases, erase}
use stockastic.Prelude.{
  All, ℕ, ◌≡◌, update, some, get_elem?, false, ◌<◌, get_elem?-of_update, length, inl, inr, ap,
  All-update, Bool, All-append, true, ◌∙◌, sym, [], arith, if-cases, length-update, ◌&&◌,
  All-weaken, not,
}
use stockastic.Prelude.Str.{Str}
use stockastic.Prelude.Int.{ℤ, ◌+ℤ◌, pos, ◌≤ℤ◌, int_laws, leb_ℤ}
use stockastic.News.{
  Dispatcher, Release, Timer, Item, deliver, stamped, is_out, public_feed, Told, finish, set_timer,
  wait_on, wait_for,
}

-- The public got it, if at all, at least the lead time after fund managers did.
abbrev pub LeadKept : ℤ → Release → Type 0
LeadKept lead r =
    (p : ℤ) → r.public_at ≡ some p → (a : ℤ) × (r.fund_manager_at ≡ some a) × (a +ℤ lead ≤ℤ p)

-- Fund managers got the item that the id points at at least the lead time before.
abbrev pub DueBy : Dispatcher → Str → ℤ → Type 0
DueBy d id z =
    (i : ℕ) (r : Release)
    → lookup id d.by_id ≡ some i
    → get_elem? d.releases i ≡ some r
    → (a : ℤ) × (r.fund_manager_at ≡ some a) × (a +ℤ d.lead ≤ℤ z)

abbrev pub InTime : Dispatcher → Timer → Type 0
InTime d t =
    DueBy d t.item.id (t.set_at +ℤ t.left)
    × (pos 0 ≤ℤ t.wait)
    × (d.watches ≡ false → t.wait ≡ t.left)

pub record KeepsLead (d : Dispatcher) : Type 0 where
  pub kept : All (LeadKept d.lead) d.releases
  pub in_bounds : (id : Str) (i : ℕ) → lookup id d.by_id ≡ some i → i < length d.releases
  pub in_time : All (InTime d) d.timers

-- A public stamp changes no fund managers' stamp.
DueBy-stamped :
    (d : Dispatcher) (i : ℕ) (now : ℤ) (id : Str) (z : ℤ)
    → DueBy d id z
    → DueBy (record d { releases = update d.releases i (stamped public_feed now) }) id z
DueBy-stamped d i now id z due j y found e =
    let (x, e', how) = get_elem?-of_update d.releases i j (stamped public_feed now) y e in
    let (a, at, late) = due j x found e' in
    (
      a,
      elim how [
        | inl same ↦ ap (λ (o : Release). o.fund_manager_at) (some_eq y x same) ∙ at
        | inr new ↦
            ap (λ (o : Release). o.fund_manager_at) (some_eq y (stamped public_feed now x) new) ∙ at
      ],
      late,
    )

stamped-KeepsLead :
    (d : Dispatcher) (i : ℕ) (r : Release) (now : ℤ) (a : ℤ)
    → KeepsLead d
    → get_elem? d.releases i ≡ some r
    → r.fund_manager_at ≡ some a
    → a +ℤ d.lead ≤ℤ now
    → KeepsLead (record d { releases = update d.releases i (stamped public_feed now) })
stamped-KeepsLead d i r now a h e at late = record {
  kept = All-update (LeadKept d.lead) d.releases i (stamped public_feed now) h.kept (λ x e' p is. (
    a,
    ap (λ (o : Release). o.fund_manager_at) (some_eq x r (sym e' ∙ e)) ∙ at,
    subst (λ q. a +ℤ d.lead ≤ℤ q) (some_eq now p is) late,
  ));
  in_bounds = λ id j found.
      rw (length-update d.releases i (stamped public_feed now)) (h.in_bounds id j found);
  in_time =
      All-weaken (InTime d)
        (InTime (record d { releases = update d.releases i (stamped public_feed now) })) d.timers
        (λ t k. (DueBy-stamped d i now t.item.id (t.set_at +ℤ t.left) k.0, k.1, k.2)) h.in_time;
}

pub deliver-KeepsLead :
    (d : Dispatcher) (item : Item) (now : ℤ)
    → KeepsLead d
    → DueBy d item.id now
    → KeepsLead (deliver d public_feed item now).0
unfolding deliver
deliver-KeepsLead d item now h due =
    let Keeps : Told → Type 0 = λ o. KeepsLead o.0 in
    found-cases Keeps (lookup item.id d.by_id) (d, []) _ (λ _. h)
      (λ i found.
        found-cases Keeps (get_elem? d.releases i) (d, []) _ (λ _. h)
          (λ r e.
            let (a, at, late) = due i r found e in
            if-cases Keeps (is_out public_feed r) (d, []) _ (λ _. h)
              (λ _. stamped-KeepsLead d i r now a h e at late)))

pub later : (d : Dispatcher) (id : Str) (y z : ℤ) → DueBy d id y → y ≤ℤ z → DueBy d id z
later d id y z due h i r found e = let (a, at, late) = due i r found e in (a, at, omega int_laws)

pub finish-KeepsLead :
    (d : Dispatcher) (item : Item) (now : ℤ)
    → KeepsLead d
    → DueBy d item.id now
    → KeepsLead (finish d item now).0
unfolding finish
finish-KeepsLead d item now h due =
    deliver-KeepsLead (record d { cancels = erase item.id d.cancels }) item now
      (record { kept = h.kept; in_bounds = h.in_bounds; in_time = h.in_time }) due

pub set_timer-KeepsLead :
    (d : Dispatcher) (item : Item) (left wait now : ℤ)
    → KeepsLead d
    → DueBy d item.id (now +ℤ left)
    → pos 0 ≤ℤ wait
    → (d.watches ≡ false → wait ≡ left)
    → KeepsLead (set_timer d item left wait now)
set_timer-KeepsLead d item left wait now h due nonneg plain = record {
  kept = h.kept;
  in_bounds = h.in_bounds;
  in_time = All-append (InTime d) d.timers _ h.in_time ((due, nonneg, plain), tt);
}

wait_for-nonneg : (left : ℤ) (held : Bool) → pos 0 ≤ℤ wait_for left held
wait_for-nonneg left held = ground arith

pub no_later :
    (left : ℤ) (held : Bool) (now : ℤ)
    → (leb_ℤ left (pos 0) && not held) ≡ true
    → now +ℤ left ≤ℤ now
no_later left held now over = let none_left : left ≤ℤ pos 0 = ground arith in omega int_laws

pub wait_on-KeepsLead :
    (d : Dispatcher) (item : Item) (left : ℤ) (held : Bool) (now : ℤ)
    → KeepsLead d
    → DueBy d item.id (now +ℤ left)
    → d.watches ≡ true
    → KeepsLead (wait_on d item left held now).0
unfolding wait_on
wait_on-KeepsLead d item left held now h due watches =
    if-cases (λ (o : Told). KeepsLead o.0) (leb_ℤ left (pos 0) && not held) _ _
      (λ over.
        finish-KeepsLead d item now h
          (later d item.id (now +ℤ left) now due (no_later left held now over)))
      (λ _.
        set_timer-KeepsLead d item left (wait_for left held) now h due (wait_for-nonneg left held)
          (λ e. cc))
