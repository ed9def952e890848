-- ===== src/FundDesk/Rooms.antt =====
-- How much a fund may still take (apps/api/internal/app/funds.go, `capRooms`; apps/api/internal/scoring/funds.go,
-- `AllocationCaps`).
use mathlib.Core.Path.{subst}
use stockastic.Prelude.Str.{Str, str_eq, str_eq_iff}
use stockastic.Prelude.Dict.{
  Dict, lookup, insert, lookup-insert, str_key, some_eq, lookup-insert_self,
}
use stockastic.Prelude.Int64.{
  Fits, add64, wrap, sub64, max_int64, sub64-eq_of_le, wrap-eq_of_Fits, wrap-Fits, mul64,
}
use stockastic.Prelude.{
  ◌≡◌, arith, List, Option, ℕ, get_elem?, some, ◌∙◌, if-cases, map, not, ◌∷◌, ap, suc, sym, zero,
  [], refl, none,
}
use stockastic.Funds.Events.{Fund}
use stockastic.Funds.Float.{Float}
use stockastic.Prelude.Int.{
  ℤ, pos, ◌≤ℤ◌, ◌<ℤ◌, int_laws, leb_ℤ, ◌+ℤ◌, parts_disjoint, ltb_ℤ, ◌*ℤ◌, eqb_ℤ,
}
use stockastic.Funds.Reads.{inflow}
use stockastic.FundDesk.Limits.{rooms_from}
use stockastic.Scoring.Caps.{CapState, cap_state, allocation_caps, level, CapFund, tranche}

-- The state of a fund keeps its id, and what a fund may still take keeps it within its allowance.
module _ (pool n ticket lvl : ℤ) where
  pub cap_state-fund_id :
      (c : CapFund) → (cap_state pool n (pos 1) ticket lvl c).fund_id ≡ c.fund_id
  unfolding cap_state
  cap_state-fund_id c = ground arith

  within_allowance :
      (allowance inflow amount : ℤ)
      → pos 0 ≤ℤ inflow
      → Fits allowance
      → inflow <ℤ allowance
      → pos 1 ≤ℤ amount
      → amount ≤ℤ sub64 allowance inflow
      → add64 inflow amount ≤ℤ allowance
  within_allowance allowance inflow amount nonneg fits below positive room =
      let room' =
        rw (sub64-eq_of_le allowance inflow (omega int_laws, fits) nonneg (omega int_laws)) at
          room in
      rw
        (wrap-eq_of_Fits (inflow +ℤ amount)
          (omega (int_laws, room', parts_disjoint (inflow +ℤ amount), parts_disjoint allowance)))
        (omega (int_laws, room'))

  at_most_max : (z : ℤ) → wrap z ≤ℤ max_int64
  at_most_max z = omega (int_laws, wrap-Fits z, parts_disjoint (wrap z))

  abbrev Within : CapFund → ℤ → CapState → Type 0
  Within c amount s = amount ≤ℤ s.room → add64 c.inflow_this_window amount ≤ℤ s.allowance

  pub cap_state-allowance :
      (c : CapFund) (amount : ℤ)
      → pos 0 ≤ℤ c.inflow_this_window
      → Fits c.inflow_this_window
      → pos 1 ≤ℤ amount
      → amount ≤ℤ (cap_state pool n (pos 1) ticket lvl c).room
      → add64 c.inflow_this_window amount ≤ℤ (cap_state pool n (pos 1) ticket lvl c).allowance
  unfolding cap_state
  cap_state-allowance c amount nonneg fits positive =
      if-cases (Within c amount) (not c.active) _ _ (λ _ room. absurd (omega int_laws))
        (λ _.
          if-cases (Within c amount) (leb_ℤ (tranche pool n (pos 1) ticket c) (pos 0)) _ _
            (λ _ room. at_most_max (c.inflow_this_window +ℤ amount))
            (λ _.
              if-cases (Within c amount)
                (ltb_ℤ c.inflow_this_window (mul64 lvl (tranche pool n (pos 1) ticket c))) _ _
                (λ below room.
                  within_allowance (mul64 lvl (tranche pool n (pos 1) ticket c))
                    c.inflow_this_window amount nonneg
                    (wrap-Fits (lvl *ℤ tranche pool n (pos 1) ticket c)) (ground arith) positive
                    room)
                (λ _ room. absurd (omega int_laws))))

module _ {W : Type 0} ⦃f : Float W⦄ (state : Fund W → CapState) (fd : Fund W)
    (named : (x : Fund W) → (state x).fund_id ≡ x.formed.id) where
  abbrev OneOfId : List (Fund W) → Type 0
  OneOfId fs = (j : ℕ) (x : Fund W) → get_elem? fs j ≡ some x → x.formed.id ≡ fd.formed.id → x ≡ fd

  room_after :
      (x : Fund W) (d : Dict Str ℤ)
      → (x.formed.id ≡ fd.formed.id → x ≡ fd)
      → lookup fd.formed.id d ≡ some (state fd).room
      → lookup fd.formed.id (insert (state x).fund_id (state x).room d) ≡ some (state fd).room
  room_after x d only h =
      lookup-insert (state x).fund_id fd.formed.id (state x).room d
      ∙ if-cases (λ (o : Option ℤ). o ≡ some (state fd).room)
          (str_eq (state x).fund_id fd.formed.id) (some (state x).room) (lookup fd.formed.id d)
          (λ same.
            ap (λ y. some (state y).room)
              (only (sym (named x) ∙ (str_eq_iff (state x).fund_id fd.formed.id).0 same)))
          (λ _. h)

  rooms_from-kept :
      (fs : List (Fund W)) (d : Dict Str ℤ)
      → OneOfId fs
      → lookup fd.formed.id d ≡ some (state fd).room
      → lookup fd.formed.id (rooms_from d (map state fs)) ≡ some (state fd).room
  unfolding rooms_from
  rooms_from-kept [] d one h = h
  rooms_from-kept (x ∷ fs) d one h =
      rooms_from-kept fs _ (λ j. one (suc j)) (room_after x d (one zero x refl) h)

  -- The room that a fund gets is that of its own state.
  pub rooms_from-found :
      (fs : List (Fund W)) (i : ℕ) (d : Dict Str ℤ)
      → OneOfId fs
      → get_elem? fs i ≡ some fd
      → lookup fd.formed.id (rooms_from d (map state fs)) ≡ some (state fd).room
  unfolding rooms_from
  rooms_from-found [] i d one h = cc
  rooms_from-found (x ∷ fs) zero d one h =
      rooms_from-kept fs _ (λ j. one (suc j))
        (subst
          (λ y.
            lookup fd.formed.id (insert (state y).fund_id (state y).room d) ≡ some (state fd).room)
          (sym (some_eq x fd h))
          (subst
            (λ k. lookup k (insert (state fd).fund_id (state fd).room d) ≡ some (state fd).room)
            (named fd) (lookup-insert_self (state fd).fund_id (state fd).room d)))
  rooms_from-found (x ∷ fs) (suc i) d one h = rooms_from-found fs i _ (λ j. one (suc j)) h

pub map-map {ℓ κ μ} :
    {A : Type ℓ} {B : Type κ} {C : Type μ} (g : B → C) (h : A → B) (xs : List A)
    → map g (map h xs) ≡ map (λ x. g (h x)) xs
map-map g h [] = refl
map-map g h (x ∷ xs) = ap (λ r. g (h x) ∷ r) (map-map g h xs)

pub states_are :
    (pool n ticket : ℤ) (fs : List CapFund) (x : ℤ × List CapState)
    → allocation_caps pool n (pos 1) ticket fs ≡ some x
    → x.1 ≡ map (cap_state pool n (pos 1) ticket (level pool n (pos 1) ticket fs)) fs
unfolding allocation_caps
states_are pool n ticket [] x h = ap (λ (y : ℤ × List CapState). y.1) (sym (some_eq _ x h))
states_are pool n ticket (c ∷ cs) x h =
    if-cases
      (λ o.
        o ≡ some x
        → x.1
          ≡ map (cap_state pool n (pos 1) ticket (level pool n (pos 1) ticket (c ∷ cs))) (c ∷ cs))
      (eqb_ℤ (mul64 n (pos 1)) (pos 0)) none _ (λ _ e. cc)
      (λ _ e. ap (λ (y : ℤ × List CapState). y.1) (sym (some_eq _ x e))) h
