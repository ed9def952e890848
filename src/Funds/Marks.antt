-- ===== src/Funds/Marks.antt =====
-- A checkpoint from its figures to the funds' marks (funds.go, `PlanCheckpoint` and `Apply`).
use stockastic.Prelude.Int.{ℤ}
use stockastic.Funds.Book.{Book}
use mathlib.Core.Path.{subst}
use stockastic.Prelude.Str.{Str}
use stockastic.Funds.Events.{Fund, FundCheckpoint}
use stockastic.Prelude.Dict.{Dict, lookup, str_key, some_eq}
use stockastic.Prelude.{
  List, Bool, Option, ℕ, get_elem?, if◌then◌else◌, false, ◌≡◌, ◌∷◌, some, map, ◌==◌, update, [],
  none, refl, true, suc, if-cases, ap, arith, zero, ◌∙◌, ==_iff, length, sym,
}
use stockastic.Funds.Float.{Float}
use stockastic.Funds.Reads.{plan_fund, plan_checkpoint, nav_at}
use stockastic.Funds.Apply.{update_at, settled, settle_all, pass_checkpoint}

abbrev is_place : Option ℕ → ℕ → Bool
is_place none i = false
is_place (some j) i = j == i

is_place-true : (found : Option ℕ) (i : ℕ) → is_place found i ≡ true → found ≡ some i
is_place-true none i h = cc
is_place-true (some j) i h = ground (arith, ==_iff j i)

module _ {W : Type 0} ⦃f : Float W⦄ where
  abbrev pub at_place : List (Fund W) → ℕ → Option (Fund W)
  at_place fs i = get_elem? fs i

  -- The figures that are for the fund at the place, one after the other.
  abbrev settle_if : Bool → FundCheckpoint W → Fund W → Fund W
  settle_if t fc fd = if t then settled fc fd else fd

  unfoldable settle_here : Dict Str ℕ → ℕ → List (FundCheckpoint W) → Fund W → Fund W
  settle_here by_id i [] fd = fd
  settle_here by_id i (fc ∷ fcs) fd =
      settle_here by_id i fcs (settle_if (is_place (lookup fc.fund_id by_id) i) fc fd)

  get_elem?-update :
      (fs : List (Fund W)) (j i : ℕ) (g : Fund W → Fund W) (fd : Fund W)
      → get_elem? fs i ≡ some fd
      → get_elem? (update fs j g) i ≡ some (if j == i then g fd else fd)
  get_elem?-update [] j i g fd h = cc
  get_elem?-update (x ∷ fs) zero zero g fd h = ap some (ap g (some_eq x fd h))
  get_elem?-update (x ∷ fs) zero (suc i) g fd h = ground arith
  get_elem?-update (x ∷ fs) (suc j) zero g fd h = ground arith
  get_elem?-update (x ∷ fs) (suc j) (suc i) g fd h = get_elem?-update fs j i g fd h ∙ ground arith

  get_elem?-update_at :
      (found : Option ℕ) (fs : List (Fund W)) (i : ℕ) (fc : FundCheckpoint W) (fd : Fund W)
      → get_elem? fs i ≡ some fd
      → get_elem? (update_at found (settled fc) fs) i ≡ some (settle_if (is_place found i) fc fd)
  get_elem?-update_at none fs i fc fd h = h
  get_elem?-update_at (some j) fs i fc fd h = get_elem?-update fs j i (settled fc) fd h

  get_elem?-settle_all :
      (by_id : Dict Str ℕ) (i : ℕ) (fcs : List (FundCheckpoint W)) (fs : List (Fund W))
      (fd : Fund W)
      → get_elem? fs i ≡ some fd
      → get_elem? (settle_all by_id fcs fs) i ≡ some (settle_here by_id i fcs fd)
  unfolding settle_all settle_here
  get_elem?-settle_all by_id i [] fs fd h = h
  get_elem?-settle_all by_id i (fc ∷ fcs) fs fd h =
      get_elem?-settle_all by_id i fcs _ _
        (get_elem?-update_at (lookup fc.fund_id by_id) fs i fc fd h)

  -- The id of each fund points at its place, so no two funds have one id.
  abbrev pub Owns : Dict Str ℕ → List (Fund W) → Type 0
  Owns by_id fs =
      (i : ℕ) (fd : Fund W) → get_elem? fs i ≡ some fd → lookup fd.formed.id by_id ≡ some i

  module _ (by_id : Dict Str ℕ) (i : ℕ) (plan : Fund W → FundCheckpoint W)
      (named : (x : Fund W) → (plan x).fund_id ≡ x.formed.id) (fd : Fund W) where
    -- Each fund of the list that has an id for this place is the fund.
    abbrev Only : List (Fund W) → Type 0
    Only gs =
        (j : ℕ) (x : Fund W) → get_elem? gs j ≡ some x → lookup x.formed.id by_id ≡ some i → x ≡ fd

    fewer : (x : Fund W) (gs : List (Fund W)) → Only (x ∷ gs) → Only gs
    fewer x gs only j y h = only (suc j) y h

    its_own :
        (x : Fund W) (gs : List (Fund W))
        → Only (x ∷ gs)
        → is_place (lookup (plan x).fund_id by_id) i ≡ true
        → x ≡ fd
    its_own x gs only h = only zero x refl (
        subst (λ id. lookup id by_id ≡ some i) (named x)
          (is_place-true (lookup (plan x).fund_id by_id) i h))

    again :
        (x : Fund W) (gs : List (Fund W))
        → Only (x ∷ gs)
        → settle_if (is_place (lookup (plan x).fund_id by_id) i) (plan x) (settled (plan fd) fd)
          ≡ settled (plan fd) fd
    again x gs only =
        if-cases (λ y. y ≡ settled (plan fd) fd) (is_place (lookup (plan x).fund_id by_id) i)
          (settled (plan x) (settled (plan fd) fd)) (settled (plan fd) fd)
          (λ h. ap (λ y. settled (plan y) (settled (plan fd) fd)) (its_own x gs only h)) (λ _. refl)

    settled_once :
        (gs : List (Fund W))
        → Only gs
        → settle_here by_id i (map plan gs) (settled (plan fd) fd) ≡ settled (plan fd) fd
    unfolding settle_here
    settled_once [] only = refl
    settled_once (x ∷ gs) only =
        ap (settle_here by_id i (map plan gs)) (again x gs only) ∙ settled_once gs (fewer x gs only)

    hits :
        (x : Fund W)
        → lookup fd.formed.id by_id ≡ some i
        → x ≡ fd
        → is_place (lookup (plan x).fund_id by_id) i ≡ true
    hits x found same = rw (named x, same, found) ((==_iff i i).1 refl)

    settle_here-own :
        (gs : List (Fund W)) (j : ℕ)
        → Only gs
        → get_elem? gs j ≡ some fd
        → lookup fd.formed.id by_id ≡ some i
        → settle_here by_id i (map plan gs) fd ≡ settled (plan fd) fd
    unfolding settle_here
    settle_here-own [] j only h found = cc
    settle_here-own (x ∷ gs) zero only h found =
        let same : x ≡ fd = some_eq x fd h in
        ap (λ t. settle_here by_id i (map plan gs) (settle_if t (plan x) fd)) (hits x found same)
        ∙ ap (λ y. settle_here by_id i (map plan gs) (settled (plan y) fd)) same
        ∙ settled_once gs (fewer x gs only)
    settle_here-own (x ∷ gs) (suc j) only h found =
        if-cases (λ y. settle_here by_id i (map plan gs) y ≡ settled (plan fd) fd)
          (is_place (lookup (plan x).fund_id by_id) i) (settled (plan x) fd) fd
          (λ e.
            ap (λ y. settle_here by_id i (map plan gs) (settled (plan y) fd)) (its_own x gs only e)
            ∙ settled_once gs (fewer x gs only))
          (λ e. settle_here-own gs j (fewer x gs only) h found)

  -- The figures of a checkpoint reach each fund that has its own id, and no other figures do: its
  -- mark becomes the net asset value where that is above the mark and stays otherwise, its sum of
  -- assets starts again, and the rest of the fund stays as it is.
  pub get_elem?-checkpoint :
      (b : Book W) (name : Str) (at : ℤ) (navs : Dict Str W) (aums : Dict Str ℤ) (mgmt perf : W)
      (i : ℕ) (fd : Fund W)
      → Owns b.by_id b.funds
      → get_elem? b.funds i ≡ some fd
      → let c = plan_checkpoint b name at navs aums mgmt perf in
        let nav = nav_at b.launch_nav navs fd.formed.id in
        get_elem? (pass_checkpoint b (some c)).0.funds i
        ≡ some (record fd {
          hwm = if f.lt fd.hwm nav then nav else fd.hwm;
          aum_sum = f.zero_float;
          aum_n = 0;
        })
  unfolding plan_checkpoint plan_fund
  get_elem?-checkpoint b name at navs aums mgmt perf i fd owns h =
      get_elem?-settle_all b.by_id i _ b.funds fd h
      ∙ ap some (
          settle_here-own b.by_id i
            (plan_fund b.launch_nav (length b.checks == 0) navs aums mgmt perf) named fd b.funds i
            (λ j x e found.
              some_eq x fd
                (sym e ∙ ap (get_elem? b.funds) (some_eq j i (sym (owns j x e) ∙ found)) ∙ h))
            h (owns i fd h))
    where
      named :
          (x : Fund W)
          → (plan_fund b.launch_nav (length b.checks == 0) navs aums mgmt perf x).fund_id
            ≡ x.formed.id
      named x = refl
