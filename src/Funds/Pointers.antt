-- ===== src/Funds/Pointers.antt =====
-- The ids of the book (funds.go, `Book.byID`): which fund an id points at.
use stockastic.Prelude.Int.{ℤ}
use mathlib.Core.Path.{subst}
use stockastic.Prelude.Str.{Str, str_eq, str_eq_iff}
use stockastic.Funds.Events.{Fund, Formed, FundCheckpoint}
use stockastic.Prelude.Dict.{Dict, lookup, insert, str_key, some_eq, lookup-insert}
use stockastic.Prelude.{
  List, ◌≡◌, ℕ, ◌++◌, get_elem?, update, ◌∷◌, some, [], length, suc, none, Bool-cases, zero, refl,
  ◌∙◌, ap, inl, inr, Option, arith,
}
use stockastic.Funds.Float.{Float}
use stockastic.Funds.Book.{Book, add_funds, new_fund}
use stockastic.Funds.Apply.{add_navs, add_aums, settle_all, update_at, seen_nav, seen_aum, settled}

module _ {W : Type 0} ⦃f : Float W⦄ where
  -- A fund with this id stands at the place.
  abbrev IsAt : List (Fund W) → Str → ℕ → Type 0
  IsAt fs id i = (fd : Fund W) × (get_elem? fs i ≡ some fd) × (fd.formed.id ≡ id)

  -- No id points at nothing, or at another fund.
  abbrev pub Points : Dict Str ℕ → List (Fund W) → Type 0
  Points by_id fs = (id : Str) (i : ℕ) → lookup id by_id ≡ some i → IsAt fs id i

  abbrev pub Keeps : (Fund W → Fund W) → Type 0
  Keeps g = (fd : Fund W) → (g fd).formed.id ≡ fd.formed.id

  pub update-IsAt :
      (fs : List (Fund W)) (j : ℕ) (g : Fund W → Fund W) (id : Str) (i : ℕ)
      → Keeps g
      → IsAt fs id i
      → IsAt (update fs j g) id i
  update-IsAt [] j g id i keep h = h
  update-IsAt (fd ∷ fs) zero g id zero keep (fd', e, same) =
      (g fd, refl, keep fd ∙ ap (λ (o : Fund W). o.formed.id) (some_eq fd fd' e) ∙ same)
  update-IsAt (fd ∷ fs) zero g id (suc i) keep h = h
  update-IsAt (fd ∷ fs) (suc j) g id zero keep h = h
  update-IsAt (fd ∷ fs) (suc j) g id (suc i) keep h = update-IsAt fs j g id i keep h

  pub update-Points :
      (by_id : Dict Str ℕ) (fs : List (Fund W)) (j : ℕ) (g : Fund W → Fund W)
      → Keeps g
      → Points by_id fs
      → Points by_id (update fs j g)
  update-Points by_id fs j g keep h id i found = update-IsAt fs j g id i keep (h id i found)

  pub update_at-Points :
      (by_id : Dict Str ℕ) (found : Option ℕ) (g : Fund W → Fund W) (fs : List (Fund W))
      → Keeps g
      → Points by_id fs
      → Points by_id (update_at found g fs)
  update_at-Points by_id none g fs keep h = h
  update_at-Points by_id (some j) g fs keep h = update-Points by_id fs j g keep h

  pub append-IsAt : (fs gs : List (Fund W)) (id : Str) (i : ℕ) → IsAt fs id i → IsAt (fs ++ gs) id i
  append-IsAt [] gs id i (fd, e, same) = cc
  append-IsAt (fd ∷ fs) gs id zero h = h
  append-IsAt (fd ∷ fs) gs id (suc i) h = append-IsAt fs gs id i h

  pub last-IsAt : (fs : List (Fund W)) (fd : Fund W) → IsAt (fs ++ fd ∷ []) fd.formed.id (length fs)
  last-IsAt [] fd = (fd, refl, refl)
  last-IsAt (_ ∷ fs) fd = last-IsAt fs fd

  pub append-Points :
      (by_id : Dict Str ℕ) (fs : List (Fund W)) (fd : Fund W)
      → Points by_id fs
      → Points (insert fd.formed.id (length fs) by_id) (fs ++ fd ∷ [])
  append-Points by_id fs fd h id i found = elim (Bool-cases (str_eq fd.formed.id id)) [
    | inl same ↦
        subst (λ k. IsAt (fs ++ fd ∷ []) k i) ((str_eq_iff fd.formed.id id).0 same)
          (subst (IsAt (fs ++ fd ∷ []) fd.formed.id)
            (some_eq (length fs) i
              (rw (← found, lookup-insert fd.formed.id id (length fs) by_id, same)))
            (last-IsAt fs fd))
    | inr other ↦
        append-IsAt fs (fd ∷ []) id i
          (h id i (rw (lookup-insert fd.formed.id id (length fs) by_id, other) at found))
  ]

  pub new_fund-Keeps : (launch : W) (g : Formed) → (new_fund launch g).formed.id ≡ g.id
  unfolding new_fund
  new_fund-Keeps launch g = ground arith

  pub add_funds-Points :
      (gs : List Formed) (b : Book W)
      → Points b.by_id b.funds
      → let b' = add_funds b gs in Points b'.by_id b'.funds
  unfolding add_funds
  add_funds-Points [] b h = h
  add_funds-Points (g ∷ gs) b h = add_funds-Points gs _ (
      subst
        (λ id.
          Points (insert id (length b.funds) b.by_id) (b.funds ++ new_fund b.launch_nav g ∷ []))
        (new_fund-Keeps b.launch_nav g) (append-Points b.by_id b.funds (new_fund b.launch_nav g) h))

  pub add_navs-Points :
      (navs : Dict Str W) (by_id : Dict Str ℕ) (fs : List (Fund W))
      → Points by_id fs
      → Points by_id (add_navs by_id navs fs)
  unfolding add_navs
  add_navs-Points [] by_id fs h = h
  add_navs-Points ((id, nav) ∷ navs) by_id fs h =
      add_navs-Points navs by_id _
        (update_at-Points by_id (lookup id by_id) (seen_nav nav) fs (λ fd. ground arith) h)

  pub add_aums-Points :
      (aums : Dict Str ℤ) (by_id : Dict Str ℕ) (fs : List (Fund W))
      → Points by_id fs
      → Points by_id (add_aums by_id aums fs)
  unfolding add_aums
  add_aums-Points [] by_id fs h = h
  add_aums-Points ((id, aum) ∷ aums) by_id fs h =
      add_aums-Points aums by_id _
        (update_at-Points by_id (lookup id by_id) (seen_aum aum) fs (λ fd. refl) h)

  pub settle_all-Points :
      (fcs : List (FundCheckpoint W)) (by_id : Dict Str ℕ) (fs : List (Fund W))
      → Points by_id fs
      → Points by_id (settle_all by_id fcs fs)
  unfolding settle_all
  settle_all-Points [] by_id fs h = h
  settle_all-Points (fc ∷ fcs) by_id fs h =
      settle_all-Points fcs by_id _
        (update_at-Points by_id (lookup fc.fund_id by_id) (settled fc) fs (λ fd. refl) h)
