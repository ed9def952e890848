-- ===== src/Ledger/Moves/Totals.antt =====
-- The totals of the ledger (ledger.go, `Total`) as sums of bits over the accounts, which follow the
-- shape of a write of one account.
use stockastic.Prelude.Int.{ℤ, pos, ◌+ℤ◌}
use stockastic.Prelude.Dict.{
  weigh, Dict, str_key, weigh-nil, insert, lookup-insert, weigh-cons, Every, Every-insert, lookup,
  Every-nil,
}
use stockastic.Prelude.Int64.{
  residue, Fits, wrap-eq_of_Fits, residue-lt, wrap_of_residue, add64, wrap-Fits, residue-wrap,
  residue-+ℤ,
}
use stockastic.Ledger.State.{Acct, Position, Ledger}
use stockastic.Ledger.Valuation.{total_from, total, shares_of, add_shares}
use stockastic.Prelude.Str.{Str, str_eq, str_eq_iff}
use stockastic.Prelude.{
  ℕ, if◌then◌else◌, ◌%◌, ◌≡◌, ◌^◌, ◌+◌, sym, arith, [], ◌∙◌, ◌∷◌, Option-cases, inl, inr,
}

abbrev pub cash_bits : Str → Acct → ℕ
cash_bits _ a = residue a.cash

abbrev pub symbol_bits : Str → Str → Position → ℕ
symbol_bits s j p = if str_eq j s then residue p.qty else 0

abbrev pub share_bits : Str → Str → Acct → ℕ
share_bits s _ a = weigh (symbol_bits s) a.positions

total_from-Fits :
    (l : Ledger) (cash : ℤ) (m : Dict Str ℤ) → Fits cash → Fits (total_from l cash m).0
unfolding total_from
total_from-Fits [] cash m h = h
total_from-Fits ((_, a) ∷ l) cash m h =
    total_from-Fits l (add64 cash a.cash) (add_shares a.positions m) (wrap-Fits _)

total_from-cash :
    (l : Ledger) (cash : ℤ) (m : Dict Str ℤ)
    → residue (total_from l cash m).0 ≡ (residue cash + weigh cash_bits l) % 2 ^ 64
unfolding total_from
total_from-cash [] cash m = omega (arith, residue-lt cash, weigh-nil {0} {K = Str} cash_bits)
total_from-cash ((id, a) ∷ l) cash m = omega (
  arith,
  total_from-cash l (add64 cash a.cash) (add_shares a.positions m),
  residue-wrap (cash +ℤ a.cash),
  residue-+ℤ cash a.cash,
  weigh-cons cash_bits id a l,
)

-- Ledgers whose cash has the same bits in all have the same total.
pub total-cash_of_bits :
    (l l' : Ledger)
    → weigh cash_bits l % 2 ^ 64 ≡ weigh cash_bits l' % 2 ^ 64
    → (total l).0 ≡ (total l').0
unfolding total
total-cash_of_bits l l' h =
    sym (wrap-eq_of_Fits _ (total_from-Fits l (pos 0) [] (omega arith)))
    ∙ wrap_of_residue _ _
        (omega (arith, total_from-cash l (pos 0) [], total_from-cash l' (pos 0) []))
    ∙ wrap-eq_of_Fits _ (total_from-Fits l' (pos 0) [] (omega arith))

shares_of-insert :
    (m : Dict Str ℤ) (s k : Str) (v : ℤ)
    → shares_of (insert k v m) s ≡ (if str_eq k s then v else shares_of m s)
shares_of-insert m s k v = rw (lookup-insert k s v m, shares_of) (ground arith)

add_shares-bits :
    (ps : Dict Str Position) (m : Dict Str ℤ) (s : Str)
    → residue (shares_of (add_shares ps m) s)
      ≡ (residue (shares_of m s) + weigh (symbol_bits s) ps) % 2 ^ 64
unfolding add_shares
add_shares-bits [] m s =
    omega (arith, residue-lt (shares_of m s), weigh-nil {0} {K = Str} (symbol_bits s))
add_shares-bits ((k, p) ∷ ps) m s =
    let m' = insert k (add64 (shares_of m k) p.qty) m in
    ground (
      arith,
      add_shares-bits ps m' s,
      shares_of-insert m s k (add64 (shares_of m k) p.qty),
      residue-wrap (shares_of m k +ℤ p.qty),
      residue-+ℤ (shares_of m k) p.qty,
      str_eq_iff k s,
      weigh-cons (symbol_bits s) k p ps,
    )

total_from-shares :
    (l : Ledger) (cash : ℤ) (m : Dict Str ℤ) (s : Str)
    → residue (shares_of (total_from l cash m).1 s)
      ≡ (residue (shares_of m s) + weigh (share_bits s) l) % 2 ^ 64
unfolding total_from
total_from-shares [] cash m s =
    omega (arith, residue-lt (shares_of m s), weigh-nil {0} {K = Str} (share_bits s))
total_from-shares ((id, a) ∷ l) cash m s = omega (
  arith,
  total_from-shares l (add64 cash a.cash) (add_shares a.positions m) s,
  add_shares-bits a.positions m s,
  weigh-cons (share_bits s) id a l,
)

shares_of-Fits : (m : Dict Str ℤ) (s : Str) → Every Fits m → Fits (shares_of m s)
shares_of-Fits m s h = elim (Option-cases (lookup s m)) [
  | inl missing ↦ rw (missing, shares_of) (omega arith)
  | inr (n, found) ↦ rw (found, shares_of) (h s n found)
]

add_shares-Fits :
    (ps : Dict Str Position) (m : Dict Str ℤ) → Every Fits m → Every Fits (add_shares ps m)
unfolding add_shares
add_shares-Fits [] m h = h
add_shares-Fits ((k, p) ∷ ps) m h =
    add_shares-Fits ps (insert k (add64 (shares_of m k) p.qty) m)
      (Every-insert Fits k (add64 (shares_of m k) p.qty) m h (wrap-Fits (shares_of m k +ℤ p.qty)))

total_from-shares_Fits :
    (l : Ledger) (cash : ℤ) (m : Dict Str ℤ) → Every Fits m → Every Fits (total_from l cash m).1
unfolding total_from
total_from-shares_Fits [] cash m h = h
total_from-shares_Fits ((id, a) ∷ l) cash m h =
    total_from-shares_Fits l (add64 cash a.cash) (add_shares a.positions m)
      (add_shares-Fits a.positions m h)

total-shares_Fits : (l : Ledger) (s : Str) → Fits (shares_of (total l).1 s)
unfolding total
total-shares_Fits l s =
    shares_of-Fits (total_from l (pos 0) []).1 s
      (total_from-shares_Fits l (pos 0) [] (Every-nil Fits))

same_bits :
    (l l' : Ledger) (s : Str)
    → weigh (share_bits s) l % 2 ^ 64 ≡ weigh (share_bits s) l' % 2 ^ 64
    → residue (shares_of (total l).1 s) ≡ residue (shares_of (total l').1 s)
unfolding total
same_bits l l' s h =
    omega (arith, total_from-shares l (pos 0) [] s, total_from-shares l' (pos 0) [] s)

-- Ledgers whose shares of a company have the same bits in all have the same total of it.
pub total-shares_of_bits :
    (l l' : Ledger) (s : Str)
    → weigh (share_bits s) l % 2 ^ 64 ≡ weigh (share_bits s) l' % 2 ^ 64
    → shares_of (total l).1 s ≡ shares_of (total l').1 s
total-shares_of_bits l l' s h =
    let m : Dict Str ℤ = (total l).1 in
    let m' : Dict Str ℤ = (total l').1 in
    sym (wrap-eq_of_Fits (shares_of m s) (total-shares_Fits l s))
    ∙ wrap_of_residue (shares_of m s) (shares_of m' s) (same_bits l l' s h)
    ∙ wrap-eq_of_Fits (shares_of m' s) (total-shares_Fits l' s)
