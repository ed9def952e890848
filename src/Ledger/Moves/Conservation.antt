-- ===== src/Ledger/Moves/Conservation.antt =====
-- Moves between accounts neither make nor lose cash or shares (ledger.go, `Move`, `MoveShares`).
use stockastic.Ledger.Trades.{settle, run_commit, put_in}
use stockastic.Prelude.Int64.{sub64, add64, residue_transfer, Amount, residue, sub64-Amount}
use stockastic.Ledger.Moves.Totals.{
  cash_bits, total-cash_of_bits, share_bits, symbol_bits, total-shares_of_bits,
}
use stockastic.Prelude.Dict.{lookup, weigh, insert, str_key, lookup-insert, weigh-insert}
use stockastic.Ledger.Valuation.{total, shares_of}
use stockastic.Prelude.Int.{ℤ, leb_ℤ, pos, ltb_ℤ, ◌≤ℤ◌}
use stockastic.Prelude.Str.{Str, str_eq}
use stockastic.Ledger.State.{Ledger, Acct, Error, Position, position}
use stockastic.Ledger.Moves.{shift_cash, move, hand_over, hand_over_from, take_over, move_shares}
use stockastic.Prelude.{
  Option, ◌≡◌, false, Bool-cases, some, ◌||◌, ◌%◌, inl, ◌^◌, inr, Option-cases, arith, ◌+◌,
  if◌then◌else◌, none, refl,
}

shift_cash-bits :
    (l : Ledger) (from to : Str) (src dst : Acct) (amount : ℤ)
    → str_eq from to ≡ false
    → lookup from l ≡ some src
    → lookup to l ≡ some dst
    → weigh cash_bits (shift_cash l from to src amount) % 2 ^ 64 ≡ weigh cash_bits l % 2 ^ 64
unfolding shift_cash
shift_cash-bits l from to src dst amount other here there =
    let src' = record src { cash = sub64 src.cash amount } in
    let dst' = record dst { cash = add64 dst.cash amount } in
    let l' = insert from src' l in
    let still : lookup to l' ≡ some dst = rw (lookup-insert from to src' l, other) there in
    rw (still, shift_cash)
      (ground (
        arith,
        here,
        still,
        weigh-insert cash_bits from src' l,
        weigh-insert cash_bits to dst' l',
        residue_transfer src.cash dst.cash amount,
      ))

settle-total :
    {J : Type 0} (l l' : Ledger)
    → (total l').0 ≡ (total l).0
    → (r : J × Option Error) → (total (settle l l' r).0).0 ≡ (total l).0
settle-total l l' same (j, none) = same
settle-total l l' same (j, some e) = refl

-- A move between two accounts, whether it succeeds or fails, leaves the total cash of the ledger as it
-- was, wrap-around included.
pub total-move :
    {J : Type 0} (l : Ledger) (from to : Str) (amount : ℤ) (commit : Option (J → J × Option Error))
    (j : J)
    → (total (move l from to amount commit j).0).0 ≡ (total l).0
unfolding move
total-move l from to amount commit j = elim (Bool-cases (leb_ℤ amount (pos 0) || str_eq from to)) [
  | inl bad ↦ rw bad
  | inr good ↦ rw good (elim (Option-cases (lookup from l)) [
    | inl missing ↦ rw missing
    | inr (src, here) ↦ rw here (elim (Option-cases (lookup to l)) [
      | inl missing ↦ rw missing
      | inr (dst, there) ↦ rw there (elim (Bool-cases (ltb_ℤ src.cash amount)) [
        | inl short ↦ rw short
        | inr enough ↦ rw enough (
            settle-total l (shift_cash l from to src amount)
              (total-cash_of_bits (shift_cash l from to src amount) l
                (shift_cash-bits l from to src dst amount (ground arith) here there))
              (run_commit commit j))
      ])
    ])
  ])
]

-- A position that is handed over in part or whole keeps its bits in all, if the shares are there.
hand_over-bits :
    (p : Position) (qty cost : ℤ)
    → Amount p.qty
    → pos 1 ≤ℤ qty
    → qty ≤ℤ p.qty
    → (hand_over p qty cost).qty ≡ sub64 p.qty qty
unfolding hand_over
hand_over-bits p qty cost h k enough = ground (arith, sub64-Amount p.qty qty h (omega arith) enough)

module _ (a : Acct) (symbol s : Str) (qty cost : ℤ) where
  hand_over_from-bits :
      (p : Position)
      → lookup symbol a.positions ≡ some p
      → Amount p.qty
      → pos 1 ≤ℤ qty
      → qty ≤ℤ p.qty
      → share_bits s symbol (hand_over_from a symbol qty cost) + symbol_bits s symbol p
        ≡ share_bits s symbol a + (if str_eq symbol s then residue (sub64 p.qty qty) else 0)
  unfolding hand_over_from
  hand_over_from-bits p found h k enough =
      rw (found, hand_over_from)
        (ground (
          arith,
          found,
          hand_over-bits p qty cost h k enough,
          weigh-insert (symbol_bits s) symbol (hand_over p qty cost) a.positions,
        ))

  take_over-bits :
      share_bits s symbol (take_over a symbol qty cost)
        + (if str_eq symbol s then residue (position a symbol).qty else 0)
      ≡ share_bits s symbol a
        + (if str_eq symbol s then residue (add64 (position a symbol).qty qty) else 0)
  unfolding take_over position put_in residue
  take_over-bits =
      ground (
        arith,
        weigh-insert (symbol_bits s) symbol (put_in (position a symbol) qty cost) a.positions,
      )

module _ (l : Ledger) (from to symbol : Str) (qty cost : ℤ) (src dst : Acct) (p : Position)
    (other : str_eq from to ≡ false) (here : lookup from l ≡ some src)
    (there : lookup to l ≡ some dst) (found : lookup symbol src.positions ≡ some p) where
  moved_bits :
      (s : Str)
      → Amount p.qty
      → pos 1 ≤ℤ qty
      → qty ≤ℤ p.qty
      → weigh (share_bits s) (
            insert to
              (take_over dst symbol qty cost)
              (insert from (hand_over_from src symbol qty cost) l))
          % 2 ^ 64
        ≡ weigh (share_bits s) l % 2 ^ 64
  moved_bits s h k enough =
      let src' = hand_over_from src symbol qty cost in
      let l' = insert from src' l in
      let still : lookup to l' ≡ some dst = rw (lookup-insert from to src' l, other) there in
      ground (
        arith,
        here,
        still,
        weigh-insert (share_bits s) from src' l,
        weigh-insert (share_bits s) to (take_over dst symbol qty cost) l',
        hand_over_from-bits src symbol s qty cost p found h k enough,
        take_over-bits dst symbol s qty cost,
        residue_transfer p.qty (position dst symbol).qty qty,
      )

-- Moving shares that the giver has leaves the total number of shares of every company as it was.
pub total-move_shares :
    (l : Ledger) (from to symbol s : Str) (qty cost : ℤ) (src : Acct) (p : Position)
    → lookup from l ≡ some src
    → lookup symbol src.positions ≡ some p
    → Amount p.qty
    → qty ≤ℤ p.qty
    → shares_of (total (move_shares l from to symbol qty cost).0).1 s ≡ shares_of (total l).1 s
unfolding move_shares
total-move_shares l from to symbol s qty cost src p here found h enough =
    elim (Bool-cases (leb_ℤ qty (pos 0) || str_eq from to)) [
      | inl bad ↦ rw bad
      | inr good ↦
          rw (good, here)
            (elim (Option-cases (lookup to l)) [
              | inl missing ↦ rw missing
              | inr (dst, there) ↦ rw there (
                  total-shares_of_bits _ l s (
                    moved_bits l from to symbol qty cost src dst p (ground arith) here there found s
                      h (ground arith) enough))
            ])
    ]
