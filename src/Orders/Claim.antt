-- ===== src/Orders/Claim.antt =====
-- Racing claims: `claim_order` as the several keepers call it, one UPDATE after another.
use arc_smart_orders.Prelude.{
  ℕ, ◌≤◌, ◌≡◌, refl, List, [], ◌∷◌, if◌then◌else◌, ◌==◌, arith, ◌&&◌, suc,
}
use arc_smart_orders.Sql.{update_where, count_where}
use arc_smart_orders.Orders.{Preorder, Table, submitting, claimable, claim_order}

module _ {Real : Type 0} where
  -- How often the claim of order `k` succeeds in a sequence of claims, each by some keeper.
  unfoldable pub wins : ℕ → List ℕ → Table Real → ℕ
  wins k [] t = 0
  wins k (j ∷ js) t =
      let (won, t') = claim_order j t in
      let rest = wins k js t' in if won && j == k then suc rest else rest

  claim_self-count :
      (j : ℕ) (rs : List (Preorder Real))
      → count_where
          (claimable j)
          (update_where (claimable j) (λ r. record r { status = submitting }) rs)
        ≡ 0
  claim_self-count j [] = refl
  claim_self-count j (r ∷ rs) = ground (arith, claim_self-count j rs)

  claim-count_zero :
      (k j : ℕ) (rs : List (Preorder Real))
      → count_where (claimable k) rs ≡ 0
      → count_where
          (claimable k)
          (update_where (claimable j) (λ r. record r { status = submitting }) rs)
        ≡ 0
  claim-count_zero k j [] h = refl
  claim-count_zero k j (r ∷ rs) h = ground (arith, claim-count_zero k j rs)

  wins-zero :
      (k : ℕ) (js : List ℕ) (t : Table Real)
      → count_where (claimable k) t.rows ≡ 0
      → wins k js t ≡ 0
  unfolding wins claim_order
  wins-zero k [] t h = refl
  wins-zero k (j ∷ js) t h =
      ground (arith, wins-zero k js (claim_order j t).1 (claim-count_zero k j t.rows h))

  -- However the claims of any number of keepers follow one another, each order is claimed by at
  -- most one of them.
  pub wins_le_one : (k : ℕ) (js : List ℕ) (t : Table Real) → wins k js t ≤ 1
  unfolding wins claim_order
  wins_le_one k [] t = omega arith
  wins_le_one k (j ∷ js) t = ground (
    arith,
    wins_le_one k js (claim_order j t).1,
    wins-zero k js (claim_order j t).1,
    claim_self-count j t.rows,
  )
