-- ===== src/Orders/Cancel.antt =====
-- What a cancellation promises: the order is out of the keepers' reach.
use arc_smart_orders.Prelude.{
  ℕ, ◌<◌, ◌≡◌, ◌≢◌, refl, true, false, String, List, [], ◌∷◌, ◌==◌, arith, All, lower, some, find,
  Bool-cases, inl, inr, ==_iff,
}
use mathlib.Core.Option
use arc_smart_orders.Sql.{update_where, count_where, Distinct}
use arc_smart_orders.Orders.{
  Preorder, Table, cancelled, has_id, cancellable, claimable, cancel_preorder, claim_order,
  get_preorder,
}
use arc_smart_orders.Orders.Valid.{IsValid}

module _ {Real : Type 0} (k : ℕ) where
  none_claimable :
      (rs : List (Preorder Real))
      → All (λ (r : Preorder Real). r.id ≢ k) rs
      → count_where (claimable k) rs ≡ 0
  none_claimable [] h = refl
  none_claimable (r ∷ rs) h = ground (arith, none_claimable rs h.1)

  none_cancellable :
      (u : String) (rs : List (Preorder Real))
      → All (λ (r : Preorder Real). r.id ≢ k) rs
      → (count_where (cancellable k u) rs ≡ 0)
        × (update_where (cancellable k u) (λ r. record r { status = cancelled }) rs ≡ rs)
  none_cancellable u [] h = (refl, refl)
  none_cancellable u (r ∷ rs) h = ground (arith, none_cancellable u rs h.1)

  cancelled_rows :
      (u : String) (rs : List (Preorder Real))
      → Distinct (λ (r : Preorder Real). r.id) rs
      → 0 < count_where (cancellable k u) rs
      → let rs' = update_where (cancellable k u) (λ r. record r { status = cancelled }) rs in
        (count_where (claimable k) rs' ≡ 0)
        × (Option.map (λ (r : Preorder Real). r.status) (find (has_id k) rs') ≡ some cancelled)
  cancelled_rows u [] h c = absurd (omega arith)
  cancelled_rows u (r ∷ rs) h c = elim (Bool-cases (r.id == k)) [
    | inl same ↦
        let ne : All (λ (x : Preorder Real). x.id ≢ k) rs = rw ((==_iff r.id k).0 same) at (h.0) in
        ground (arith, none_cancellable u rs ne, none_claimable rs ne)
    | inr other ↦ ground (arith, other, cancelled_rows u rs h.1)
  ]

module _ {Real : Type 0} where
  -- In a valid table a cancellation that is answered with success leaves the order cancelled, and
  -- no keeper can claim it.
  pub cancel_stops_claim :
      (k : ℕ) (user : String) (t : Table Real)
      → IsValid t
      → (cancel_preorder k user t).0 ≡ true
      → let t' = (cancel_preorder k user t).1 in
        (Option.map (λ (r : Preorder Real). r.status) (get_preorder k t') ≡ some cancelled)
        × ((claim_order k t').0 ≡ false)
  unfolding cancel_preorder get_preorder claim_order
  cancel_stops_claim k user t v h =
      ground (arith, cancelled_rows k (lower user) t.rows v.distinct (ground arith))
