-- ===== src/Orders/Due.antt =====
-- The queries of the keepers, `orders_due` and `armed_orders`, against the rows that they read.
use arc_smart_orders.Prelude.{
  ℕ, ◌<◌, ◌≤◌, ◌≡◌, ◌≢◌, Bool, true, some, String, List, [], ◌∷◌, arith, All, select, find, take,
  zero, suc, length-take-le, length, All-select, All-find, All-take, All-map, All-both,
  select-holds, Bool-cases, inl, inr, str_eq,
}
use arc_smart_orders.Sql.{Distinct}
use arc_smart_orders.Orders.{
  Preorder, Table, signed, has_id, waits_in, orders_due, get_preorder, get_preorder_by_sign_token,
  coalesce,
}
use arc_smart_orders.Orders.Valid.{IsValid}

module _ {Real : Type 0} where
  select-found :
      (p : Preorder Real → Bool) (rs : List (Preorder Real))
      → Distinct (λ (r : Preorder Real). r.id) rs
      → All (λ d. find (has_id d.id) rs ≡ some d) (select p rs)
  select-found p [] h = tt
  select-found p (r ∷ rs) h =
      let tail : All (λ d. find (has_id d.id) (r ∷ rs) ≡ some d) (select p rs) =
        All-map _ _ (select p rs) (λ d (ne, e). ground (arith, ne, e))
          (All-both _ _ (select p rs) (All-select _ p rs h.0) (select-found p rs h.1)) in
      elim (Bool-cases (p r)) [ inl e ↦ rw e (ground arith, tail) | inr e ↦ rw e tail ]

  select-Distinct :
      (p : Preorder Real → Bool) (rs : List (Preorder Real))
      → Distinct (λ (r : Preorder Real). r.id) rs
      → Distinct (λ (r : Preorder Real). r.id) (select p rs)
  select-Distinct p [] h = tt
  select-Distinct p (r ∷ rs) h = elim (Bool-cases (p r)) [
    | inl e ↦ rw e (All-select _ p rs h.0, select-Distinct p rs h.1)
    | inr e ↦ rw e (select-Distinct p rs h.1)
  ]

  take-Distinct :
      (n : ℕ) (rs : List (Preorder Real))
      → Distinct (λ (r : Preorder Real). r.id) rs
      → Distinct (λ (r : Preorder Real). r.id) (take n rs)
  take-Distinct zero rs h = tt
  take-Distinct (suc n) [] h = tt
  take-Distinct (suc n) (r ∷ rs) h = (All-take _ n rs h.0, take-Distinct n rs h.1)

  -- What a keeper needs to know of an order that it is about to claim.
  abbrev pub IsReady : Table Real → Preorder Real → Type 0
  IsReady t d = (get_preorder d.id t ≡ some d) × (d.status ≡ signed)

  -- The orders that `orders_due` returns of a valid table are rows of the table, signed, of that kind, not yet past
  -- their deadline, distinct, and no more than the limit.
  pub orders_due-IsReady :
      (kind : String) (now limit : ℕ) (t : Table Real)
      → IsValid t
      → let due = orders_due kind now limit t in
        All (IsReady t) due
        × All (λ d. (str_eq (coalesce d.kind "sell") kind ≡ true) × (now < d.deadline)) due
        × Distinct (λ (r : Preorder Real). r.id) due
        × (length due ≤ limit)
  unfolding orders_due get_preorder
  orders_due-IsReady kind now limit t v =
      let rows = select (waits_in signed kind now) t.rows in
      (
        All-take _ limit rows (
            All-both _ _ rows (select-found (waits_in signed kind now) t.rows v.distinct)
              (select-holds _ (waits_in signed kind now) t.rows (λ x h. ground arith))),
        All-take _ limit rows
            (select-holds _ (waits_in signed kind now) t.rows (λ x h. ground arith)),
        take-Distinct limit rows (select-Distinct (waits_in signed kind now) t.rows v.distinct),
        length-take-le limit rows,
      )

  find-found :
      (q : Preorder Real → Bool) (rs : List (Preorder Real)) (d : Preorder Real)
      → Distinct (λ (r : Preorder Real). r.id) rs
      → find q rs ≡ some d
      → find (has_id d.id) rs ≡ some d
  find-found q [] d h e = cc
  find-found q (r ∷ rs) d h e = elim (Bool-cases (q r)) [
    | inl t ↦ ground arith
    | inr f ↦
        let e' : find q rs ≡ some d = rw f at e in
        ground (arith, All-find (λ s. s.id ≢ r.id) q rs d h.0 e', find-found q rs d h.1 e')
  ]

  -- The row that a signing token leads to is the row of its number.
  pub get-by_sign_token :
      (tok : String) (t : Table Real) (d : Preorder Real)
      → IsValid t
      → get_preorder_by_sign_token tok t ≡ some d
      → get_preorder d.id t ≡ some d
  unfolding get_preorder get_preorder_by_sign_token
  get-by_sign_token tok t d v h = find-found _ t.rows d v.distinct h
