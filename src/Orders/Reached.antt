-- ===== src/Orders/Reached.antt =====
-- Which orders the query of the buy keeper reaches, and how many rows the statements leave.
use arc_smart_orders.Prelude.{
  ℕ, ◌+◌, str_eq, eq_iff, ltb, lower, zero, suc, ◌≤◌, ◌<◌, ◌≡◌, refl, ap, ◌∙◌, Bool, true, some,
  String, List, [], ◌∷◌, arith, find, select, exists, take, length, Bool-cases, inl, inr,
}
use arc_smart_orders.Sql.{update_where}
use arc_smart_orders.Orders.{
  Preorder, Table, signed, submitting, cancelled, cancellable, claimable, coalesce, has_id,
  waits_in, orders_due, get_preorder, claim_order, cancel_preorder, set_preorder_status,
  bump_attempt,
}
use arc_smart_orders.Orders.Valid.{
  IsValid, claim, cancel, status, bump, write, write_all, write_all-IsValid,
}

module _ {Real : Type 0} where
  find-select :
      (p q : Preorder Real → Bool) (rs : List (Preorder Real)) (d : Preorder Real)
      → find q rs ≡ some d
      → p d ≡ true
      → exists q (select p rs) ≡ true
  find-select p q [] d h e = absurd (ground arith)
  find-select p q (r ∷ rs) d h e = elim (Bool-cases (q r)) [
    | inl here ↦
        let same : r ≡ d = ground (arith, here) in
        let kept : p r ≡ true = rw same e in rw (kept, here) refl
    | inr there ↦
        let rest = find-select p q rs d (rw there at h) e in
        elim (Bool-cases (p r)) [ inl k ↦ rw (k, there) rest | inr k ↦ rw k rest ]
  ]

  length-select-le :
      (p : Preorder Real → Bool) (rs : List (Preorder Real)) → length (select p rs) ≤ length rs
  length-select-le p [] = omega arith
  length-select-le p (r ∷ rs) = ground (arith, length-select-le p rs)

  take-all : (n : ℕ) (rs : List (Preorder Real)) → length rs ≤ n → take n rs ≡ rs
  take-all zero [] h = refl
  take-all (suc n) [] h = refl
  take-all zero (r ∷ rs) h = absurd (omega arith)
  take-all (suc n) (r ∷ rs) h = ap (λ x. r ∷ x) (take-all n rs (omega arith))

  length-update_where :
      (p : Preorder Real → Bool) (f : Preorder Real → Preorder Real) (rs : List (Preorder Real))
      → length (update_where p f rs) ≡ length rs
  length-update_where p f [] = refl
  length-update_where p f (r ∷ rs) = ap suc (length-update_where p f rs)

  -- A signed order to buy, before its deadline, is due where the limit leaves out no row.
  pub orders_due-found :
      (now limit : ℕ) (d : Preorder Real) (t : Table Real)
      → get_preorder d.id t ≡ some d
      → d.status ≡ signed
      → coalesce d.kind "sell" ≡ "buy"
      → now < d.deadline
      → length t.rows ≤ limit
      → exists (has_id d.id) (orders_due "buy" now limit t) ≡ true
  unfolding orders_due waits_in get_preorder
  orders_due-found now limit d t found is_signed buys early fits =
      let waits : waits_in signed "buy" now d ≡ true =
        let bought : str_eq (coalesce d.kind "sell") "buy" ≡ true =
          (eq_iff (coalesce d.kind "sell") "buy").1 buys in
        let open_ : ltb now d.deadline ≡ true = ground arith in
        rw (is_signed, bought, open_) refl in
      let whole : take limit (select (waits_in signed "buy" now) t.rows)
          ≡ select (waits_in signed "buy" now) t.rows =
        take-all limit _ (omega (arith, length-select-le (waits_in signed "buy" now) t.rows)) in
      rw whole (find-select (waits_in signed "buy" now) (has_id d.id) t.rows d found waits)

  -- A claim, a cancellation and a failure of the submission keep the table valid and its length.
  pub lost_writes :
      (k : ℕ) (owner : String) (t : Table Real)
      → IsValid t
      → let t' =
          bump_attempt k
            (set_preorder_status k signed (cancel_preorder k owner (claim_order k t).1).1) in
        IsValid t' × (length t'.rows ≡ length t.rows)
  unfolding write_all write bump_attempt set_preorder_status cancel_preorder claim_order
  lost_writes k owner t v = (
    write_all-IsValid (claim k ∷ cancel k owner ∷ status k signed ∷ bump k ∷ []) t v,
    length-update_where (has_id k) (λ r. record r { attempts = some (coalesce r.attempts 0 + 1) }) _
        ∙ length-update_where (has_id k) (λ r. record r { status = signed }) _
        ∙ length-update_where (cancellable k (lower owner)) (λ r. record r { status = cancelled }) _
        ∙ length-update_where (claimable k) (λ r. record r { status = submitting }) t.rows,
  )
