-- ===== src/SignServer/Revive.antt =====
-- What a signature does to the order that it is handed in for.
use text.Mathlib.Text.{starts_with}
use arc_smart_orders.Prelude.{
  ℕ, ◌≡◌, ◌∙◌, refl, true, Option, none, some, String, nonempty, arith, ==_refl, not, ◌||◌, inl,
  inr, Bool-cases,
}
use arc_smart_orders.Orders.{
  Preorder, Table, signed, executed, cancelled, status_eq, get_preorder, get_preorder_by_sign_token,
  attach_signature, claim_order,
}
use arc_smart_orders.Orders.Lookup.{get-attach_signature, claim_signed, get_preorder-id}
use arc_smart_orders.Orders.Valid.{IsValid}
use arc_smart_orders.Orders.Due.{get-by_sign_token}
use arc_smart_orders.SignServer.{sign, sign_found, accepted, is_buy}

module _ {Real : Type 0} where
  -- The owner's link still works after the order was cancelled: a signature that is handed in then
  -- is accepted, and the order stands signed and can be claimed by the keeper.
  pub sign_revives_cancelled :
      (tok sig : String) (d : Preorder Real) (t : Table Real)
      → IsValid t
      → nonempty tok ≡ true
      → starts_with sig "0x" ≡ true
      → get_preorder_by_sign_token tok t ≡ some d
      → d.status ≡ cancelled
      → let (reply, t') = sign tok sig t in
        (reply ≡ accepted d.id d.kind (is_buy d.kind))
        × (get_preorder d.id t' ≡ some (record d { signature = some sig; status = signed }))
        × ((claim_order d.id t').0 ≡ true)
  unfolding sign
  sign_revives_cancelled tok sig d t v htok hsig by_token stopped =
      let after = record d { signature = some sig; status = signed } in
      let by_id = get-by_sign_token tok t d v by_token in
      let row : get_preorder d.id (attach_signature d.id sig t) ≡ some after =
        get-attach_signature d.id d.id sig t ∙ ground (arith, by_id, ==_refl d.id) in
      rw (htok, hsig, by_token, stopped) (refl, row, claim_signed _ after row refl)

  sign_found_keeps :
      (sig : String) (o : Option (Preorder Real)) (k : ℕ) (t : Table Real) (r : Preorder Real)
      → ((d : Preorder Real) → o ≡ some d → get_preorder d.id t ≡ some d)
      → get_preorder k t ≡ some r
      → r.status ≡ executed
      → get_preorder k (sign_found sig o t).1 ≡ some r
  unfolding sign_found
  sign_found_keeps sig none k t r own h e = h
  sign_found_keeps sig (some d) k t r own h e = elim (Bool-cases (status_eq d.status executed)) [
    | inl done ↦ rw done h
    | inr live ↦ rw live (
        ground (
          arith,
          get-attach_signature k d.id sig t,
          own d refl,
          h,
          e,
          get_preorder-id k t r h,
          live,
        ))
  ]

  -- In a valid table no signature, whatever its token, changes an order that is executed.
  pub sign_keeps_executed :
      (tok sig : String) (k : ℕ) (t : Table Real) (r : Preorder Real)
      → IsValid t
      → get_preorder k t ≡ some r
      → r.status ≡ executed
      → get_preorder k (sign tok sig t).1 ≡ some r
  unfolding sign
  sign_keeps_executed tok sig k t r v h e =
      let found =
        sign_found_keeps sig (get_preorder_by_sign_token tok t) k t r
          (λ d. get-by_sign_token tok t d v) h e in
      elim (Bool-cases (not (nonempty tok) || not (starts_with sig "0x"))) [
        | inl refused ↦ rw refused h
        | inr asked ↦ rw asked found
      ]
