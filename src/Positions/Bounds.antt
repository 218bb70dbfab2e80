-- ===== src/Positions/Bounds.antt =====
-- What a sale can leave of a position.
use arc_smart_orders.Float.{Float, IsOrder, IsFiniteArithmetic}
use arc_smart_orders.Prelude.{
  ℕ, ◌≡◌, refl, true, false, String, str_eq, arith, inl, inr, Bool-cases,
}
use arc_smart_orders.Positions.{Position, ok, apply_fill, sell, fmin}

module _ (fl : Float) (order : IsOrder fl) (arithmetic : IsFiniteArithmetic fl) where
  open fl use {F, lit, flt, fle, sub}
  open arithmetic use {finite, number, zero_finite}

  fmin-le_right : (a b : F) → finite a ≡ true → finite b ≡ true → fle (fmin fl a b) b ≡ true
  fmin-le_right a b ha hb = elim (Bool-cases (flt b a)) [
    | inl below ↦ rw below (number b hb)
    | inr above ↦ rw above (order.total b a (number b hb) (number a ha) above)
  ]

  fmin-finite : (a b : F) → finite a ≡ true → finite b ≡ true → finite (fmin fl a b) ≡ true
  fmin-finite a b ha hb = ground arith

  nonneg_of_not-le : (q : F) → finite q ≡ true → fle q (lit 0 0) ≡ false → fle (lit 0 0) q ≡ true
  nonneg_of_not-le q fq h = elim (Bool-cases (flt q (lit 0 0))) [
    | inl below ↦ absurd (ground (arith, order.le-of_lt _ _ below))
    | inr above ↦ order.total q (lit 0 0) (number q fq) (number _ zero_finite) above
  ]

  sell-qty_nonneg :
      (pos : Position F) (q u : F) (b : ℕ)
      → finite pos.qty ≡ true
      → finite q ≡ true
      → fle (lit 0 0) (sell fl pos q u b).qty ≡ true
  unfolding sell
  sell-qty_nonneg pos q u b fp fq =
      let sold = fmin fl q pos.qty in
      let left =
        arithmetic.sub_nonneg pos.qty sold fp (fmin-finite q pos.qty fq fp)
          (fmin-le_right q pos.qty fq fp) in
      elim (Bool-cases (fle (sub pos.qty sold) (lit 1 18))) [
        | inl dust ↦ rw dust (number _ zero_finite)
        | inr some_left ↦ rw some_left left
      ]

  -- A sale of a positive quantity that exceeds the finite, positive one of the position closes it:
  -- nothing of the quantity or of its cost is left, and the block is that of the sale.
  pub sell_closes :
      (pos : Position F) (q u : F) (b : ℕ)
      → finite pos.qty ≡ true
      → flt (lit 0 0) pos.qty ≡ true
      → flt pos.qty q ≡ true
      → fle q (lit 0 0) ≡ false
      → (closed : Position F) × (apply_fill fl pos "sell" q u b ≡ ok closed)
        × (closed.qty ≡ lit 0 0)
        × (closed.cost ≡ lit 0 0)
        × (closed.last_block ≡ b)
  unfolding apply_fill sell
  sell_closes pos q u b fp held over positive =
      let zero_left = arithmetic.sub_self pos.qty fp in
      let dust : fle (sub pos.qty (fmin fl q pos.qty)) (lit 1 18) ≡ true =
        rw (over, zero_left) arithmetic.tiny_pos in
      (sell fl pos q u b, rw (positive, order.not_both _ _ held), rw dust, rw dust, refl)

  -- A fill of a finite quantity that is accepted, a purchase or a sale, never leaves a negative
  -- quantity of a position whose own was finite and not negative.
  pub qty-apply_fill_nonneg :
      (pos pos' : Position F) (side : String) (q u : F) (b : ℕ)
      → finite pos.qty ≡ true
      → finite q ≡ true
      → fle (lit 0 0) pos.qty ≡ true
      → apply_fill fl pos side q u b ≡ ok pos'
      → fle (lit 0 0) pos'.qty ≡ true
  unfolding apply_fill
  qty-apply_fill_nonneg pos pos' side q u b fp fq np h = elim (Bool-cases (fle q (lit 0 0))) [
    | inl refused ↦ absurd (ground (arith, refused))
    | inr positive ↦ elim (Bool-cases (str_eq side "buy")) [
      | inl buys ↦
          let bought = arithmetic.add_nonneg pos.qty q fp fq np (nonneg_of_not-le q fq positive) in
          ground (arith, positive, buys, bought)
      | inr other ↦ ground (arith, positive, other, sell-qty_nonneg pos q u b fp fq)
    ]
  ]
