-- ===== src/Pnl/Ledger.antt =====
-- The loop over a group of legs against the tracked position of arc-intel/execution/positions.py.
use arc_smart_orders.Float.{Float, IsOrder}
use arc_smart_orders.Positions
use arc_smart_orders.Positions.{Position, Result, ok, raise, apply_fill, avg_cost, fmin}
use arc_smart_orders.Pnl.{
  Leg, Side, buy, sell, Book, ClosedTrade, empty_book, close, trade_leg, trade_legs,
}
use arc_smart_orders.Prelude.{
  ℕ, ◌≡◌, refl, ap, ◌∙◌, ◌⊎◌, true, false, String, List, [], ◌∷◌, ◌++◌, All, arith, inl, inr,
  Bool-cases,
}

Side-cases : (s : Side) → (s ≡ buy) ⊎ (s ≡ sell)
Side-cases buy = inl refl
Side-cases sell = inr refl

module _ (fl : Float) where
  open fl use {F, lit, add, flt, fle}

  -- The realized gains, added from the first to the last.
  abbrev pub sum_realized : F → List (ClosedTrade F) → F
  sum_realized r [] = r
  sum_realized r (t ∷ ts) = sum_realized (add r t.realized) ts

  abbrev pub side_text : Side → String
  side_text buy = "buy"
  side_text sell = "sell"

  abbrev pub kept : Position F → Result (Position F) → Position F
  kept pos (ok p) = p
  kept pos (raise e) = pos

  -- The legs as fills of a position, where a refused fill changes nothing.
  abbrev pub fills : List (Leg F) → Position F → Position F
  fills [] p = p
  fills (l ∷ legs) p =
      fills legs (kept p (apply_fill fl p (side_text l.side) l.token_qty l.stable_value l.block))

  -- Every quantity on the way is a number.
  abbrev pub AreNumbers : String → String → List (Leg F) → Book F → Type 0
  AreNumbers w t [] b = Unit
  AreNumbers w t (l ∷ legs) b =
      (fle b.qty b.qty ≡ true) × AreNumbers w t legs (trade_leg fl w t l b)

  sum_realized-append :
      (r : F) (ts : List (ClosedTrade F)) (t : ClosedTrade F)
      → sum_realized r (ts ++ t ∷ []) ≡ add (sum_realized r ts) t.realized
  sum_realized-append r [] t = refl
  sum_realized-append r (x ∷ ts) t = sum_realized-append (add r x.realized) ts t

  -- The position that a book stands for.
  abbrev position_of : String → ℕ → F → Book F → Position F
  position_of token last r b = record {
    token = token;
    qty = b.qty;
    cost = b.cost;
    realized = sum_realized r b.out;
    last_block = last;
  }

  positive :
      IsOrder fl
      → fle (lit 0 0) (lit 0 0) ≡ true
      → (q : F) → fle q q ≡ true
      → fle q (lit 0 0) ≡ false
      → flt (lit 0 0) q ≡ true
  positive order zero q number above = elim (Bool-cases (flt (lit 0 0) q)) [
    | inl e ↦ e
    | inr e ↦ absurd (ground (arith, order.total (lit 0 0) q zero number e, above))
  ]

  leg-fill :
      IsOrder fl
      → fle (lit 0 0) (lit 0 0) ≡ true
      → (w t token : String) (last : ℕ) (r : F) (l : Leg F) (b : Book F)
      → fle l.token_qty (lit 0 0) ≡ false
      → fle b.qty b.qty ≡ true
      → let p = position_of token last r b in
        (last' : ℕ) × (kept p
            (apply_fill fl p (side_text l.side) l.token_qty l.stable_value l.block)
          ≡ position_of token last' r (trade_leg fl w t l b))
  unfolding apply_fill trade_leg close Positions.sell avg_cost
  leg-fill order zero w t token last r l b some_ number = elim (Side-cases l.side) [
    | inl e ↦ (l.block, rw (trade_leg, e, some_) refl)
    | inr e ↦ elim (Bool-cases (fle b.qty (lit 0 0))) [
      | inl bare ↦ (last, rw (trade_leg, e, some_, bare) refl)
      | inr held ↦
          let above = positive order zero b.qty number held in
          (l.block, rw (trade_leg, e, some_, held, above, sum_realized-append r b.out _) refl)
    ]
  ]

  legs-fills :
      IsOrder fl
      → fle (lit 0 0) (lit 0 0) ≡ true
      → (w t token : String) (last : ℕ) (r : F) (legs : List (Leg F)) (b : Book F)
      → All (λ (l : Leg F). fle l.token_qty (lit 0 0) ≡ false) legs
      → AreNumbers w t legs b
      → (last' : ℕ) × (fills legs (position_of token last r b)
          ≡ position_of token last' r (trade_legs fl w t legs b))
  unfolding trade_legs
  legs-fills order zero w t token last r [] b h k = (last, refl)
  legs-fills order zero w t token last r (l ∷ legs) b h k =
      let (next, e) = leg-fill order zero w t token last r l b (h.0) (k.0) in
      let (end, f) =
        legs-fills order zero w t token next r legs (trade_leg fl w t l b) (h.1) (k.1) in
      (end, ap (fills legs) e ∙ f)

  -- Where every leg has a quantity above zero and every quantity on the way is a number: the legs of
  -- a wallet in a token lead the loop of `closed_trades` to the quantity and the cost of the position
  -- that `apply_fill` tracks from nothing, a refused sale being left out, and the gains of the
  -- closed trades, added in their order, are what the position has realized.
  pub trade_legs-apply_fill :
      IsOrder fl
      → fle (lit 0 0) (lit 0 0) ≡ true
      → (w t : String) (legs : List (Leg F))
      → All (λ (l : Leg F). fle l.token_qty (lit 0 0) ≡ false) legs
      → AreNumbers w t legs (empty_book fl [])
      → let nothing : Position F = record {
        token = t;
        qty = lit 0 0;
        cost = lit 0 0;
        realized = lit 0 0;
        last_block = 0;
      } in
        let b = trade_legs fl w t legs (empty_book fl []) in
        let p = fills legs nothing in
        (p.qty ≡ b.qty) × (p.cost ≡ b.cost) × (p.realized ≡ sum_realized (lit 0 0) b.out)
  trade_legs-apply_fill order zero w t legs h k =
      let (end, e) = legs-fills order zero w t t 0 (lit 0 0) legs (empty_book fl []) h k in
      (ap (λ p. p.qty) e, ap (λ p. p.cost) e, ap (λ p. p.realized) e)
