-- ===== src/Strategy/HighWater.antt =====
-- The high-water mark over the calls of `evaluate_exit`.
use arc_smart_orders.Float.{Float, IsOrder}
use arc_smart_orders.Prelude.{◌≡◌, inl, inr, refl, true, List, [], ◌∷◌, All, Bool-cases, ◌∙◌}
use arc_smart_orders.Strategy.{Position, ExitPlan, evaluate_exit, update_high_water}

module _ (fl : Float) where
  open fl use {F, flt, fle}

  -- The position after the exit was evaluated at each price in turn.
  unfoldable pub evaluate_all : Position F → ExitPlan F → List F → Position F
  evaluate_all pos plan [] = pos
  evaluate_all pos plan (p ∷ ps) = evaluate_all (evaluate_exit fl pos p plan).0 plan ps

module _ (fl : Float) (order : IsOrder fl) where
  open fl use {F, flt, fle}

  update-ge :
      (pos : Position F) (p : F)
      → fle pos.high_water pos.high_water ≡ true
      → fle p p ≡ true
      → let pos' = update_high_water fl pos p in
        (fle p pos'.high_water ≡ true)
        × (fle pos.high_water pos'.high_water ≡ true)
        × (fle pos'.high_water pos'.high_water ≡ true)
        × (pos'.entry_price ≡ pos.entry_price)
        × (pos'.size ≡ pos.size)
  unfolding update_high_water
  update-ge pos p hn pn = elim (Bool-cases (flt pos.high_water p)) [
    | inl above ↦ rw above (pn, order.le-of_lt _ _ above, pn, refl, refl)
    | inr below ↦ rw below (order.total _ _ hn pn below, hn, hn, refl, refl)
  ]

  -- Evaluating exits at any prices, which are numbers as the mark is, changes the position: its mark becomes at least every price
  -- seen and at least the mark before; entry price and size stay.
  pub high_water-evaluate_all :
      (ps : List F) (pos : Position F) (plan : ExitPlan F)
      → fle pos.high_water pos.high_water ≡ true
      → All (λ p. fle p p ≡ true) ps
      → let pos' = evaluate_all fl pos plan ps in
        All (λ p. fle p pos'.high_water ≡ true) ps
        × (fle pos.high_water pos'.high_water ≡ true)
        × (pos'.entry_price ≡ pos.entry_price)
        × (pos'.size ≡ pos.size)
  unfolding evaluate_all evaluate_exit
  high_water-evaluate_all [] pos plan hn pn = (tt, hn, refl, refl)
  high_water-evaluate_all (p ∷ ps) pos plan hn pn =
      let (ge, grows, number, entry, size) = update-ge pos p hn pn.0 in
      let pos₁ = update_high_water fl pos p in
      let (all, up, entry', size') = high_water-evaluate_all ps pos₁ plan number pn.1 in
      (
        (order.le_trans _ _ _ ge up, all),
        order.le_trans _ _ _ grows up,
        entry' ∙ entry,
        size' ∙ size,
      )

  -- Evaluating again at the same price gives the same decision and leaves the same position.
  pub evaluate_exit_idem :
      (pos : Position F) (p : F) (plan : ExitPlan F)
      → let (pos', decision) = evaluate_exit fl pos p plan in
        evaluate_exit fl pos' p plan ≡ (pos', decision)
  unfolding evaluate_exit update_high_water
  evaluate_exit_idem pos p plan = elim (Bool-cases (flt pos.high_water p)) [
    | inl above ↦ rw (above, order.lt_irrefl p)
    | inr below ↦ rw (below, below)
  ]
