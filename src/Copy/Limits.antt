-- ===== src/Copy/Limits.antt =====
-- The follower's limits on a copied trade.
use arc_smart_orders.Float.{Float}
use arc_smart_orders.Copy.{CopySettings, Trade, buy, sell, decide, plan_size}
use arc_smart_orders.Prelude.{ℕ, ◌<◌, ◌≡◌, ◌⊎◌, Bool, true, false, str_eq, lower, arith}

module _ (fl : Float) where
  open fl use {F, lit, flt, fle}

  -- A purchase is copied only if the leader bought, for at least the minimum, with a size above
  -- zero, and while the cap on open positions is off, not reached, or the token is held already.
  pub decide-buy :
      (t : Trade F) (s : CopySettings F) (q : F) (n : ℕ) (holding : Bool) (usdc : F)
      → decide fl t s q n holding ≡ buy usdc
      → (str_eq (lower t.side) "buy" ≡ true)
        × (flt t.stable_value s.min_buy_usdc ≡ false)
        × (usdc ≡ plan_size fl t.stable_value s)
        × (fle usdc (lit 0 0) ≡ false)
        × ((s.max_open ≡ 0) ⊎ ((n < s.max_open) ⊎ (holding ≡ true)))
  unfolding decide
  decide-buy t s q n holding usdc h = ground arith

  -- A sale is copied only if the leader sold, sales are mirrored, and the follower has a position.
  pub decide-sell :
      (t : Trade F) (s : CopySettings F) (q : F) (n : ℕ) (holding : Bool)
      → decide fl t s q n holding ≡ sell
      → (str_eq (lower t.side) "sell" ≡ true) × (s.mirror_sells ≡ true) × (fle q (lit 0 0) ≡ false)
  unfolding decide
  decide-sell t s q n holding h = ground arith
