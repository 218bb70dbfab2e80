-- ===== src/Strategy.antt =====
-- arc-intel/execution/strategy.py: when a position is to be closed, and how much of it.
pub mod HighWater
use arc_smart_orders.Float.{Float}
use arc_smart_orders.Prelude.{Bool, ◌&&◌, Option, none, some, List, [], ◌∷◌, if◌then◌else◌}

pub record ExitPlan (F : Type 0) : Type 0 where
  pub take_profit_pct : Option F
  pub stop_loss_pct : Option F
  pub trailing_stop_pct : Option F
  pub scale_out : List (F × F)

pub record Position (F : Type 0) : Type 0 where
  pub entry_price : F
  pub size : F
  pub high_water : F

-- The action, with the number that its `reason` quotes, and the fraction to sell.
pub data Action (F : Type 0) : Type 0 where
  stop_loss trailing_stop take_profit : F → Action F
  scale_out : F → Action F
  hold : Action F

pub record Decision (F : Type 0) : Type 0 where
  pub action : Action F
  pub fraction : F

module _ (fl : Float) where
  open fl use {F, lit, sub, mul, div, neg, fabs, flt, fle}

  pub pnl_pct : Position F → F → F
  pnl_pct pos price =
      if fle pos.entry_price (lit 0 0)
      then lit 0 0
      else div (sub price pos.entry_price) pos.entry_price

  -- The position as it is left, whose high-water mark is what the function returns.
  pub update_high_water : Position F → F → Position F
  update_high_water pos price =
      if flt pos.high_water price then record pos { high_water = price } else pos

  -- A rung `(multiple, fraction)` of the plan; the first that is reached counts.
  pub scale_out_step : Position F → F → List (F × F) → Decision F
  scale_out_step pos price [] = record { action = hold; fraction = lit 0 0 }
  scale_out_step pos price ((multiple, fraction) ∷ rungs) =
      let rest = scale_out_step pos price rungs in
      if fle (mul pos.entry_price multiple) price
      then record { action = Action.scale_out multiple; fraction = fraction }
      else rest

  pub take_profit_step : Position F → F → ExitPlan F → Option F → Decision F
  unfolding pnl_pct scale_out_step
  take_profit_step pos price plan none = scale_out_step pos price plan.scale_out
  take_profit_step pos price plan (some pct) =
      if fle (fabs pct) (pnl_pct pos price)
      then record { action = take_profit pct; fraction = lit 1 0 }
      else scale_out_step pos price plan.scale_out

  pub trailing_step : Position F → F → ExitPlan F → Option F → Decision F
  unfolding take_profit_step
  trailing_step pos price plan none = take_profit_step pos price plan plan.take_profit_pct
  trailing_step pos price plan (some pct) =
      if flt pos.entry_price pos.high_water
        && fle price (mul pos.high_water (sub (lit 1 0) (fabs pct)))
      then record { action = trailing_stop pct; fraction = lit 1 0 }
      else take_profit_step pos price plan plan.take_profit_pct

  pub stop_loss_step : Position F → F → ExitPlan F → Option F → Decision F
  unfolding trailing_step pnl_pct
  stop_loss_step pos price plan none = trailing_step pos price plan plan.trailing_stop_pct
  stop_loss_step pos price plan (some pct) =
      if fle (pnl_pct pos price) (neg (fabs pct))
      then record { action = stop_loss pct; fraction = lit 1 0 }
      else trailing_step pos price plan plan.trailing_stop_pct

  -- The position as the call leaves it, and the decision.
  pub evaluate_exit : Position F → F → ExitPlan F → Position F × Decision F
  unfolding update_high_water stop_loss_step
  evaluate_exit pos price plan =
      let pos' = update_high_water pos price in
      (pos', stop_loss_step pos' price plan plan.stop_loss_pct)
