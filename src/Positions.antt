-- ===== src/Positions.antt =====
-- arc-intel/execution/positions.py: one average-cost position, and the fills that change it. The
-- numbers arrive converted, so `bad_numbers` cannot be raised.
pub mod Bounds
use arc_smart_orders.Float.{Float}
use arc_smart_orders.Prelude.{
  ℕ, ◌≡◌, ◌⊎◌, refl, inl, inr, Bool, true, false, not, ◌&&◌, Option, none, some, String, str_eq,
  if◌then◌else◌,
}

pub data PositionError : Type 0 where
  token_qty_must_be_positive no_position_to_sell : PositionError
  invalid_side : String → PositionError
  pending_operation no_position invalid_pct : PositionError

pub data Result (A : Type 0) : Type 0 where
  ok : A → Result A
  raise : PositionError → Result A

pub record Position (F : Type 0) : Type 0 where
  pub token : String
  pub qty : F
  pub cost : F
  pub realized : F
  pub last_block : ℕ

module _ (fl : Float) where
  open fl use {F, lit, add, sub, mul, div, fabs, flt, fle}

  unfoldable pub avg_cost : Position F → F
  avg_cost pos = if flt (lit 0 0) pos.qty then div pos.cost pos.qty else lit 0 0

  -- `min(a, b)` and `max(a, b)`
  abbrev pub fmin : F → F → F
  fmin a b = if flt b a then b else a

  abbrev pub fmax : F → F → F
  fmax a b = if flt a b then b else a

  -- The branch for `side == "sell"`.
  unfoldable pub sell : Position F → F → F → ℕ → Position F
  unfolding avg_cost
  sell pos token_qty usdc_value block =
      let sold = fmin token_qty pos.qty in
      let cogs = mul (avg_cost pos) sold in
      let proceeds = mul usdc_value (div sold token_qty) in
      let realized = add pos.realized (sub proceeds cogs) in
      let qty = sub pos.qty sold in
      let dust = fle qty (lit 1 18) in
      record pos {
        qty = if dust then lit 0 0 else qty;
        cost = if dust then lit 0 0 else sub pos.cost cogs;
        realized = realized;
        last_block = block;
      }

  unfoldable pub apply_fill : Position F → String → F → F → ℕ → Result (Position F)
  unfolding sell
  apply_fill pos side token_qty usdc_value block =
      if fle token_qty (lit 0 0)
      then raise token_qty_must_be_positive
      else if str_eq side "buy"
      then ok (record pos {
        qty = add pos.qty token_qty;
        cost = add pos.cost usdc_value;
        last_block = block;
      })
      else if str_eq side "sell"
      then (if fle pos.qty (lit 0 0)
          then raise no_position_to_sell
          else ok (sell pos token_qty usdc_value block))
      else raise (invalid_side side)

  pub sell_quantity : Option (Position F) → F → Bool → Result F
  sell_quantity none pct has_pending =
      if has_pending then raise pending_operation else raise no_position
  sell_quantity (some pos) pct has_pending =
      if has_pending
      then raise pending_operation
      else if fle pos.qty (lit 0 0)
      then raise no_position
      else if not (flt (lit 0 0) pct && fle pct (lit 1 0))
      then raise invalid_pct
      else ok (mul pos.qty pct)

  abbrev pub qty_or_zero : Option (Position F) → F
  qty_or_zero none = lit 0 0
  qty_or_zero (some pos) = pos.qty

  -- Whether the quantities agree within the tolerance, and their difference.
  pub reconcile : Option (Position F) → F → F → Bool × F
  reconcile pos onchain_qty tol =
      let computed = qty_or_zero pos in
      let diff = sub computed onchain_qty in
      let scale = fmax (fmax (fabs computed) (fabs onchain_qty)) (lit 1 0) in
      (fle (div (fabs diff) scale) tol, diff)

pub Result-cases :
    {A : Type 0} (r : Result A) → ((a : A) × (r ≡ ok a)) ⊎ ((e : PositionError) × (r ≡ raise e))
Result-cases (ok a) = inl (a, refl)
Result-cases (raise e) = inr (e, refl)
