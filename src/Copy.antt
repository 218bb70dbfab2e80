-- ===== src/Copy.antt =====
-- arc-intel/execution/copy.py: what a follower does about one trade of a leader. The numbers of a
-- trade arrive converted, so `decide` does not raise.
pub mod Limits
use arc_smart_orders.Float.{Float}
use arc_smart_orders.Prelude.{
  ℕ, Bool, true, not, ◌&&◌, Option, none, some, String, str_eq, lower, leb, ◌==◌, if◌then◌else◌,
}

-- A follower's settings.
pub record CopySettings (F : Type 0) : Type 0 where
  pub min_buy_usdc : F
  pub max_open : ℕ
  pub sizing : String
  pub flat_usdc : F
  pub mirror_sells : Bool
  pub tp_pct : F
  pub sl_pct : F
  pub trailing_pct : F
  pub dump_guard : Bool

pub record Trade (F : Type 0) : Type 0 where
  pub token : String
  pub side : String
  pub stable_value : F
  pub block : ℕ

pub data Reason : Type 0 where
  below_min max_open no_size mirror_off no_position unknown_side : Reason

-- A sale is always of 100 %.
pub data Decision (F : Type 0) : Type 0 where
  skip : Reason → Decision F
  buy : F → Decision F
  sell : Decision F

module _ {F : Type 0} where
  pub with_flat : Option F → CopySettings F → CopySettings F
  with_flat none s = s
  with_flat (some flat) s = record s { flat_usdc = flat }

module _ (fl : Float) where
  open fl use {F, lit, round, flt, fle}

  unfoldable pub plan_size : F → CopySettings F → F
  plan_size leader_value settings =
      if str_eq settings.sizing "proportional"
      then round leader_value 6
      else round settings.flat_usdc 6

  unfoldable pub decide :
      Trade F
      → CopySettings F
      → (position_qty : F) → (open_positions : ℕ) → (holding : Bool) → Decision F
  unfolding plan_size
  decide trade settings position_qty open_positions holding =
      let side = lower trade.side in
      let usdc = plan_size trade.stable_value settings in
      if str_eq side "buy"
      then (if flt trade.stable_value settings.min_buy_usdc
          then skip below_min
          else if not (settings.max_open == 0)
              && (leb settings.max_open open_positions && not holding)
          then skip max_open
          else if fle usdc (lit 0 0)
          then skip no_size
          else buy usdc)
      else if str_eq side "sell"
      then (if not settings.mirror_sells
          then skip mirror_off
          else if fle position_qty (lit 0 0)
          then skip no_position
          else sell)
      else skip unknown_side

  abbrev pub default_settings : CopySettings F
  default_settings = record {
    min_buy_usdc = lit 0 0;
    max_open = 0;
    sizing = "flat";
    flat_usdc = lit 25 0;
    mirror_sells = true;
    tp_pct = lit 0 0;
    sl_pct = lit 0 0;
    trailing_pct = lit 0 0;
    dump_guard = true;
  }
