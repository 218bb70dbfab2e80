-- ===== src/Tests/Streaming.antt =====
-- The theorems on the live alerts at concrete inputs, in whole numbers.
use arc_smart_orders.Prelude.{
  ℕ, ◌≡◌, ◌⊎◌, refl, true, false, none, List, [], ◌∷◌, ◌++◌, String, lower, All, map, some,
}
use arc_smart_orders.Prelude.Int.{ℤ, ◌*ℤ◌, pos, negsuc, pos_part}
use arc_smart_orders.Float.Exact.{exact}
use arc_smart_orders.AutoProtect.{on_alerts}
use arc_smart_orders.AutoProtect.Sales.{recorded, Permitted}
use arc_smart_orders.Detect.{
  Alert, LiquidityRemoval, liquidity_removal_alerts, rolling_zscore, zscore, is_significant_sell,
  pct_of_position, severity_for,
}
use arc_smart_orders.Stream.{
  Settings, Leg, note_seen, record_volume, record_price, record_flow, add_to, prune, price_up,
}
use arc_smart_orders.Stream.Apply.{
  apply_leg, apply_legs, by_creator, creator_rule, sold, warns, large_sell_rule, dumps,
  whale_buy_rule, whale_buys, surge_rule, surge_due, surges, collapse_rule, spike_rule, score,
  collapse_due, spike_due,
}
use arc_smart_orders.Stream.Feed.{Batch, initial, feed, reported}
use arc_smart_orders.Stream.Creators.Swaps.{SoldByCreator, IsWithdrawn, swaps-SoldByCreator}
use arc_smart_orders.Tests.Protecting.{chain, store, storage, ratio, start}

-- 0.5 is rounded down to 0, and 1.2 to 1.
abbrev settings : Settings ℤ
settings = record {
  bucket_blocks = 1154;
  lookback = 12;
  z_threshold = negsuc 1;
  window_blocks = 6000;
  spike_z = pos 2;
  min_spike_usdc = pos 500;
  min_confirm_usdc = pos 500;
  large_sell_usd = pos 5000;
  large_sell_ratio = pos 0;
  price_surge_pct = pos 50;
  whale_buy_usd = pos 1000;
  spike_min_price_pct = pos 0;
  spike_min_buy_ratio = pos 1;
}

abbrev square : ℤ → ℤ
square x = x *ℤ x

abbrev root : ℤ → ℤ
root x = x

abbrev leg : String → ℕ → String → Leg ℤ
leg wallet block side = record {
  token = "0xt";
  wallet = wallet;
  block = block;
  qty = pos 10;
  sv = pos 1000;
  side = side;
}

-- The creator buys in the history, and sells after another wallet in the first cycle.
abbrev batches : List (Batch ℤ)
batches =
    record { creators = ("0xt", "0xC") ∷ []; emit = false; legs = leg "0xc" 5 "buy" ∷ [] }
    ∷ record {
      creators = ("0xt", "0xC") ∷ [];
      emit = true;
      legs = leg "0xd" 7 "sell" ∷ leg "0xc" 9 "sell" ∷ [];
    }
    ∷ []

abbrev live : List (Alert ℤ)
live = (feed exact square root settings batches initial).0

-- Three quarters of the pool of a token that has no row.
abbrev withdrawal : LiquidityRemoval ℤ
withdrawal = record {
  pool_id = "0xt";
  sender = some "0xC";
  block = 9;
  delta = negsuc 74;
  creator = some "0xc";
  token = none;
  added = pos 100;
  owner = none;
  owner_is_creator = false;
}

abbrev withdrawals : List (Alert ℤ)
withdrawals = liquidity_removal_alerts exact (withdrawal ∷ []) (pos 0)

live_kinds : map (λ (a : Alert ℤ). a.kind) live ≡ "dev_sell" ∷ []
unfolding feed apply_legs apply_leg creator_rule sold warns by_creator large_sell_rule dumps
    whale_buy_rule whale_buys surge_rule surge_due surges collapse_rule spike_rule score note_seen
    record_volume record_price record_flow add_to prune rolling_zscore is_significant_sell
    pct_of_position severity_for price_up collapse_due spike_due lower zscore
live_kinds = refl

swaps-SoldByCreator_example :
    All
      (λ s.
        (token : String) × (SoldByCreator batches token
          ⊎ IsWithdrawn exact (pos 0) (withdrawal ∷ []) token)
        × Permitted store (lower token) s)
      (on_alerts exact ratio pos_part
        (recorded chain)
        (λ t. 1)
        storage
        store
        (reported (live ++ withdrawals))
        (start, [])).1.1
swaps-SoldByCreator_example =
    swaps-SoldByCreator exact square root ratio pos_part chain (λ t. 1) storage store settings
      batches (withdrawal ∷ []) (live ++ withdrawals) start (λ a m. m)
