-- ===== src/Contest/Straddle.antt =====
-- A round trip across the end of a round.
use arc_smart_orders.Float.{Float}
use arc_smart_orders.Fills.{Fill, Store}
use arc_smart_orders.Prelude.{ℕ, ◌≤◌, ◌+◌, ◌≡◌, true, false, [], ◌∷◌, lower, leb, ltb, arith}
use text.Mathlib.Text.{starts_with}
use arc_smart_orders.AntiWash.RoundTrips.{round_trip}
use arc_smart_orders.AntiWash.Small.{volume_by_user-one, volume_by_user-round_trip}
use arc_smart_orders.Contest.Ledger.{contest_volume_between, contest_fills_between}

module _ (fl : Float) where
  open fl use {F, lit, add, fle}

  -- Where the store has two real fills `a` and `b` only, a round trip of no less than the minimum
  -- each, `a` before the end of a round and `b` in the next one: each round counts the volume of
  -- its fill, although the filter leaves nothing of the two when it sees both.
  pub straddling_round_trip_counts :
      (start mid end window_s : ℕ) (min_notional : F) (a b : Fill F) (s : Store F)
      → s.fills ≡ a ∷ b ∷ []
      → starts_with (lower a.fill_id) "paper" ≡ false
      → starts_with (lower b.fill_id) "paper" ≡ false
      → round_trip window_s a b ≡ true
      → fle min_notional a.usdc ≡ true
      → fle min_notional b.usdc ≡ true
      → start ≤ a.ts
      → a.ts + 1 ≤ mid
      → mid ≤ b.ts
      → b.ts + 1 ≤ end
      → let volume =
          λ (from : ℕ) (to : ℕ). contest_volume_between fl from to min_notional [] window_s s in
        (volume start mid ≡ (a.user, add (lit 0 0) a.usdc) ∷ [])
        × (volume mid end ≡ (b.user, add (lit 0 0) b.usdc) ∷ [])
        × (volume start end ≡ [])
  unfolding contest_volume_between contest_fills_between
  straddling_round_trip_counts start mid end window_s min_notional a b s two real_a real_b wash
        large_a large_b from_start before mid_on to_end =
      let a1 : leb start a.ts ≡ true = ground arith in
      let a2 : ltb a.ts mid ≡ true = ground arith in
      let a3 : ltb a.ts end ≡ true = ground arith in
      let a4 : leb mid a.ts ≡ false = ground arith in
      let b1 : leb start b.ts ≡ true = ground arith in
      let b2 : ltb b.ts mid ≡ false = ground arith in
      let b3 : ltb b.ts end ≡ true = ground arith in
      let b4 : leb mid b.ts ≡ true = ground arith in
      (
        rw (two, a1, a2, real_a, b1, b2) (volume_by_user-one fl min_notional window_s a large_a),
        rw (two, a4, b4, b3, real_b) (volume_by_user-one fl min_notional window_s b large_b),
        rw (two, a1, a3, real_a, b1, b3, real_b)
            (volume_by_user-round_trip fl min_notional [] window_s a b wash),
      )
