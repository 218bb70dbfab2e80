-- ===== src/Tiers.antt =====
-- arc-intel/monetization/tiers.py and fees.py: the fee that a trade pays, and its division.
pub mod Bounds
use arc_smart_orders.Float.{Float}
use arc_smart_orders.Prelude.{
  ℕ, ◌+◌, ◌*◌, Bool, true, false, not, ◌&&◌, Option, none, some, List, [], ◌∷◌, String, ltb, leb,
  ◌==◌, nonempty, if◌then◌else◌,
}

abbrev pub standard_bps : ℕ
standard_bps = 100

abbrev pub welcome_bps : ℕ
welcome_bps = 90

abbrev pub floor_bps : ℕ
floor_bps = 65

-- The dictionary with the keys `level`, `fee_bps` and `threshold`.
pub record Tier : Type 0 where
  pub level : String
  pub fee_bps : ℕ
  pub threshold : ℕ

abbrev pub vip_tiers : List Tier
vip_tiers =
    record { level = "VIP3"; fee_bps = 65; threshold = 250000 }
    ∷ record { level = "VIP2"; fee_bps = 70; threshold = 50000 }
    ∷ record { level = "VIP1"; fee_bps = 80; threshold = 10000 }
    ∷ []

-- `now - joined < days * 86400` on integers of any sign; a joining of 0 is false.
pub welcome_active : (joined_ts now days : ℕ) → Bool
welcome_active joined_ts now days = not (joined_ts == 0) && ltb now (joined_ts + days * 86400)

module _ (fl : Float) where
  open fl use {F, lit, add, sub, mul, div, flt, fle}

  -- The loop of `vip_tier` over its table, and the answer behind it.
  unfoldable pub tier_from : List Tier → F → Tier
  tier_from [] v = record { level = ""; fee_bps = standard_bps; threshold = 0 }
  tier_from (t ∷ ts) v = if fle (lit t.threshold 0) v then t else tier_from ts v

  pub vip_tier : F → Tier
  unfolding tier_from
  vip_tier volume_30d = tier_from vip_tiers volume_30d

  pub fee_bps_for :
      (joined_ts now : ℕ) → (referred : Bool) → (volume_30d : F) → (welcome_days : ℕ) → Tier
  unfolding vip_tier welcome_active
  fee_bps_for joined_ts now referred volume_30d welcome_days =
      let vip = vip_tier volume_30d in
      if nonempty vip.level
      then vip
      else if referred && welcome_active joined_ts now welcome_days
      then record { level = "WELCOME"; fee_bps = welcome_bps; threshold = 0 }
      else record { level = "STANDARD"; fee_bps = standard_bps; threshold = 0 }

  -- `none` is a ValueError, here and below.
  pub fee_amount : F → ℕ → Option F
  fee_amount notional_usdc fee_bps =
      if flt notional_usdc (lit 0 0)
      then none
      else if not (leb fee_bps 10000)
      then none
      else some (div (mul notional_usdc (lit fee_bps 0)) (lit 10000 0))

  -- The share of the rewards, then that of the treasury.
  pub split_fee : F → ℕ → Option (F × F)
  split_fee fee reward_share_bps =
      if not (leb reward_share_bps 10000)
      then none
      else let rewards = div (mul fee (lit reward_share_bps 0)) (lit 10000 0) in
        some (rewards, sub fee rewards)
