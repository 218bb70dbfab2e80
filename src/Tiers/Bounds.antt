-- ===== src/Tiers/Bounds.antt =====
-- The fee of a trade: its bounds, and how it goes with the volume.
use arc_smart_orders.Float.{Float, IsOrder}
use arc_smart_orders.Prelude.{
  ℕ, ◌≤◌, ◌≡◌, refl, Bool, true, false, List, [], ◌∷◌, arith, nonempty, inl, inr, Bool-cases, All,
  ◌⊎◌,
}
use arc_smart_orders.Tiers.{Tier, vip_tiers, vip_tier, tier_from, fee_bps_for}

-- A table of fees that rise as the thresholds fall, each below the standard fee.
abbrev pub Falls : List Tier → Type 0
Falls [] = Unit
Falls (t ∷ ts) = (t.fee_bps ≤ 100) × All (λ (x : Tier). t.fee_bps ≤ x.fee_bps) ts × Falls ts

module _ (fl : Float) where
  open fl use {F, fle}

  tier_from-low :
      (k : ℕ) (ts : List Tier) (v : F)
      → k ≤ 100
      → All (λ (x : Tier). k ≤ x.fee_bps) ts
      → k ≤ (tier_from fl ts v).fee_bps
  unfolding tier_from
  tier_from-low k [] v h all = h
  tier_from-low k (t ∷ ts) v h all = ground (arith, tier_from-low k ts v h)

  tier_from-antitone :
      (o : IsOrder fl) (ts : List Tier) (v w : F)
      → fle v w ≡ true
      → Falls ts
      → (tier_from fl ts w).fee_bps ≤ (tier_from fl ts v).fee_bps
  unfolding tier_from
  tier_from-antitone o [] v w h f = ground arith
  tier_from-antitone o (t ∷ ts) v w h f =
      let both : fle (fl.lit t.threshold 0) v ≡ true → fle (fl.lit t.threshold 0) w ≡ true =
        λ high. o.le_trans (fl.lit t.threshold 0) v w high h in
      let low = tier_from-low t.fee_bps ts v f.0 f.1 in
      let rest = tier_from-antitone o ts v w h f.2 in ground (arith, both)

  vip_tiers-Falls : Falls vip_tiers
  vip_tiers-Falls = ground arith

  -- A trader has a level and a reduced fee, or neither.
  tier_from-cases :
      (ts : List Tier) (v : F)
      → All (λ (t : Tier). (nonempty t.level ≡ true) × (65 ≤ t.fee_bps) × (t.fee_bps ≤ 80)) ts
      → let t = tier_from fl ts v in
        (nonempty t.level ≡ true) × (65 ≤ t.fee_bps) × (t.fee_bps ≤ 80)
        ⊎ (nonempty t.level ≡ false) × (t.fee_bps ≡ 100)
  unfolding tier_from
  tier_from-cases [] v all = inr (refl, refl)
  tier_from-cases (t ∷ ts) v all = elim (Bool-cases (fle (fl.lit t.threshold 0) v)) [
    | inl high ↦ rw high (inl all.0)
    | inr low ↦ rw low (tier_from-cases ts v all.1)
  ]

  vip_tier-cases :
      (v : F)
      → let t = vip_tier fl v in
        (nonempty t.level ≡ true) × (65 ≤ t.fee_bps) × (t.fee_bps ≤ 80)
        ⊎ (nonempty t.level ≡ false) × (t.fee_bps ≡ 100)
  unfolding vip_tier
  vip_tier-cases v = tier_from-cases vip_tiers v (ground arith)

  -- Whatever the volume, the joining and the moment, a fee is from 65 to 100 basis
  -- points.
  pub fee_bps_for_bounds :
      (joined now days : ℕ) (referred : Bool) (v : F)
      → let t = fee_bps_for fl joined now referred v days in (65 ≤ t.fee_bps) × (t.fee_bps ≤ 100)
  unfolding fee_bps_for
  fee_bps_for_bounds joined now days referred v = ground (arith, vip_tier-cases v)

  -- Who trades more pays no higher fee: with the rest the same, the fee falls or stays as the
  -- volume rises, across the discount for referred users too.
  pub fee_bps_for_antitone :
      (o : IsOrder fl) (joined now days : ℕ) (referred : Bool) (v w : F)
      → fle v w ≡ true
      → (fee_bps_for fl joined now referred w days).fee_bps
        ≤ (fee_bps_for fl joined now referred v days).fee_bps
  unfolding fee_bps_for
  fee_bps_for_antitone o joined now days referred v w h =
      let vip : (vip_tier fl w).fee_bps ≤ (vip_tier fl v).fee_bps =
        unfold vip_tier in tier_from-antitone o vip_tiers v w h vip_tiers-Falls in
      ground (arith, vip_tier-cases v, vip_tier-cases w)
