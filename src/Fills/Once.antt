-- ===== src/Fills/Once.antt =====
-- A fill is recorded once: what repeated and failed calls of `record_fill` do.
use arc_smart_orders.Float.{Float}
use arc_smart_orders.Fills.{Store, accrue_referral, add_referral_credit}
use arc_smart_orders.Prelude.{ℕ, ◌≡◌, String, arith}

module _ (fl : Float) where
  open fl use {F}

  -- Neither the fills nor the positions are the business of the commission.
  pub accrue-others :
      (now : ℕ) (id buyer token : String) (n : F) (ts fee_bps pct_bps : ℕ) (s : Store F)
      → let s' = (accrue_referral fl now id buyer token n ts fee_bps pct_bps s).1 in
        (s'.fills ≡ s.fills) × (s'.positions ≡ s.positions) × (s'.bindings ≡ s.bindings)
  unfolding accrue_referral add_referral_credit
  accrue-others now id buyer token n ts fee_bps pct_bps s = ground arith
