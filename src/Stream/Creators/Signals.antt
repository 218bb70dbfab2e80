-- ===== src/Stream/Creators/Signals.antt =====
-- The rules that read a token's volume and its price.
use arc_smart_orders.Prelude.{
  ℕ, ◌+◌, ◌≡◌, refl, Bool, true, false, not, ◌&&◌, Bool-cases, inl, inr, Option, none, some, List,
  String, nonempty, leb, All, arith,
}
use arc_smart_orders.Float.{Float}
use arc_smart_orders.Subscriptions.{member}
use arc_smart_orders.Stream.{Settings, IncrementalState, Leg, lookup}
use arc_smart_orders.Stream.Apply.{
  graduation, dumps, whale_buys, surges, surge_due, collapse_due, spike_due, large_sell_rule,
  whale_buy_rule, surged, surge_rule, score, compound, collapsed, collapse_if, collapse_rule,
  spike_if, spike_rule,
}
use arc_smart_orders.Stream.Creators.{Knows, lookup-Knows, Excused, Fine, Sane, quiet}

module _ (fl : Float) (square root : fl.F → fl.F) (known : String → Type 0) where
  open fl use {F}

  pub compound-Sane :
      (c : Settings F) (l : Leg F) (o : Option ℕ) (d : List (String × ℕ))
      → lookup l.token d ≡ o
      → Knows known d
      → All (Excused known) (compound fl square root c l o)
  compound-Sane c l none d e h = tt
  compound-Sane c l (some sb) d e h =
      elim (Bool-cases (leb sb l.block && leb l.block (sb + c.window_blocks))) [
        | inl t ↦ rw t ((λ k. lookup-Knows known l.token sb d e h), tt)
        | inr t ↦ rw t tt
      ]

  pub surged-Fine :
      (c : Settings F) (l : Leg F) (o : Option (ℕ × F)) (s : IncrementalState F)
      → Knows known s.last_dev_sell_block
      → Fine fl square root known (surged fl square root c l o s)
  surged-Fine c l none s h = quiet fl square root known s h
  surged-Fine c l (some (b, old)) s h = elim (Bool-cases (surges fl square root c l old)) [
    | inl e ↦ rw e (record { alerts = ((λ k. absurd (ground arith)), tt); knows = h })
    | inr e ↦ rw e (quiet fl square root known s h)
  ]

  pub surge_rule-Fine :
      (c : Settings F) (emit : Bool) (l : Leg F) (s : IncrementalState F)
      → Knows known s.last_dev_sell_block
      → Fine fl square root known (surge_rule fl square root c emit l s)
  unfolding surge_rule
  surge_rule-Fine c emit l s h = elim (Bool-cases (surge_due fl square root c emit l s)) [
    | inl e ↦ rw e (surged-Fine c l _ s h)
    | inr e ↦ rw e (quiet fl square root known s h)
  ]

  pub collapsed-Fine :
      (c : Settings F) (emit : Bool) (l : Leg F) (z : F) (s : IncrementalState F)
      → Knows known s.last_dev_sell_block
      → Fine fl square root known (collapsed fl square root c emit l z s)
  collapsed-Fine c false l z s h = record { alerts = tt; knows = h }
  collapsed-Fine c true l z s h = record {
    alerts = (
      (λ k. absurd (ground arith)),
      compound-Sane c l (lookup l.token s.last_dev_sell_block) s.last_dev_sell_block refl h,
    );
    knows = h;
  }

  pub collapse_if-Fine :
      (c : Settings F) (emit : Bool) (l : Leg F) (o : Option F) (s : IncrementalState F)
      → Knows known s.last_dev_sell_block
      → Fine fl square root known (collapse_if fl square root c emit l o s)
  collapse_if-Fine c emit l none s h = quiet fl square root known s h
  collapse_if-Fine c emit l (some z) s h = elim (Bool-cases (collapse_due fl square root c l z s)) [
    | inl e ↦ rw e (collapsed-Fine c emit l z s h)
    | inr e ↦ rw e (quiet fl square root known s h)
  ]

  pub spike_if-Fine :
      (c : Settings F) (emit : Bool) (l : Leg F) (o : Option F) (s : IncrementalState F)
      → Knows known s.last_dev_sell_block
      → Fine fl square root known (spike_if fl square root c emit l o s)
  spike_if-Fine c emit l none s h = quiet fl square root known s h
  spike_if-Fine c true l (some z) s h = elim (Bool-cases (spike_due fl square root c l z s)) [
    | inl e ↦ rw e (record { alerts = ((λ k. absurd (ground arith)), tt); knows = h })
    | inr e ↦ rw e (quiet fl square root known s h)
  ]
  spike_if-Fine c false l (some z) s h = elim (Bool-cases (spike_due fl square root c l z s)) [
    | inl e ↦ rw e (record { alerts = tt; knows = h })
    | inr e ↦ rw e (quiet fl square root known s h)
  ]

  pub large_sell_rule-Sane :
      (c : Settings F) (creators : List (String × String)) (emit : Bool) (l : Leg F)
      (s : IncrementalState F)
      → Sane fl square root known (large_sell_rule fl square root c creators emit l s)
  unfolding large_sell_rule
  large_sell_rule-Sane c creators emit l s =
      elim (Bool-cases (dumps fl square root c creators emit l s)) [
        | inl e ↦ rw e (record { all = ((λ k. absurd (ground arith)), tt) })
        | inr e ↦ rw e (record { all = tt })
      ]

  pub whale_buy_rule-Sane :
      (c : Settings F) (emit : Bool) (l : Leg F) (s : IncrementalState F)
      → Sane fl square root known (whale_buy_rule fl square root c emit l s)
  unfolding whale_buy_rule
  whale_buy_rule-Sane c emit l s = elim (Bool-cases (whale_buys fl square root c emit l s)) [
    | inl e ↦ rw e (record { all = ((λ k. absurd (ground arith)), tt) })
    | inr e ↦ rw e (record { all = tt })
  ]

  pub graduation-Sane :
      (emit : Bool) (l : Leg F) (s : IncrementalState F)
      → Sane fl square root known (graduation fl square root emit l s)
  graduation-Sane emit l s =
      elim (Bool-cases (emit && (nonempty l.token && not (member l.token s.seen)))) [
        | inl e ↦ rw e (record { all = ((λ k. absurd (ground arith)), tt) })
        | inr e ↦ rw e (record { all = tt })
      ]

  pub collapse_rule-Fine :
      (c : Settings F) (emit : Bool) (l : Leg F) (s : IncrementalState F)
      → Knows known s.last_dev_sell_block
      → Fine fl square root known (collapse_rule fl square root c emit l s)
  unfolding collapse_rule
  collapse_rule-Fine c emit l s = collapse_if-Fine c emit l (score fl square root c l s) s

  pub spike_rule-Fine :
      (c : Settings F) (emit : Bool) (l : Leg F) (s : IncrementalState F)
      → Knows known s.last_dev_sell_block
      → Fine fl square root known (spike_rule fl square root c emit l s)
  unfolding spike_rule
  spike_rule-Fine c emit l s = spike_if-Fine c emit l (score fl square root c l s) s
