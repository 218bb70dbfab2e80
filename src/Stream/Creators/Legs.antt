-- ===== src/Stream/Creators/Legs.antt =====
-- What one leg after another leaves.
use arc_smart_orders.Prelude.{
  ◌≡◌, refl, sym, subst, ◌∙◌, Bool, true, ◌||◌, Bool-cases, inl, inr, List, ◌∷◌, String, str_eq,
  All, All-append, [],
}
use arc_smart_orders.Float.{Float}
use arc_smart_orders.Subscriptions.{member}
use arc_smart_orders.Stream.{
  Settings, IncrementalState, Leg, record_volume, record_price, record_flow, note_seen, price_of,
}
use arc_smart_orders.Stream.Apply.{apply_leg, apply_legs}
use arc_smart_orders.Stream.Creators.{
  is_creator_sale, Knows, Excused, Fine, quiet, creator_rule-Fine,
}
use arc_smart_orders.Stream.Creators.Signals.{
  surge_rule-Fine, collapse_rule-Fine, spike_rule-Fine, large_sell_rule-Sane, whale_buy_rule-Sane,
  graduation-Sane,
}

module _ (fl : Float) (square root : fl.F → fl.F) (known : String → Type 0) where
  open fl use {F}

  note_seen_sales :
      (l : Leg F) (s : IncrementalState F)
      → (note_seen fl l s).last_dev_sell_block ≡ s.last_dev_sell_block
  unfolding note_seen
  note_seen_sales l s = elim (Bool-cases (str_eq l.token "" || member l.token s.seen)) [
    | inl e ↦ rw e refl
    | inr e ↦ rw e refl
  ]

  record_price_sales :
      (c : Settings F) (l : Leg F) (s : IncrementalState F)
      → (record_price fl c l s).last_dev_sell_block ≡ s.last_dev_sell_block
  unfolding record_price
  record_price_sales c l s = elim (Bool-cases (fl.flt (fl.lit 0 0) (price_of fl l))) [
    | inl e ↦ rw e refl
    | inr e ↦ rw e refl
  ]

  record_flow_sales :
      (c : Settings F) (l : Leg F) (s : IncrementalState F)
      → (record_flow fl c l s).last_dev_sell_block ≡ s.last_dev_sell_block
  unfolding record_flow
  record_flow_sales c l s = elim (Bool-cases (str_eq l.side "buy")) [
    | inl e ↦ rw e refl
    | inr e ↦ elim (Bool-cases (str_eq l.side "sell")) [
      | inl g ↦ rw (e, g) refl
      | inr g ↦ rw (e, g) refl
    ]
  ]

  record_volume_sales :
      (c : Settings F) (l : Leg F) (s : IncrementalState F)
      → (record_volume fl c l s).last_dev_sell_block ≡ s.last_dev_sell_block
  unfolding record_volume
  record_volume_sales c l s = refl

  -- What a leg is filed under.
  abbrev filed : Settings F → Leg F → IncrementalState F → IncrementalState F
  filed c l s = record_flow fl c l (record_price fl c l (record_volume fl c l (note_seen fl l s)))

  filed-Knows :
      (c : Settings F) (l : Leg F) (s : IncrementalState F)
      → Knows known s.last_dev_sell_block
      → Knows known (filed c l s).last_dev_sell_block
  filed-Knows c l s = subst (Knows known) (
      sym (
        record_flow_sales c l _
        ∙ (record_price_sales c l _ ∙ (record_volume_sales c l _ ∙ note_seen_sales l s))))

  apply_leg-Fine :
      (c : Settings F) (creators : List (String × String)) (emit : Bool) (l : Leg F)
      (s : IncrementalState F)
      → (is_creator_sale creators l ≡ true → known l.token)
      → Knows known s.last_dev_sell_block
      → Fine fl square root known (apply_leg fl square root c creators emit l s)
  unfolding apply_leg
  apply_leg-Fine c creators emit l s here h =
      let r₂ =
        creator_rule-Fine fl square root known c creators emit l (filed c l s) here
          (filed-Knows c l s h) in
      let r₃ = surge_rule-Fine fl square root known c emit l _ r₂.knows in
      let r₄ = collapse_rule-Fine fl square root known c emit l _ r₃.knows in
      let r₅ = spike_rule-Fine fl square root known c emit l _ r₄.knows in
      record {
        alerts =
            All-append (Excused known) _ _ (graduation-Sane fl square root known emit l s).all (
              All-append (Excused known) _ _ r₂.alerts (
                All-append (Excused known) _ _
                  (large_sell_rule-Sane fl square root known c creators emit l _).all
                  (All-append (Excused known) _ _
                    (whale_buy_rule-Sane fl square root known c emit l _).all
                    (All-append (Excused known) _ _ r₃.alerts
                      (All-append (Excused known) _ _ r₄.alerts r₅.alerts)))));
        knows = r₅.knows;
      }

  pub apply_legs-Fine :
      (c : Settings F) (creators : List (String × String)) (emit : Bool) (ls : List (Leg F))
      (s : IncrementalState F)
      → All (λ l. is_creator_sale creators l ≡ true → known l.token) ls
      → Knows known s.last_dev_sell_block
      → Fine fl square root known (apply_legs fl square root c creators emit ls s)
  unfolding apply_legs
  apply_legs-Fine c creators emit [] s all h = quiet fl square root known s h
  apply_legs-Fine c creators emit (l ∷ ls) s (here, all) h =
      let first = apply_leg-Fine c creators emit l s here h in
      let rest = apply_legs-Fine c creators emit ls _ all first.knows in
      record {
        alerts = All-append (Excused known) _ _ first.alerts rest.alerts;
        knows = rest.knows;
      }
