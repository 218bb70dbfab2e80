-- ===== src/Stream/Creators.antt =====
-- Which legs the alerts that make the bot sell stem from: the rule on sales of creators.
pub mod Signals
pub mod Legs
pub mod Swaps
use arc_smart_orders.Prelude.{
  ℕ, ◌≡◌, refl, subst, Bool, true, ◌&&◌, Bool-cases, inl, inr, Option, none, some, List, ◌∷◌,
  String, str_eq, eq_iff, nonempty, find, All, arith, [],
}
use arc_smart_orders.Float.{Float}
use arc_smart_orders.Subscriptions.{member}
use arc_smart_orders.AutoProtect.{risk}
use arc_smart_orders.Detect.{Alert}
use arc_smart_orders.Stream.{Settings, Position, IncrementalState, Leg, lookup, assign}
use arc_smart_orders.Stream.Apply.{
  Out, creator_of, position_is, warns, by_creator, sold, sold_if, creator_rule,
}

-- The leg is a sale by the creator that the dictionary names for its token.
abbrev pub is_creator_sale : {F : Type 0} → List (String × String) → Leg F → Bool
is_creator_sale creators l =
    str_eq l.side "sell"
    && (str_eq l.wallet (creator_of creators l.token) && nonempty (creator_of creators l.token))

-- All tokens of a dictionary are known.
abbrev Knows : (String → Type 0) → List (String × ℕ) → Type 0
Knows known = All (λ (entry : String × ℕ). known entry.0)

assign-Knows :
    (known : String → Type 0) (token : String) (block : ℕ) (d : List (String × ℕ))
    → known token
    → Knows known d
    → Knows known (assign token block d)
assign-Knows known token block [] here all = (here, tt)
assign-Knows known token block ((k, v) ∷ d) here (first, all) = elim (Bool-cases (str_eq k token)) [
  | inl e ↦ rw e (first, all)
  | inr e ↦ rw e (first, assign-Knows known token block d here all)
]

pub lookup-Knows :
    (known : String → Type 0) (token : String) (block : ℕ) (d : List (String × ℕ))
    → lookup token d ≡ some block
    → Knows known d
    → known token
lookup-Knows known token block [] h all = absurd (ground arith)
lookup-Knows known token block ((k, v) ∷ d) h (first, all) = elim (Bool-cases (str_eq k token)) [
  | inl e ↦ subst known ((eq_iff k token).0 e) first
  | inr e ↦ lookup-Knows known token block d (rw e at h) all
]

-- An alert of a kind that sells is of a known token.
abbrev Excused : {F : Type 0} → (String → Type 0) → Alert F → Type 0
Excused known a = member a.kind risk ≡ true → known a.token

module _ (fl : Float) (square root : fl.F → fl.F) (known : String → Type 0) where
  open fl use {F}

  -- What a rule leaves.
  pub record Fine (out : Out F) : Type 0 where
    pub alerts : All (Excused known) out.0
    pub knows : Knows known out.1.last_dev_sell_block

  -- What the list of a rule is.
  pub record Sane (xs : List (Alert F)) : Type 0 where
    pub all : All (Excused known) xs

  pub quiet : (s : IncrementalState F) → Knows known s.last_dev_sell_block → Fine ([], s)
  quiet s h = record { alerts = tt; knows = h }

  sold-Fine :
      (c : Settings F) (emit : Bool) (l : Leg F) (p : Position F) (s : IncrementalState F)
      → known l.token
      → Knows known s.last_dev_sell_block
      → Fine (sold fl square root c emit l p s)
  unfolding sold
  sold-Fine c emit l p s here h = elim (Bool-cases (warns fl square root emit l p)) [
    | inl e ↦ rw e (record {
      alerts = ((λ k. here), tt);
      knows = assign-Knows known l.token l.block s.last_dev_sell_block here h;
    })
    | inr e ↦ rw e (record { alerts = tt; knows = h })
  ]

  sold_if-Fine :
      (c : Settings F) (emit : Bool) (l : Leg F) (o : Option (Position F)) (s : IncrementalState F)
      → known l.token
      → Knows known s.last_dev_sell_block
      → Fine (sold_if fl square root c emit l o s)
  sold_if-Fine c emit l none s here h = quiet s h
  sold_if-Fine c emit l (some p) s here h = elim (Bool-cases (fl.flt (fl.lit 0 0) p.qty)) [
    | inl e ↦ rw e (sold-Fine c emit l p s here h)
    | inr e ↦ rw e (quiet s h)
  ]

  sale_is :
      (creators : List (String × String)) (l : Leg F)
      → str_eq l.side "sell" ≡ true
      → by_creator fl square root creators l ≡ true
      → is_creator_sale creators l ≡ true
  unfolding by_creator
  sale_is creators l sells own = rw (sells, own) refl

  pub creator_rule-Fine :
      (c : Settings F) (creators : List (String × String)) (emit : Bool) (l : Leg F)
      (s : IncrementalState F)
      → (is_creator_sale creators l ≡ true → known l.token)
      → Knows known s.last_dev_sell_block
      → Fine (creator_rule fl square root c creators emit l s)
  unfolding creator_rule
  creator_rule-Fine c creators emit l s here h =
      elim (Bool-cases (by_creator fl square root creators l)) [
        | inr e ↦ rw e (quiet s h)
        | inl own ↦ elim (Bool-cases (str_eq l.side "buy")) [
          | inl e ↦ rw (own, e) (record { alerts = tt; knows = h })
          | inr e ↦ elim (Bool-cases (str_eq l.side "sell")) [
            | inl sells ↦
                rw (own, e, sells)
                  (sold_if-Fine c emit l (find (position_is l.wallet l.token) s.positions) s
                    (here (sale_is creators l sells own)) h)
            | inr f ↦ rw (own, e, f) (quiet s h)
          ]
        ]
      ]
