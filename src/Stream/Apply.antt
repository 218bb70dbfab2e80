-- ===== src/Stream/Apply.antt =====
-- The method apply_leg of arc-intel/indexer/stream_alerts.py, rule by rule.
use arc_smart_orders.Prelude.{
  ℕ, ◌+◌, Bool, not, ◌&&◌, ◌||◌, Option, none, some, List, ◌∷◌, ◌++◌, String, str_eq, lower,
  nonempty, leb, ◌==◌, find, select, if◌then◌else◌, [],
}
use arc_smart_orders.Float.{Float}
use arc_smart_orders.Subscriptions.{member}
use arc_smart_orders.Detect.{
  Alert, pct_of_position, is_significant_sell, severity_for, rolling_zscore, last, lesser, greater,
  is_zero,
}
use arc_smart_orders.Stream.{
  Settings, Position, IncrementalState, Leg, bucket_of, lookup, assign, at_bucket, sort_buckets,
  buckets_of, is_at, or_zero, recent, past, change_pct, price_up, record_volume, record_price,
  price_of, record_flow, note_seen,
}

-- The alerts of a rule and the state behind it.
abbrev pub Out : Type 0 → Type 0
Out F = List (Alert F) × IncrementalState F

abbrev pub alert : {F : Type 0} → String → String → String → ℕ → Alert F
alert token kind severity block = record {
  token = token;
  kind = kind;
  severity = severity;
  block = block;
  wallet = none;
  role = none;
  amount_usdc = none;
  pct_position = none;
}

-- `(creators.get(token) or "").lower()`
abbrev pub creator_of : List (String × String) → String → String
creator_of creators token = elim (lookup token creators) [ none ↦ "" | some c ↦ lower c ]

module _ {F : Type 0} where
  abbrev pub position_is : String → String → Position F → Bool
  position_is wallet token p = str_eq p.wallet wallet && str_eq p.token token

  abbrev pub without : String → String → List (Position F) → List (Position F)
  without wallet token = select (λ p. not (position_is wallet token p))

  -- `self.positions[key] = p`
  abbrev pub put : Position F → List (Position F) → List (Position F)
  put p [] = p ∷ []
  put p (q ∷ ps) =
      let rest = put p ps in if position_is p.wallet p.token q then p ∷ ps else q ∷ rest

module _ (fl : Float) (square root : fl.F → fl.F) where
  open fl use {F, lit, add, sub, mul, div, neg, round, flt, fle}

  abbrev pub graduation : Bool → Leg F → IncrementalState F → List (Alert F)
  graduation emit l s =
      if emit && (nonempty l.token && not (member l.token s.seen))
      then alert l.token "graduation" "medium" l.block ∷ []
      else []

  abbrev pub bought : Leg F → Option (Position F) → Position F
  bought l none = record {
    wallet = l.wallet;
    token = l.token;
    qty = l.qty;
    cost = l.sv;
    entry = l.block;
  }
  bought l (some p) = record p { qty = add p.qty l.qty; cost = add p.cost l.sv }

  -- The severity, one step up where the volume confirms the sale.
  abbrev pub confirm : Bool → String → String
  confirm confirmed sev =
      if confirmed && not (str_eq sev "high")
      then if str_eq sev "low" then "medium" else "high"
      else sev

  abbrev pub vol_recent : Settings F → Leg F → IncrementalState F → F
  vol_recent c l s = recent fl (bucket_of l.block c.bucket_blocks) (buckets_of l.token s.volume)

  abbrev pub dev_sell_alert :
      Settings F → Leg F → (sell_qty proceeds qty : F) → IncrementalState F → Alert F
  dev_sell_alert c l sell_qty proceeds qty s =
      let pct = pct_of_position fl sell_qty qty in
      let confirmed = fle c.min_confirm_usdc (vol_recent c l s) in
      record {
        token = l.token;
        kind = "dev_sell";
        severity = confirm confirmed (severity_for fl pct (some proceeds));
        block = l.block;
        wallet = some l.wallet;
        role = some "creator";
        amount_usdc = some proceeds;
        pct_position = pct;
      }

  -- What a sale leaves of the position; less than 1e-18 is nothing.
  abbrev pub reduce : Leg F → F → Position F → IncrementalState F → IncrementalState F
  reduce l sell_qty p s =
      let cogs = mul (div p.cost p.qty) sell_qty in
      let left : Position F = record p {
        qty = sub p.qty sell_qty;
        cost = greater fl (lit 0 0) (sub p.cost cogs);
      } in
      record s {
        positions =
            if fle left.qty (lit 1 18)
            then without l.wallet l.token s.positions
            else put left s.positions;
      }

  abbrev pub sell_qty_of : Leg F → Position F → F
  sell_qty_of l p = lesser fl l.qty p.qty

  abbrev pub proceeds_of : Leg F → Position F → F
  proceeds_of l p = mul l.sv (if is_zero fl l.qty then lit 0 0 else div (sell_qty_of l p) l.qty)

  unfoldable pub warns : Bool → Leg F → Position F → Bool
  warns emit l p =
      emit && is_significant_sell fl (sell_qty_of l p) p.qty (proceeds_of l p) (lit 5 1) (lit 100 0)

  unfoldable pub sold : Settings F → Bool → Leg F → Position F → IncrementalState F → Out F
  sold c emit l p s =
      if warns emit l p
      then (
        dev_sell_alert c l (sell_qty_of l p) (proceeds_of l p) p.qty s ∷ [],
        reduce l (sell_qty_of l p) p
            (record s { last_dev_sell_block = assign l.token l.block s.last_dev_sell_block }),
      )
      else ([], reduce l (sell_qty_of l p) p s)

  abbrev pub sold_if : Settings F → Bool → Leg F → Option (Position F) → IncrementalState F → Out F
  sold_if c emit l none s = ([], s)
  sold_if c emit l (some p) s = if flt (lit 0 0) p.qty then sold c emit l p s else ([], s)

  unfoldable pub by_creator : List (String × String) → Leg F → Bool
  by_creator creators l =
      str_eq l.wallet (creator_of creators l.token) && nonempty (creator_of creators l.token)

  -- The positions of creators.
  unfoldable pub creator_rule :
      Settings F → List (String × String) → Bool → Leg F → IncrementalState F → Out F
  creator_rule c creators emit l s =
      let pos = find (position_is l.wallet l.token) s.positions in
      if by_creator creators l
      then if str_eq l.side "buy"
        then ([], record s { positions = put (bought l pos) s.positions })
        else if str_eq l.side "sell"
        then sold_if c emit l pos s
        else ([], s)
      else ([], s)

  unfoldable pub dumps :
      Settings F → List (String × String) → Bool → Leg F → IncrementalState F → Bool
  dumps c creators emit l s =
      let recent_usd = vol_recent c l s in
      emit
      && (str_eq l.side "sell"
          && (not (str_eq l.wallet (creator_of creators l.token)) && fle c.large_sell_usd l.sv))
      && (fle recent_usd (lit 0 0) || fle (mul c.large_sell_ratio recent_usd) l.sv)

  unfoldable pub large_sell_rule :
      Settings F → List (String × String) → Bool → Leg F → IncrementalState F → List (Alert F)
  large_sell_rule c creators emit l s =
      if dumps c creators emit l s
      then record (alert l.token "large_sell"
          (if fle (mul c.large_sell_usd (lit 4 0)) l.sv then "high" else "medium") l.block) {
            wallet = some l.wallet;
            role = some "holder";
            amount_usdc = some l.sv;
          }
        ∷ []
      else []

  unfoldable pub whale_buys : Settings F → Bool → Leg F → IncrementalState F → Bool
  whale_buys c emit l s =
      let recent_usd = vol_recent c l s in
      emit
      && (str_eq l.side "buy"
          && (fle c.whale_buy_usd l.sv
              && price_up fl c l.token (bucket_of l.block c.bucket_blocks) s))
      && (fle recent_usd (lit 0 0) || fle (mul (lit 5 1) recent_usd) l.sv)

  unfoldable pub whale_buy_rule : Settings F → Bool → Leg F → IncrementalState F → List (Alert F)
  whale_buy_rule c emit l s =
      if whale_buys c emit l s
      then record (alert l.token "whale_buy"
          (if fle (mul c.whale_buy_usd (lit 5 0)) l.sv then "high" else "medium") l.block) {
            wallet = some l.wallet;
            amount_usdc = some l.sv;
          }
        ∷ []
      else []

  unfoldable pub surges : Settings F → Leg F → F → Bool
  surges c l old = flt (lit 0 0) old && fle c.price_surge_pct (change_pct fl (price_of fl l) old)

  abbrev pub surged : Settings F → Leg F → Option (ℕ × F) → IncrementalState F → Out F
  surged c l none s = ([], s)
  surged c l (some (b, old)) s =
      let pct = change_pct fl (price_of fl l) old in
      if surges c l old
      then (
        alert l.token "price_surge" (if fle (lit 200 0) pct then "high" else "medium") l.block ∷ [],
        record s {
          last_surge_bucket =
              assign l.token (bucket_of l.block c.bucket_blocks) s.last_surge_bucket;
        },
      )
      else ([], s)

  unfoldable pub surge_due : Settings F → Bool → Leg F → IncrementalState F → Bool
  surge_due c emit l s =
      emit
      && (flt (lit 0 0) (price_of fl l)
          && not (is_at (bucket_of l.block c.bucket_blocks) (lookup l.token s.last_surge_bucket)))

  unfoldable pub surge_rule : Settings F → Bool → Leg F → IncrementalState F → Out F
  surge_rule c emit l s =
      let buck = bucket_of l.block c.bucket_blocks in
      if surge_due c emit l s
      then surged c l (past fl c.lookback buck none (buckets_of l.token s.prices)) s
      else ([], s)

  -- The score of the last bucket, if it is this leg's.
  unfoldable pub score : Settings F → Leg F → IncrementalState F → Option F
  score c l s =
      elim (last fl square root
        (rolling_zscore fl square root (sort_buckets (buckets_of l.token s.volume)) c.lookback)) [
          | none ↦ none
          | some (b, z) ↦ if b == bucket_of l.block c.bucket_blocks then some z else none
        ]

  -- A collapse within the window behind the creator's sale.
  abbrev pub compound : Settings F → Leg F → Option ℕ → List (Alert F)
  compound c l none = []
  compound c l (some sb) =
      if leb sb l.block && leb l.block (sb + c.window_blocks)
      then alert l.token "compound" "high" l.block ∷ []
      else []

  unfoldable pub collapse_due : Settings F → Leg F → F → IncrementalState F → Bool
  collapse_due c l z s =
      fle z c.z_threshold
      && not (is_at (bucket_of l.block c.bucket_blocks) (lookup l.token s.last_collapse_bucket))

  abbrev pub collapsed : Settings F → Bool → Leg F → F → IncrementalState F → Out F
  collapsed c emit l z s = (
    (if emit
        then alert l.token "volume_collapse"
            (if fle (round z 3) (neg (lit 3 0)) then "high" else "medium") l.block
          ∷ compound c l (lookup l.token s.last_dev_sell_block)
        else []),
    record s {
      last_collapse_bucket =
          assign l.token (bucket_of l.block c.bucket_blocks) s.last_collapse_bucket;
    },
  )

  abbrev pub collapse_if : Settings F → Bool → Leg F → Option F → IncrementalState F → Out F
  collapse_if c emit l none s = ([], s)
  collapse_if c emit l (some z) s = if collapse_due c l z s then collapsed c emit l z s else ([], s)

  unfoldable pub collapse_rule : Settings F → Bool → Leg F → IncrementalState F → Out F
  collapse_rule c emit l s = collapse_if c emit l (score c l s) s

  abbrev pub net_buy : Settings F → F → F → Bool
  net_buy c flow_buy flow_sell =
      flt (lit 0 0) flow_buy && fle (mul flow_sell c.spike_min_buy_ratio) flow_buy

  unfoldable pub spike_due : Settings F → Leg F → F → IncrementalState F → Bool
  spike_due c l z s =
      let buck = bucket_of l.block c.bucket_blocks in
      fle c.spike_z z
      && (fle c.min_spike_usdc (or_zero fl (at_bucket buck (buckets_of l.token s.volume)))
          && (price_up fl c l.token buck s
              && (net_buy c (recent fl buck (buckets_of l.token s.buys))
                    (recent fl buck (buckets_of l.token s.sells))
                  && not (is_at buck (lookup l.token s.last_spike_bucket)))))

  abbrev pub spike_if : Settings F → Bool → Leg F → Option F → IncrementalState F → Out F
  spike_if c emit l none s = ([], s)
  spike_if c emit l (some z) s =
      let buck = bucket_of l.block c.bucket_blocks in
      if spike_due c l z s
      then (
        (if emit
            then alert l.token "volume_spike"
                (if fle (add c.spike_z (lit 1 0)) (round z 3) then "high" else "medium") l.block
              ∷ []
            else []),
        record s { last_spike_bucket = assign l.token buck s.last_spike_bucket },
      )
      else ([], s)

  unfoldable pub spike_rule : Settings F → Bool → Leg F → IncrementalState F → Out F
  spike_rule c emit l s = spike_if c emit l (score c l s) s

  unfoldable pub apply_leg :
      Settings F → List (String × String) → Bool → Leg F → IncrementalState F → Out F
  apply_leg c creators emit l s =
      let s₁ = record_flow fl c l (record_price fl c l (record_volume fl c l (note_seen fl l s))) in
      let (creator_alerts, s₂) = creator_rule c creators emit l s₁ in
      let (surge_alerts, s₃) = surge_rule c emit l s₂ in
      let (collapse_alerts, s₄) = collapse_rule c emit l s₃ in
      let (spike_alerts, s₅) = spike_rule c emit l s₄ in
      (
        graduation emit l s
            ++ (creator_alerts
                ++ (large_sell_rule c creators emit l s₂
                    ++ (whale_buy_rule c emit l s₂
                        ++ (surge_alerts ++ (collapse_alerts ++ spike_alerts))))),
        s₅,
      )

  unfoldable pub apply_legs :
      Settings F → List (String × String) → Bool → List (Leg F) → IncrementalState F → Out F
  apply_legs c creators emit [] s = ([], s)
  apply_legs c creators emit (l ∷ ls) s =
      let (alerts, s₁) = apply_leg c creators emit l s in
      let (rest, s₂) = apply_legs c creators emit ls s₁ in (alerts ++ rest, s₂)
