-- ===== src/Detect.antt =====
-- arc-intel/indexer/alerts.py: the rules by which sales of creators and collapses of volume become
-- alerts, and withdrawals of liquidity. `square` and `root` are `x ** 2` and `x ** 0.5`. An alert's message and its context, which
-- are shown to people, are left out.
use arc_smart_orders.Prelude.{
  ℕ, suc, ◌-◌, Bool, false, ◌&&◌, ◌||◌, Option, none, some, List, ◌∷◌, ◌++◌, String, ltb, length,
  take, drop, map, if◌then◌else◌, nonempty, lower, not, str_eq, [],
}
use arc_smart_orders.Float.{Float}

pub record Alert (F : Type 0) : Type 0 where
  pub token : String
  pub kind : String
  pub severity : String
  pub block : ℕ
  pub wallet : Option String
  pub role : Option String
  pub amount_usdc : Option F
  pub pct_position : Option F

-- A row of load_creator_sells.
pub record CreatorSell (F : Type 0) : Type 0 where
  pub token : String
  pub wallet : String
  pub block : ℕ
  pub sell_qty : F
  pub usdc : F
  pub pos_before : F

-- A row of load_liquidity_removals, with the owner that attribute_liquidity_owners may add.
pub record LiquidityRemoval (F : Type 0) : Type 0 where
  pub pool_id : String
  pub sender : Option String
  pub block : ℕ
  pub delta : F
  pub creator : Option String
  pub token : Option String
  pub added : F
  pub owner : Option String
  pub owner_is_creator : Bool

-- `a or b`, and `(a or "").lower()`
abbrev pub or_text : Option String → String → String
or_text none b = b
or_text (some a) b = if nonempty a then a else b

abbrev pub lower_or_empty : Option String → String
lower_or_empty o = lower (or_text o "")

module _ (fl : Float) where
  open fl use {F, lit, add, sub, mul, div, neg, fabs, flt, fle}

  -- `min(a, b)` and `max(a, b)`
  abbrev pub lesser : F → F → F
  lesser a b = if flt b a then b else a

  abbrev pub greater : F → F → F
  greater a b = if flt a b then b else a

  abbrev pub is_zero : F → Bool
  is_zero x = fle x (lit 0 0) && fle (lit 0 0) x

  abbrev pub sum : List F → F
  sum xs = sum_from (lit 0 0) xs
    where
      sum_from : F → List F → F
      sum_from acc [] = acc
      sum_from acc (y ∷ ys) = sum_from (add acc y) ys

  unfoldable pub pct_of_position : F → F → Option F
  pct_of_position sell_qty pos_before =
      if fle pos_before (lit 0 0)
      then none
      else some (greater (lit 0 0) (lesser (lit 1 0) (div sell_qty pos_before)))

  abbrev pub or_zero : Option F → F
  or_zero none = lit 0 0
  or_zero (some x) = x

  abbrev pub is_significant : Option F → F → F → F → Bool
  is_significant none usdc min_pct min_usdc = false
  is_significant (some pct) usdc min_pct min_usdc = fle min_pct pct || fle min_usdc usdc

  unfoldable pub is_significant_sell : F → F → F → F → F → Bool
  is_significant_sell sell_qty pos_before usdc min_pct min_usdc =
      is_significant (pct_of_position sell_qty pos_before) usdc min_pct min_usdc

  unfoldable pub severity_for : Option F → Option F → String
  severity_for pct usdc =
      let p = or_zero pct in
      let u = or_zero usdc in
      if fle (lit 8 1) p || fle (lit 5000 0) u
      then "high"
      else if fle (lit 5 1) p || fle (lit 500 0) u
      then "medium"
      else "low"

  unfoldable pub dev_sell_alerts : List (CreatorSell F) → F → F → List (Alert F)
  dev_sell_alerts [] min_pct min_usdc = []
  dev_sell_alerts (r ∷ rows) min_pct min_usdc =
      let rest = dev_sell_alerts rows min_pct min_usdc in
      let pct = pct_of_position r.sell_qty r.pos_before in
      if is_significant_sell r.sell_qty r.pos_before r.usdc min_pct min_usdc
      then record {
        token = r.token;
        kind = "dev_sell";
        severity = severity_for pct (some r.usdc);
        block = r.block;
        wallet = some r.wallet;
        role = some "creator";
        amount_usdc = some r.usdc;
        pct_position = pct;
      }
        ∷ rest
      else rest

  -- `min(1.0, abs(delta) / added)`
  abbrev pub removed_ratio : LiquidityRemoval F → F
  removed_ratio r = lesser (lit 1 0) (div (fabs r.delta) r.added)

  unfoldable pub removes : (min_ratio : F) → LiquidityRemoval F → Bool
  removes min_ratio r =
      not (fle (lit 0 0) r.delta || fle r.added (lit 0 0)) && not (flt (removed_ratio r) min_ratio)

  abbrev pub is_creator : LiquidityRemoval F → Bool
  is_creator r =
      let creator = lower_or_empty r.creator in
      r.owner_is_creator || (nonempty creator && str_eq (lower_or_empty r.sender) creator)

  unfoldable pub removal_alert : LiquidityRemoval F → Alert F
  removal_alert r = record {
    token = or_text r.token r.pool_id;
    kind = "liquidity_removal";
    severity =
        if fle (lit 9 1) (removed_ratio r) && is_creator r
        then "high"
        else if fle (lit 7 1) (removed_ratio r)
        then "medium"
        else "low";
    block = r.block;
    wallet = some (or_text r.owner (lower_or_empty r.sender));
    role = some (if is_creator r then "creator" else "unknown");
    amount_usdc = none;
    pct_position = none;
  }

  unfoldable pub liquidity_removal_alerts :
      List (LiquidityRemoval F) → (min_ratio : F) → List (Alert F)
  liquidity_removal_alerts [] min_ratio = []
  liquidity_removal_alerts (r ∷ rows) min_ratio =
      let rest = liquidity_removal_alerts rows min_ratio in
      if removes min_ratio r then removal_alert r ∷ rest else rest

  module _ (square root : F → F) where
    -- The score of one value against the values before it.
    unfoldable pub zscore : List F → F → Option F
    zscore window v =
        if ltb (length window) 3
        then none
        else (let n = lit (length window) 0 in
            let m = div (sum window) n in
            let var = div (sum (map (λ x. square (sub x m)) window)) n in
            let sd = root var in some (if is_zero sd then lit 0 0 else div (sub v m) sd))

    -- `i` values stand before the ones that are left.
    abbrev pub zscores : (lookback i : ℕ) → List F → List (ℕ × F) → List (ℕ × Option F)
    zscores lookback i vals [] = []
    zscores lookback i vals ((b, v) ∷ series) =
        (b, zscore (take (i - (i - lookback)) (drop (i - lookback) vals)) v)
        ∷ zscores lookback (suc i) vals series

    unfoldable pub rolling_zscore : List (ℕ × F) → (lookback : ℕ) → List (ℕ × Option F)
    rolling_zscore series lookback = zscores lookback 0 (map (λ (b, v). v) series) series

    abbrev pub last : List (ℕ × Option F) → Option (ℕ × F)
    last [] = none
    last ((b, none) ∷ []) = none
    last ((b, some z) ∷ []) = some (b, z)
    last (x ∷ y ∷ zs) = last (y ∷ zs)

    abbrev pub collapse_alert : (z_threshold : F) → String → Option (ℕ × F) → List (Alert F)
    collapse_alert z_threshold token none = []
    collapse_alert z_threshold token (some (b, val)) =
        if fle val z_threshold
        then record {
          token = token;
          kind = "volume_collapse";
          severity = if fle val (neg (lit 3 0)) then "high" else "medium";
          block = b;
          wallet = none;
          role = none;
          amount_usdc = none;
          pct_position = none;
        }
          ∷ []
        else []

    unfoldable pub volume_collapse_alerts :
        List (String × List (ℕ × F)) → (z_threshold : F) → (lookback : ℕ) → List (Alert F)
    volume_collapse_alerts [] z_threshold lookback = []
    volume_collapse_alerts ((token, series) ∷ tokens) z_threshold lookback =
        collapse_alert z_threshold token (last (rolling_zscore series lookback))
        ++ volume_collapse_alerts tokens z_threshold lookback
