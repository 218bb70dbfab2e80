-- ===== src/Stream.antt =====
-- arc-intel/indexer/stream_alerts.py, the class IncrementalState: alerts from one leg after another,
-- with a state that is kept. A dictionary is a list of keys with their values. `square` and `root`
-- are those of Detect; an alert's message and context are left out.
pub mod Apply
pub mod Creators
pub mod Feed
use arc_smart_orders.Prelude.{
  ℕ, ◌+◌, ◌-◌, ◌*◌, ◌/◌, Bool, false, not, ◌&&◌, ◌||◌, Option, none, some, List, ◌∷◌, ◌++◌, String,
  str_eq, leb, ltb, ◌==◌, length, take, select, exists, map, if◌then◌else◌, [],
}
use arc_smart_orders.Float.{Float}
use arc_smart_orders.Subscriptions.{member}

-- The settings, and their defaults in the source: 1154, 12, -2.0, 6000, 2.5, 500, 500, 5000, 0.5, 50,
-- 1000, 0 and 1.2.
pub record Settings (F : Type 0) : Type 0 where
  pub bucket_blocks : ℕ
  pub lookback : ℕ
  pub z_threshold : F
  pub window_blocks : ℕ
  pub spike_z : F
  pub min_spike_usdc : F
  pub min_confirm_usdc : F
  pub large_sell_usd : F
  pub large_sell_ratio : F
  pub price_surge_pct : F
  pub whale_buy_usd : F
  pub spike_min_price_pct : F
  pub spike_min_buy_ratio : F

pub record Position (F : Type 0) : Type 0 where
  pub wallet : String
  pub token : String
  pub qty : F
  pub cost : F
  pub entry : ℕ

-- The values of one token by buckets.
abbrev pub Buckets : Type 0 → Type 0
Buckets F = List (ℕ × F)

pub record IncrementalState (F : Type 0) : Type 0 where
  pub seen : List String
  pub prices : List (String × Buckets F)
  pub buys : List (String × Buckets F)
  pub sells : List (String × Buckets F)
  pub volume : List (String × Buckets F)
  pub positions : List (Position F)
  pub last_surge_bucket : List (String × ℕ)
  pub last_dev_sell_block : List (String × ℕ)
  pub last_collapse_bucket : List (String × ℕ)
  pub last_spike_bucket : List (String × ℕ)

-- A leg as `apply_leg` reads it: texts in lower form, missing numbers 0.
pub record Leg (F : Type 0) : Type 0 where
  pub token : String
  pub wallet : String
  pub block : ℕ
  pub qty : F
  pub sv : F
  pub side : String

abbrev pub bucket_of : ℕ → ℕ → ℕ
bucket_of block bucket_blocks = block / bucket_blocks

module _ {A : Type 0} where
  -- `d.get(key)` and `d[key] = value`, of a dictionary by tokens
  abbrev pub lookup : String → List (String × A) → Option A
  lookup key [] = none
  lookup key ((k, v) ∷ d) = if str_eq k key then some v else lookup key d

  abbrev pub assign : String → A → List (String × A) → List (String × A)
  assign key value [] = (key, value) ∷ []
  assign key value ((k, v) ∷ d) =
      let rest = assign key value d in if str_eq k key then (k, value) ∷ d else (k, v) ∷ rest

  -- The same by buckets.
  abbrev pub at_bucket : ℕ → List (ℕ × A) → Option A
  at_bucket b [] = none
  at_bucket b ((k, v) ∷ d) = if k == b then some v else at_bucket b d

  abbrev pub set_bucket : ℕ → A → List (ℕ × A) → List (ℕ × A)
  set_bucket b value [] = (b, value) ∷ []
  set_bucket b value ((k, v) ∷ d) =
      let rest = set_bucket b value d in if k == b then (k, value) ∷ d else (k, v) ∷ rest

  -- `sorted(d.items())`
  abbrev pub insert_bucket : ℕ × A → List (ℕ × A) → List (ℕ × A)
  insert_bucket x [] = x ∷ []
  insert_bucket x (y ∷ ys) =
      let rest = insert_bucket x ys in if leb x.0 y.0 then x ∷ y ∷ ys else y ∷ rest

  abbrev pub sort_buckets : List (ℕ × A) → List (ℕ × A)
  sort_buckets [] = []
  sort_buckets (x ∷ xs) = insert_bucket x (sort_buckets xs)

  -- `sorted(d)[:-keep]`, which is empty where keep is 0.
  abbrev pub oldest : ℕ → List (ℕ × A) → List ℕ
  oldest keep d =
      if keep == 0 then [] else map (λ (b, v). b) (take (length d - keep) (sort_buckets d))

  unfoldable pub prune : ℕ → List (ℕ × A) → List (ℕ × A)
  prune keep d =
      if ltb keep (length d)
      then select (λ (b, v). not (exists (λ o. o == b) (oldest keep d))) d
      else d

abbrev pub or_empty : {F : Type 0} → Option (Buckets F) → Buckets F
or_empty none = []
or_empty (some d) = d

abbrev pub buckets_of : {F : Type 0} → String → List (String × Buckets F) → Buckets F
buckets_of token d = or_empty (lookup token d)

abbrev pub is_at : ℕ → Option ℕ → Bool
is_at b none = false
is_at b (some c) = c == b

module _ (fl : Float) where
  open fl use {F, lit, add, sub, mul, div, flt, fle}

  abbrev pub or_zero : Option F → F
  or_zero none = lit 0 0
  or_zero (some x) = x

  -- The sum over the buckets from six before, in the order of the dictionary.
  abbrev pub sum_since : F → ℕ → Buckets F → F
  sum_since acc buck [] = acc
  sum_since acc buck ((b, v) ∷ d) = sum_since (if leb buck (b + 6) then add acc v else acc) buck d

  abbrev pub recent : ℕ → Buckets F → F
  recent buck d = sum_since (lit 0 0) buck d

  -- The value of the last of the buckets that are `lookback` before, or more.
  abbrev pub newer : Option (ℕ × F) → ℕ × F → Option (ℕ × F)
  newer none x = some x
  newer (some y) x = if ltb y.0 x.0 then some x else some y

  abbrev pub past : (lookback buck : ℕ) → Option (ℕ × F) → Buckets F → Option (ℕ × F)
  past lookback buck best [] = best
  past lookback buck best ((b, v) ∷ d) =
      past lookback buck (if leb (b + lookback) buck then newer best (b, v) else best) d

  -- `(cur / old - 1.0) * 100.0`
  abbrev pub change_pct : F → F → F
  change_pct cur old = mul (sub (div cur old) (lit 1 0)) (lit 100 0)

  abbrev pub price_up_from : Settings F → (old : Option (ℕ × F)) → (cur : F) → Bool
  price_up_from c none cur = false
  price_up_from c (some (b, old)) cur =
      not (fle old (lit 0 0) || fle cur (lit 0 0)) && fle c.spike_min_price_pct (change_pct cur old)

  unfoldable pub price_up : Settings F → String → ℕ → IncrementalState F → Bool
  price_up c token buck s =
      let pr = buckets_of token s.prices in
      price_up_from c (past c.lookback buck none pr) (or_zero (at_bucket buck pr))

  -- A value added to a bucket of a token, with the oldest buckets dropped.
  unfoldable pub add_to :
      (keep : ℕ) → String → ℕ → F → List (String × Buckets F) → List (String × Buckets F)
  add_to keep token buck v d =
      let buckets = buckets_of token d in
      assign token (prune keep (set_bucket buck (add (or_zero (at_bucket buck buckets)) v) buckets))
        d

  unfoldable pub record_volume : Settings F → Leg F → IncrementalState F → IncrementalState F
  record_volume c l s = record s {
    volume = add_to (c.lookback * 4) l.token (bucket_of l.block c.bucket_blocks) l.sv s.volume;
  }

  abbrev pub price_of : Leg F → F
  price_of l = if flt (lit 0 0) l.qty then div l.sv l.qty else lit 0 0

  unfoldable pub record_price : Settings F → Leg F → IncrementalState F → IncrementalState F
  record_price c l s =
      if flt (lit 0 0) (price_of l)
      then record s {
        prices =
            assign l.token
              (prune (c.lookback * 4) (
                set_bucket (bucket_of l.block c.bucket_blocks) (price_of l)
                  (buckets_of l.token s.prices)))
              s.prices;
      }
      else s

  unfoldable pub record_flow : Settings F → Leg F → IncrementalState F → IncrementalState F
  record_flow c l s =
      let buck = bucket_of l.block c.bucket_blocks in
      if str_eq l.side "buy"
      then record s { buys = add_to (c.lookback * 4) l.token buck l.sv s.buys }
      else if str_eq l.side "sell"
      then record s { sells = add_to (c.lookback * 4) l.token buck l.sv s.sells }
      else s

  unfoldable pub note_seen : Leg F → IncrementalState F → IncrementalState F
  note_seen l s =
      if str_eq l.token "" || member l.token s.seen
      then s
      else record s { seen = s.seen ++ l.token ∷ [] }
