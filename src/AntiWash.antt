-- ===== src/AntiWash.antt =====
-- arc-intel/monetization/antiwash.py: which fills count for the volume contest. A set of ids is the
-- list of its members, and a dictionary of volumes the list of its entries, in their order. A fill
-- has all its columns.
mod Pairs
pub mod Small
pub mod RoundTrips
use arc_smart_orders.Float.{Float}
use arc_smart_orders.Fills.{Fill}
use arc_smart_orders.Prelude.{
  ℕ, ◌+◌, ◌-◌, Bool, true, false, not, ◌&&◌, Option, none, some, List, [], ◌∷◌, ◌++◌, String,
  str_eq, lower, leb, select, exists, nonempty, if◌then◌else◌,
}

abbrev pub default_window_s : ℕ
default_window_s = 60

module _ {F : Type 0} where
  -- `abs(b.ts - a.ts) <= window_s`, and the sides differ.
  abbrev pub wash_pair : ℕ → Fill F → Fill F → Bool
  wash_pair window_s a b =
      not (str_eq a.side b.side) && leb ((b.ts - a.ts) + (a.ts - b.ts)) window_s

  -- The inner loop, with `a` the fill of the outer one.
  pub drop_with : ℕ → Fill F → List (Fill F) → List String
  drop_with window_s a [] = []
  drop_with window_s a (b ∷ rest) =
      let ids = drop_with window_s a rest in
      if wash_pair window_s a b then a.fill_id ∷ b.fill_id ∷ ids else ids

  pub drop_pairs : ℕ → List (Fill F) → List String
  unfolding drop_with
  drop_pairs window_s [] = []
  drop_pairs window_s (a ∷ rest) = drop_with window_s a rest ++ drop_pairs window_s rest

  -- `sorted(lst, key=ts)`
  abbrev pub insert_fill : Fill F → List (Fill F) → List (Fill F)
  insert_fill a [] = a ∷ []
  insert_fill a (b ∷ bs) =
      let rest = insert_fill a bs in if leb a.ts b.ts then a ∷ b ∷ bs else b ∷ rest

  abbrev pub sort_fills : List (Fill F) → List (Fill F)
  sort_fills [] = []
  sort_fills (a ∷ rest) = insert_fill a (sort_fills rest)

  -- The key `(user, token.lower())`, and the groups by it.
  abbrev pub in_group : String × String → Fill F → Bool
  in_group k f = str_eq f.user k.0 && str_eq (lower f.token) k.1

  abbrev pub keys_of : List (Fill F) → List (String × String)
  keys_of [] = []
  keys_of (f ∷ fills) =
      let rest = keys_of fills in
      (f.user, lower f.token)
      ∷ select (λ k. not (str_eq k.0 f.user && str_eq k.1 (lower f.token))) rest

  pub drop_groups : ℕ → List (String × String) → List (Fill F) → List String
  unfolding drop_pairs
  drop_groups window_s [] fills = []
  drop_groups window_s (k ∷ keys) fills =
      drop_pairs window_s (sort_fills (select (in_group k) fills))
      ++ drop_groups window_s keys fills

  pub roundtrip_fill_ids : ℕ → List (Fill F) → List String
  unfolding drop_groups
  roundtrip_fill_ids window_s fills = drop_groups window_s (keys_of fills) fills

module _ (fl : Float) where
  open fl use {F, lit, add, fle}

  pub qualifies : F → Fill F → Bool
  qualifies min_notional f = fle min_notional f.usdc

  pub filter_fills : F → List String → ℕ → List (Fill F) → List (Fill F)
  unfolding roundtrip_fill_ids qualifies
  filter_fills min_notional own_tokens window_s fills =
      let drop = roundtrip_fill_ids window_s fills in
      select
        (λ f.
          not (exists (λ t. str_eq (lower t) (lower f.token)) own_tokens)
          && (qualifies min_notional f && not (exists (λ i. str_eq i f.fill_id) drop)))
        fills

  -- `out[u] = out.get(u, 0.0) + v`
  abbrev pub add_volume : String → F → List (String × F) → List (String × F)
  add_volume u v [] = (u, add (lit 0 0) v) ∷ []
  add_volume u v ((w, x) ∷ out) =
      let rest = add_volume u v out in if str_eq w u then (w, add x v) ∷ out else (w, x) ∷ rest

  abbrev pub sum_volumes : List (Fill F) → List (String × F) → List (String × F)
  sum_volumes [] out = out
  sum_volumes (f ∷ fills) out = sum_volumes fills (add_volume f.user f.usdc out)

  pub volume_by_user : F → List String → ℕ → List (Fill F) → List (String × F)
  unfolding filter_fills
  volume_by_user min_notional own_tokens window_s fills =
      sum_volumes (filter_fills min_notional own_tokens window_s fills) []

  -- `funding_of(u) or u`; `none` is an exception.
  abbrev pub source_of : Option String → String → String
  source_of none u = u
  source_of (some src) u = if nonempty src then src else u

  abbrev pub merge_into :
      (String → Option String) → List (String × F) → List (String × F) → List (String × F)
  merge_into funding_of [] out = out
  merge_into funding_of ((u, v) ∷ volumes) out =
      merge_into funding_of volumes (add_volume (source_of (funding_of u) u) v out)

  pub merge_by_funding : List (String × F) → (String → Option String) → List (String × F)
  merge_by_funding volumes funding_of = merge_into funding_of volumes []
