-- ===== src/Contest/Prizes.antt =====
-- arc-intel/monetization/contest.py: the prize pool and the rankings of a round. Volumes are the
-- entries of a dictionary, in its order.
use Prim.Native.Nat.{Ordering}
use Prim.Native.String.{compare}
use arc_smart_orders.Float.{Float}
use arc_smart_orders.Prelude.{
  ℕ, suc, Bool, true, false, ◌||◌, ◌&&◌, not, Option, none, some, List, [], ◌∷◌, String, str_eq,
  ltb, select, take, find, if◌then◌else◌,
}

abbrev pub fee_bps : ℕ
fee_bps = 100

abbrev pub pozo_bps : ℕ
pozo_bps = 1000

pub record Row (F : Type 0) : Type 0 where
  pub rank : ℕ
  pub user : String
  pub volume : F

pub record Prize (F : Type 0) : Type 0 where
  pub trader : F
  pub affiliate : F

pub record Standings (F : Type 0) : Type 0 where
  pub total_volume : F
  pub pozo : F
  pub prize : Prize F
  pub trader_top : List (Row F)
  pub affiliate_top : List (Row F)

pub record Results (F : Type 0) : Type 0 where
  pub total_volume : F
  pub pozo : F
  pub prize : Prize F
  pub trader : Option (Row F)
  pub affiliate : Option (Row F)

-- `max(1, top)`
abbrev pub at_least_one : ℕ → ℕ
at_least_one n = if ltb n 1 then 1 else n

module _ {F : Type 0} where
  -- `enumerate(rows, 1)`
  abbrev pub number_rows : ℕ → List (String × F) → List (Row F)
  number_rows n [] = []
  number_rows n ((u, v) ∷ rows) =
      record { rank = n; user = u; volume = v } ∷ number_rows (suc n) rows

  abbrev pub first_row : List (Row F) → Option (Row F)
  first_row [] = none
  first_row (r ∷ rows) = some r

module _ (fl : Float) where
  open fl use {F, lit, add, mul, div, round, flt, fle}

  pub volume_to_fee : F → ℕ → F
  volume_to_fee volume_usdc bps = div (mul volume_usdc (lit bps 0)) (lit 10000 0)

  pub pozo : F → (fee_bps pozo_bps : ℕ) → F
  unfolding volume_to_fee
  pozo volume_usdc fee_bps pozo_bps =
      round (div (mul (volume_to_fee volume_usdc fee_bps) (lit pozo_bps 0)) (lit 10000 0)) 6

  pub split_prize : F → Prize F
  split_prize pozo_usdc =
      let half = round (div pozo_usdc (lit 2 0)) 6 in record { trader = half; affiliate = half }

  -- The key `(-volume, user)`: whether the earlier entry `a` stays before `b`.
  abbrev pub ranks_before : String × F → String × F → Bool
  ranks_before (u, v) (w, x) =
      flt x v || (not (flt v x) && elim (compare u w) [ Ordering.gt ↦ false | _ ↦ true ])

  abbrev pub insert_entry : String × F → List (String × F) → List (String × F)
  insert_entry a [] = a ∷ []
  insert_entry a (b ∷ bs) =
      let rest = insert_entry a bs in if ranks_before a b then a ∷ b ∷ bs else b ∷ rest

  abbrev pub sort_entries : List (String × F) → List (String × F)
  sort_entries [] = []
  sort_entries (a ∷ rest) = insert_entry a (sort_entries rest)

  unfoldable pub leaderboard : List (String × F) → ℕ → List (Row F)
  leaderboard volumes top = number_rows 1 (
      take (at_least_one top)
        (sort_entries (select (λ (e : String × F). flt (lit 0 0) e.1) volumes)))

  -- `sum(volumes.values())`, from the left.
  abbrev pub total_of : F → List (String × F) → F
  total_of acc [] = acc
  total_of acc ((u, v) ∷ volumes) = total_of (add acc v) volumes

  pub standings : List (String × F) → List (String × F) → (top fee_bps : ℕ) → Standings F
  unfolding leaderboard pozo split_prize
  standings trader_vol affiliate_vol top fee_bps =
      let total = total_of (lit 0 0) trader_vol in
      let p = pozo total fee_bps pozo_bps in
      record {
        total_volume = total;
        pozo = p;
        prize = split_prize p;
        trader_top = leaderboard trader_vol top;
        affiliate_top = leaderboard affiliate_vol top;
      }

  unfoldable pub winner : List (String × F) → Option (Row F)
  unfolding leaderboard
  winner volumes = first_row (leaderboard volumes 1)

  pub settle : List (String × F) → List (String × F) → ℕ → Results F
  unfolding winner pozo split_prize
  settle trader_vol affiliate_vol fee_bps =
      let total = total_of (lit 0 0) trader_vol in
      let p = pozo total fee_bps pozo_bps in
      record {
        total_volume = total;
        pozo = p;
        prize = split_prize p;
        trader = winner trader_vol;
        affiliate = winner affiliate_vol;
      }

  abbrev pub volume_or_zero : Option (String × F) → F
  volume_or_zero none = lit 0 0
  volume_or_zero (some e) = e.1

  pub rank_of : List (String × F) → String → ℕ × F
  unfolding leaderboard
  rank_of volumes user =
      elim (find (λ (r : Row F). str_eq r.user user) (leaderboard volumes 10000)) [
        | some r ↦ (r.rank, r.volume)
        | none ↦ (0, volume_or_zero (find (λ (e : String × F). str_eq e.0 user) volumes))
      ]
