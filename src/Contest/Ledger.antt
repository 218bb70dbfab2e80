-- ===== src/Contest/Ledger.antt =====
-- The contest in arc-intel/bot/store.py: the fills of a round, the volumes that count for it, and the
-- rounds, winners and switch that are stored. `now` is `int(time.time())`, and `env` is the value of
-- ARC_INTEL_PRIZE_PAYOUT, with its default "0".
use text.Mathlib.Text.{starts_with}
use arc_smart_orders.Prelude.{
  ℕ, Bool, not, ◌&&◌, List, [], ◌∷◌, ◌++◌, String, str_eq, lower, nonempty, leb, ltb, select, take,
  exists, if◌then◌else◌,
}
use arc_smart_orders.Prelude.Int.{ℤ, leb_ℤ}
use arc_smart_orders.Float.{Float}
use arc_smart_orders.Sql.{delete_where}
use arc_smart_orders.State.{Table, get_state, set_state, flag}
use arc_smart_orders.Fills.{Fill, Store, get_referrer, ts_or}
use arc_smart_orders.AntiWash.{filter_fills, volume_by_user, add_volume}

pub record ContestRound : Type 0 where
  pub round_id : ℤ
  pub published_ts : ℕ

pub record ContestWinner (F : Type 0) : Type 0 where
  pub round_id : ℤ
  pub category : String
  pub user : String
  pub volume : F
  pub prize : F

-- The default of `limit`.
abbrev pub default_limit : ℕ
default_limit = 200000

abbrev pub same_round : ℤ → ℤ → Bool
same_round i j = leb_ℤ i j && leb_ℤ j i

module _ {F : Type 0} where
  -- `ts>=? AND ts<? AND fill_id NOT LIKE 'paper%'`; LIKE reads over the case of a letter.
  abbrev pub counts_in : (start end : ℕ) → Fill F → Bool
  counts_in start end f =
      leb start f.ts && (ltb f.ts end && not (starts_with (lower f.fill_id) "paper"))

  unfoldable pub contest_fills_between : (start end limit : ℕ) → Store F → List (Fill F)
  contest_fills_between start end limit s = take limit (select (counts_in start end) s.fills)

  -- INSERT OR REPLACE
  unfoldable pub record_contest_winner :
      ContestWinner F → List (ContestWinner F) → List (ContestWinner F)
  record_contest_winner w t =
      delete_where (λ v. same_round v.round_id w.round_id && str_eq v.category w.category) t
      ++ w ∷ []

  pub list_contest_winners : ℤ → List (ContestWinner F) → List (ContestWinner F)
  list_contest_winners round_id t = select (λ w. same_round w.round_id round_id) t

unfoldable pub contest_round_published : ℤ → List ContestRound → Bool
contest_round_published round_id t = exists (λ r. same_round r.round_id round_id) t

-- INSERT OR REPLACE
unfoldable pub mark_contest_round : ℕ → ℤ → ℕ → List ContestRound → List ContestRound
mark_contest_round now round_id ts t =
    delete_where (λ r. same_round r.round_id round_id) t
    ++ record { round_id = round_id; published_ts = ts_or ts now } ∷ []

pub prize_payout_enabled : String → Table → Bool
unfolding get_state
prize_payout_enabled env t = str_eq (get_state "prize_payout" env t) "1"

pub set_prize_payout : Bool → Table → Table
unfolding set_state
set_prize_payout enabled t = set_state "prize_payout" (flag enabled) t

module _ (fl : Float) where
  open fl use {F}

  unfoldable pub contest_volume_between :
      (start end : ℕ) → F → List String → ℕ → Store F → List (String × F)
  unfolding contest_fills_between
  contest_volume_between start end min_notional own_tokens window_s s =
      volume_by_user fl min_notional own_tokens window_s
        (contest_fills_between start end default_limit s)

  -- The loop over the fills that are kept: each counts for the buyer's referrer.
  abbrev pub sum_referred : Store F → List (Fill F) → List (String × F) → List (String × F)
  sum_referred s [] out = out
  sum_referred s (f ∷ fills) out =
      let owner = get_referrer f.user s in
      sum_referred s fills (if nonempty owner then add_volume fl owner f.usdc out else out)

  unfoldable pub contest_referred_volume_between :
      (start end : ℕ) → F → List String → ℕ → Store F → List (String × F)
  unfolding contest_fills_between
  contest_referred_volume_between start end min_notional own_tokens window_s s =
      sum_referred s
        (filter_fills fl min_notional own_tokens window_s
          (contest_fills_between start end default_limit s))
        []
