-- ===== src/CopyEngine.antt =====
-- arc-intel/execution/copy_keeper.py and the tables copy_wallets and copy_settings of
-- arc-intel/bot/store.py: one pass that mirrors the trades of the leaders.
pub mod Pass
pub mod Advance
pub mod Retry
pub mod Wallets
use arc_smart_orders.Float.{Float}
use arc_smart_orders.Fills
use arc_smart_orders.Copy.{
  CopySettings, Trade, Decision, skip, buy, decide, default_settings, with_flat,
}
use arc_smart_orders.Prelude.{
  ℕ, ◌+◌, Bool, true, false, not, ◌&&◌, Option, none, some, List, [], ◌∷◌, String, str_eq, lower,
  ltb, leb, ◌==◌, select, find, length, if◌then◌else◌,
}
use arc_smart_orders.Sql.{update_where}

pub record CopyWallet (F : Type 0) : Type 0 where
  pub follower_chat : String
  pub leader : String
  pub flat_usdc : Option F
  pub enabled : Bool
  pub last_block : ℕ

pub record CopyStore (F : Type 0) : Type 0 where
  pub trading : Fills.Store F
  pub wallets : List (CopyWallet F)
  pub settings : List (String × CopySettings F)

pub record Summary : Type 0 where
  pub wallets : ℕ
  pub trades : ℕ
  pub executed : ℕ
  pub skipped : ℕ
  pub errors : ℕ

-- What the executor answers: a result, None, or an exception.
pub data Answer : Type 0 where
  done nothing failed : Answer

abbrev pub Executor : Type 0 → Type 0
Executor F =
    String
    → CopyWallet F
    → Trade F
    → Decision F
    → CopySettings F
    → CopyStore F
    → Answer × CopyStore F

-- `on_exec`, whose exceptions are swallowed.
abbrev pub OnExec : Type 0 → Type 0
OnExec F = String → CopyWallet F → Trade F → Decision F → CopyStore F → CopyStore F

-- `storage.recent_wallet_legs(leader, last)`; `none` is an exception.
abbrev pub Legs : Type 0 → Type 0
Legs F = String → ℕ → Option (List (Trade F))

-- The variables of the loop over the trades of a leader: `opened` is `open_cache[follower]`.
pub record Run (F : Type 0) : Type 0 where
  pub store : CopyStore F
  pub advanced : ℕ
  pub opened : ℕ
  pub summary : Summary

abbrev pub max : ℕ → ℕ → ℕ
max a b = if ltb a b then b else a

abbrev pub is_buy : {F : Type 0} → Decision F → Bool
is_buy (buy usdc) = true
is_buy _ = false

module _ {F : Type 0} where
  pub list_all_copy_wallets : CopyStore F → List (CopyWallet F)
  list_all_copy_wallets s = select (λ (w : CopyWallet F). w.enabled) s.wallets

  pub set_copy_wallet_last_block : String → String → ℕ → CopyStore F → CopyStore F
  set_copy_wallet_last_block follower leader block s = record s {
    wallets =
        update_where
          (λ (w : CopyWallet F). str_eq w.follower_chat follower && str_eq w.leader (lower leader))
          (λ (w : CopyWallet F). record w { last_block = block }) s.wallets;
  }

module _ (fl : Float) where
  open fl use {F, lit, flt}

  -- `len(store.list_positions(user))`
  unfoldable pub count_positions : String → CopyStore F → ℕ
  count_positions user s = length (
      select (λ (h : Fills.Holding F). str_eq h.user (lower user) && flt (lit 0 0) h.position.qty)
        s.trading.positions)

  module _ (executor : Executor F) (on_exec : OnExec F) (dry_run : Bool) where
    -- The `try` around `exec_fn` and what follows it; the first component says `break`.
    unfoldable pub settle :
        CopyWallet F → CopySettings F → Trade F → Decision F → Run F → Bool × Run F
    unfolding count_positions
    settle w eff t d r =
        let (answer, s) = executor w.follower_chat w t d eff r.store in
        elim answer [
          | failed ↦ (
            true,
            record r { store = s; summary = record r.summary { errors = r.summary.errors + 1 } },
          )
          | nothing ↦ (
            false,
            record r {
              store = s;
              advanced = max r.advanced t.block;
              summary = record r.summary { skipped = r.summary.skipped + 1 };
            },
          )
          | done ↦ (
            false,
            record r {
              store = on_exec w.follower_chat w t d s;
              advanced = max r.advanced t.block;
              opened = if is_buy d then count_positions w.follower_chat s else r.opened;
              summary = record r.summary { executed = r.summary.executed + 1 };
            },
          )
        ]

    -- The branch on the decision.
    unfoldable pub follow :
        CopyWallet F → CopySettings F → Trade F → Decision F → Run F → Bool × Run F
    unfolding settle
    follow w eff t (skip reason) r = (
      false,
      record r {
        advanced = max r.advanced t.block;
        summary = record r.summary { skipped = r.summary.skipped + 1 };
      },
    )
    follow w eff t d r =
        if dry_run
        then (
          false,
          record r {
            advanced = max r.advanced t.block;
            summary = record r.summary { executed = r.summary.executed + 1 };
          },
        )
        else settle w eff t d r

    -- One round of the loop over the trades.
    unfoldable pub trade_step : CopyWallet F → CopySettings F → ℕ → Trade F → Run F → Bool × Run F
    unfolding follow
    trade_step w eff last t r =
        if leb t.block last
        then (false, r)
        else let qty =
            (Fills.get_position fl w.follower_chat (lower t.token) r.store.trading).qty in
          let d = decide fl t eff qty r.opened (flt (lit 0 0) qty) in
          follow w eff t d
            (record r { summary = record r.summary { trades = r.summary.trades + 1 } })

    -- The loop: whether it was left by `break`, and its variables.
    unfoldable pub trades_loop :
        CopyWallet F → CopySettings F → ℕ → List (Trade F) → Run F → Bool × Run F
    unfolding trade_step
    trades_loop w eff last [] r = (false, r)
    trades_loop w eff last (t ∷ ts) r =
        let (stop, r') = trade_step w eff last t r in
        let rest = trades_loop w eff last ts r' in if stop then (true, r') else rest
