-- ===== src/CopyEngine/Pass.antt =====
-- arc-intel/execution/copy_keeper.py, `run_copy_engine`: the loop over the wallets, with its caches.
pub mod DryRun
use arc_smart_orders.Float.{Float}
use arc_smart_orders.Copy.{CopySettings, default_settings, with_flat}
use arc_smart_orders.CopyEngine.{
  CopyStore, CopyWallet, Summary, Executor, OnExec, Legs, Run, trades_loop,
  set_copy_wallet_last_block, list_all_copy_wallets, count_positions,
}
use arc_smart_orders.Prelude.{
  ℕ, ◌+◌, Bool, not, Option, none, some, List, [], ◌∷◌, String, str_eq, ◌==◌, find, length,
  if◌then◌else◌,
}

-- `open_cache` and `settings_cache`, an entry for each follower.
pub record Cached (F : Type 0) : Type 0 where
  pub follower : String
  pub settings : CopySettings F
  pub opened : ℕ

pub record Engine (F : Type 0) : Type 0 where
  pub store : CopyStore F
  pub cache : List (Cached F)
  pub summary : Summary

module _ (fl : Float) where
  open fl use {F}

  abbrev pub settings_or : Option (String × CopySettings F) → CopySettings F
  settings_or none = default_settings fl
  settings_or (some (chat, s)) = s

  pub get_copy_settings : String → CopyStore F → CopySettings F
  get_copy_settings follower s =
      settings_or (find (λ (r : String × CopySettings F). str_eq r.0 follower) s.settings)

  -- The settings and the count of the follower, from the caches or the store.
  abbrev pub cached_or : String → CopyStore F → Option (Cached F) → Cached F
  cached_or follower s none = record {
    follower = follower;
    settings = get_copy_settings follower s;
    opened = count_positions fl follower s;
  }
  cached_or follower s (some c) = c

  abbrev pub put : Cached F → List (Cached F) → List (Cached F)
  put c [] = c ∷ []
  put c (x ∷ xs) = if str_eq x.follower c.follower then c ∷ xs else x ∷ put c xs

  -- The variables before the first wallet.
  abbrev pub start : CopyStore F → Engine F
  start s = record {
    store = s;
    cache = [];
    summary = record {
      wallets = length (list_all_copy_wallets s);
      trades = 0;
      executed = 0;
      skipped = 0;
      errors = 0;
    };
  }

  module _ (executor : Executor F) (on_exec : OnExec F) (dry_run : Bool) where
    -- The part of a round behind the block to start from.
    pub mirror : Legs F → CopyWallet F → ℕ → Cached F → Engine F → Engine F
    unfolding trades_loop set_copy_wallet_last_block
    mirror legs w last c e = elim (legs w.leader last) [
      | none ↦ record e {
        cache = put c e.cache;
        summary = record e.summary { errors = e.summary.errors + 1 };
      }
      | some trades ↦
          let (stopped, r) =
            trades_loop fl executor on_exec dry_run w (with_flat w.flat_usdc c.settings) last trades
              (record {
                store = e.store;
                advanced = last;
                opened = c.opened;
                summary = e.summary;
              }) in
          record {
            store =
                if r.advanced == last
                then r.store
                else set_copy_wallet_last_block w.follower_chat w.leader r.advanced r.store;
            cache = put (record c { opened = r.opened }) e.cache;
            summary = r.summary;
          }
    ]

    -- One round of the loop over the wallets.
    pub wallet_step : Legs F → ℕ → CopyWallet F → Engine F → Engine F
    unfolding mirror get_copy_settings
    wallet_step legs head w e =
        let c =
          cached_or w.follower_chat e.store
            (find (λ (x : Cached F). str_eq x.follower w.follower_chat) e.cache) in
        if not (w.last_block == 0)
        then mirror legs w w.last_block c e
        else let s = set_copy_wallet_last_block w.follower_chat w.leader head e.store in
          if head == 0
          then record e { store = s; cache = put c e.cache }
          else mirror legs w head c (record e { store = s })

    pub wallets_loop : Legs F → ℕ → List (CopyWallet F) → Engine F → Engine F
    unfolding wallet_step
    wallets_loop legs head [] e = e
    wallets_loop legs head (w ∷ ws) e = wallets_loop legs head ws (wallet_step legs head w e)

    pub run_copy_engine : Legs F → ℕ → CopyStore F → CopyStore F × Summary
    unfolding wallets_loop list_all_copy_wallets
    run_copy_engine legs head s =
        let e = wallets_loop legs head (list_all_copy_wallets s) (start s) in (e.store, e.summary)
