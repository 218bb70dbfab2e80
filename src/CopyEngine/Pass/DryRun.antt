-- ===== src/CopyEngine/Pass/DryRun.antt =====
-- A pass that is only logged.
use arc_smart_orders.Float.{Float}
use arc_smart_orders.Copy.{CopySettings, Trade, Decision, skip, with_flat}
use arc_smart_orders.CopyEngine.{
  CopyStore, CopyWallet, Executor, OnExec, Legs, Run, follow, trade_step, trades_loop,
  set_copy_wallet_last_block, list_all_copy_wallets,
}
use arc_smart_orders.CopyEngine.Pass.{
  Engine, Cached, mirror, wallet_step, wallets_loop, run_copy_engine, cached_or, start,
}
use arc_smart_orders.Prelude.{
  ℕ, ◌≡◌, refl, ap, ◌∙◌, true, List, [], ◌∷◌, str_eq, find, leb, inl, inr, Bool-cases, Option-cases,
  ◌==◌,
}

module _ (fl : Float) (executor : Executor fl.F) (on_exec : OnExec fl.F) where
  open fl use {F}

  follow-dry :
      (w : CopyWallet F) (eff : CopySettings F) (t : Trade F) (d : Decision F) (r : Run F)
      → (follow fl executor on_exec true w eff t d r).1.store ≡ r.store
  unfolding follow
  follow-dry w eff t (skip reason) r = refl
  follow-dry w eff t (Decision.buy usdc) r = refl
  follow-dry w eff t Decision.sell r = refl

  step-dry :
      (w : CopyWallet F) (eff : CopySettings F) (last : ℕ) (t : Trade F) (r : Run F)
      → (trade_step fl executor on_exec true w eff last t r).1.store ≡ r.store
  unfolding trade_step
  step-dry w eff last t r = elim (Bool-cases (leb t.block last)) [
    | inl old ↦ rw old
    | inr new ↦ rw new (follow-dry w eff t _ _)
  ]

  loop-dry :
      (w : CopyWallet F) (eff : CopySettings F) (last : ℕ) (ts : List (Trade F)) (r : Run F)
      → (trades_loop fl executor on_exec true w eff last ts r).1.store ≡ r.store
  unfolding trades_loop
  loop-dry w eff last [] r = refl
  loop-dry w eff last (t ∷ ts) r =
      let (stop, r₁) = trade_step fl executor on_exec true w eff last t r in
      elim (Bool-cases stop) [
        | inl left ↦ rw left (step-dry w eff last t r)
        | inr on ↦ rw on (loop-dry w eff last ts r₁ ∙ step-dry w eff last t r)
      ]

  -- The executor and the callback are out of reach of a dry pass: only marks move.
  mirror-dry :
      (legs : Legs F) (w : CopyWallet F) (last : ℕ) (c : Cached F) (e : Engine F)
      → (mirror fl executor on_exec true legs w last c e).store.trading ≡ e.store.trading
  unfolding mirror
  mirror-dry legs w last c e = elim (Option-cases (legs w.leader last)) [
    | inl fails ↦ rw (fails, mirror)
    | inr (ts, fetched) ↦
        let start : Run F = record {
          store = e.store;
          advanced = last;
          opened = c.opened;
          summary = e.summary;
        } in
        let kept = loop-dry w (with_flat w.flat_usdc c.settings) last ts start in
        rw (fetched, mirror)
          (elim (Bool-cases (
            (trades_loop fl executor on_exec true w (with_flat w.flat_usdc c.settings) last ts
              start).1.advanced
            == last)) [
              | inl same ↦ rw same (ap (λ s. s.trading) kept)
              | inr moved ↦ rw moved (ap (λ s. s.trading) kept)
            ])
  ]

  wallet-dry :
      (legs : Legs F) (head : ℕ) (w : CopyWallet F) (e : Engine F)
      → (wallet_step fl executor on_exec true legs head w e).store.trading ≡ e.store.trading
  unfolding wallet_step set_copy_wallet_last_block
  wallet-dry legs head w e =
      let c =
        cached_or fl w.follower_chat e.store
          (find (λ (x : Cached F). str_eq x.follower w.follower_chat) e.cache) in
      elim (Bool-cases (w.last_block == 0)) [
        | inr known ↦ rw known (mirror-dry legs w w.last_block c e)
        | inl first ↦ elim (Bool-cases (head == 0)) [
          | inl nowhere ↦ rw (first, nowhere)
          | inr somewhere ↦
              let e' : Engine F = record e {
                store = set_copy_wallet_last_block w.follower_chat w.leader head e.store;
              } in
              rw (first, somewhere) (mirror-dry legs w head c e')
        ]
      ]

  wallets-dry :
      (legs : Legs F) (head : ℕ) (ws : List (CopyWallet F)) (e : Engine F)
      → (wallets_loop fl executor on_exec true legs head ws e).store.trading ≡ e.store.trading
  unfolding wallets_loop
  wallets-dry legs head [] e = refl
  wallets-dry legs head (w ∷ ws) e =
      wallets-dry legs head ws (wallet_step fl executor on_exec true legs head w e)
      ∙ wallet-dry legs head w e

  -- A dry pass over all wallets, whatever the executor and the callback would do and whatever
  -- trades there are, leaves the fills, the positions and the referral tables as they were.
  pub run_copy_engine_dry :
      (legs : Legs F) (head : ℕ) (s : CopyStore F)
      → (run_copy_engine fl executor on_exec true legs head s).0.trading ≡ s.trading
  unfolding run_copy_engine
  run_copy_engine_dry legs head s = wallets-dry legs head (list_all_copy_wallets s) (start fl s)
