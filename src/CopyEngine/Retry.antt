-- ===== src/CopyEngine/Retry.antt =====
-- What becomes of a copied trade whose execution fails.
use arc_smart_orders.Float.{Float}
use arc_smart_orders.Copy.{CopySettings, Trade}
use arc_smart_orders.CopyEngine.{CopyWallet, Executor, OnExec, Run, trade_step, trades_loop}
use arc_smart_orders.CopyEngine.Advance.{step-Kept, trades_loop_old}
use arc_smart_orders.Prelude.{ℕ, ◌<◌, ◌≡◌, refl, sym, subst, Bool, true, false, [], ◌∷◌, arith}

module _ (fl : Float) (executor : Executor fl.F) (on_exec : OnExec fl.F) (dry_run : Bool) where
  open fl use {F}

  -- When the loop has dealt with one trade of a block and the next one, of the same block, fails,
  -- the block still counts as reached: from there the failed trade is never tried again.
  pub failed_trade_is_skipped :
      (w : CopyWallet F) (eff : CopySettings F) (last : ℕ) (t u : Trade F) (r again : Run F)
      → r.advanced ≡ last
      → last < t.block
      → u.block ≡ t.block
      → (trade_step fl executor on_exec dry_run w eff last t r).0 ≡ false
      → let r₁ = (trade_step fl executor on_exec dry_run w eff last t r).1 in
        (trade_step fl executor on_exec dry_run w eff last u r₁).0 ≡ true
        → let (stop, r') = trades_loop fl executor on_exec dry_run w eff last (t ∷ u ∷ []) r in
          (stop ≡ true)
          × (r'.advanced ≡ t.block)
          × (trades_loop fl executor on_exec dry_run w eff r'.advanced (u ∷ []) again
              ≡ (false, again))
  unfolding trades_loop
  failed_trade_is_skipped w eff last t u r again start new same first second =
      let r₁ = (trade_step fl executor on_exec dry_run w eff last t r).1 in
      let (up, moved) = step-Kept fl executor on_exec dry_run w eff last t r (omega arith) in
      let (_, moved') = step-Kept fl executor on_exec dry_run w eff last u r₁ (omega (arith, up)) in
      let r₂ = (trade_step fl executor on_exec dry_run w eff last u r₁).1 in
      let reached : r₂.advanced ≡ t.block = ground (arith, moved, moved') in
      let run : trades_loop fl executor on_exec dry_run w eff last (t ∷ u ∷ []) r ≡ (true, r₂) =
        rw (first, second) in
      subst
        (λ x.
          (x.0 ≡ true)
          × (x.1.advanced ≡ t.block)
          × (trades_loop fl executor on_exec dry_run w eff x.1.advanced (u ∷ []) again
              ≡ (false, again)))
        (sym run)
        (
          refl,
          reached,
          trades_loop_old fl executor on_exec dry_run w eff r₂.advanced (u ∷ []) again
              (omega (arith, reached), tt),
        )
