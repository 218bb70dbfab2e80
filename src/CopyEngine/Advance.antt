-- ===== src/CopyEngine/Advance.antt =====
-- What the loop over a leader's trades does to its variables.
use arc_smart_orders.Float.{Float}
use arc_smart_orders.Fills.{get_position}
use arc_smart_orders.Copy.{CopySettings, Trade, Decision, skip, decide}
use arc_smart_orders.CopyEngine.{
  CopyWallet, Summary, Answer, done, nothing, failed, Executor, OnExec, Run, max, settle, follow,
  trade_step, trades_loop,
}
use arc_smart_orders.Prelude.{
  ℕ, ◌+◌, ◌≤◌, ◌≡◌, refl, Bool, true, false, List, [], ◌∷◌, arith, leb, lower, inl, inr, Bool-cases,
  All, ◌⊎◌, sym, subst,
}

-- The trades that were acted on or decided against, and those that failed.
abbrev pub handled : Summary → ℕ
handled s = s.executed + s.skipped + s.errors

Answer-cases : (a : Answer) → (a ≡ failed) ⊎ ((a ≡ nothing) ⊎ (a ≡ done))
Answer-cases failed = inl refl
Answer-cases nothing = inr (inl refl)
Answer-cases done = inr (inr refl)

module _ (fl : Float) (executor : Executor fl.F) (on_exec : OnExec fl.F) (dry_run : Bool) where
  open fl use {F}

  -- The block that is reached: only a failure leaves the loop, and does not move it.
  abbrev pub Moved : ℕ → Run F → Bool × Run F → Type 0
  Moved block r (stop, r') =
      (stop ≡ true) × (r'.advanced ≡ r.advanced)
      ⊎ (stop ≡ false) × (r'.advanced ≡ max r.advanced block)

  -- The counts and the blocks of a trade that was counted, before and after.
  abbrev pub Settled : ℕ → Run F → Bool × Run F → Type 0
  Settled block r (stop, r') =
      (r'.summary.trades ≡ r.summary.trades)
      × (handled r'.summary ≡ handled r.summary + 1)
      × Moved block r (stop, r')

  settle-Settled :
      (w : CopyWallet F) (eff : CopySettings F) (t : Trade F) (d : Decision F) (r : Run F)
      → Settled t.block r (settle fl executor on_exec dry_run w eff t d r)
  unfolding settle
  settle-Settled w eff t d r = elim (Answer-cases (executor w.follower_chat w t d eff r.store).0) [
    | inl e ↦ rw (e, settle) (refl, omega arith, inl (refl, refl))
    | inr (inl e) ↦ rw (e, settle) (refl, omega arith, inr (refl, refl))
    | inr (inr e) ↦ rw (e, settle) (refl, omega arith, inr (refl, refl))
  ]

  follow-Settled :
      (w : CopyWallet F) (eff : CopySettings F) (t : Trade F) (d : Decision F) (r : Run F)
      → Settled t.block r (follow fl executor on_exec dry_run w eff t d r)
  unfolding follow
  follow-Settled w eff t (skip reason) r = (refl, omega arith, inr (refl, refl))
  follow-Settled w eff t (Decision.buy usdc) r = elim (Bool-cases dry_run) [
    | inl dry ↦ rw dry (refl, omega arith, inr (refl, refl))
    | inr real ↦ rw real (settle-Settled w eff t (Decision.buy usdc) r)
  ]
  follow-Settled w eff t Decision.sell r = elim (Bool-cases dry_run) [
    | inl dry ↦ rw dry (refl, omega arith, inr (refl, refl))
    | inr real ↦ rw real (settle-Settled w eff t Decision.sell r)
  ]

  -- What a round keeps: every trade that is counted is handled.
  abbrev pub Kept : Run F → Run F → Type 0
  Kept r r' =
      (r'.summary.trades + handled r.summary ≡ r.summary.trades + handled r'.summary)
      × (r.advanced ≤ r'.advanced)

  abbrev pub Reached : List (Trade F) → Bool × Run F → Type 0
  Reached ts (stop, r') = (stop ≡ true) ⊎ All (λ (t : Trade F). t.block ≤ r'.advanced) ts

  pub step-Kept :
      (w : CopyWallet F) (eff : CopySettings F) (last : ℕ) (t : Trade F) (r : Run F)
      → last ≤ r.advanced
      → let (stop, r') = trade_step fl executor on_exec dry_run w eff last t r in
        Kept r r' × Moved t.block r (stop, r')
  unfolding trade_step
  step-Kept w eff last t r h = elim (Bool-cases (leb t.block last)) [
    | inl old ↦ rw old ((refl, omega arith), inr (refl, ground arith))
    | inr new ↦
        let counted : Run F = record r {
          summary = record r.summary { trades = r.summary.trades + 1 };
        } in
        let qty = (get_position fl w.follower_chat (lower t.token) r.store.trading).qty in
        let d = decide fl t eff qty r.opened (fl.flt (fl.lit 0 0) qty) in
        let (same, one, moved) = follow-Settled w eff t d counted in
        rw new ((omega (arith, same, one), ground (arith, moved)), moved)
  ]

  loop-Kept :
      (w : CopyWallet F) (eff : CopySettings F) (last : ℕ) (ts : List (Trade F)) (r : Run F)
      → last ≤ r.advanced
      → let (stop, r') = trades_loop fl executor on_exec dry_run w eff last ts r in
        Kept r r' × Reached ts (stop, r')
  unfolding trades_loop
  loop-Kept w eff last [] r h = ((refl, omega arith), inr tt)
  loop-Kept w eff last (t ∷ ts) r h =
      let (stop, r₁) = trade_step fl executor on_exec dry_run w eff last t r in
      let (first, here) = step-Kept w eff last t r h in
      let (later, there) = loop-Kept w eff last ts r₁ (omega (arith, first)) in
      elim (Bool-cases stop) [
        | inl left ↦ rw left (first, inl refl)
        | inr on ↦
            let same : trades_loop fl executor on_exec dry_run w eff last (t ∷ ts) r
                ≡ trades_loop fl executor on_exec dry_run w eff last ts r₁ =
              rw on in
            let r₂ = (trades_loop fl executor on_exec dry_run w eff last ts r₁).1 in
            let up : t.block ≤ r₂.advanced = ground (arith, here, on, later) in
            subst (λ x. Kept r x.1 × Reached (t ∷ ts) x) (sym same)
              (
                (omega (arith, first, later), omega (arith, first, later)),
                elim there [ inl broken ↦ inl broken | inr all ↦ inr (up, all) ],
              )
      ]

  -- In the loop over a leader's trades, begun with a reached block that is not below the last one,
  -- every trade that is counted ends as executed, skipped or
  -- failed, exactly one of them, whatever the executor does; and the block that is reached never
  -- goes back.
  pub trades_loop-Kept :
      (w : CopyWallet F) (eff : CopySettings F) (last : ℕ) (ts : List (Trade F)) (r : Run F)
      → last ≤ r.advanced
      → Kept r (trades_loop fl executor on_exec dry_run w eff last ts r).1
  trades_loop-Kept w eff last ts r h = (loop-Kept w eff last ts r h).0

  pub trades_loop_old :
      (w : CopyWallet F) (eff : CopySettings F) (last : ℕ) (ts : List (Trade F)) (r : Run F)
      → All (λ (t : Trade F). t.block ≤ last) ts
      → trades_loop fl executor on_exec dry_run w eff last ts r ≡ (false, r)
  unfolding trades_loop trade_step
  trades_loop_old w eff last [] r h = refl
  trades_loop_old w eff last (t ∷ ts) r h = ground (arith, h.0, trades_loop_old w eff last ts r h.1)

  -- Begun in the same way, a loop that no failure broke off has dealt with all its trades for good: looping over the same
  -- trades from the block that it reached changes nothing, and executes nothing.
  pub trades_loop_again :
      (w : CopyWallet F) (eff : CopySettings F) (last : ℕ) (ts : List (Trade F)) (r again : Run F)
      → last ≤ r.advanced
      → (trades_loop fl executor on_exec dry_run w eff last ts r).0 ≡ false
      → let r' = (trades_loop fl executor on_exec dry_run w eff last ts r).1 in
        trades_loop fl executor on_exec dry_run w eff r'.advanced ts again ≡ (false, again)
  trades_loop_again w eff last ts r again h whole = elim (loop-Kept w eff last ts r h).1 [
    | inl broken ↦ absurd (ground (arith, broken, whole))
    | inr all ↦
        trades_loop_old w eff (trades_loop fl executor on_exec dry_run w eff last ts r).1.advanced
          ts again all
  ]
