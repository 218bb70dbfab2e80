-- ===== src/Keeper.antt =====
-- arc-intel/execution/keeper.py: one pass of the order keeper. `submit` is the callback (or
-- `submit_execute`, which runs `cast`): it answers or raises, and other connections may have changed
-- the table by the time it does. `on_executed` may write through the same store.
pub mod Pass
pub mod Race
use arc_smart_orders.Prelude.{
  ℕ, ◌+◌, Bool, true, false, ◌&&◌, not, List, [], ◌∷◌, String, if◌then◌else◌, nonempty,
}
use arc_smart_orders.Orders.{
  Preorder, Table, signed, orders_due, claim_order, mark_executed, set_preorder_status,
  bump_attempt,
}

pub data Outcome : Type 0 where
  sent : String → Outcome
  raised : Outcome

pub record Summary : Type 0 where
  pub submitted : ℕ
  pub failed : ℕ

abbrev pub nothing_done : Summary
nothing_done = record { submitted = 0; failed = 0 }

-- What `run_keeper` returns: the counts, and whether it was skipped as not configured.
pub record Report : Type 0 where
  pub skipped : Bool
  pub summary : Summary

-- `argument or os.environ.get(…)`, where a text that is not given is empty.
abbrev pub or_env : String → String → String
or_env given env = if nonempty given then given else env

abbrev pub Submit : Type 0 → Type 0
Submit Real = Preorder Real → Table Real → Outcome × Table Real

abbrev pub OnExecuted : Type 0 → Type 0
OnExecuted Real = Preorder Real → String → Table Real → Table Real

module _ {Real : Type 0} where
  -- The body of the `try` and its handler.
  pub settle :
      OnExecuted Real → Preorder Real → Summary → Outcome × Table Real → Table Real × Summary
  settle on_executed po s (sent txh, t) =
      (on_executed po txh (mark_executed po.id txh t), record s { submitted = s.submitted + 1 })
  settle on_executed po s (raised, t) =
      (bump_attempt po.id (set_preorder_status po.id signed t), record s { failed = s.failed + 1 })

  -- One round of the loop.
  pub keeper_step :
      Submit Real → OnExecuted Real → Preorder Real → Table Real → Summary → Table Real × Summary
  unfolding settle
  keeper_step submit on_executed po t s =
      let (claimed, t') = claim_order po.id t in
      if claimed then settle on_executed po s (submit po t') else (t', s)

  pub keeper_loop :
      Submit Real
      → OnExecuted Real
      → List (Preorder Real)
      → Table Real
      → Summary
      → Table Real × Summary
  unfolding keeper_step
  keeper_loop submit on_executed [] t s = (t, s)
  keeper_loop submit on_executed (po ∷ due) t s =
      let (t', s') = keeper_step submit on_executed po t s in
      keeper_loop submit on_executed due t' s'

  pub run_keeper :
      Submit Real
      → OnExecuted Real
      → (executor env_executor relayer env_relayer : String) → (now limit : ℕ) → Table Real
      → Table Real × Report
  unfolding keeper_loop
  run_keeper submit on_executed executor env_executor relayer env_relayer now limit t =
      if not (nonempty (or_env executor env_executor) && nonempty (or_env relayer env_relayer))
      then (t, record { skipped = true; summary = nothing_done })
      else let (t', s) =
          keeper_loop submit on_executed (orders_due "buy" now limit t) t nothing_done in
        (t', record { skipped = false; summary = s })
