-- ===== src/Keeper/Race.antt =====
-- What the keeper does to an order that its owner cancels while the keeper submits it.
use mathlib.Core.Option
use arc_smart_orders.Orders.Reached.{orders_due-found, lost_writes}
use arc_smart_orders.Keeper.Pass.{quiet, no_callback, run_keeper-after_pass}
use arc_smart_orders.Orders.Valid.{IsValid}
use arc_smart_orders.Prelude.{
  ℕ, ◌≤◌, ◌<◌, length, nonempty, ◌+◌, ◌≡◌, refl, ◌∙◌, true, some, String, arith, ==_refl, str_eq,
  lower, ◌||◌,
}
use arc_smart_orders.Orders.{
  executed, Preorder, Table, signed, cancelled, submitting, get_preorder, claim_order,
  cancel_preorder, set_preorder_status, bump_attempt, coalesce,
}
use arc_smart_orders.Orders.Lookup.{
  get-claim, get-bump_attempt, get-set_preorder_status, get-cancel_preorder, claim_signed,
  cancel_live,
}
use arc_smart_orders.Keeper.{
  sent, or_env, run_keeper, raised, Submit, OnExecuted, Summary, settle, keeper_step,
}

module _ {Real : Type 0} where
  -- The owner's cancellation arrives while `submit` runs, and the submission fails.
  abbrev pub cancelled_meanwhile : String → Submit Real
  cancelled_meanwhile owner po t = (raised, (cancel_preorder po.id owner t).1)

  -- What the order stands at after a round that has lost its cancellation.
  abbrev pub lost : Preorder Real → Preorder Real
  lost d = record d { status = signed; attempts = some (coalesce d.attempts 0 + 1) }

  -- A pass whose limit leaves out no order submits every signed order that can still be bought.
  submits_signed :
      (tx executor env_executor relayer env_relayer : String) (now limit : ℕ) (d : Preorder Real)
      (t : Table Real)
      → IsValid t
      → get_preorder d.id t ≡ some d
      → d.status ≡ signed
      → coalesce d.kind "sell" ≡ "buy"
      → now < d.deadline
      → length t.rows ≤ limit
      → nonempty (or_env executor env_executor) ≡ true
      → nonempty (or_env relayer env_relayer) ≡ true
      → get_preorder d.id
          (run_keeper
            (quiet (λ r. sent tx))
            no_callback
            executor
            env_executor
            relayer
            env_relayer
            now
            limit
            t).0
        ≡ some (record d { status = executed; tx_hash = some tx })
  submits_signed tx executor env_executor relayer env_relayer now limit d t v found is_signed buys
        early fits ex re =
      let due = orders_due-found now limit d t found is_signed buys early fits in
      (run_keeper-after_pass (λ r. sent tx) executor env_executor relayer env_relayer now limit d.id
        t v ex re).0
      ∙ rw (found, due) refl

  -- A signed order of a valid table that its owner cancels during a submission that fails stands signed
  -- after the round, although the cancellation was answered with success. If it is a buy before its
  -- deadline, the next pass submits it again, where the keeper is configured, the limit leaves out no
  -- row and no other connection writes: if its submissions succeed, the order that was cancelled is
  -- executed.
  pub cancel_is_lost :
      (on_executed : OnExecuted Real) (owner tx executor env_executor relayer env_relayer : String)
      (now limit : ℕ) (d : Preorder Real) (t : Table Real) (s : Summary)
      → IsValid t
      → get_preorder d.id t ≡ some d
      → d.status ≡ signed
      → (str_eq d.chat (lower owner) || str_eq d.user (lower owner)) ≡ true
      → coalesce d.kind "sell" ≡ "buy"
      → now < d.deadline
      → length t.rows ≤ limit
      → nonempty (or_env executor env_executor) ≡ true
      → nonempty (or_env relayer env_relayer) ≡ true
      → let (_, t') = claim_order d.id t in
        let (t'', _) = keeper_step (cancelled_meanwhile owner) on_executed d t s in
        ((cancel_preorder d.id owner t').0 ≡ true)
        × (Option.map (λ (r : Preorder Real). r.status) (get_preorder d.id t'') ≡ some signed)
        × (get_preorder d.id
              (run_keeper
                (quiet (λ r. sent tx))
                no_callback
                executor
                env_executor
                relayer
                env_relayer
                now
                limit
                t'').0
            ≡ some (record (lost d) { status = executed; tx_hash = some tx }))
  unfolding keeper_step settle
  cancel_is_lost on_executed owner tx executor env_executor relayer env_relayer now limit d t s v
        found is_signed owns buys early fits ex re =
      let t₁ = (claim_order d.id t).1 in
      let t₂ = (cancel_preorder d.id owner t₁).1 in
      let t₃ = set_preorder_status d.id signed t₂ in
      let taken : get_preorder d.id t₁ ≡ some (record d { status = submitting }) =
        get-claim d.id d.id t ∙ ground (arith, found, is_signed, ==_refl d.id) in
      let gone : get_preorder d.id t₂ ≡ some (record d { status = cancelled }) =
        get-cancel_preorder d.id d.id owner t₁ ∙ ground (arith, taken, owns, ==_refl d.id) in
      let again : get_preorder d.id t₃ ≡ some (record d { status = signed }) =
        get-set_preorder_status d.id d.id signed t₂ ∙ ground (arith, gone, ==_refl d.id) in
      let end : get_preorder d.id (bump_attempt d.id t₃) ≡ some (lost d) =
        get-bump_attempt d.id d.id t₃ ∙ ground (arith, again, ==_refl d.id) in
      let (valid, rows) = lost_writes d.id owner t v in
      rw (claim_signed t d found is_signed) (
        cancel_live d.id owner t₁ (record d { status = submitting }) taken
            (ground (arith, owns, ==_refl d.id)),
        rw end,
        submits_signed tx executor env_executor relayer env_relayer now limit (lost d)
            (bump_attempt d.id t₃) valid end refl buys early (rw rows fits) ex re,
      )
