-- ===== src/Tests.antt =====
-- The theorems on orders at concrete inputs.
pub mod Money
pub mod Sessions
pub mod Rounds
pub mod Copying
pub mod Approvals
pub mod Indexing
pub mod Ledgers
pub mod Custodial
pub mod Events
pub mod Backfilling
pub mod Protecting
pub mod Streaming
use mathlib.Core.Option
use text.Mathlib.Text.{starts_with}
use arc_smart_orders.Prelude.{
  ℕ, ◌+◌, ◌≤◌, ◌<◌, ◌≡◌, refl, Bool, true, false, Option, none, some, String, List, [], ◌∷◌, All,
  length, exists, arith, str_eq, lower, ◌||◌, nonempty, leb, ◌==◌, if◌then◌else◌,
}
use arc_smart_orders.Prelude.Int.{ℤ, pos, negsuc}
use arc_smart_orders.Sql.{Distinct}
use arc_smart_orders.Orders
use arc_smart_orders.Orders.{
  Table, Preorder, signed, executed, cancelled, get_preorder, orders_due, claim_order,
  cancel_preorder, coalesce,
}
use arc_smart_orders.Orders.Sample.{
  order, sample, sample-IsValid, get-first, get-second, get-by_token, cancel-first,
}
use arc_smart_orders.Orders.Claim.{wins, wins_le_one}
use arc_smart_orders.Orders.Valid.{
  IsValid, create, sign as signs, executed as executes, cancel, claim, bump, status, write_all,
  write_all-IsValid,
}
use arc_smart_orders.Orders.Due.{IsReady, orders_due-IsReady}
use arc_smart_orders.Orders.Cancel.{cancel_stops_claim}
use arc_smart_orders.Keeper.{Outcome, sent, raised, run_keeper, keeper_step, nothing_done}
use arc_smart_orders.Keeper.Pass.{quiet, no_callback, after_pass, total, run_keeper-after_pass}
use arc_smart_orders.Keeper.Race.{cancelled_meanwhile, lost, cancel_is_lost}
use arc_smart_orders.SignServer.{sign, accepted, is_buy}
use arc_smart_orders.SignServer.Revive.{sign_revives_cancelled, sign_keeps_executed}

wins_le_one_example : wins 1 (1 ∷ 4 ∷ 1 ∷ 2 ∷ 1 ∷ []) sample ≤ 1
wins_le_one_example = wins_le_one 1 (1 ∷ 4 ∷ 1 ∷ 2 ∷ 1 ∷ []) sample

orders_due-IsReady_example :
    let due = orders_due "buy" 50 1 sample in
    All (IsReady sample) due
    × All (λ d. (str_eq (coalesce d.kind "sell") "buy" ≡ true) × (50 < d.deadline)) due
    × Distinct (λ (r : Preorder ℕ). r.id) due
    × (length due ≤ 1)
orders_due-IsReady_example = orders_due-IsReady "buy" 50 1 sample sample-IsValid

cancel_stops_claim_example :
    let t' = (cancel_preorder 1 "0xAB" sample).1 in
    (Option.map (λ (r : Preorder ℕ). r.status) (get_preorder 1 t') ≡ some cancelled)
    × ((claim_order 1 t').0 ≡ false)
cancel_stops_claim_example = cancel_stops_claim 1 "0xAB" sample sample-IsValid cancel-first

-- The first order goes through, and every other submission fails.
abbrev first_only : Preorder ℕ → Outcome
first_only r = if r.id == 1 then sent "0xdead" else raised

run_keeper-after_pass_example :
    let due = orders_due "buy" 50 10 sample in
    let (t', report) = run_keeper (quiet first_only) no_callback "0xe" "" "" "0xr" 50 10 sample in
    (get_preorder 4 t' ≡ Option.map (after_pass first_only due) (get_preorder 4 sample))
    × (total report.summary ≡ length due)
run_keeper-after_pass_example =
    run_keeper-after_pass first_only "0xe" "" "" "0xr" 50 10 4 sample sample-IsValid refl refl

cancel_is_lost_example :
    let (_, t') = claim_order 1 sample in
    let (t'', _) =
      keeper_step
        (cancelled_meanwhile "0xAB")
        no_callback
        (order 1 signed "a")
        sample
        nothing_done in
    ((cancel_preorder 1 "0xAB" t').0 ≡ true)
    × (Option.map (λ (r : Preorder ℕ). r.status) (get_preorder 1 t'') ≡ some signed)
    × (get_preorder 1
          (run_keeper (quiet (λ r. sent "0x9")) no_callback "0xe" "" "" "0xr" 50 10 t'').0
        ≡ some (record (lost (order 1 signed "a")) { status = executed; tx_hash = some "0x9" }))
unfolding lower
cancel_is_lost_example =
    cancel_is_lost no_callback "0xAB" "0x9" "0xe" "" "" "0xr" 50 10 (order 1 signed "a") sample
      nothing_done sample-IsValid get-first refl refl refl (omega arith) (omega arith) refl refl

sign_revives_cancelled_example :
    let (reply, t') = sign "c" "0x2" sample in
    (reply ≡ accepted 3 (some "buy") true)
    × (get_preorder 3 t'
        ≡ some (record (order 3 cancelled "c") { signature = some "0x2"; status = signed }))
    × ((claim_order 3 t').0 ≡ true)
sign_revives_cancelled_example =
    sign_revives_cancelled "c" "0x2" (order 3 cancelled "c") sample sample-IsValid refl refl
      get-by_token refl
