-- ===== src/Tests/Money.antt =====
-- The theorems on approvals, exits, positions, fills and fees at concrete inputs, in whole numbers.
use arc_smart_orders.Prelude.{ℕ, ◌≡◌, refl, true, false, none, some, List, [], ◌∷◌}
use arc_smart_orders.Prelude.Int.{ℤ, pos, negsuc}
use arc_smart_orders.Float.Exact.{exact}
use arc_smart_orders.Permissions.{Approval, create_approval}
use arc_smart_orders.Permissions.Story.{
  Call, cancels, confirms, executes, calls, History, create_approval-History,
}
use arc_smart_orders.Permissions.TwoFactor.{was_approved, create_approval_needs_factor}
use arc_smart_orders.Strategy
use arc_smart_orders.Strategy.{ExitPlan, evaluate_exit}
use arc_smart_orders.Positions.{Position}
use arc_smart_orders.Fills.{Store}
use arc_smart_orders.Fills.Credits.{bind, record_one, IsFair, calls-IsFair}
use arc_smart_orders.Fills.Credits

abbrev story : List Call
story =
    confirms 1100 true
    ∷ confirms 1400 false
    ∷ confirms 1400 true
    ∷ cancels 1401
    ∷ executes 1500
    ∷ []

abbrev trade : Approval ℕ ℤ
trade = calls story (create_approval exact "a" "7" 0 (pos 500) 1000 300 3600 (pos 100))

create_approval-History_example : History 1000 1300 4600 trade.status trade.history
create_approval-History_example =
    create_approval-History exact story "a" "7" 0 (pos 500) 1000 300 3600 (pos 100)

abbrev no_factor : List Call
no_factor = confirms 1400 false ∷ executes 1500 ∷ confirms 1600 false ∷ []

create_approval_needs_factor_example :
    let untouched : Approval ℕ ℤ =
      create_approval exact "a" "7" 0 (pos 500) 1000 300 3600 (pos 100) in
    was_approved (calls no_factor untouched).status ≡ false
create_approval_needs_factor_example =
    create_approval_needs_factor exact no_factor "a" "7" 0 (pos 500) 1000 300 3600 (pos 100) refl
      refl

abbrev plan : ExitPlan ℤ
plan = record {
  take_profit_pct = some (pos 2);
  stop_loss_pct = none;
  trailing_stop_pct = some (pos 1);
  scale_out = [];
}

abbrev open_at : Strategy.Position ℤ
open_at = record { entry_price = pos 10; size = pos 3; high_water = pos 10 }

abbrev prices : List ℤ
prices = pos 12 ∷ pos 19 ∷ pos 8 ∷ []

abbrev held : Position ℤ
held = record { token = "0xt"; qty = pos 6; cost = pos 60; realized = negsuc 0; last_block = 3 }

abbrev bought : Position ℤ
bought = record held { qty = pos 8; cost = pos 85; last_block = 5 }

abbrev new_store : Store ℤ
new_store = record { fills = []; positions = []; bindings = []; credits = [] }

-- Between the two calls a second fill makes the position, and the buyer is referred.
abbrev meanwhile : List (Credits.Call ℤ)
meanwhile = record_one 9 "0x2" "7" "0xT" "buy" (pos 2) (pos 25) 5 0 ∷ bind 9 "7" "8" "abc" ∷ []

abbrev referred : List (Credits.Call ℤ)
referred =
    bind 1 "7" "8" "abc"
    ∷ bind 2 "7" "9" "def"
    ∷ record_one 3 "0x1" "7" "0xT" "buy" (pos 2) (pos 20000) 5 6
    ∷ record_one 4 "0x1" "7" "0xT" "buy" (pos 2) (pos 20000) 5 6
    ∷ record_one 5 "paper1" "7" "0xT" "buy" (pos 2) (pos 20000) 5 6
    ∷ []

calls-IsFair_example : IsFair exact (Credits.calls exact referred new_store)
calls-IsFair_example = calls-IsFair exact referred new_store (tt, tt)
