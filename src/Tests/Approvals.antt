-- ===== src/Tests/Approvals.antt =====
-- The theorems on stored approvals at concrete inputs, in whole numbers.
use mathlib.Core.Option
use arc_smart_orders.Prelude.{◌++◌, ◌<◌, ◌≤◌, ◌≡◌, refl, true, false, some, [], ◌∷◌}
use arc_smart_orders.Prelude.Int.{ℤ, pos}
use arc_smart_orders.Float.Exact.{exact}
use arc_smart_orders.Permissions.{Status, Event, confirm}
use arc_smart_orders.Permissions
use arc_smart_orders.ApprovalService.{
  Approvals, Stored, propose, create_approval, get_approval, approve, cancel, same_code,
}
use arc_smart_orders.ApprovalService.Simulation.{view, approve-confirm, cancel_past_the_window}

abbrev none_yet : Approvals ℤ
none_yet = record { rows = []; next_id = 1 }

abbrev proposed : Approvals ℤ
proposed =
    (propose exact 0 "0042" "7" "0xt" "whale" "buy" (pos 60) 900 1000 300 3600 (pos 50) none_yet).1

abbrev first : Stored ℤ
first = record {
  id = 1;
  chat_id = "7";
  token = "0xt";
  kind = "whale";
  side = "buy";
  notional = pos 60;
  alert_block = 900;
  created_ts = 1000;
  cancel_until = 1300;
  expires_ts = 4600;
  requires_2fa = true;
  code = some "0042";
  status = Permissions.Status.pending;
  history = (Permissions.Event.created, 1000) ∷ [];
}

found_first : get_approval 1 proposed ≡ some first
unfolding propose create_approval get_approval
found_first = refl

approve-confirm_example :
    let ((ok, reply), s') = approve "7" 1 1400 (some "0042") proposed in
    let (a', done, reason) = confirm (view first) 1400 (same_code (some "0042") first.code) in
    (ok ≡ done) × (Option.map view (get_approval 1 s') ≡ some a')
approve-confirm_example = approve-confirm "7" 1 1400 (some "0042") proposed first found_first refl

cancel_past_the_window_example :
    let ((ok, reply), s') = cancel "7" 1 1400 proposed in
    let machine = Permissions.cancel (view first) 1400 in
    (ok ≡ true)
    × (get_approval 1 s'
        ≡ some (record first {
          status = Status.cancelled;
          history = first.history ++ (Event.cancelled, 1400) ∷ [];
        }))
    × (1300 < 1400 → machine ≡ (view first, false))
    × (1400 ≤ 1300 → (machine.1 ≡ true) × (Option.map view (get_approval 1 s') ≡ some machine.0))
cancel_past_the_window_example =
    cancel_past_the_window "7" 1 1400 proposed first found_first refl refl
