-- ===== src/CustodyServer/Factor.antt =====
-- The second factor guards what the custody handlers do.
use Prim.Native.String.{◌++◌ as ◌<>◌}
use arc_smart_orders.Prelude.{◌≡◌, refl, false, String, ℕ, arith, eq_refl}
use arc_smart_orders.Float.{Float}
use arc_smart_orders.State.{totp_confirmed, set_totp_confirmed, save_totp}
use arc_smart_orders.State.RoundTrip.{get_state-set_state}
use arc_smart_orders.Custody.{Vault}
use arc_smart_orders.CustodyServer.{Secret, enroll}
use arc_smart_orders.CustodyServer.Withdraw.{Request, Permit, permitted, Outside, withdraw_check}
use arc_smart_orders.CustodyServer.Withdraw.Allowed.{withdraw_check-permitted}

enroll-unconfirmed :
    (uid : String) (new : Secret) (v : Vault)
    → totp_confirmed uid (enroll uid new v).1.state ≡ false
unfolding enroll totp_confirmed set_totp_confirmed
enroll-unconfirmed uid new v =
    rw
      (get_state-set_state ("totp_ok:" <> uid) ("totp_ok:" <> uid) "0" "0"
        (save_totp uid new.encrypted v.state))
      (rw (eq_refl ("totp_ok:" <> uid)) refl)

-- A secret that was just handed out, by the first enrolment or by a rotation, lets no withdrawal of
-- the chat through, whatever code comes with the request.
pub enroll_stops_withdrawal :
    (fl : Float) (out : Outside fl) (now : ℕ) (r : Request) (new : Secret) (v : Vault)
    (p : Permit fl.F)
    → ¬ (withdraw_check fl out now r (enroll r.uid new v).1 ≡ permitted p)
enroll_stops_withdrawal fl out now r new v p h =
    let confirmed = (withdraw_check-permitted fl out now r (enroll r.uid new v).1 p h).2 in
    let pending = enroll-unconfirmed r.uid new v in absurd (ground (arith, confirmed, pending))
