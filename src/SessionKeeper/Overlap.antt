-- ===== src/SessionKeeper/Overlap.antt =====
-- Two passes of the session keeper at the same time.
use arc_smart_orders.Prelude.{◌+◌, ◌≡◌, true, false, ◌||◌, Option, some, String, str_eq, arith}
use arc_smart_orders.Orders.{Preorder, mark_executed}
use arc_smart_orders.Keeper.{sent, Summary}
use arc_smart_orders.State.{custody_paused, is_frozen, get_state}
use arc_smart_orders.SessionKeeper.{
  Session, Vault, Dispatch, payload_of, get_session, session_step, with_intent, settle,
}

module _ {Real J : Type 0} (loads : String → Option J) (get : J → String → String) where
  step_taken :
      (dispatch : Dispatch Real J) (po : Preorder Real) (intent : J) (sess : Session)
      (v : Vault Real) (s : Summary)
      → (custody_paused v.state || is_frozen po.chat v.state) ≡ false
      → loads (payload_of po) ≡ some intent
      → str_eq (get intent "mode") "session" ≡ true
      → get_session po.chat (get intent "pool_id") (get intent "token_in") "active" v ≡ some sess
      → session_step loads get dispatch po v s ≡ settle po s (dispatch po intent sess v)
  unfolding session_step with_intent
  step_taken dispatch po intent sess v s allowed parsed mode key = rw (allowed, parsed, mode, key)

  -- Two passes that have both read an armed order, one after the other, with submissions that
  -- succeed and touch nothing else: the order is submitted twice, since no pass claims it.
  pub armed_order_submitted_twice :
      (tx : String) (po : Preorder Real) (intent : J) (sess : Session) (v : Vault Real)
      (s : Summary)
      → (custody_paused v.state || is_frozen po.chat v.state) ≡ false
      → loads (payload_of po) ≡ some intent
      → str_eq (get intent "mode") "session" ≡ true
      → get_session po.chat (get intent "pool_id") (get intent "token_in") "active" v ≡ some sess
      → let dispatch : Dispatch Real J = λ po i k w. (sent tx, w) in
        let (v₁, s₁) = session_step loads get dispatch po v s in
        (session_step loads get dispatch po v₁ s₁).1.submitted ≡ s.submitted + 2
  unfolding settle get_session custody_paused is_frozen get_state
  armed_order_submitted_twice tx po intent sess v s allowed parsed mode key =
      let dispatch : Dispatch Real J = λ po i k w. (sent tx, w) in
      let v₁ : Vault Real = record v { orders = mark_executed po.id tx v.orders } in
      let s₁ : Summary = record s { submitted = s.submitted + 1 } in
      let first : session_step loads get dispatch po v s ≡ (v₁, s₁) =
        step_taken dispatch po intent sess v s allowed parsed mode key in
      let second = step_taken dispatch po intent sess v₁ s₁ allowed parsed mode key in
      rw (first, second) (omega arith)
