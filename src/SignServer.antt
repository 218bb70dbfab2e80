-- ===== src/SignServer.antt =====
-- arc-intel/bot/sign_server.py: `POST /sign`, where a wallet hands in the signature of an order.
pub mod Revive
use text.Mathlib.Text.{starts_with}
use arc_smart_orders.Prelude.{
  ℕ, ◌+◌, Bool, true, false, not, ◌&&◌, ◌||◌, Option, none, some, String, str_eq, nonempty,
  if◌then◌else◌,
}
use arc_smart_orders.Orders.{
  Preorder, Table, Status, executed, status_eq, get_preorder_by_sign_token, attach_signature,
}

-- The answers, and whether the handler kicks the keeper.
pub data Reply : Type 0 where
  missing_fields unknown_token already_executed : Reply
  accepted : ℕ → Option String → Bool → Reply

abbrev pub is_buy : Option String → Bool
is_buy none = false
is_buy (some k) = str_eq k "buy"

module _ {Real : Type 0} where
  -- The part of the handler behind the lookup by token.
  pub sign_found : String → Option (Preorder Real) → Table Real → Reply × Table Real
  sign_found sig none t = (unknown_token, t)
  sign_found sig (some po) t =
      if status_eq po.status executed
      then (already_executed, t)
      else (accepted po.id po.kind (is_buy po.kind), attach_signature po.id sig t)

  -- `tok` and `sig` are the fields `t` and `signature` of the body, "" where they are missing.
  pub sign : String → String → Table Real → Reply × Table Real
  unfolding sign_found
  sign tok sig t =
      if not (nonempty tok) || not (starts_with sig "0x")
      then (missing_fields, t)
      else sign_found sig (get_preorder_by_sign_token tok t) t
