-- ===== src/Tests/Sessions.antt =====
-- The theorems on the session keeper at concrete inputs. An intent is its text.
use arc_smart_orders.Prelude.{ℕ, ◌≡◌, refl, Option, some, String, [], ◌∷◌, lower}
use arc_smart_orders.Orders.{Preorder, armed}
use arc_smart_orders.Orders.Sample.{order}
use arc_smart_orders.Keeper.{nothing_done, sent}
use arc_smart_orders.State.{get_state, custody_paused, is_frozen}
use arc_smart_orders.SessionKeeper.{Session, Vault, Dispatch, get_session, session_step}
use arc_smart_orders.SessionKeeper.Overlap.{armed_order_submitted_twice}

abbrev session_order : Preorder ℕ
session_order = record (order 1 armed "a") { kind = some "session"; sig_payload = some "session" }

abbrev key : String → ℕ → Session
key status at = record {
  chat = "7";
  session_key = "0xk";
  enc_secret = "x";
  executor = "0xe";
  pool_id = "session";
  token_in = "session";
  max_per_order = 9;
  max_total = 90;
  min_out_floor = 1;
  expiry = 1000;
  status = status;
  created_ts = at;
}

abbrev vault : Vault ℕ
vault = record {
  orders = record { rows = session_order ∷ []; next_id = 2 };
  state = [];
  sessions = key "revoked" 9 ∷ key "active" 5 ∷ key "active" 8 ∷ [];
}

abbrev paused : Vault ℕ
paused = record vault { state = ("custody_paused", "1") ∷ [] }

abbrev loads : String → Option String
loads text = some text

abbrev get : String → String → String
get text field = text

abbrev dispatch : Dispatch ℕ String
dispatch po intent sess v = (sent "0xt", v)

armed_order_submitted_twice_example :
    let (v₁, s₁) = session_step loads get dispatch session_order vault nothing_done in
    (session_step loads get dispatch session_order v₁ s₁).1.submitted ≡ 2
unfolding get_session custody_paused is_frozen get_state lower
armed_order_submitted_twice_example =
    armed_order_submitted_twice loads get "0xt" session_order "session" (key "active" 8) vault
      nothing_done refl refl refl refl

abbrev two_keys : Vault ℕ
two_keys = record vault {
  sessions = key "active" 9 ∷ record (key "active" 5) { session_key = "0xj" } ∷ [];
}
