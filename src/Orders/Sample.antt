-- ===== src/Orders/Sample.antt =====
-- A table of orders for the tests: two signed, one executed, one cancelled.
use arc_smart_orders.Prelude.{ℕ, ◌≡◌, refl, true, false, none, some, String, [], ◌∷◌, arith, lower}
use arc_smart_orders.Orders.{
  Preorder, Table, Status, signed, executed, cancelled, get_preorder, get_preorder_by_sign_token,
  orders_due, claim_order, cancel_preorder,
}
use arc_smart_orders.Orders.Valid.{IsValid}

abbrev pub order : ℕ → Status → String → Preorder ℕ
order id s tok = record {
  id = id;
  chat = "7";
  user = "0xab";
  token = "0xt";
  pct = 50;
  floor_pct = 10;
  min_out = 5;
  deadline = 100;
  order_nonce = id;
  status = s;
  created_ts = 1;
  signature = some "0x1";
  sign_token = tok;
  sig_payload = none;
  kind = some "buy";
  tx_hash = none;
  attempts = none;
}

abbrev pub sample : Table ℕ
sample = record {
  rows =
      order 1 signed "a" ∷ order 2 executed "b" ∷ order 3 cancelled "c" ∷ order 4 signed "d" ∷ [];
  next_id = 5;
}

pub sample-IsValid : IsValid sample
sample-IsValid = record { below = ground arith; distinct = ground arith }

pub get-first : get_preorder 1 sample ≡ some (order 1 signed "a")
unfolding get_preorder
get-first = refl

pub get-second : get_preorder 2 sample ≡ some (order 2 executed "b")
unfolding get_preorder
get-second = refl

pub get-by_token : get_preorder_by_sign_token "c" sample ≡ some (order 3 cancelled "c")
unfolding get_preorder_by_sign_token
get-by_token = refl

pub cancel-first : (cancel_preorder 1 "0xAB" sample).0 ≡ true
unfolding cancel_preorder lower
cancel-first = refl

-- The claim is granted once.
claim_twice :
    ((claim_order 1 sample).0 ≡ true) × ((claim_order 1 (claim_order 1 sample).1).0 ≡ false)
unfolding claim_order
claim_twice = (refl, refl)

due_now : orders_due "buy" 50 10 sample ≡ order 1 signed "a" ∷ order 4 signed "d" ∷ []
unfolding orders_due
due_now = refl

due_late : orders_due "buy" 100 10 sample ≡ []
unfolding orders_due
due_late = refl

due_sells : orders_due "sell" 50 10 sample ≡ []
unfolding orders_due
due_sells = refl

cancel_foreign : (cancel_preorder 1 "8" sample).0 ≡ false
unfolding cancel_preorder lower
cancel_foreign = refl
