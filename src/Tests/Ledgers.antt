-- ===== src/Tests/Ledgers.antt =====
-- The theorems on legs and subscriptions at concrete inputs, in whole numbers.
use arc_smart_orders.Prelude.{
  none, some, suc, Bool, true, false, if◌then◌else◌, String, ℕ, ◌+◌, arith, ◌≡◌, refl, List, [],
  ◌∷◌,
}
use arc_smart_orders.Prelude.Int.{ℤ, pos, ◌+ℤ◌, ◌-ℤ◌, ◌*ℤ◌}
use arc_smart_orders.Throttle.{Throttle}
use arc_smart_orders.Throttle.Pace.{Call, times, times_of, wait-AreApart}
use arc_smart_orders.Alerts.Spacing.{AreApart}
use arc_smart_orders.Sender.{Transport, Message, send, sent, http_error, failed, is_set, plain, run}
use arc_smart_orders.Sender.Drops
use arc_smart_orders.Sender.Drops.{refused_text_is_dropped}
use arc_smart_orders.Float.Exact.{exact, exact-IsOrder}
use arc_smart_orders.Positions.{Position}
use arc_smart_orders.Pnl.{Leg, Side, buy, sell, empty_book, trade_legs, trade_leg, close}
use arc_smart_orders.Pnl.Ledger.{sum_realized, fills, trade_legs-apply_fill}
use arc_smart_orders.Subscriptions.{Subs, Subscriber}

abbrev leg : ℕ → Side → ℕ → ℕ → Leg ℤ
leg block side qty value = record {
  wallet = "0xw";
  token = "0xt";
  pool = "p";
  block = block;
  log_index = 0;
  side = side;
  token_qty = pos qty;
  stable_value = pos value;
}

abbrev legs : List (Leg ℤ)
legs = leg 1 sell 2 20 ∷ leg 2 buy 4 40 ∷ leg 3 sell 1 15 ∷ leg 4 sell 9 90 ∷ []

trade_legs-apply_fill_example :
    let nothing : Position ℤ = record {
      token = "0xt";
      qty = pos 0;
      cost = pos 0;
      realized = pos 0;
      last_block = 0;
    } in
    let b = trade_legs exact "0xw" "0xt" legs (empty_book exact []) in
    let p = fills exact legs nothing in
    (p.qty ≡ b.qty) × (p.cost ≡ b.cost) × (p.realized ≡ sum_realized exact (pos 0) b.out)
unfolding trade_leg close ◌+ℤ◌ ◌-ℤ◌ ◌*ℤ◌
trade_legs-apply_fill_example =
    trade_legs-apply_fill exact exact-IsOrder refl "0xw" "0xt" legs
      (refl, (refl, (refl, (refl, tt)))) (refl, (refl, (refl, (refl, tt))))

abbrev row : Subscriber
row = record {
  chat_id = "7";
  tokens = "0xa" ∷ "0xb" ∷ [];
  wallets = "0xw" ∷ [];
  kinds = [];
  since_block = 5;
}

abbrev linked : Subs
linked = record {
  subscribers = row ∷ [];
  auto_subs = ("7", "0xb") ∷ [];
  wallet_links = record { chat_id = "7"; address = "0xw"; created_ts = 1 } ∷ [];
  state = [];
}

-- Two messages to one chat, the second a tick after the first, and one to another.
abbrev messages : List Call
messages =
    record { chat_id = "7"; now = 100; woken = λ w. 100 + w }
    ∷ record { chat_id = "7"; now = 101; woken = λ w. 103 + w }
    ∷ record { chat_id = "8"; now = 124; woken = λ w. 124 + w }
    ∷ []

wait-AreApart_example :
    let s : Throttle = record { gmin = 1; cmin = 20; last_global = none; last_chat = [] } in
    AreApart 1 (times messages s) × AreApart 20 (times_of "7" messages s)
wait-AreApart_example =
    wait-AreApart 1 20 "7" messages
      ((λ w. omega arith), ((λ w. omega arith), ((λ w. omega arith), tt)))

-- A transport that takes plain text only, and refuses the rest with 400 or, where the network is
-- down, fails without a status.
abbrev network : Transport String Bool
network = record {
  send = λ m timeout up.
      if is_set m.parse_mode
      then (if up then (http_error 400 none, up) else (failed, up))
      else (sent, up);
  edit_message = λ e timeout up. (sent, up);
  sleep = λ s up. up;
}

abbrev html : Message String
html = record {
  chat = "7";
  text = "<b";
  parse_mode = some "HTML";
  keyboard = none;
  inline = none;
  remove_keyboard = false;
}

refused_text_is_dropped_example :
    let worker = run (Drops.recorded network) (λ text. none) 10 in
    (worker (some (send html) ∷ none ∷ []) (false, []) ≡ (
      suc (worker (none ∷ []) (false, html ∷ plain html ∷ [])).0,
      (worker (none ∷ []) (false, html ∷ plain html ∷ [])).1,
    ))
    × (worker (some (send html) ∷ none ∷ []) (true, [])
        ≡ (suc (worker (none ∷ []) (true, html ∷ [])).0, (worker (none ∷ []) (true, html ∷ [])).1))
refused_text_is_dropped_example =
    refused_text_is_dropped network (λ text. none) 10 html (none ∷ []) false false false true true
      400 none refl refl refl refl refl
