-- ===== src/Tests/Rounds.antt =====
-- The theorems on the contest at concrete moments, fills and volumes.
use arc_smart_orders.Prelude.{
  ◌≡◌, arith, ℕ, refl, false, List, [], ◌∷◌, String, Bool, true, ◌⊎◌, none, lower, All, select,
}
use arc_smart_orders.Float.Exact.{exact, exact-IsOrder}
use arc_smart_orders.Fills.{Fill, Store}
use arc_smart_orders.AntiWash.{filter_fills}
use arc_smart_orders.AntiWash.RoundTrips.{round_trip, filter_fills-no_round_trip}
use arc_smart_orders.Contest.Prizes.{winner, leaderboard}
use arc_smart_orders.Contest.Winner.{winner-moved_most}
use arc_smart_orders.Contest.Ledger.{contest_volume_between}
use arc_smart_orders.Contest.Publish.{Board, publish_round}
use arc_smart_orders.Contest.Publish.Once.{publish_round_once}
use arc_smart_orders.Contest.Straddle.{straddling_round_trip_counts}
use arc_smart_orders.Prelude.Int.{ℤ, pos}
use arc_smart_orders.Contest.{round_window, previous_round}

abbrev fill : String → String → String → ℕ → ℕ → Fill ℤ
fill id user side usdc ts = record {
  fill_id = id;
  user = user;
  token = "0xT";
  side = side;
  qty = pos 1;
  usdc = pos usdc;
  block = 1;
  ts = ts;
}

abbrev traded : List (Fill ℤ)
traded =
    fill "a" "7" "buy" 20 100
    ∷ fill "b" "8" "buy" 30 110
    ∷ fill "c" "7" "sell" 20 150
    ∷ fill "d" "8" "sell" 30 300
    ∷ []

filter_fills-no_round_trip_example :
    let counted = filter_fills exact (pos 5) [] 60 traded in
    All (λ f. All (λ g. round_trip 60 f g ≡ false) counted) counted
filter_fills-no_round_trip_example = filter_fills-no_round_trip exact (pos 5) [] 60 traded

abbrev volumes : List (String × ℤ)
volumes = ("7", pos 40) ∷ ("8", pos 90) ∷ ("9", pos 0) ∷ []

winner-moved_most_example :
    All
      (λ (e : String × ℤ). exact.flt (pos 90) e.1 ≡ false)
      (select (λ (e : String × ℤ). exact.flt (exact.lit 0 0) e.1) volumes)
unfolding winner leaderboard
winner-moved_most_example =
    winner-moved_most exact exact-IsOrder volumes (record { rank = 1; user = "8"; volume = pos 90 })
      (refl, (refl, (refl, tt))) refl

-- A purchase ten seconds before the end of a round, and the sale five seconds after it.
abbrev bought : Fill ℤ
bought = fill "a" "7" "buy" 20 86390

abbrev sold : Fill ℤ
sold = fill "b" "7" "sell" 20 86405

abbrev straddled : Store ℤ
straddled = record { fills = bought ∷ sold ∷ []; positions = []; bindings = []; credits = [] }

straddling_round_trip_counts_example :
    let volume =
      λ (from : ℕ) (to : ℕ). contest_volume_between exact from to (pos 5) [] 60 straddled in
    (volume 43200 86400 ≡ ("7", exact.add (exact.lit 0 0) (pos 20)) ∷ [])
    × (volume 86400 129600 ≡ ("7", exact.add (exact.lit 0 0) (pos 20)) ∷ [])
    × (volume 43200 129600 ≡ [])
unfolding lower
straddling_round_trip_counts_example =
    straddling_round_trip_counts exact 43200 86400 129600 60 (pos 5) bought sold straddled refl refl
      refl refl refl refl (omega arith) (omega arith) (omega arith) (omega arith)

abbrev board : Board ℤ
board = record {
  store = straddled;
  subs = record { subscribers = []; auto_subs = []; wallet_links = []; state = [] };
  rounds = [];
  winners = [];
}

abbrev sends : ℕ → String → Bool
sends i chat = true

publish_round_once_example :
    let out = publish_round exact sends "0" 90000 "@arc" 12 3600 true board in
    (out ≡ (none, board))
    ⊎ (publish_round exact sends "0" 90001 "@arc" 12 3600 true out.1 ≡ (none, out.1))
unfolding previous_round round_window
publish_round_once_example =
    publish_round_once exact sends sends "0" "0" 90000 90001 "@arc" "@arc" 12 12 3600 3600 true true
      board (publish_round exact sends "0" 90000 "@arc" 12 3600 true board).1 refl refl
