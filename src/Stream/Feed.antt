-- ===== src/Stream/Feed.antt =====
-- The loop of arc-intel/bot/telegram.py that passes the new legs of each cycle to apply_legs.
use arc_smart_orders.Prelude.{Bool, Option, some, List, ◌++◌, ◌∷◌, String, map, []}
use arc_smart_orders.Float.{Float}
use arc_smart_orders.Detect.{Alert}
use arc_smart_orders.Stream.{Settings, IncrementalState, Leg}
use arc_smart_orders.Stream.Apply.{Out, apply_legs}

-- The legs of a cycle, and the creators as they are known then; the history is one without alerts.
pub record Batch (F : Type 0) : Type 0 where
  pub creators : List (String × String)
  pub emit : Bool
  pub legs : List (Leg F)

-- `IncrementalState()`
abbrev pub initial : {F : Type 0} → IncrementalState F
initial = record {
  seen = [];
  prices = [];
  buys = [];
  sells = [];
  volume = [];
  positions = [];
  last_surge_bucket = [];
  last_dev_sell_block = [];
  last_collapse_bucket = [];
  last_spike_bucket = [];
}

-- The alerts of all cycles.
unfoldable pub feed :
    (fl : Float) (square root : fl.F → fl.F)
    → Settings fl.F
    → List (Batch fl.F)
    → IncrementalState fl.F
    → Out fl.F
feed fl square root c [] s = ([], s)
feed fl square root c (b ∷ bs) s =
    let (alerts, s₁) = apply_legs fl square root c b.creators b.emit b.legs s in
    let (rest, s₂) = feed fl square root c bs s₁ in (alerts ++ rest, s₂)

-- What on_alerts reads of the alerts.
abbrev pub reported : {F : Type 0} → List (Alert F) → List (String × Option String)
reported alerts = map (λ a. (a.kind, some a.token)) alerts
