-- ===== src/Tests/Indexing.antt =====
-- The theorems on the indexer at concrete inputs.
use arc_smart_orders.Prelude.{
  ℕ, ◌+◌, ◌*◌, ◌≡◌, refl, some, Option, List, [], ◌∷◌, ◌==◌, if◌then◌else◌,
}
use arc_smart_orders.Alerts.{cooldown_ok}
use arc_smart_orders.Alerts.Spacing.{Call, passes, AreApart, cooldown_ok-AreApart}
use arc_smart_orders.Backfill.{Source, State, Answer, logs, failed}

-- A node that answers for single blocks only, with one log in each.
abbrev node : Source ℕ ℕ
node = record {
  _logs = λ a b w. (if a == b then logs (a ∷ []) else failed "Range EXCEEDS limit", w + 1);
  clock = λ w. w;
  sleep = λ seconds w. w + seconds;
}

abbrev chain : ℕ → List ℕ
chain n = n ∷ []

logs_of : {Log : Type 0} → Answer Log → List Log
logs_of (logs ls) = ls
logs_of (failed message) = []

abbrev begin : State ℕ
begin = record {
  world = 0;
  gaps = [];
  stats = record { retries = 0; gaps_result_limit = 0; gaps_rate_limit = 0; gaps_other = 0 };
}

abbrev every_second : ℕ → Option ℕ
every_second n = some (1000 + n * 2)

-- Calls for two tokens.
abbrev calls : List Call
calls =
    record { token = "0xa"; kind = "volume_collapse"; now_ts = 100 }
    ∷ record { token = "0xb"; kind = "volume_collapse"; now_ts = 110 }
    ∷ record { token = "0xa"; kind = "volume_collapse"; now_ts = 150 }
    ∷ record { token = "0xa"; kind = "volume_collapse"; now_ts = 160 }
    ∷ []

passes_twice : passes 60 "0xa" "volume_collapse" calls [] ≡ 100 ∷ 160 ∷ []
unfolding cooldown_ok
passes_twice = refl

cooldown_ok-AreApart_example : AreApart 60 (passes 60 "0xa" "volume_collapse" calls [])
cooldown_ok-AreApart_example = cooldown_ok-AreApart 60 "0xa" "volume_collapse" calls
