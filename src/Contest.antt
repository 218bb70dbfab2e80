-- ===== src/Contest.antt =====
-- arc-intel/monetization/contest.py: the rounds of the volume contest. `secs` is `round_hours * 3600`;
-- times are whole seconds.
pub mod Rounds
pub mod Prizes
pub mod Winner
pub mod Ledger
pub mod Straddle
pub mod Publish
use arc_smart_orders.Prelude.{ℕ, ◌+◌, ◌*◌, ◌-◌, ◌/◌}
use arc_smart_orders.Prelude.Int.{ℤ, pos, ◌-ℤ◌}

pub record Window : Type 0 where
  pub id : ℕ
  pub start : ℕ
  pub end : ℕ
  pub seconds_left : ℕ
  pub round_hours : ℕ

-- A round that may begin before the epoch.
pub record Past : Type 0 where
  pub id : ℤ
  pub start : ℤ
  pub end : ℕ

pub round_index : ℕ → ℕ → ℕ
round_index ts round_hours = ts / (round_hours * 3600)

-- `max(0, end - ts)` is the truncated difference.
unfoldable pub round_window : ℕ → ℕ → Window
round_window ts round_hours =
    let secs = round_hours * 3600 in
    let start = ts / secs * secs in
    let end = start + secs in
    record {
      id = start;
      start = start;
      end = end;
      seconds_left = end - ts;
      round_hours = round_hours;
    }

unfoldable pub previous_round : ℕ → ℕ → Past
unfolding round_window
previous_round now round_hours =
    let cur = round_window now round_hours in
    let secs = cur.end - cur.start in
    record { id = pos cur.start -ℤ pos secs; start = pos cur.start -ℤ pos secs; end = cur.start }
