-- ===== src/Throttle.antt =====
-- arc-intel/bot/throttle.py: the pace of messages to Telegram. Times are whole ticks of the monotonic
-- clock, and the two gaps of the constructor are numbers of ticks; `none` is minus infinity.
pub mod Pace
use arc_smart_orders.Prelude.{
  ℕ, ◌+◌, ◌-◌, Bool, Option, none, some, List, [], ◌∷◌, String, str_eq, ltb, if◌then◌else◌,
}

pub record Throttle : Type 0 where
  pub gmin : ℕ
  pub cmin : ℕ
  pub last_global : Option ℕ
  pub last_chat : List (String × ℕ)

-- `dict.get`, and the assignment to a key.
abbrev pub lookup : String → List (String × ℕ) → Option ℕ
lookup chat [] = none
lookup chat ((c, t) ∷ m) = if str_eq c chat then some t else lookup chat m

abbrev pub assign : String → ℕ → List (String × ℕ) → List (String × ℕ)
assign chat t [] = (chat, t) ∷ []
assign chat t ((c, u) ∷ m) =
    let rest = assign chat t m in if str_eq c chat then (c, t) ∷ m else (c, u) ∷ rest

-- `last + gap - now`; what is negative counts as 0, since only its sign is used.
abbrev pub left : Option ℕ → ℕ → ℕ → ℕ
left none gap now = 0
left (some last) gap now = last + gap - now

abbrev pub larger : ℕ → ℕ → ℕ
larger a b = if ltb a b then b else a

-- The clock reads `now` at first, and `woken w` after a sleep of `w`.
unfoldable pub wait : String → (now : ℕ) → (woken : ℕ → ℕ) → Throttle → ℕ × Throttle
wait chat_id now woken s =
    let w = larger (left s.last_global s.gmin now) (left (lookup chat_id s.last_chat) s.cmin now) in
    let at = if ltb 0 w then woken w else now in
    (at, record s { last_global = some at; last_chat = assign chat_id at s.last_chat })
