-- ===== src/State.antt =====
-- The table `state` of arc-intel/bot/store.py: texts under keys, and the flags, counters and secrets
-- of custody that are kept in it. `day` is the text of the UTC day of a time, which `time.strftime`
-- makes, and `to_text` and `to_float` are `str` and `float` on floats.
pub mod RoundTrip
use Prim.Native.String.{◌++◌ as ◌<>◌}
use arc_smart_orders.Prelude.{
  ℕ, Bool, true, false, Option, none, some, List, [], ◌∷◌, ◌++◌, String, str_eq, find, exists,
  nonempty, if◌then◌else◌,
}
use arc_smart_orders.Float.{Float}
use arc_smart_orders.Sql.{update_where}

abbrev pub Table : Type 0
Table = List (String × String)

abbrev pub value_or : String → Option (String × String) → String
value_or default none = default
value_or default (some (key, value)) = value

abbrev pub has_key : String → String × String → Bool
has_key key (k, value) = str_eq k key

unfoldable pub get_state : String → String → Table → String
get_state key default t = value_or default (find (has_key key) t)

-- INSERT … ON CONFLICT(key) DO UPDATE
unfoldable pub set_state : String → String → Table → Table
set_state key value t =
    if exists (has_key key) t
    then update_where (has_key key) (λ (k, old). (k, value)) t
    else t ++ (key, value) ∷ []

abbrev pub flag : Bool → String
flag true = "1"
flag false = "0"

unfoldable pub set_frozen : String → Bool → Table → Table
unfolding set_state
set_frozen chat frozen t = set_state ("frozen:" <> chat) (flag frozen) t

unfoldable pub is_frozen : String → Table → Bool
unfolding get_state
is_frozen chat t = str_eq (get_state ("frozen:" <> chat) "0" t) "1"

unfoldable pub save_totp : String → String → Table → Table
unfolding set_state
save_totp chat enc_secret t = set_state ("totp:" <> chat) enc_secret t

unfoldable pub get_totp : String → Table → String
unfolding get_state
get_totp chat t = get_state ("totp:" <> chat) "" t

unfoldable pub set_totp_confirmed : String → Bool → Table → Table
unfolding set_state
set_totp_confirmed chat ok t = set_state ("totp_ok:" <> chat) (flag ok) t

unfoldable pub totp_confirmed : String → Table → Bool
unfolding get_state
totp_confirmed chat t = str_eq (get_state ("totp_ok:" <> chat) "0" t) "1"

unfoldable pub clear_totp : String → Table → Table
unfolding set_state
clear_totp chat t = set_state ("totp_ok:" <> chat) "0" (set_state ("totp:" <> chat) "" t)

unfoldable pub custody_paused : Table → Bool
unfolding get_state
custody_paused t = str_eq (get_state "custody_paused" "0" t) "1"

unfoldable pub set_custody_paused : Bool → Table → Table
unfolding set_state
set_custody_paused paused t = set_state "custody_paused" (flag paused) t

-- `float(v or 0)`, 0 where the text is no number.
module _ (fl : Float) (day : ℕ → String) (to_float : String → Option fl.F)
    (to_text : fl.F → String) where
  abbrev pub float_or_zero : String → fl.F
  float_or_zero v =
      if nonempty v then elim (to_float v) [ none ↦ fl.lit 0 0 | some x ↦ x ] else fl.lit 0 0

  abbrev pub wd_key : String → ℕ → String
  wd_key chat now = "wd:" <> chat <> ":" <> day now

  unfoldable pub withdraw_today : String → ℕ → Table → fl.F
  unfolding get_state
  withdraw_today chat now t = float_or_zero (get_state (wd_key chat now) "0" t)

  unfoldable pub add_withdraw_today : String → fl.F → ℕ → Table → fl.F × Table
  unfolding set_state withdraw_today
  add_withdraw_today chat usdc now t =
      let total = fl.add (withdraw_today chat now t) usdc in
      (total, set_state (wd_key chat now) (to_text total) t)

  unfoldable pub trade_today : String → ℕ → Table → fl.F
  unfolding get_state
  trade_today chat now t = float_or_zero (get_state ("td:" <> chat <> ":" <> day now) "0" t)

  unfoldable pub add_trade_today : String → fl.F → ℕ → Table → fl.F × Table
  unfolding set_state trade_today
  add_trade_today chat usdc now t =
      let total = fl.add (trade_today chat now t) usdc in
      (total, set_state ("td:" <> chat <> ":" <> day now) (to_text total) t)
