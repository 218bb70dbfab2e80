-- ===== src/Tests/Custodial.antt =====
-- The theorems on custody at concrete inputs, with whole numbers that are written in strokes.
use Prim.Native.Nat.{ℕ, zero, suc, ◌<◌, ◌≤◌}
use Prim.Native.Char.{Char, char, code}
use arc_smart_orders.Prelude.{
  List, ◌≡◌, refl, ap, true, false, ◌&&◌, Option, none, some, String, str_eq, lower, nonempty, [],
  ◌∷◌, ◌==◌, All-find, Option-cases, inl, inr, if◌then◌else◌, find,
}
use arc_smart_orders.Prelude.Int.{ℤ, pos, negsuc, ◌+ℤ◌}
use arc_smart_orders.Float.Exact.{exact}
use arc_smart_orders.State
use arc_smart_orders.State.{
  get_state, set_state, has_key, value_or, totp_confirmed, get_totp, custody_paused, is_frozen,
  withdraw_today,
}
use arc_smart_orders.Custody.{Vault, Addr, custody_addr_usable, get_custody_addr, get_custody}
use arc_smart_orders.CustodyServer.{Secret, guards, totp_ok}
use arc_smart_orders.CustodyServer.Withdraw.{
  Request, Permit, permitted, Outside, truthy, today, withdraw_check, check_wallet, check_amount,
  withdraw_settle,
}
use arc_smart_orders.CustodyServer.Withdraw.Allowed.{withdraw_check-permitted}
use arc_smart_orders.CustodyServer.Withdraw.Cap.{
  Timed, withdraws, withdraws_within_cap, withdrawals_pass_cap_together,
}

abbrev pub strokes : ℕ → String
strokes zero = String.[]
strokes (suc n) = String.◌∷◌ (char 124 tt) (strokes n)

abbrev pub count : String → ℕ
count String.[] = 0
count (String.◌∷◌ c s) = suc (count s)

pub count-strokes : (n : ℕ) → count (strokes n) ≡ n
count-strokes zero = refl
count-strokes (suc n) = ap suc (count-strokes n)

abbrev to_text : ℤ → String
to_text (pos n) = String.◌∷◌ (char 43 tt) (strokes n)
to_text (negsuc n) = String.◌∷◌ (char 45 tt) (strokes n)

abbrev read : Char → String → Option ℤ
read c s =
    if code c == 43
    then some (pos (count s))
    else if code c == 45
    then some (negsuc (count s))
    else none

abbrev to_float : String → Option ℤ
to_float String.[] = none
to_float (String.◌∷◌ c s) = read c s

written_back : (x : ℤ) → to_float (to_text x) ≡ some x
written_back (pos n) = ap (λ k. some (pos k)) (count-strokes n)
written_back (negsuc n) = ap (λ k. some (negsuc k)) (count-strokes n)

never_empty : (x : ℤ) → nonempty (to_text x) ≡ true
never_empty (pos n) = refl
never_empty (negsuc n) = refl

-- An amount is 30 coins for the request "30".
abbrev int : String → Option ℤ
int s = if str_eq s "30" then some (pos 30000000) else none

abbrev outside : Outside exact
outside = record {
  day = λ now. "day";
  to_float = to_float;
  to_text = to_text;
  is_address = λ a. true;
  verify = λ uid enc code. str_eq code "123456";
  int = int;
  stable = "0xs";
  cap = pos 50;
  submit = λ p. some "0xtx";
}

abbrev vault : Vault
vault = record {
  state = ("totp:7", "secret") ∷ ("totp_ok:7", "1") ∷ [];
  custody =
      record { chat = "7"; address = "0xw"; enc_secret = "e"; created_ts = 1; status = "active" }
      ∷ [];
  custody_addrs =
      record { chat = "7"; address = "0xto"; status = "pending"; created_ts = 1; usable_ts = 100 }
      ∷ [];
  key_audit = [];
  allowlist = "7" ∷ [];
}

abbrev request : Request
request = record { uid = "7"; code = "123456"; to = "0xTO"; token = ""; amount_raw = "30" }

abbrev permit : Permit ℤ
permit = record {
  uid = "7";
  enc_secret = "e";
  token = "0xs";
  to = "0xto";
  amount = 30000000;
  usdc = pos 30;
}

checked : withdraw_check exact outside 200 request vault ≡ permitted permit
unfolding withdraw_check guards custody_paused is_frozen get_state get_custody check_wallet
    totp_confirmed totp_ok get_totp custody_addr_usable get_custody_addr check_amount today
    withdraw_today lower ◌+ℤ◌
checked = refl

withdraw_check-permitted_example :
    (custody_paused vault.state ≡ false)
    × (is_frozen "7" vault.state ≡ false)
    × (totp_confirmed "7" vault.state ≡ true)
    × (totp_ok outside.verify "7" "123456" vault ≡ true)
    × ((a : Addr) × (get_custody_addr "7" "0xto" vault ≡ some a) × (a.usable_ts ≤ 200))
    × (0 < 30000000)
    × ((truthy exact outside (pos 30)
          && exact.flt (pos 50) ((today exact outside "7" 200 vault) +ℤ pos 30))
        ≡ false)
withdraw_check-permitted_example =
    withdraw_check-permitted exact outside 200 request vault permit checked

-- Every total that can be read in the vault is within the cap.
all_within :
    (uid : String) (now : ℕ) → exact.flt (pos 50) (today exact outside uid now vault) ≡ false
unfolding today withdraw_today get_state
all_within uid now =
    elim (Option-cases
      (find (has_key (State.wd_key exact outside.day to_float to_text uid now)) vault.state)) [
        | inl e ↦ rw e refl
        | inr (r, e) ↦ rw e (
            All-find
              (λ (r : String × String).
                exact.flt (pos 50) (State.float_or_zero exact outside.day to_float to_text r.1)
                ≡ false)
              (has_key (State.wd_key exact outside.day to_float to_text uid now)) vault.state r
              (refl, (refl, tt)) e)
      ]

abbrev two_requests : List Timed
two_requests =
    record { now = 200; later = 205; request = request }
    ∷ record { now = 210; later = 220; request = request }
    ∷ []

withdraws_within_cap_example :
    exact.flt (pos 50) (today exact outside "7" 250 (withdraws exact outside two_requests vault))
    ≡ false
withdraws_within_cap_example =
    withdraws_within_cap exact outside never_empty written_back two_requests vault "7" 250
      (refl, (refl, tt)) all_within

withdrawals_pass_cap_together_example :
    (exact.flt (pos 50) (today exact outside "7" 200 vault +ℤ pos 30) ≡ false)
    × (exact.flt (pos 50) (today exact outside "7" 200 vault +ℤ pos 30) ≡ false)
    × (exact.flt (pos 50) (
          today exact outside "7" 200 (
            withdraw_settle exact outside 200 permit
              (withdraw_settle exact outside 200 permit vault)))
        ≡ true)
unfolding today withdraw_today get_state ◌+ℤ◌
withdrawals_pass_cap_together_example =
    withdrawals_pass_cap_together exact outside never_empty written_back 200 request request vault
      permit permit checked checked refl refl refl refl

abbrev fresh : Secret
fresh = record { secret = "s"; encrypted = "secret" }
