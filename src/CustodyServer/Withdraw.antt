-- ===== src/CustodyServer/Withdraw.antt =====
-- `_custody_withdraw` of arc-intel/bot/sign_server.py, in the two parts that the handler has: the
-- checks, on one connection to the store, and the submission with the entry in the day's total,
-- on another.
pub mod Allowed
pub mod Cap
use arc_smart_orders.Prelude.{
  ℕ, Bool, true, false, not, ◌&&◌, ◌||◌, Option, none, some, List, [], ◌∷◌, String, lower, str_eq,
  nonempty, ◌==◌, if◌then◌else◌,
}
use arc_smart_orders.Prelude.Int.{ℤ, pos, negsuc}
use arc_smart_orders.Float.{Float}
use arc_smart_orders.State.{totp_confirmed, withdraw_today, add_withdraw_today}
use arc_smart_orders.Custody.{Vault, Wallet, get_custody, custody_addr_usable}
use arc_smart_orders.CustodyServer.{Reply, refused, withdrawn, guards, totp_ok}

pub record Request : Type 0 where
  pub uid : String
  pub code : String
  pub to : String
  pub token : String
  pub amount_raw : String

-- What the handler has checked when it submits.
pub record Permit (F : Type 0) : Type 0 where
  pub uid : String
  pub enc_secret : String
  pub token : String
  pub to : String
  pub amount : ℕ
  pub usdc : F

pub data Check (F : Type 0) : Type 0 where
  denied : Reply → Check F
  permitted : Permit F → Check F

-- `a or b` on texts
abbrev pub or_text : String → String → String
or_text a b = if nonempty a then a else b

-- The world outside the store: the arguments of the handler that are no request.
pub record Outside (fl : Float) : Type 0 where
  pub day : ℕ → String
  pub to_float : String → Option fl.F
  pub to_text : fl.F → String
  pub is_address : String → Bool
  pub verify : (uid enc_secret code : String) → Bool
  pub int : String → Option ℤ
  -- the environment
  pub stable : String
  pub cap : fl.F
  pub submit : Permit fl.F → Option String

module _ (fl : Float) (out : Outside fl) where
  open fl use {F, lit, add, div, flt, fle}

  -- `if usdc`
  abbrev pub truthy : F → Bool
  truthy x = not (fle (lit 0 0) x && fle x (lit 0 0))

  unfoldable pub today : String → ℕ → Vault → F
  unfolding withdraw_today
  today uid now v = withdraw_today fl out.day out.to_float out.to_text uid now v.state

  -- The checks on the amount.
  unfoldable pub check_amount :
      ℕ → Request → Wallet → (to token : String) → Option ℤ → Vault → Check F
  unfolding today
  check_amount now r c to token none v = denied (refused 400 "bad_amount")
  check_amount now r c to token (some (negsuc n)) v = denied (refused 400 "bad_amount")
  check_amount now r c to token (some (pos amount)) v =
      if amount == 0
      then denied (refused 400 "bad_amount")
      else let usdc =
          if str_eq token (lower out.stable) then div (lit amount 0) (lit 1000000 0) else lit 0 0 in
        if truthy usdc && flt out.cap (add (today r.uid now v) usdc)
        then denied (refused 429 "daily_cap")
        else permitted (record {
          uid = r.uid;
          enc_secret = c.enc_secret;
          token = token;
          to = to;
          amount = amount;
          usdc = usdc;
        })

  -- The checks behind the lookup of the wallet.
  unfoldable pub check_wallet : ℕ → Request → Wallet → Vault → Check F
  unfolding check_amount totp_ok custody_addr_usable
  check_wallet now r c v =
      let to = lower r.to in
      let token = lower (or_text r.token (lower out.stable)) in
      if not (totp_confirmed r.uid v.state) || not (totp_ok out.verify r.uid r.code v)
      then denied (refused 401 "totp_required")
      else if not (out.is_address to)
      then denied (refused 400 "bad_address")
      else if not (custody_addr_usable r.uid to now v)
      then denied (refused 409 "address_not_registered")
      else if not (out.is_address token)
      then denied (refused 400 "bad_token")
      else check_amount now r c to token (out.int (or_text r.amount_raw "0")) v

  unfoldable pub withdraw_check : ℕ → Request → Vault → Check F
  unfolding check_wallet guards get_custody
  withdraw_check now r v = elim (guards r.uid v) [
    | some reply ↦ denied reply
    | none ↦ elim (get_custody r.uid v) [
      | none ↦ denied (refused 409 "no_custody")
      | some c ↦ check_wallet now r c v
    ]
  ]

  -- The entry in the day's total.
  unfoldable pub withdraw_settle : ℕ → Permit F → Vault → Vault
  unfolding add_withdraw_today
  withdraw_settle now p v =
      if truthy p.usdc
      then record v {
        state = (add_withdraw_today fl out.day out.to_float out.to_text p.uid p.usdc now v.state).1;
      }
      else v

  unfoldable pub withdraw_found : ℕ → Check F → Vault → Reply × Vault
  unfolding withdraw_settle
  withdraw_found now (denied reply) v = (reply, v)
  withdraw_found now (permitted p) v = elim (out.submit p) [
    | none ↦ (refused 502 "withdraw_failed", v)
    | some tx ↦ (withdrawn tx, withdraw_settle now p v)
  ]

  -- The clock is read at the checks and, as `later`, at the entry behind the submission; the readings
  -- of one of these parts, which follow each other at once, are taken as one.
  unfoldable pub custody_withdraw : (now later : ℕ) → Request → Vault → Reply × Vault
  unfolding withdraw_check withdraw_found
  custody_withdraw now later r v = withdraw_found later (withdraw_check now r v) v
