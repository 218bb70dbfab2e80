-- ===== src/CustodyServer.antt =====
-- The custody handlers of arc-intel/bot/sign_server.py. Parameters: the clock's reading `now`, the
-- regular expression ADDR_RE, `T.verify` on the decrypted secret (false where it raises), the new
-- wallet, the new secret and its encryption, `int()` on texts, and `signer.withdraw`, which answers
-- with a transaction or raises. A key that a request leaves out is "".
pub mod Withdraw
pub mod Factor
use arc_smart_orders.Prelude.{
  ℕ, Bool, true, false, not, ◌&&◌, ◌||◌, Option, none, some, String, lower, str_eq, nonempty, ◌==◌,
  if◌then◌else◌,
}
use arc_smart_orders.Prelude.Int.{ℤ, pos, negsuc}
use arc_smart_orders.Float.{Float}
use arc_smart_orders.State.{
  get_state, custody_paused, is_frozen, get_totp, save_totp, totp_confirmed, set_totp_confirmed,
  withdraw_today, add_withdraw_today,
}
use arc_smart_orders.Custody.{
  Vault, Wallet, save_custody, get_custody, add_custody_addr, custody_addr_usable, is_allowed,
}

pub data Reply : Type 0 where
  -- the HTTP status and the text under "error"
  refused : (status : ℕ) → (error : String) → Reply
  created : (address : String) → Reply
  enrolled : (secret : String) → Reply
  verified : Reply
  registered : (address : String) → (usable_ts : ℕ) → Reply
  withdrawn : (tx : String) → Reply

pub record Secret : Type 0 where
  pub secret : String
  pub encrypted : String

module _ (verify : (uid enc_secret code : String) → Bool) where
  unfoldable pub totp_ok : String → String → Vault → Bool
  totp_ok uid code v =
      let enc = get_totp uid v.state in
      if not (nonempty enc) || not (nonempty code) then false else verify uid enc code

unfoldable pub guards : String → Vault → Option Reply
guards uid v =
    if custody_paused v.state
    then some (refused 423 "custody_paused")
    else if is_frozen uid v.state
    then some (refused 423 "frozen")
    else none

unfoldable pub custody_create :
    (now : ℕ)
    → (new_address new_encrypted : String) → (uid private_key : String) → Vault
    → Reply × Vault
unfolding guards
custody_create now new_address new_encrypted uid private_key v =
    if nonempty private_key
    then (refused 400 "private_key_not_allowed", v)
    else elim (guards uid v) [
      | some r ↦ (r, v)
      | none ↦
          let admin = get_state "admin_chat" "" v.state in
          if not (is_allowed uid v || (nonempty admin && str_eq uid admin))
          then (refused 403 "not_allowlisted", v)
          else elim (get_custody uid v) [
            | some w ↦ (refused 409 "exists", v)
            | none ↦
                (created new_address, save_custody now uid new_address new_encrypted "active" v)
          ]
    ]

-- A new secret, pending until a code is verified.
unfoldable pub enroll : String → Secret → Vault → Reply × Vault
enroll uid new v = (
  enrolled new.secret,
  record v { state = set_totp_confirmed uid false (save_totp uid new.encrypted v.state) },
)

unfoldable pub custody_totp_get : Secret → String → Vault → Reply × Vault
unfolding enroll
custody_totp_get new uid v =
    if totp_confirmed uid v.state then (refused 409 "totp_already_set", v) else enroll uid new v

module _ (verify : (uid enc_secret code : String) → Bool) where
  unfoldable pub custody_totp_verify : String → String → Vault → Reply × Vault
  unfolding totp_ok
  custody_totp_verify uid code v =
      if totp_ok verify uid code v
      then (verified, record v { state = set_totp_confirmed uid true v.state })
      else (refused 400 "bad_code", v)

  unfoldable pub custody_totp_rotate : Secret → String → String → Vault → Reply × Vault
  unfolding totp_ok enroll
  custody_totp_rotate new uid code v =
      if not (totp_confirmed uid v.state && totp_ok verify uid code v)
      then (refused 401 "totp_required", v)
      else enroll uid new v

  unfoldable pub custody_address_add :
      (is_address : String → Bool)
      → (now delay : ℕ) → (uid code address : String) → Vault
      → Reply × Vault
  unfolding guards totp_ok
  custody_address_add is_address now delay uid code address v = elim (guards uid v) [
    | some r ↦ (r, v)
    | none ↦
        if not (totp_confirmed uid v.state) || not (totp_ok verify uid code v)
        then (refused 401 "totp_required", v)
        else let addr = lower address in
          if not (is_address addr)
          then (refused 400 "bad_address", v)
          else let (usable, v') = add_custody_addr uid addr delay now v in
            (registered addr usable, v')
  ]
