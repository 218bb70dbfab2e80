-- ===== src/AutoProtect.antt =====
-- arc-intel/execution/autoprotect.py, with load_pool and latest_price of
-- arc-intel/bot/miniapp_data.py: an alert on a token makes the bot sell it for those that hold it.
-- The chain, the signer and the clock are the parameter `chain`; `ratio` is the quotient of two
-- whole numbers and `truncate` is `int` of a finite float that is not negative.
pub mod Complete
pub mod Sales
use Prim.Native.String.{◌++◌ as ◌<>◌}
use arc_smart_orders.Prelude.{
  ℕ, suc, ◌+◌, ◌^◌, Bool, true, false, not, ◌&&◌, ◌||◌, Option, none, some, List, [], ◌∷◌, String,
  str_eq, lower, nonempty, leb, ltb, exists, find, select, if◌then◌else◌, ◌>>=◌,
}
use arc_smart_orders.Float.{Float}
use arc_smart_orders.State.{get_state, is_frozen, custody_paused}
use arc_smart_orders.Custody
use arc_smart_orders.Custody.{Wallet, get_custody}
use arc_smart_orders.Holdings.{Holding, list_holdings}
use arc_smart_orders.Subscriptions.{Subscriber, member}

-- A row of pools_v4. The columns are texts that are not NULL.
pub record Pool : Type 0 where
  pub pool_id : String
  pub currency0 : String
  pub currency1 : String
  pub fee : ℕ
  pub tick_spacing : ℕ
  pub hooks : String

-- A row of legs, whose price may be NULL.
pub record Leg (F : Type 0) : Type 0 where
  pub token : String
  pub block : ℕ
  pub price : Option F

pub record Storage (F : Type 0) : Type 0 where
  pub pools_v4 : List Pool
  pub legs : List (Leg F)

pub record Store : Type 0 where
  pub subscribers : List Subscriber
  pub holdings : List Holding
  pub vault : Custody.Vault

-- What `signer.swap` is asked for, without the nonce and the deadline.
pub record Sale : Type 0 where
  pub chat : String
  pub enc_secret : String
  pub pool : Pool
  pub token_in : String
  pub amount_in : ℕ
  pub min_out : ℕ
  pub recipient : String

-- What the code asks of the outside. `none`, and `false` of a call that signs, is an exception.
pub record Chain (W : Type 0) : Type 0 where
  pub erc20_balance : (token holder : String) → W → Option ℕ
  pub ensure_approval : (chat enc_secret token : String) → W → Bool × W
  pub new_nonce : W → ℕ
  pub time : W → ℕ
  pub swap : Sale → (order_nonce deadline : ℕ) → W → Bool × W

abbrev pub holds_token : String → Pool → Bool
holds_token token p = str_eq (lower p.currency0) token || str_eq (lower p.currency1) token

abbrev pub with_lower : Pool → Pool
with_lower p = record p {
  currency0 = lower p.currency0;
  currency1 = lower p.currency1;
  hooks = lower p.hooks;
}

unfoldable pub load_pool : {F : Type 0} → Storage F → String → Option Pool
load_pool storage token = elim (find (holds_token (lower token)) storage.pools_v4) [
  | none ↦ none
  | some p ↦ some (with_lower p)
]

-- `ORDER BY block DESC LIMIT 1`, the first of equal blocks.
abbrev pub newest_leg : {F : Type 0} → List (Leg F) → Option (Leg F)
newest_leg [] = none
newest_leg (l ∷ ls) = elim (newest_leg ls) [
  | none ↦ some l
  | some m ↦ if ltb l.block m.block then some m else some l
]

abbrev pub risk : List String
risk = "dev_sell" ∷ "compound" ∷ "liquidity_removal" ∷ []

-- The settings that let a subscriber's tokens be sold.
unfoldable pub is_protected : Store → String → String → Bool
is_protected store token chat =
    str_eq (get_state ("autoprotect:" <> chat) "1" store.vault.state) "1"
    && (not (is_frozen chat store.vault.state) && member token (list_holdings chat store.holdings))

module _ (fl : Float) (ratio : ℕ → ℕ → fl.F) (truncate : fl.F → ℕ) where
  open fl use {F, lit, sub, mul, div, flt, fle}

  unfoldable pub latest_price : Storage F → String → F
  latest_price storage token =
      elim (newest_leg (select (λ l. str_eq l.token (lower token)) storage.legs)) [
        | none ↦ lit 0 0
        | some l ↦ elim l.price [ none ↦ lit 0 0 | some x ↦ x ]
      ]

  -- `amount_in` and `min_out` of the source; `max(0.0, a)` keeps 0.0 unless `a` is larger.
  unfoldable pub amount_to_sell : (pct : F) → ℕ → ℕ
  amount_to_sell pct bal =
      if fle (lit 100 0) pct then bal else truncate (div (mul (lit bal 0) pct) (lit 100 0))

  unfoldable pub least_out : (floor_pct price : F) → (dec amount_in : ℕ) → ℕ
  least_out floor_pct price dec amount_in =
      let kept = sub (lit 1 0) (div floor_pct (lit 100 0)) in
      let kept' = if flt (lit 0 0) kept then kept else lit 0 0 in
      if flt (lit 0 0) price
      then truncate (mul (mul (mul (ratio amount_in (10 ^ dec)) price) kept') (lit 1000000 0))
      else 0

  module _ {W : Type 0} (chain : Chain W) (pct floor_pct price : F) (dec : ℕ) (pool : Pool)
      (store : Store) (token : String) where
    unfoldable pub sale : String → Wallet → ℕ → Sale
    sale chat c bal =
        let amount_in = amount_to_sell pct bal in
        record {
          chat = chat;
          enc_secret = c.enc_secret;
          pool = pool;
          token_in = token;
          amount_in = amount_in;
          min_out = least_out floor_pct price dec amount_in;
          recipient = c.address;
        }

    -- The guards of the loop's body and the numbers that it computes.
    unfoldable pub sale_for : String → W → Option Sale
    sale_for chat w =
        if is_protected store token chat
        then (get_custody chat store.vault >>= λ (c : Wallet).
            chain.erc20_balance token c.address w >>= λ (bal : ℕ).
            if leb bal 0 then none else some (sale chat c bal))
        else none

    -- The calls that sign. Whether the swap was made, and the world after them.
    unfoldable pub submit : Sale → W → Bool × W
    submit s w =
        let (ready, w₁) = chain.ensure_approval s.chat s.enc_secret s.token_in w in
        if ready then chain.swap s (chain.new_nonce w₁) (chain.time w₁ + 300) w₁ else (false, w₁)

    -- `continue`, or the calls.
    unfoldable pub submit_if : Option Sale → W → Bool × W
    submit_if none w = (false, w)
    submit_if (some s) w = submit s w

    unfoldable pub sell_one : String → W → Bool × W
    sell_one chat w = submit_if (sale_for chat w) w

    -- The loop over the subscribers, with the count `sold`.
    unfoldable pub sell_each : List Subscriber → W → ℕ × W
    sell_each [] w = (0, w)
    sell_each (s ∷ ss) w =
        let (done, w₁) = sell_one s.chat_id w in
        let (sold, w₂) = sell_each ss w₁ in (if done then suc sold else sold, w₂)

  unfoldable pub sell_for_holders :
      {W : Type 0}
      → Chain W
      → (pct floor_pct : F) → (rpc_decimals : String → ℕ) → Storage F
      → Store
      → String
      → W
      → ℕ × W
  sell_for_holders chain pct floor_pct rpc_decimals storage store token w =
      if not (nonempty token) || custody_paused store.vault.state
      then (0, w)
      else elim (load_pool storage (lower token)) [
        | none ↦ (0, w)
        | some pool ↦
            sell_each chain pct floor_pct (latest_price storage (lower token))
              (rpc_decimals (lower token)) pool store (lower token) store.subscribers w
      ]

  -- One turn of the loop over the alerts. An alert is its kind and its token, if it has one.
  unfoldable pub on_alert :
      {W : Type 0}
      → Chain W
      → (rpc_decimals : String → ℕ) → Storage F
      → Store
      → String
      → Option String
      → W
      → ℕ × W
  on_alert chain rpc_decimals storage store kind none w = (0, w)
  on_alert chain rpc_decimals storage store kind (some token) w =
      if member kind risk && nonempty token
      then sell_for_holders chain (lit 100 0) (lit 30 0) rpc_decimals storage store token w
      else (0, w)

  unfoldable pub on_alerts :
      {W : Type 0}
      → Chain W
      → (rpc_decimals : String → ℕ) → Storage F
      → Store
      → List (String × Option String)
      → W
      → ℕ × W
  on_alerts chain rpc_decimals storage store [] w = (0, w)
  on_alerts chain rpc_decimals storage store ((kind, token) ∷ alerts) w =
      let (n, w₁) = on_alert chain rpc_decimals storage store kind token w in
      let (total, w₂) = on_alerts chain rpc_decimals storage store alerts w₁ in (n + total, w₂)
