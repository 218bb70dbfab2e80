-- ===== src/SessionKeeper.antt =====
-- arc-intel/execution/session_keeper.py with the table `sessions` of
-- arc-intel/bot/store.py: armed orders that the keeper signs with a user's session key. `loads` is
-- `json.loads` and `get` the text under a key of its result, "" where it is missing.
pub mod Guards
pub mod Overlap
pub mod Revoked
use Prim.Native.String.{◌++◌ as ◌<>◌}
use arc_smart_orders.Prelude.{
  ℕ, ◌+◌, Bool, true, false, not, ◌&&◌, ◌||◌, Option, none, some, List, [], ◌∷◌, ◌++◌, String,
  str_eq, lower, ltb, select, find, nonempty, if◌then◌else◌,
}
use arc_smart_orders.State
use arc_smart_orders.State.{custody_paused, is_frozen}
use arc_smart_orders.Sql.{update_where, delete_where, count_where}
use arc_smart_orders.Orders.{Preorder, Table, armed_orders, mark_executed, bump_attempt, coalesce}
use arc_smart_orders.Keeper.{Outcome, sent, raised, Summary, Report, nothing_done, or_env}

pub record Session : Type 0 where
  pub chat : String
  pub session_key : String
  pub enc_secret : String
  pub executor : String
  pub pool_id : String
  pub token_in : String
  pub max_per_order : ℕ
  pub max_total : ℕ
  pub min_out_floor : ℕ
  pub expiry : ℕ
  pub status : String
  pub created_ts : ℕ

-- `state` is the table of texts under keys.
pub record Vault (Real : Type 0) : Type 0 where
  pub orders : Table Real
  pub state : State.Table
  pub sessions : List Session

-- `ORDER BY created_ts DESC LIMIT 1`, the first of equal times.
abbrev pub latest : List Session → Option Session
latest [] = none
latest (s ∷ ss) = elim (latest ss) [
  | none ↦ some s
  | some r ↦ if ltb s.created_ts r.created_ts then some r else some s
]

abbrev pub session_is : String → String → String → String → Session → Bool
session_is chat pool_id token_in status s =
    str_eq s.chat chat
    && (str_eq s.pool_id (lower pool_id)
        && (str_eq s.token_in (lower token_in) && str_eq s.status status))

-- The primary key.
abbrev pub key_is : String → String → Session → Bool
key_is chat session_key s = str_eq s.chat chat && str_eq s.session_key (lower session_key)

-- Signing and submission: from the typed data to the answer of `submit`, or an exception.
abbrev pub Dispatch : Type 0 → Type 0 → Type 0
Dispatch Real J = Preorder Real → J → Session → Vault Real → Outcome × Vault Real

module _ {Real : Type 0} where
  unfoldable pub get_session : String → String → String → String → Vault Real → Option Session
  get_session chat pool_id token_in status v =
      latest (select (session_is chat pool_id token_in status) v.sessions)

  -- INSERT OR REPLACE by chat and key; `now` is `int(time.time())`.
  pub save_session :
      (now : ℕ)
      → (chat session_key enc_secret executor pool_id token_in : String)
      → (max_per_order max_total min_out_floor expiry : ℕ) → (status : String) → Vault Real
      → Vault Real
  save_session now chat session_key enc_secret executor pool_id token_in max_per_order max_total
        min_out_floor expiry status v =
      record v {
        sessions =
            delete_where (key_is chat session_key) v.sessions
            ++ record {
              chat = chat;
              session_key = lower session_key;
              enc_secret = enc_secret;
              executor = lower executor;
              pool_id = lower pool_id;
              token_in = lower token_in;
              max_per_order = max_per_order;
              max_total = max_total;
              min_out_floor = min_out_floor;
              expiry = expiry;
              status = status;
              created_ts = now;
            }
              ∷ [];
      }

  unfoldable pub revoke_session : String → String → Vault Real → Bool × Vault Real
  revoke_session chat session_key v = (
    ltb 0 (count_where (key_is chat session_key) v.sessions),
    record v {
      sessions =
          update_where (key_is chat session_key) (λ s. record s { status = "revoked" }) v.sessions;
    },
  )

  -- `po.get("sig_payload") or "{}"`
  abbrev pub payload_of : Preorder Real → String
  payload_of po = if nonempty (coalesce po.sig_payload "") then coalesce po.sig_payload "" else "{}"

  -- What follows the submission, and the handler.
  pub settle : Preorder Real → Summary → Outcome × Vault Real → Vault Real × Summary
  settle po s (sent tx, v) = (
    record v { orders = mark_executed po.id tx v.orders },
    record s { submitted = s.submitted + 1 },
  )
  settle po s (raised, v) =
      (record v { orders = bump_attempt po.id v.orders }, record s { failed = s.failed + 1 })

  module _ {J : Type 0} (loads : String → Option J) (get : J → String → String)
      (dispatch : Dispatch Real J) where
    -- The part of a round behind the payload.
    pub with_intent : Preorder Real → J → Vault Real → Summary → Vault Real × Summary
    unfolding settle get_session
    with_intent po intent v s =
        if not (str_eq (get intent "mode") "session")
        then (v, s)
        else elim (get_session po.chat (get intent "pool_id") (get intent "token_in") "active" v) [
          | none ↦ (v, s)
          | some sess ↦ settle po s (dispatch po intent sess v)
        ]

    -- One round of the loop.
    pub session_step : Preorder Real → Vault Real → Summary → Vault Real × Summary
    unfolding with_intent custody_paused is_frozen
    session_step po v s =
        if custody_paused v.state || is_frozen po.chat v.state
        then (v, s)
        else elim (loads (payload_of po)) [
          | none ↦ (v, s)
          | some intent ↦ with_intent po intent v s
        ]

    pub session_loop : List (Preorder Real) → Vault Real → Summary → Vault Real × Summary
    unfolding session_step
    session_loop [] v s = (v, s)
    session_loop (po ∷ due) v s = let (v', s') = session_step po v s in session_loop due v' s'

    pub run_session_keeper :
        (executor env_executor relayer env_relayer : String)
        → (now limit : ℕ) → Vault Real
        → Vault Real × Report
    unfolding session_loop
    run_session_keeper executor env_executor relayer env_relayer now limit v =
        if not (nonempty (or_env executor env_executor) && nonempty (or_env relayer env_relayer))
        then (v, record { skipped = true; summary = nothing_done })
        else let (v', s) =
            session_loop (armed_orders "session" now limit v.orders) v nothing_done in
          (v', record { skipped = false; summary = s })
