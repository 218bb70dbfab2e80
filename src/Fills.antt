-- ===== src/Fills.antt =====
-- The fills of arc-intel/bot/store.py: confirmed trades, the positions that they make, and the
-- commission of the buyer's referrer. `now` is `int(time.time())`.
pub mod Once
pub mod Credits
use text.Mathlib.Text.{starts_with}
use arc_smart_orders.Float.{Float}
use arc_smart_orders.Positions.{Position, PositionError, Result, ok, raise, apply_fill}
use arc_smart_orders.Prelude.{
  ℕ, ◌≤◌, Bool, true, false, not, ◌&&◌, Option, none, some, List, [], ◌∷◌, ◌++◌, String, str_eq,
  lower, upper, nonempty, leb, ◌==◌, find, if◌then◌else◌,
}

pub record Fill (F : Type 0) : Type 0 where
  pub fill_id : String
  pub user : String
  pub token : String
  pub side : String
  pub qty : F
  pub usdc : F
  pub block : ℕ
  pub ts : ℕ

-- A row of `positions`: its user, and the token with the numbers.
pub record Holding (F : Type 0) : Type 0 where
  pub user : String
  pub position : Position F

pub record Binding : Type 0 where
  pub chat : String
  pub owner_chat : String
  pub code : String
  pub bound_ts : ℕ

pub record Credit (F : Type 0) : Type 0 where
  pub fill_id : String
  pub owner_chat : String
  pub buyer_chat : String
  pub token : String
  pub fee_usdc : F
  pub commission_usdc : F
  pub created_ts : ℕ

pub record Store (F : Type 0) : Type 0 where
  pub fills : List (Fill F)
  pub positions : List (Holding F)
  pub bindings : List Binding
  pub credits : List (Credit F)

-- `ts or time.time()`
abbrev pub ts_or : ℕ → ℕ → ℕ
ts_or ts now = if ts == 0 then now else ts

abbrev pub owner_or_empty : Option Binding → String
owner_or_empty none = ""
owner_or_empty (some b) = b.owner_chat

module _ {F : Type 0} where
  -- First binding wins; no self-referral. The column `chat` is the primary key.
  pub bind_referral : ℕ → String → String → String → Store F → Bool × Store F
  bind_referral now chat owner_chat code s =
      if str_eq chat owner_chat
      then (false, s)
      else elim (find (λ (b : Binding). str_eq b.chat chat) s.bindings) [
        | some old ↦ (false, s)
        | none ↦ (
          true,
          record s {
            bindings =
                s.bindings
                ++ record {
                  chat = chat;
                  owner_chat = owner_chat;
                  code = upper code;
                  bound_ts = now;
                }
                  ∷ [];
          },
        )
      ]

  pub get_referrer : String → Store F → String
  get_referrer chat s = owner_or_empty (find (λ (b : Binding). str_eq b.chat chat) s.bindings)

  -- INSERT OR IGNORE by the fill's id.
  pub add_referral_credit :
      (now : ℕ)
      → (fill_id owner_chat buyer_chat token : String) → (fee commission : F) → (ts : ℕ) → Store F
      → Bool × Store F
  add_referral_credit now fill_id owner_chat buyer_chat token fee commission ts s =
      elim (find (λ (c : Credit F). str_eq c.fill_id fill_id) s.credits) [
        | some old ↦ (false, s)
        | none ↦ (
          true,
          record s {
            credits =
                s.credits
                ++ record {
                  fill_id = fill_id;
                  owner_chat = owner_chat;
                  buyer_chat = buyer_chat;
                  token = lower token;
                  fee_usdc = fee;
                  commission_usdc = commission;
                  created_ts = ts_or ts now;
                }
                  ∷ [];
          },
        )
      ]

module _ (fl : Float) where
  open fl use {F, lit, mul, div, round, flt, fle}

  -- arc-intel/monetization/referrals.py; `none` is the ValueError.
  pub fee_from_notional : F → ℕ → Option F
  fee_from_notional notional_usdc fee_bps =
      if flt notional_usdc (lit 0 0)
      then none
      else if not (leb fee_bps 10000)
      then none
      else some (round (div (mul notional_usdc (lit fee_bps 0)) (lit 10000 0)) 6)

  pub commission_usdc : F → ℕ → Option F
  commission_usdc fee_usdc pct_bps =
      if flt fee_usdc (lit 0 0)
      then none
      else if not (leb pct_bps 10000)
      then none
      else some (round (div (mul fee_usdc (lit pct_bps 0)) (lit 10000 0)) 6)

  -- The tail of `accrue_referral`, behind the fee.
  pub credit_fee : ℕ → String → String → String → String → ℕ → ℕ → Store F → F → Option F × Store F
  credit_fee now fill_id owner buyer_chat token ts pct_bps s fee =
      if fle fee (lit 0 0) then (some (lit 0 0), s) else elim (commission_usdc fee pct_bps) [
        | none ↦ (none, s)
        | some comm ↦
            (some comm, (add_referral_credit now fill_id owner buyer_chat token fee comm ts s).1)
      ]

  -- The commission, `none` where a ValueError is raised, and the store.
  pub accrue_referral :
      (now : ℕ)
      → (fill_id buyer_chat token : String) → F
      → (ts fee_bps pct_bps : ℕ) → Store F
      → Option F × Store F
  unfolding credit_fee
  accrue_referral now fill_id buyer_chat token notional_usdc ts fee_bps pct_bps s =
      if starts_with fill_id "paper"
      then (some (lit 0 0), s)
      else let owner = get_referrer buyer_chat s in
        if not (nonempty owner)
        then (some (lit 0 0), s)
        else elim (fee_from_notional notional_usdc fee_bps) [
          | none ↦ (none, s)
          | some fee ↦ credit_fee now fill_id owner buyer_chat token ts pct_bps s fee
        ]

  abbrev pub holds : String → String → Holding F → Bool
  holds user token h = str_eq h.user user && str_eq h.position.token token

  abbrev pub position_or_empty : String → Option (Holding F) → Position F
  position_or_empty token none = record {
    token = token;
    qty = lit 0 0;
    cost = lit 0 0;
    realized = lit 0 0;
    last_block = 0;
  }
  position_or_empty token (some h) = record h.position { token = token }

  unfoldable pub get_position : String → String → Store F → Position F
  get_position user token s =
      position_or_empty (lower token) (find (holds (lower user) (lower token)) s.positions)

  -- INSERT … ON CONFLICT(user, token) DO UPDATE
  abbrev pub upsert : String → String → Position F → List (Holding F) → List (Holding F)
  upsert user token p [] = record { user = user; position = record p { token = token } } ∷ []
  upsert user token p (h ∷ hs) =
      if holds user token h
      then record { user = user; position = record p { token = token } } ∷ hs
      else h ∷ upsert user token p hs

  abbrev pub has_fill : String → Store F → Bool
  has_fill fill_id s = elim (find (λ (f : Fill F). str_eq f.fill_id fill_id) s.fills) [
    | none ↦ false
    | some f ↦ true
  ]

  -- The part of `record_fill` behind the INSERT of a new fill. An exception of `apply_fill` leaves
  -- the function, and the INSERT stands in the open transaction of the connection.
  pub settle_fill :
      (now : ℕ)
      → (fill_id user token side : String) → (qty usdc : F) → (block ts : ℕ) → Store F
      → Result Bool × Store F
  unfolding accrue_referral
  settle_fill now fill_id user token side qty usdc block ts s =
      elim (apply_fill fl (get_position user token s) side qty usdc block) [
        | raise e ↦ (raise e, s)
        | ok pos ↦
            let s' = record s { positions = upsert (lower user) (lower token) pos s.positions } in
            (ok true, (accrue_referral now fill_id user token usdc ts 100 3000 s').1)
      ]

  pub record_fill :
      (now : ℕ)
      → (fill_id user token side : String) → (qty usdc : F) → (block ts : ℕ) → Store F
      → Result Bool × Store F
  unfolding settle_fill
  record_fill now fill_id user token side qty usdc block ts s =
      if has_fill fill_id s
      then (ok false, s)
      else settle_fill now fill_id user token side qty usdc block ts (record s {
        fills =
            s.fills
            ++ record {
              fill_id = fill_id;
              user = lower user;
              token = lower token;
              side = side;
              qty = qty;
              usdc = usdc;
              block = block;
              ts = ts;
            }
              ∷ [];
      })
