-- ===== src/Orders.antt =====
-- The table `preorders` of arc-intel/bot/store.py and every statement that touches it. REAL columns
-- hold a `Real`, on which no statement computes.
pub mod Lookup
pub mod Claim
pub mod Valid
pub mod Due
pub mod Reached
pub mod Cancel
pub mod Sample
use arc_smart_orders.Prelude.{
  ℕ, ◌+◌, Bool, true, false, not, ◌&&◌, ◌||◌, Option, none, some, List, [], ◌∷◌, ◌++◌, String,
  str_eq, lower, nonempty, ltb, ◌==◌, select, find, take,
}
use mathlib.Core.List.{reverse}
use arc_smart_orders.Sql.{update_where, count_where}

-- The values that the program writes to the column `status`.
pub data Status : Type 0 where
  armed signed submitting executed cancelled no_position : Status

abbrev pub status_eq : Status → Status → Bool
status_eq armed armed = true
status_eq signed signed = true
status_eq submitting submitting = true
status_eq executed executed = true
status_eq cancelled cancelled = true
status_eq no_position no_position = true
status_eq _ _ = false

pub record Preorder (Real : Type 0) : Type 0 where
  pub id : ℕ
  pub chat : String
  pub user : String
  pub token : String
  pub pct : Real
  pub floor_pct : Real
  pub min_out : Real
  pub deadline : ℕ
  pub order_nonce : ℕ
  pub status : Status
  pub created_ts : ℕ
  pub signature : Option String
  pub sign_token : String
  pub sig_payload : Option String
  pub kind : Option String
  pub tx_hash : Option String
  pub attempts : Option ℕ

-- `next_id` is the AUTOINCREMENT counter.
pub record Table (Real : Type 0) : Type 0 where
  pub rows : List (Preorder Real)
  pub next_id : ℕ

-- `coalesce(x, d)`
abbrev pub coalesce : {A : Type 0} → Option A → A → A
coalesce none d = d
coalesce (some a) d = a

abbrev pub is_live : Status → Bool
is_live armed = true
is_live signed = true
is_live submitting = true
is_live _ = false

module _ {Real : Type 0} where
  abbrev pub has_id : ℕ → Preorder Real → Bool
  has_id pid r = r.id == pid

  -- `UPDATE preorders SET f WHERE p`
  abbrev pub update :
      (Preorder Real → Bool) → (Preorder Real → Preorder Real) → Table Real → Table Real
  update p f t = record t { rows = update_where p f t.rows }

  -- `kw`: `created_ts` is resolved by the caller, `sign_token` is `secrets.token_urlsafe(16)`.
  pub create_preorder :
      String
      → String
      → String
      → String
      → Real
      → Real
      → Real
      → ℕ
      → ℕ
      → Status
      → ℕ
      → String
      → Table Real
      → ℕ × Table Real
  create_preorder sign_token chat user token pct floor_pct min_out deadline order_nonce status
        created_ts kind t =
      (
        t.next_id,
        record {
          rows =
              t.rows
              ++ record {
                id = t.next_id;
                chat = chat;
                user = lower user;
                token = lower token;
                pct = pct;
                floor_pct = floor_pct;
                min_out = min_out;
                deadline = deadline;
                order_nonce = order_nonce;
                status = status;
                created_ts = created_ts;
                signature = none;
                sign_token = sign_token;
                sig_payload = none;
                kind = some kind;
                tx_hash = none;
                attempts = some 0;
              }
                ∷ [];
          next_id = t.next_id + 1;
        },
      )

  pub get_preorder : ℕ → Table Real → Option (Preorder Real)
  get_preorder pid t = find (has_id pid) t.rows

  pub get_preorder_by_sign_token : String → Table Real → Option (Preorder Real)
  get_preorder_by_sign_token sign_token t = find (λ r. str_eq r.sign_token sign_token) t.rows

  pub save_sig_payload : ℕ → String → Table Real → Table Real
  save_sig_payload pid payload = update (has_id pid) (λ r. record r { sig_payload = some payload })

  pub attach_signature : ℕ → String → Table Real → Table Real
  attach_signature pid sig =
      update (has_id pid) (λ r. record r { signature = some sig; status = signed })

  pub preorders_for_token : String → Bool → Table Real → List (Preorder Real)
  preorders_for_token token active_only t =
      select
        (λ r.
          str_eq r.token (lower token)
          && (not active_only
              || (status_eq r.status armed && str_eq (coalesce r.kind "sell") "sell")))
        t.rows

  -- `ORDER BY id DESC`: the rows stand in the order of their numbers.
  pub list_preorders : String → Bool → Table Real → List (Preorder Real)
  list_preorders chat active_only t =
      reverse
        (select (λ r. str_eq r.chat chat && (not active_only || status_eq r.status armed)) t.rows)

  pub set_preorder_status : ℕ → Status → Table Real → Table Real
  set_preorder_status pid s = update (has_id pid) (λ r. record r { status = s })

  abbrev pub status_allows : Option Status → Preorder Real → Bool
  status_allows none r = true
  status_allows (some s) r = status_eq r.status s

  -- An empty `kind` and no `status` filter nothing.
  pub list_orders : String → Option Status → ℕ → Table Real → List (Preorder Real)
  list_orders kind status limit t =
      let fits = λ (r : Preorder Real).
        (not (nonempty kind) || str_eq (coalesce r.kind "sell") kind) && status_allows status r in
      take limit (reverse (select fits t.rows))

  -- The `WHERE` of `orders_due` and `armed_orders`.
  pub waits_in : Status → String → ℕ → Preorder Real → Bool
  waits_in s kind now r =
      str_eq (coalesce r.kind "sell") kind && (status_eq r.status s && ltb now r.deadline)

  pub orders_due : String → ℕ → ℕ → Table Real → List (Preorder Real)
  unfolding waits_in
  orders_due kind now limit t = take limit (select (waits_in signed kind now) t.rows)

  unfoldable pub armed_orders : String → ℕ → ℕ → Table Real → List (Preorder Real)
  unfolding waits_in
  armed_orders kind now limit t = take limit (select (waits_in armed kind now) t.rows)

  abbrev pub claimable : ℕ → Preorder Real → Bool
  claimable pid r = has_id pid r && status_eq r.status signed

  pub claim_order : ℕ → Table Real → Bool × Table Real
  claim_order pid t = (
    ltb 0 (count_where (claimable pid) t.rows),
    update (claimable pid) (λ r. record r { status = submitting }) t,
  )

  pub mark_executed : ℕ → String → Table Real → Table Real
  mark_executed pid tx =
      update (has_id pid) (λ r. record r { status = executed; tx_hash = some tx })

  pub bump_attempt : ℕ → Table Real → Table Real
  bump_attempt pid =
      update (has_id pid) (λ r. record r { attempts = some (coalesce r.attempts 0 + 1) })

  -- The owner is the chat as stored or the wallet.
  abbrev pub cancellable : ℕ → String → Preorder Real → Bool
  cancellable pid u r = has_id pid r && ((str_eq r.chat u || str_eq r.user u) && is_live r.status)

  pub cancel_preorder : ℕ → String → Table Real → Bool × Table Real
  cancel_preorder pid user t =
      let u = lower user in
      (
        ltb 0 (count_where (cancellable pid u) t.rows),
        update (cancellable pid u) (λ r. record r { status = cancelled }) t,
      )
