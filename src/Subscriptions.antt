-- ===== src/Subscriptions.antt =====
-- The subscriptions of arc-intel/bot/store.py: the tables `subscribers`, `auto_subs` and
-- `wallet_links`. A column of texts that are joined by commas is the list of the texts: no token,
-- wallet or kind has a comma in it. `now_text` is `str(int(time.time()))`.
pub mod Auto
use Prim.Native.String.{◌++◌ as ◌<>◌, compare}
use Prim.Native.Nat.{Ordering}
use arc_smart_orders.Prelude.{
  ℕ, ◌+◌, Bool, true, false, not, ◌&&◌, ◌||◌, Option, none, some, List, [], ◌∷◌, ◌++◌, String,
  str_eq, lower, nonempty, leb, ◌==◌, select, find, exists, map, length, if◌then◌else◌,
}
use arc_smart_orders.Sql.{update_where, delete_where, count_where}
use arc_smart_orders.State
use arc_smart_orders.State.{set_state, has_key}

abbrev pub max_tokens : ℕ
max_tokens = 30

pub record Subscriber : Type 0 where
  pub chat_id : String
  pub tokens : List String
  pub wallets : List String
  pub kinds : List String
  pub since_block : ℕ

pub record Link : Type 0 where
  pub chat_id : String
  pub address : String
  pub created_ts : ℕ

pub record Subs : Type 0 where
  pub subscribers : List Subscriber
  -- chat and token
  pub auto_subs : List (String × String)
  pub wallet_links : List Link
  pub state : State.Table

abbrev pub member : String → List String → Bool
member t = exists (λ x. str_eq x t)

-- `sorted(xs)`
abbrev pub insert_text : String → List String → List String
insert_text x [] = x ∷ []
insert_text x (y ∷ ys) =
    let rest = insert_text x ys in elim (compare x y) [ Ordering.gt ↦ y ∷ rest | _ ↦ x ∷ y ∷ ys ]

abbrev pub sorted : List String → List String
sorted [] = []
sorted (x ∷ xs) = insert_text x (sorted xs)

-- `set(xs)`
abbrev pub set : List String → List String
set [] = []
set (x ∷ xs) = let rest = set xs in if member x xs then rest else x ∷ rest

abbrev pub without : String → List String → List String
without t = select (λ x. not (str_eq x t))

abbrev pub is_chat : String → Subscriber → Bool
is_chat chat_id r = str_eq r.chat_id chat_id

-- A row as it is read: sets, without the empty texts.
abbrev pub read : Subscriber → Subscriber
read r = record r {
  tokens = without "*" (without "" (set r.tokens));
  wallets = without "" (set r.wallets);
  kinds = without "" (set r.kinds);
}

abbrev pub new_row : String → ℕ → Subscriber
new_row chat_id since_block = record {
  chat_id = chat_id;
  tokens = [];
  wallets = [];
  kinds = [];
  since_block = since_block;
}

abbrev pub set_tokens : String → List String → Subs → Subs
set_tokens chat_id tokens s = record s {
  subscribers = update_where (is_chat chat_id) (λ r. record r { tokens = tokens }) s.subscribers;
}

pub subscribe : String → (tokens wallets kinds : List String) → Subs → Subs
subscribe chat_id tokens wallets kinds s =
    if exists (is_chat chat_id) s.subscribers
    then record s {
      subscribers =
          update_where (is_chat chat_id)
            (λ r. record r { tokens = tokens; wallets = wallets; kinds = kinds }) s.subscribers;
    }
    else record s {
      subscribers =
          s.subscribers
          ++ record (new_row chat_id 0) { tokens = tokens; wallets = wallets; kinds = kinds } ∷ [];
    }

pub list : Subs → List Subscriber
list s = map read s.subscribers

abbrev pub read_row : Option Subscriber → Option Subscriber
read_row none = none
read_row (some r) = some (read r)

unfoldable pub get : String → Subs → Option Subscriber
get chat_id s = read_row (find (is_chat chat_id) s.subscribers)

unfoldable pub ensure_subscriber : String → (since_block : ℕ) → (now_text : String) → Subs → Subs
unfolding set_state
ensure_subscriber chat_id since_block now_text s =
    let key = "joined:" <> chat_id in
    record s {
      subscribers =
          if exists (is_chat chat_id) s.subscribers
          then s.subscribers
          else s.subscribers ++ new_row chat_id since_block ∷ [];
      state = if exists (has_key key) s.state then s.state else set_state key now_text s.state;
    }

-- `a or b` on numbers
abbrev pub or_number : ℕ → ℕ → ℕ
or_number a b = if a == 0 then b else a

-- The part of `add_token` behind the lookup.
unfoldable pub add_found : String → String → ℕ → Bool → Subscriber → Subs → (Bool × String) × Subs
add_found chat_id token now_block allow_over_cap row s =
    let t = lower token in
    if member t row.tokens
    then ((true, "already"), s)
    else if not allow_over_cap && leb max_tokens (length row.tokens)
    then ((false, "limit_30"), s)
    else (
      (true, "added"),
      record s {
        subscribers =
            update_where (is_chat chat_id)
              (λ r. record r {
                tokens = sorted (t ∷ row.tokens);
                since_block = or_number row.since_block now_block;
              })
              s.subscribers;
      },
    )

-- A row that was just made is read as it was written.
unfoldable pub add_token :
    (now_text chat_id token : String)
    → (now_block : ℕ) → (allow_over_cap : Bool) → Subs
    → (Bool × String) × Subs
unfolding get ensure_subscriber add_found
add_token now_text chat_id token now_block allow_over_cap s = elim (get chat_id s) [
  | none ↦
      add_found chat_id token now_block allow_over_cap (new_row chat_id now_block)
        (ensure_subscriber chat_id now_block now_text s)
  | some row ↦ add_found chat_id token now_block allow_over_cap row s
]

-- The part of `remove_token` behind the lookup.
unfoldable pub remove_found : String → String → Option Subscriber → Subs → (Bool × String) × Subs
remove_found chat_id token none s = ((false, "not_subscribed"), s)
remove_found chat_id token (some row) s =
    let t = lower token in
    if not (member t row.tokens)
    then ((false, "not_found"), s)
    else ((true, "removed"), set_tokens chat_id (sorted (without t row.tokens)) s)

unfoldable pub remove_token : String → String → Subs → (Bool × String) × Subs
unfolding get remove_found
remove_token chat_id token s = remove_found chat_id token (get chat_id s) s

pub set_wallet : String → String → String → Subs → Subs
unfolding get ensure_subscriber
set_wallet now_text chat_id wallet s =
    let s' : Subs = elim (get chat_id s) [
      | none ↦ ensure_subscriber chat_id 0 now_text s
      | some row ↦ s
    ] in
    record s' {
      subscribers =
          update_where (is_chat chat_id) (λ r. record r { wallets = lower wallet ∷ [] })
            s'.subscribers;
    }

abbrev pub first_or_empty : List String → String
first_or_empty [] = ""
first_or_empty (x ∷ xs) = x

pub get_wallet : String → Subs → String
unfolding get
get_wallet chat_id s = elim (get chat_id s) [
  | none ↦ ""
  | some row ↦ first_or_empty (sorted row.wallets)
]

pub set_kinds : String → String → List String → Subs → Subs
unfolding get ensure_subscriber
set_kinds now_text chat_id kinds s =
    let s' : Subs = elim (get chat_id s) [
      | none ↦ ensure_subscriber chat_id 0 now_text s
      | some row ↦ s
    ] in
    record s' {
      subscribers =
          update_where (is_chat chat_id) (λ r. record r { kinds = sorted kinds }) s'.subscribers;
    }
