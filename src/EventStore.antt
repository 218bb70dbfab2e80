-- ===== src/EventStore.antt =====
-- The tables of arc-intel/indexer/storage.py that the event processor writes, in the order of their
-- rows. A method answers with its result and the tables. Amounts stand for their decimal texts.
use arc_smart_orders.Prelude.{
  ℕ, ◌+◌, Bool, true, false, ◌&&◌, Option, List, [], ◌∷◌, ◌++◌, String, str_eq, lower, ◌==◌, exists,
  find, if◌then◌else◌,
}
use arc_smart_orders.Prelude.Int.{ℤ}
use arc_smart_orders.Sql.{update_where}

pub record TokenRow : Type 0 where
  pub address : String
  pub symbol : Option String
  pub name : Option String
  pub creator : Option String
  pub launchpad : Option String
  pub created_ts : Option ℕ
  pub pool_id : Option String

pub record SwapRow : Type 0 where
  pub tx_hash : String
  pub log_index : ℕ
  pub block_number : ℕ
  pub ts : Option ℕ
  pub token : Option String
  pub wallet : Option String
  pub side : String
  pub amount_in : Option ℤ
  pub amount_out : Option ℤ
  pub price_implied : Option String
  pub dex : Option String
  pub pool : String

pub record LaunchpadEventRow : Type 0 where
  pub tx_hash : String
  pub log_index : ℕ
  pub launchpad : String
  pub event_name : Option String
  pub topic0 : String
  pub token : Option String
  pub address : String
  pub block_number : ℕ
  pub ts : Option ℕ
  pub topics : List String
  pub data_hex : String

pub record TokenTransferRow : Type 0 where
  pub tx_hash : String
  pub log_index : ℕ
  pub token : String
  pub from_addr : String
  pub to_addr : String
  pub value : ℕ
  pub block_number : ℕ
  pub ts : Option ℕ

pub record PoolV4Row : Type 0 where
  pub pool_id : String
  pub currency0 : String
  pub currency1 : String
  pub fee : ℕ
  pub tick_spacing : ℤ
  pub hooks : String
  pub sqrt_price_x96 : ℕ
  pub tick : ℤ
  pub block_number : ℕ
  pub ts : Option ℕ

pub record V4EventRow : Type 0 where
  pub kind : String
  pub tx_hash : String
  pub log_index : ℕ
  pub pool_id : String
  pub sender : String
  pub amount0 : ℕ
  pub amount1 : ℕ
  pub block_number : ℕ
  pub ts : Option ℕ

pub record WalletRow : Type 0 where
  pub address : String
  pub first_seen_ts : Option ℕ
  pub trade_count : ℕ

pub record Tables : Type 0 where
  pub tokens : List TokenRow
  pub swaps : List SwapRow
  pub launchpad_events : List LaunchpadEventRow
  pub wallets : List WalletRow
  pub pools_v4 : List PoolV4Row
  pub token_transfers : List TokenTransferRow
  pub v4_events : List V4EventRow

-- INSERT OR IGNORE, where `same` says that a row has the primary key of the new one; the answer is
-- `cur.rowcount > 0`.
unfoldable pub insert_row {ℓ} : {A : Type ℓ} → (A → Bool) → A → List A → Bool × List A
insert_row same row rows = if exists same rows then (false, rows) else (true, rows ++ row ∷ [])

-- The primary keys.
abbrev pub swap_is : String → ℕ → SwapRow → Bool
swap_is tx i r = str_eq r.tx_hash tx && r.log_index == i

abbrev pub launchpad_is : String → ℕ → LaunchpadEventRow → Bool
launchpad_is tx i r = str_eq r.tx_hash tx && r.log_index == i

abbrev pub transfer_is : String → ℕ → TokenTransferRow → Bool
transfer_is tx i r = str_eq r.tx_hash tx && r.log_index == i

abbrev pub v4_event_is : String → ℕ → V4EventRow → Bool
v4_event_is tx i r = str_eq r.tx_hash tx && r.log_index == i

abbrev pub token_is : String → TokenRow → Bool
token_is address r = str_eq r.address address

abbrev pub pool_is : String → PoolV4Row → Bool
pool_is pool_id r = str_eq r.pool_id pool_id

abbrev pub wallet_is : String → WalletRow → Bool
wallet_is address r = str_eq r.address address

unfoldable pub insert_swap : SwapRow → Tables → Bool × Tables
insert_swap r t =
    let (fresh, rows) =
      insert_row (swap_is (lower r.tx_hash) r.log_index) (record r { tx_hash = lower r.tx_hash })
        t.swaps in
    (fresh, record t { swaps = rows })

unfoldable pub insert_token : TokenRow → Tables → Bool × Tables
insert_token r t =
    let (fresh, rows) =
      insert_row (token_is (lower r.address)) (record r { address = lower r.address }) t.tokens in
    (fresh, record t { tokens = rows })

unfoldable pub insert_launchpad_event : LaunchpadEventRow → Tables → Bool × Tables
insert_launchpad_event r t =
    let (fresh, rows) =
      insert_row (launchpad_is (lower r.tx_hash) r.log_index)
        (record r { tx_hash = lower r.tx_hash; address = lower r.address }) t.launchpad_events in
    (fresh, record t { launchpad_events = rows })

unfoldable pub insert_token_transfer : TokenTransferRow → Tables → Bool × Tables
insert_token_transfer r t =
    let (fresh, rows) =
      insert_row (transfer_is (lower r.tx_hash) r.log_index)
        (record r {
          tx_hash = lower r.tx_hash;
          token = lower r.token;
          from_addr = lower r.from_addr;
          to_addr = lower r.to_addr;
        })
        t.token_transfers in
    (fresh, record t { token_transfers = rows })

unfoldable pub insert_pool_v4 : PoolV4Row → Tables → Bool × Tables
insert_pool_v4 r t =
    let (fresh, rows) =
      insert_row (pool_is (lower r.pool_id)) (record r { pool_id = lower r.pool_id }) t.pools_v4 in
    (fresh, record t { pools_v4 = rows })

unfoldable pub insert_v4_event : V4EventRow → Tables → Bool × Tables
insert_v4_event r t =
    let (fresh, rows) =
      insert_row (v4_event_is (lower r.tx_hash) r.log_index)
        (record r { tx_hash = lower r.tx_hash }) t.v4_events in
    (fresh, record t { v4_events = rows })

pub get_pool_v4 : String → Tables → Option PoolV4Row
get_pool_v4 pool_id t = find (pool_is (lower pool_id)) t.pools_v4

-- INSERT … ON CONFLICT(address) DO UPDATE, with the default `trade_delta` of 1.
unfoldable pub upsert_wallet : String → Option ℕ → Tables → Tables
upsert_wallet address ts t = record t {
  wallets =
      if exists (wallet_is (lower address)) t.wallets
      then update_where (wallet_is (lower address))
          (λ w. record w { trade_count = w.trade_count + 1 }) t.wallets
      else t.wallets
        ++ record { address = lower address; first_seen_ts = ts; trade_count = 1 } ∷ [];
}
