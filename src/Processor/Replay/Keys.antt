-- ===== src/Processor/Replay/Keys.antt =====
-- The primary keys of the event store's tables. A table that keeps its rows keeps the keys.
use arc_smart_orders.Prelude.{ℕ, ◌≡◌, Bool, true, List, [], String, exists}
use arc_smart_orders.EventStore.{
  Tables, TokenRow, SwapRow, LaunchpadEventRow, TokenTransferRow, PoolV4Row, V4EventRow, swap_is,
  token_is, launchpad_is, transfer_is, pool_is, v4_event_is,
}

pub data Key : Type 0 where
  swap_key launchpad_key transfer_key v4_event_key : String → ℕ → Key
  token_key pool_key : String → Key

abbrev pub has : Tables → Key → Bool
has t (swap_key tx i) = exists (swap_is tx i) t.swaps
has t (launchpad_key tx i) = exists (launchpad_is tx i) t.launchpad_events
has t (transfer_key tx i) = exists (transfer_is tx i) t.token_transfers
has t (v4_event_key tx i) = exists (v4_event_is tx i) t.v4_events
has t (token_key address) = exists (token_is address) t.tokens
has t (pool_key pool_id) = exists (pool_is pool_id) t.pools_v4

-- All tables but the one of wallets.
abbrev pub rows_of : Tables → Tables
rows_of t = record t { wallets = [] }

pub grow_swaps :
    (t : Tables) (rows : List SwapRow)
    → ((q : SwapRow → Bool) → exists q t.swaps ≡ true → exists q rows ≡ true)
    → (k : Key) → has t k ≡ true
    → has (record t { swaps = rows }) k ≡ true
grow_swaps t rows keep (swap_key tx i) h = keep (swap_is tx i) h
grow_swaps t rows keep (launchpad_key tx i) h = h
grow_swaps t rows keep (transfer_key tx i) h = h
grow_swaps t rows keep (v4_event_key tx i) h = h
grow_swaps t rows keep (token_key a) h = h
grow_swaps t rows keep (pool_key a) h = h

pub grow_launchpad_events :
    (t : Tables) (rows : List LaunchpadEventRow)
    → ((q : LaunchpadEventRow → Bool) → exists q t.launchpad_events ≡ true → exists q rows ≡ true)
    → (k : Key) → has t k ≡ true
    → has (record t { launchpad_events = rows }) k ≡ true
grow_launchpad_events t rows keep (swap_key tx i) h = h
grow_launchpad_events t rows keep (launchpad_key tx i) h = keep (launchpad_is tx i) h
grow_launchpad_events t rows keep (transfer_key tx i) h = h
grow_launchpad_events t rows keep (v4_event_key tx i) h = h
grow_launchpad_events t rows keep (token_key a) h = h
grow_launchpad_events t rows keep (pool_key a) h = h

pub grow_token_transfers :
    (t : Tables) (rows : List TokenTransferRow)
    → ((q : TokenTransferRow → Bool) → exists q t.token_transfers ≡ true → exists q rows ≡ true)
    → (k : Key) → has t k ≡ true
    → has (record t { token_transfers = rows }) k ≡ true
grow_token_transfers t rows keep (swap_key tx i) h = h
grow_token_transfers t rows keep (launchpad_key tx i) h = h
grow_token_transfers t rows keep (transfer_key tx i) h = keep (transfer_is tx i) h
grow_token_transfers t rows keep (v4_event_key tx i) h = h
grow_token_transfers t rows keep (token_key a) h = h
grow_token_transfers t rows keep (pool_key a) h = h

pub grow_v4_events :
    (t : Tables) (rows : List V4EventRow)
    → ((q : V4EventRow → Bool) → exists q t.v4_events ≡ true → exists q rows ≡ true)
    → (k : Key) → has t k ≡ true
    → has (record t { v4_events = rows }) k ≡ true
grow_v4_events t rows keep (swap_key tx i) h = h
grow_v4_events t rows keep (launchpad_key tx i) h = h
grow_v4_events t rows keep (transfer_key tx i) h = h
grow_v4_events t rows keep (v4_event_key tx i) h = keep (v4_event_is tx i) h
grow_v4_events t rows keep (token_key a) h = h
grow_v4_events t rows keep (pool_key a) h = h

pub grow_tokens :
    (t : Tables) (rows : List TokenRow)
    → ((q : TokenRow → Bool) → exists q t.tokens ≡ true → exists q rows ≡ true)
    → (k : Key) → has t k ≡ true
    → has (record t { tokens = rows }) k ≡ true
grow_tokens t rows keep (swap_key tx i) h = h
grow_tokens t rows keep (launchpad_key tx i) h = h
grow_tokens t rows keep (transfer_key tx i) h = h
grow_tokens t rows keep (v4_event_key tx i) h = h
grow_tokens t rows keep (token_key a) h = keep (token_is a) h
grow_tokens t rows keep (pool_key a) h = h

pub grow_pools_v4 :
    (t : Tables) (rows : List PoolV4Row)
    → ((q : PoolV4Row → Bool) → exists q t.pools_v4 ≡ true → exists q rows ≡ true)
    → (k : Key) → has t k ≡ true
    → has (record t { pools_v4 = rows }) k ≡ true
grow_pools_v4 t rows keep (swap_key tx i) h = h
grow_pools_v4 t rows keep (launchpad_key tx i) h = h
grow_pools_v4 t rows keep (transfer_key tx i) h = h
grow_pools_v4 t rows keep (v4_event_key tx i) h = h
grow_pools_v4 t rows keep (token_key a) h = h
grow_pools_v4 t rows keep (pool_key a) h = keep (pool_is a) h
