-- ===== src/Backfill/Rows.antt =====
-- The rows that the runs of arc-intel/indexer/backfill.py make of logs, and the batch inserts of
-- arc-intel/indexer/storage.py.
use arc_smart_orders.Prelude.{
  ℕ, suc, Bool, ◌&&◌, Option, none, some, List, [], ◌∷◌, String, str_eq, lower, ◌==◌, find,
  if◌then◌else◌, ◌>>=◌,
}
use arc_smart_orders.Prelude.Int.{ℤ}
use arc_smart_orders.Abi.{int_of_hex}
use arc_smart_orders.Events.{
  RawEvent, Initialize, V4Swap, Donate, ModifyLiquidity, decode_initialize, decode_v4_swap,
  decode_donate, decode_modify_liquidity,
}
use arc_smart_orders.EventStore.{PoolV4Row, SwapRow, V4EventRow, insert_row}
use arc_smart_orders.State.{Table, has_key}

-- A log as the node gives it.
pub record Log : Type 0 where
  pub transaction_hash : String
  pub log_index : String
  pub block_number : String
  pub address : String
  pub topics : List String
  pub data_hex : String

-- `none` is a number that cannot be read.
unfoldable pub ev :
    Log → (kind : String) → (dex : Option String) → (with_ts : Option ℕ) → Option RawEvent
ev log kind dex with_ts = do
  index ← int_of_hex log.log_index
  block ← int_of_hex log.block_number
  some (record {
    kind = kind;
    tx_hash = log.transaction_hash;
    log_index = index;
    block_number = block;
    block_time = with_ts;
    address = lower log.address;
    topics = log.topics;
    data_hex = log.data_hex;
    dex = dex;
    launchpad = none;
  })

pub record V4LiquidityRow : Type 0 where
  pub tx_hash : String
  pub log_index : ℕ
  pub pool_id : String
  pub sender : String
  pub tick_lower : ℤ
  pub tick_upper : ℤ
  pub liquidity_delta : ℤ
  pub salt : String
  pub block_number : ℕ
  pub ts : Option ℕ

-- The row of a decoded event, if there is one.
abbrev pub pool_of : RawEvent → Option Initialize → Option PoolV4Row
pool_of e none = none
pool_of e (some d) = some (record {
  pool_id = d.pool_id;
  currency0 = d.currency0;
  currency1 = d.currency1;
  fee = d.fee;
  tick_spacing = d.tick_spacing;
  hooks = d.hooks;
  sqrt_price_x96 = d.sqrt_price_x96;
  tick = d.tick;
  block_number = e.block_number;
  ts = none;
})

abbrev pub swap_of : RawEvent → Option V4Swap → Option SwapRow
swap_of e none = none
swap_of e (some d) = some (record {
  tx_hash = e.tx_hash;
  log_index = e.log_index;
  block_number = e.block_number;
  ts = none;
  token = none;
  wallet = some d.sender;
  side = "unknown";
  amount_in = some d.amount0;
  amount_out = some d.amount1;
  price_implied = none;
  dex = some "uniswap_v4";
  pool = d.pool_id;
})

abbrev pub donation_of : RawEvent → Option Donate → Option V4EventRow
donation_of e none = none
donation_of e (some d) = some (record {
  kind = "Donate";
  tx_hash = e.tx_hash;
  log_index = e.log_index;
  pool_id = d.pool_id;
  sender = d.sender;
  amount0 = d.amount0;
  amount1 = d.amount1;
  block_number = e.block_number;
  ts = none;
})

abbrev pub liquidity_of : RawEvent → Option ModifyLiquidity → Option V4LiquidityRow
liquidity_of e none = none
liquidity_of e (some d) = some (record {
  tx_hash = e.tx_hash;
  log_index = e.log_index;
  pool_id = d.pool_id;
  sender = d.sender;
  tick_lower = d.tick_lower;
  tick_upper = d.tick_upper;
  liquidity_delta = d.liquidity_delta;
  salt = d.salt;
  block_number = e.block_number;
  ts = none;
})

-- The body of a loop over logs: an exception, nothing, or a row.
unfoldable pub pool_row : Log → Option (Option PoolV4Row)
pool_row log = do e ← ev log "pool_init" none none; d ← decode_initialize e; some (pool_of e d)

unfoldable pub swap_row : Log → Option (Option SwapRow)
swap_row log = do
  e ← ev log "dex_swap" (some "uniswap_v4") none
  d ← decode_v4_swap e
  some (swap_of e d)

unfoldable pub donation_row : Log → Option (Option V4EventRow)
donation_row log = do e ← ev log "v4_donate" none none; d ← decode_donate e; some (donation_of e d)

unfoldable pub liquidity_row : Log → Option (Option V4LiquidityRow)
liquidity_row log = do
  e ← ev log "v4_liq" none none
  d ← decode_modify_liquidity e
  some (liquidity_of e d)

abbrev pub cons_some : {Row : Type 0} → Option Row → List Row → List Row
cons_some none rows = rows
cons_some (some r) rows = r ∷ rows

abbrev pub gather : {Row : Type 0} → (Log → Option (Option Row)) → List Log → Option (List Row)
gather row [] = some []
gather row (log ∷ logs) = row log >>= λ r. gather row logs >>= λ rows. some (cons_some r rows)

-- `_batch`: the number of rows that are new, and the tables.
unfoldable pub batch : {Row T : Type 0} → (Row → T → Bool × T) → List Row → T → ℕ × T
batch insert [] t = (0, t)
batch insert (r ∷ rows) t =
    let (fresh, t₁) = insert r t in
    let (n, t₂) = batch insert rows t₁ in (if fresh then suc n else n, t₂)

abbrev pub liquidity_is : String → ℕ → V4LiquidityRow → Bool
liquidity_is tx i r = str_eq r.tx_hash tx && r.log_index == i

abbrev pub insert_liquidity : V4LiquidityRow → List V4LiquidityRow → Bool × List V4LiquidityRow
insert_liquidity r rows =
    insert_row (liquidity_is (lower r.tx_hash) r.log_index) (record r { tx_hash = lower r.tx_hash })
      rows

abbrev pub get_meta : String → Table → Option String
get_meta key meta = elim (find (has_key key) meta) [ none ↦ none | some (k, value) ↦ some value ]
