-- ===== src/Processor.antt =====
-- The class EventProcessor of arc-intel/indexer/processor.py. `none` is an exception, which comes
-- before anything is written. `topic_maps` gives a launchpad's name for a topic, `token_resolver` the
-- tokens of a pool, if it was given.
pub mod Replay
pub mod Raises
pub mod Idempotent
pub mod Trades
use Prim.Native.String.{◌++◌ as ◌<>◌}
use arc_smart_orders.Prelude.{
  ℕ, ◌+◌, Bool, true, false, not, ◌&&◌, ◌||◌, Option, none, some, List, [], ◌∷◌, String, str_eq,
  nonempty, lower, ltb, length, if◌then◌else◌, ◌>>=◌,
}
use arc_smart_orders.Prelude.Int.{ℤ, pos}
use arc_smart_orders.Abi.{int_of_hex, topic_address}
use arc_smart_orders.Events.{
  RawEvent, V3Swap, V2Swap, V4Swap, Initialize, Donate, TokenCreated, nth, decode_v3_swap,
  decode_v2_swap, decode_v4_swap, decode_initialize, decode_donate, decode_token_created,
}
use arc_smart_orders.EventStore.{
  Tables, TokenRow, SwapRow, LaunchpadEventRow, TokenTransferRow, PoolV4Row, V4EventRow,
  insert_swap, insert_token, insert_launchpad_event, insert_token_transfer, insert_pool_v4,
  insert_v4_event, get_pool_v4, upsert_wallet,
}

abbrev pub v3_swap_topic0 : String
v3_swap_topic0 = "0xc42079f94a6350d7e6235f29174924f928cc2ac818eb64fed8004e115fbcca67"

abbrev pub v2_swap_topic0 : String
v2_swap_topic0 = "0xd78ad95fa46c994b6551d0da85fc275fe613ce37657fb8d5e3d130840159d822"

abbrev pub v4_swap_topic0 : String
v4_swap_topic0 = "0x40e9cecb9f5f1f1c5b9c97dec2917b7ee92e57ba5563708daca94dd84ad7112f"

abbrev pub transfer_topic0 : String
transfer_topic0 = "0xddf252ad1be2c89b69c2b068fc378daa952ba7f163c4a11628f55a4df523b3ef"

pub record ProcessResult : Type 0 where
  pub swaps : ℕ
  pub tokens : ℕ
  pub launchpad_events : ℕ
  pub pools_v4 : ℕ
  pub transfers : ℕ
  pub duplicates : ℕ
  pub wallets_touched : ℕ

abbrev pub no_result : ProcessResult
no_result = record {
  swaps = 0;
  tokens = 0;
  launchpad_events = 0;
  pools_v4 = 0;
  transfers = 0;
  duplicates = 0;
  wallets_touched = 0;
}

-- `topics[0].lower() if topics else ""`
abbrev pub topic0_of : RawEvent → String
topic0_of ev = lower (nth ev.topics 0)

abbrev pub Resolver : Type 0
Resolver = Option (String → Option (String × String))

-- What `_process_swap` takes from the decoded event.
pub record Parts : Type 0 where
  pub amount_in : Option ℤ
  pub amount_out : Option ℤ
  pub wallet : Option String
  pub pool_id : Option String

abbrev pub v3_parts : Option V3Swap → Parts
v3_parts none = record { amount_in = none; amount_out = none; wallet = none; pool_id = none }
v3_parts (some d) = record {
  amount_in = some d.amount0;
  amount_out = some d.amount1;
  wallet = d.sender;
  pool_id = none;
}

abbrev pub v2_parts : Option V2Swap → Parts
v2_parts none = record { amount_in = none; amount_out = none; wallet = none; pool_id = none }
v2_parts (some d) = record {
  amount_in = some (pos d.amount0_in);
  amount_out = some (pos d.amount0_out);
  wallet = d.sender;
  pool_id = none;
}

abbrev pub v4_parts : Option V4Swap → Parts
v4_parts none = record { amount_in = none; amount_out = none; wallet = none; pool_id = none }
v4_parts (some d) = record {
  amount_in = some d.amount0;
  amount_out = some d.amount1;
  wallet = some d.sender;
  pool_id = some d.pool_id;
}

-- The inner `none` is a topic that is not a swap's.
unfoldable pub swap_parts : RawEvent → Option (Option Parts)
swap_parts ev =
    if str_eq (topic0_of ev) v3_swap_topic0
    then (decode_v3_swap ev >>= λ d. some (some (v3_parts d)))
    else if str_eq (topic0_of ev) v2_swap_topic0
    then (decode_v2_swap ev >>= λ d. some (some (v2_parts d)))
    else if str_eq (topic0_of ev) v4_swap_topic0
    then (decode_v4_swap ev >>= λ d. some (some (v4_parts d)))
    else some none

-- `pool_id or ev.address`
abbrev pub pool_field_of : RawEvent → Option String → String
pool_field_of ev none = ev.address
pool_field_of ev (some pool_id) = if nonempty pool_id then pool_id else ev.address

abbrev pub zero_address : String
zero_address = "0x0000000000000000000000000000000000000000"

abbrev pub traded_token : Option PoolV4Row → Option String
traded_token none = none
traded_token (some p) =
    let c0 = lower p.currency0 in
    some (if nonempty c0 && not (str_eq c0 zero_address) then c0 else lower p.currency1)

abbrev pub token_of_pool : Option String → Tables → Option String
token_of_pool none t = none
token_of_pool (some pool_id) t =
    if nonempty pool_id then traded_token (get_pool_v4 pool_id t) else none

abbrev pub touch : Option String → Option ℕ → Tables → ℕ × Tables
touch none ts t = (0, t)
touch (some wallet) ts t = (1, upsert_wallet wallet ts t)

abbrev pub bare_token : String → Option String → TokenRow
bare_token address pool_id = record {
  address = address;
  symbol = none;
  name = none;
  creator = none;
  launchpad = none;
  created_ts = none;
  pool_id = pool_id;
}

abbrev pub one_for : Bool → ℕ
one_for true = 1
one_for false = 0

abbrev pub insert_pair : RawEvent → Option (String × String) → Tables → ℕ × Tables
insert_pair ev none t = (0, t)
insert_pair ev (some (a, b)) t =
    let (fresh, t1) = insert_token (bare_token a (some ev.address)) t in
    let (fresh', t2) = insert_token (bare_token b (some ev.address)) t1 in
    (one_for fresh + one_for fresh', t2)

-- No pair where the resolver is not given, or the swap is one of version 4.
abbrev pub resolved : Resolver → RawEvent → Option (String × String)
resolved none ev = none
resolved (some f) ev = if str_eq (topic0_of ev) v4_swap_topic0 then none else f ev.address

abbrev pub swap_row : RawEvent → Parts → Tables → SwapRow
swap_row ev d t = record {
  tx_hash = ev.tx_hash;
  log_index = ev.log_index;
  block_number = ev.block_number;
  ts = ev.block_time;
  token = token_of_pool d.pool_id t;
  wallet = d.wallet;
  side = "unknown";
  amount_in = d.amount_in;
  amount_out = d.amount_out;
  price_implied = none;
  dex = ev.dex;
  pool = pool_field_of ev d.pool_id;
}

-- `_process_swap` behind the decoding.
unfoldable pub write_swap : Resolver → RawEvent → Parts → Tables → ProcessResult × Tables
write_swap token_resolver ev d t =
    let (fresh, t1) = insert_swap (swap_row ev d t) t in
    let (touched, t2) = touch d.wallet ev.block_time t1 in
    let (tokens, t3) = insert_pair ev (resolved token_resolver ev) t2 in
    (
      record no_result {
        swaps = one_for fresh;
        duplicates = one_for (not fresh);
        wallets_touched = touched;
        tokens = tokens;
      },
      t3,
    )

abbrev pub write_parts : Resolver → RawEvent → Option Parts → Tables → ProcessResult × Tables
write_parts token_resolver ev none t = (no_result, t)
write_parts token_resolver ev (some d) t = write_swap token_resolver ev d t

unfoldable pub process_swap : Resolver → RawEvent → Tables → Option (ProcessResult × Tables)
process_swap token_resolver ev t = swap_parts ev >>= λ d. some (write_parts token_resolver ev d t)

unfoldable pub write_transfer : RawEvent → ℕ → Tables → ProcessResult × Tables
write_transfer ev value t =
    let (fresh, t1) =
      insert_token_transfer
        (record {
          tx_hash = ev.tx_hash;
          log_index = ev.log_index;
          token = ev.address;
          from_addr = topic_address (nth ev.topics 1);
          to_addr = topic_address (nth ev.topics 2);
          value = value;
          block_number = ev.block_number;
          ts = ev.block_time;
        })
        t in
    (record no_result { transfers = one_for fresh; duplicates = one_for (not fresh) }, t1)

-- `int(ev.data, 16) if ev.data and ev.data != "0x" else 0`
abbrev pub transfer_value : String → Option ℕ
transfer_value text = if nonempty text && not (str_eq text "0x") then int_of_hex text else some 0

unfoldable pub process_transfer : RawEvent → Tables → Option (ProcessResult × Tables)
process_transfer ev t =
    if not (str_eq (topic0_of ev) transfer_topic0) || ltb (length ev.topics) 3
    then some (no_result, t)
    else (transfer_value ev.data_hex >>= λ value. some (write_transfer ev value t))

unfoldable pub write_donate : RawEvent → Option Donate → Tables → ProcessResult × Tables
write_donate ev none t = (no_result, t)
write_donate ev (some d) t =
    let (fresh, t1) =
      insert_v4_event
        (record {
          kind = "Donate";
          tx_hash = ev.tx_hash;
          log_index = ev.log_index;
          pool_id = d.pool_id;
          sender = d.sender;
          amount0 = d.amount0;
          amount1 = d.amount1;
          block_number = ev.block_number;
          ts = ev.block_time;
        })
        t in
    (record no_result { duplicates = one_for (not fresh) }, t1)

unfoldable pub process_v4_donate : RawEvent → Tables → Option (ProcessResult × Tables)
process_v4_donate ev t = decode_donate ev >>= λ d. some (write_donate ev d t)

unfoldable pub write_pool_init : RawEvent → Option Initialize → Tables → ProcessResult × Tables
write_pool_init ev none t = (no_result, t)
write_pool_init ev (some d) t =
    let (fresh, t1) =
      insert_pool_v4
        (record {
          pool_id = d.pool_id;
          currency0 = d.currency0;
          currency1 = d.currency1;
          fee = d.fee;
          tick_spacing = d.tick_spacing;
          hooks = d.hooks;
          sqrt_price_x96 = d.sqrt_price_x96;
          tick = d.tick;
          block_number = ev.block_number;
          ts = ev.block_time;
        })
        t in
    (record no_result { pools_v4 = one_for fresh; duplicates = one_for (not fresh) }, t1)

unfoldable pub process_pool_init : RawEvent → Tables → Option (ProcessResult × Tables)
process_pool_init ev t = decode_initialize ev >>= λ d. some (write_pool_init ev d t)

abbrev pub name_is : Option String → String → Bool
name_is none name = false
name_is (some n) name = str_eq n name

-- The token of an event of a launchpad, before and after its row is written.
abbrev pub created_token : RawEvent → Option TokenCreated → Tables → ℕ × Tables
created_token ev none t = (0, t)
created_token ev (some d) t =
    let (fresh, t1) =
      insert_token
        (record {
          address = d.token;
          symbol = d.symbol;
          name = d.name;
          creator = some d.creator;
          launchpad = ev.launchpad;
          created_ts = ev.block_time;
          pool_id = some d.pool_id;
        })
        t in
    (one_for fresh, t1)

abbrev pub token_named : Option TokenCreated → Option String
token_named none = none
token_named (some d) = some d.token

abbrev pub or_unknown : Option String → String
or_unknown none = "unknown"
or_unknown (some l) = if nonempty l then l else "unknown"

abbrev pub or_empty : Option String → String
or_empty none = ""
or_empty (some l) = l

unfoldable pub write_launchpad :
    RawEvent → Option String → Option String → Tables → ProcessResult × Tables
write_launchpad ev event_name token t =
    let (fresh, t1) =
      insert_launchpad_event
        (record {
          tx_hash = ev.tx_hash;
          log_index = ev.log_index;
          launchpad = or_unknown ev.launchpad;
          event_name = event_name;
          topic0 = topic0_of ev;
          token = token;
          address = ev.address;
          block_number = ev.block_number;
          ts = ev.block_time;
          topics = ev.topics;
          data_hex = ev.data_hex;
        })
        t in
    (record no_result { launchpad_events = one_for fresh; duplicates = one_for (not fresh) }, t1)

unfoldable pub write_created :
    RawEvent → Option String → Option TokenCreated → Tables → ProcessResult × Tables
write_created ev event_name d t =
    let (tokens, t1) = created_token ev d t in
    let (res, t2) = write_launchpad ev event_name (token_named d) t1 in
    (record res { tokens = tokens }, t2)

module _ (text_of_hex : String → Option String) (topic_maps : String → String → Option String)
    (token_resolver : Resolver) where
  unfoldable pub process_launchpad : RawEvent → Tables → Option (ProcessResult × Tables)
  process_launchpad ev t =
      let event_name = topic_maps (or_empty ev.launchpad) (topic0_of ev) in
      if name_is event_name "TokenCreated"
      then some (write_created ev event_name (decode_token_created text_of_hex ev) t)
      else if (name_is event_name "CurveOpened" || name_is event_name "PartsDeployed")
          && ltb 1 (length ev.topics)
      then some (write_launchpad ev event_name (some (topic_address (nth ev.topics 1))) t)
      else some (write_launchpad ev event_name none t)

  unfoldable pub process : RawEvent → Tables → Option (ProcessResult × Tables)
  process ev t =
      if str_eq ev.kind "dex_swap"
      then process_swap token_resolver ev t
      else if str_eq ev.kind "launchpad"
      then process_launchpad ev t
      else if str_eq ev.kind "pool_init"
      then process_pool_init ev t
      else if str_eq ev.kind "token_transfer"
      then process_transfer ev t
      else if str_eq ev.kind "v4_donate"
      then process_v4_donate ev t
      else some (no_result, t)
