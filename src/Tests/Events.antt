-- ===== src/Tests/Events.antt =====
-- The theorems on words, calldata and events at concrete inputs.
use Prim.Native.String.{◌++◌ as ◌<>◌}
use arc_smart_orders.Prelude.{
  ◌+◌, ◌≡◌, refl, inl, none, some, Option, List, [], ◌∷◌, String, lower, map, from, arith,
}
use arc_smart_orders.Prelude.Int.{pos, negsuc}
use arc_smart_orders.Abi.{addr, word, words, join, topic_address}
use arc_smart_orders.Abi.Words.{read_int}
use arc_smart_orders.Calldata.{b32, calldata_authorize_session}
use arc_smart_orders.Calldata.Arguments.{calldata_authorize_session-words}
use arc_smart_orders.Events.{RawEvent, decode_v4_swap}
use arc_smart_orders.Events.RoundTrip.{decode_v4_swap-words}
use arc_smart_orders.EventStore.{Tables, insert_row, insert_token_transfer}
use arc_smart_orders.Processor.{
  ProcessResult, Parts, process, process_transfer, write_transfer, swap_parts, v4_swap_topic0,
  transfer_topic0,
}
use arc_smart_orders.Processor.Idempotent.{process_all, process_all_again}
use arc_smart_orders.Processor.Replay.Keys.{rows_of}
use arc_smart_orders.Processor.Trades.{trades, duplicate_counts_trade}

abbrev key : String
key = "0x00000000000000000000000000000000000000aA"

abbrev pool : String
pool = "0x1111111111111111111111111111111111111111111111111111111111111111"

calldata_authorize_session-words_example :
    let call = calldata_authorize_session key pool key (pos 5) (pos 50) (pos 0) (pos 1900000000) in
    let numbers = word (pos 5) ∷ word (pos 50) ∷ word (pos 0) ∷ word (pos 1900000000) ∷ [] in
    (words ("0x" <> from 10 call) ≡ addr key ∷ b32 pool ∷ addr key ∷ numbers)
    × (map read_int numbers
        ≡ some (pos 5) ∷ some (pos 50) ∷ some (pos 0) ∷ some (pos 1900000000) ∷ [])
unfolding lower
calldata_authorize_session-words_example =
    calldata_authorize_session-words key pool key (pos 5) (pos 50) (pos 0) (pos 1900000000)
      (omega arith) (omega arith) (omega arith) (omega arith) (omega arith) (omega arith)
      (omega arith)

abbrev raw : String → List String → String → RawEvent
raw kind topics data_hex = record {
  kind = kind;
  tx_hash = "0xAB";
  log_index = 3;
  block_number = 100;
  block_time = some 1000;
  address = "0xP";
  topics = topics;
  data_hex = data_hex;
  dex = none;
  launchpad = none;
}

abbrev swapped : RawEvent
swapped = raw "dex_swap" (v4_swap_topic0 ∷ pool ∷ key ∷ []) (
    "0x"
    <> join (
        word (pos 7)
        ∷ word (negsuc 8)
        ∷ word (pos 11)
        ∷ word (pos 12)
        ∷ word (negsuc 3)
        ∷ word (pos 3000)
        ∷ []))

decode_v4_swap-words_example :
    decode_v4_swap swapped
    ≡ some (
        some (record {
          pool_id = lower pool;
          sender = topic_address key;
          amount0 = pos 7;
          amount1 = negsuc 8;
          sqrt_price_x96 = 11;
          liquidity = 12;
          tick = negsuc 3;
          fee = 3000;
        }))
decode_v4_swap-words_example =
    decode_v4_swap-words swapped (pos 7) (negsuc 8) (negsuc 3) 11 12 3000 (omega arith)
      (omega arith) (omega arith) (omega arith) (omega arith) (omega arith) (omega arith) refl

abbrev no_rows : Tables
no_rows = record {
  tokens = [];
  swaps = [];
  launchpad_events = [];
  wallets = [];
  pools_v4 = [];
  token_transfers = [];
  v4_events = [];
}

abbrev moved : RawEvent
moved = raw "token_transfer" (transfer_topic0 ∷ key ∷ key ∷ []) "0x"

abbrev one_row : Tables
one_row = record no_rows {
  token_transfers =
      record {
        tx_hash = lower "0xAB";
        log_index = 3;
        token = lower "0xP";
        from_addr = lower (topic_address key);
        to_addr = lower (topic_address key);
        value = 0;
        block_number = 100;
        ts = some 1000;
      }
      ∷ [];
}

abbrev no_text : String → Option String
no_text digits = none

abbrev no_topics : String → String → Option String
no_topics launchpad topic = none

process_all_again_example :
    (t2 : Tables) × (process_all no_text no_topics none (moved ∷ moved ∷ []) one_row ≡ some t2)
    × (rows_of t2 ≡ rows_of one_row)
unfolding process process_transfer write_transfer insert_token_transfer insert_row lower
process_all_again_example =
    process_all_again no_text no_topics none (moved ∷ moved ∷ []) (moved ∷ []) no_rows one_row
      (inl refl, (inl refl, tt)) refl

abbrev swap_data : Parts
swap_data = record {
  amount_in = some (pos 7);
  amount_out = some (negsuc 8);
  wallet = some (topic_address key);
  pool_id = some (lower pool);
}

abbrev one_swap : Tables
one_swap = record no_rows {
  swaps =
      record {
        tx_hash = lower "0xAB";
        log_index = 3;
        block_number = 100;
        ts = some 1000;
        token = none;
        wallet = none;
        side = "unknown";
        amount_in = none;
        amount_out = none;
        price_implied = none;
        dex = none;
        pool = pool;
      }
      ∷ [];
}

duplicate_counts_trade_example :
    (out : ProcessResult × Tables) × (process no_text no_topics none swapped one_swap ≡ some out)
    × (out.0.swaps ≡ 0)
    × (out.0.duplicates ≡ 1)
    × (out.1.swaps ≡ one_swap.swaps)
    × (trades (topic_address key) out.1.wallets ≡ trades (topic_address key) one_swap.wallets + 1)
unfolding swap_parts lower
duplicate_counts_trade_example =
    duplicate_counts_trade no_text no_topics none swapped swap_data (topic_address key) one_swap
      refl (rw decode_v4_swap-words_example refl) refl refl
