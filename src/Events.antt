-- ===== src/Events.antt =====
-- The events and rows of arc-intel/indexer/models.py, and their decoding in
-- arc-intel/indexer/processor.py. An outer `none` is an exception, an inner one the empty dictionary.
-- An amount stands for its decimal text. `text_of_hex` is `bytes.fromhex`, `decode` with replacement
-- and the removal of NUL: `none` where the digits are no bytes.
pub mod RoundTrip
use Prim.Native.String.{◌++◌ as ◌<>◌}
use arc_smart_orders.Prelude.{
  ℕ, zero, suc, ◌+◌, ◌*◌, ◌/◌, Bool, Option, none, some, List, [], ◌∷◌, String, lower, ltb, length,
  take, drop, up_to, if◌then◌else◌, ◌>>=◌,
}
use arc_smart_orders.Prelude.Int.{ℤ}
use arc_smart_orders.Abi.{int_of_hex, words, to_signed, topic_address, join}

pub record RawEvent : Type 0 where
  pub kind : String
  pub tx_hash : String
  pub log_index : ℕ
  pub block_number : ℕ
  pub block_time : Option ℕ
  pub address : String
  pub topics : List String
  pub data_hex : String
  pub dex : Option String
  pub launchpad : Option String

-- `l[i]` behind a check of the length.
abbrev pub nth : List String → ℕ → String
nth [] i = ""
nth (x ∷ xs) zero = x
nth (x ∷ xs) (suc i) = nth xs i

-- `topics[i]` in lower form, if there is one.
abbrev pub address_at : List String → ℕ → Option String
address_at topics i = if ltb i (length topics) then some (topic_address (nth topics i)) else none

abbrev pub nat_at : List String → ℕ → Option ℕ
nat_at w i = int_of_hex (nth w i)

abbrev pub signed_256 : ℕ → ℤ
signed_256 v = to_signed v 256

abbrev pub int_at : List String → ℕ → Option ℤ
int_at w i = int_of_hex (nth w i) >>= λ v. some (signed_256 v)

pub record V3Swap : Type 0 where
  pub amount0 : ℤ
  pub amount1 : ℤ
  pub sqrt_price_x96 : ℕ
  pub liquidity : ℕ
  pub tick : ℤ
  pub sender : Option String
  pub recipient : Option String

pub record V2Swap : Type 0 where
  pub amount0_in : ℕ
  pub amount1_in : ℕ
  pub amount0_out : ℕ
  pub amount1_out : ℕ
  pub sender : Option String

pub record V4Swap : Type 0 where
  pub pool_id : String
  pub sender : String
  pub amount0 : ℤ
  pub amount1 : ℤ
  pub sqrt_price_x96 : ℕ
  pub liquidity : ℕ
  pub tick : ℤ
  pub fee : ℕ

pub record Initialize : Type 0 where
  pub pool_id : String
  pub currency0 : String
  pub currency1 : String
  pub fee : ℕ
  pub tick_spacing : ℤ
  pub hooks : String
  pub sqrt_price_x96 : ℕ
  pub tick : ℤ

pub record Donate : Type 0 where
  pub pool_id : String
  pub sender : String
  pub amount0 : ℕ
  pub amount1 : ℕ

pub record ModifyLiquidity : Type 0 where
  pub pool_id : String
  pub sender : String
  pub tick_lower : ℤ
  pub tick_upper : ℤ
  pub liquidity_delta : ℤ
  pub salt : String

pub record TokenCreated : Type 0 where
  pub token : String
  pub creator : String
  pub name : Option String
  pub symbol : Option String
  pub pool_id : String
  pub image_uri : Option String
  pub website : Option String
  pub twitter : Option String
  pub telegram : Option String

unfoldable pub decode_v3_swap : RawEvent → Option (Option V3Swap)
decode_v3_swap log =
    let w = words log.data_hex in
    if ltb (length w) 5 then some none else (do
      a0 ← int_at w 0
      a1 ← int_at w 1
      price ← nat_at w 2
      liq ← nat_at w 3
      t ← int_at w 4
      some (
          some (record {
            amount0 = a0;
            amount1 = a1;
            sqrt_price_x96 = price;
            liquidity = liq;
            tick = t;
            sender = address_at log.topics 1;
            recipient = address_at log.topics 2;
          })))

unfoldable pub decode_v2_swap : RawEvent → Option (Option V2Swap)
decode_v2_swap log =
    let w = words log.data_hex in
    if ltb (length w) 4 then some none else (do
      in0 ← nat_at w 0
      in1 ← nat_at w 1
      out0 ← nat_at w 2
      out1 ← nat_at w 3
      some (
          some (record {
            amount0_in = in0;
            amount1_in = in1;
            amount0_out = out0;
            amount1_out = out1;
            sender = address_at log.topics 1;
          })))

unfoldable pub decode_v4_swap : RawEvent → Option (Option V4Swap)
decode_v4_swap log =
    let w = words log.data_hex in
    if ltb (length log.topics) 3 then some none else if ltb (length w) 6 then some none else (do
      a0 ← int_at w 0
      a1 ← int_at w 1
      price ← nat_at w 2
      liq ← nat_at w 3
      t ← int_at w 4
      f ← nat_at w 5
      some (
          some (record {
            pool_id = lower (nth log.topics 1);
            sender = topic_address (nth log.topics 2);
            amount0 = a0;
            amount1 = a1;
            sqrt_price_x96 = price;
            liquidity = liq;
            tick = t;
            fee = f;
          })))

unfoldable pub decode_initialize : RawEvent → Option (Option Initialize)
decode_initialize log =
    let w = words log.data_hex in
    if ltb (length log.topics) 4 then some none else if ltb (length w) 5 then some none else (do
      f ← nat_at w 0
      spacing ← int_at w 1
      price ← nat_at w 3
      t ← int_at w 4
      some (
          some (record {
            pool_id = lower (nth log.topics 1);
            currency0 = topic_address (nth log.topics 2);
            currency1 = topic_address (nth log.topics 3);
            fee = f;
            tick_spacing = spacing;
            hooks = topic_address (nth w 2);
            sqrt_price_x96 = price;
            tick = t;
          })))

unfoldable pub decode_donate : RawEvent → Option (Option Donate)
decode_donate log =
    let w = words log.data_hex in
    if ltb (length log.topics) 3 then some none else if ltb (length w) 2 then some none else (do
      a0 ← nat_at w 0
      a1 ← nat_at w 1
      some (
          some (record {
            pool_id = lower (nth log.topics 1);
            sender = topic_address (nth log.topics 2);
            amount0 = a0;
            amount1 = a1;
          })))

unfoldable pub decode_modify_liquidity : RawEvent → Option (Option ModifyLiquidity)
decode_modify_liquidity log =
    let w = words log.data_hex in
    if ltb (length log.topics) 3 then some none else if ltb (length w) 4 then some none else (do
      low ← int_at w 0
      high ← int_at w 1
      delta ← int_at w 2
      some (
          some (record {
            pool_id = lower (nth log.topics 1);
            sender = topic_address (nth log.topics 2);
            tick_lower = low;
            tick_upper = high;
            liquidity_delta = delta;
            salt = "0x" <> nth w 3;
          })))

module _ (text_of_hex : String → Option String) where
  abbrev pub body_at : List String → ℕ → Option String
  body_at ws offset =
      if ltb offset (length ws)
      then (do
        size ← nat_at ws offset
        text_of_hex (up_to (size * 2) (join (take ((size + 31) / 32) (drop (offset + 1) ws)))))
      else none

  -- The string at a slot of the head; every failure is `none`.
  pub abi_string : List String → ℕ → Option String
  abi_string ws slot =
      if ltb slot (length ws) then (nat_at ws slot >>= λ at. body_at ws (at / 32)) else none

  unfoldable pub decode_token_created : RawEvent → Option TokenCreated
  decode_token_created log =
      let w = words log.data_hex in
      if ltb (length log.topics) 3
      then none
      else if ltb (length w) 7
      then none
      else some (record {
        token = topic_address (nth log.topics 1);
        creator = topic_address (nth log.topics 2);
        name = abi_string w 0;
        symbol = abi_string w 1;
        pool_id = "0x" <> nth w 2;
        image_uri = abi_string w 3;
        website = abi_string w 4;
        twitter = abi_string w 5;
        telegram = abi_string w 6;
      })
