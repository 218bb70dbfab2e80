-- ===== src/Events/RoundTrip.antt =====
-- An event whose data the ABI encodes is decoded to the values that were encoded.
use Prim.Native.String.{◌++◌ as ◌<>◌}
use arc_smart_orders.Prelude.{
  ℕ, ◌≤◌, ◌<◌, ◌^◌, ◌≡◌, refl, some, List, [], ◌∷◌, String, lower, length, arith, All, len, ltb,
  false,
}
use arc_smart_orders.Prelude.Int.{ℤ, pos}
use arc_smart_orders.Abi.{word, join, topic_address}
use arc_smart_orders.Abi.Words.{IsInt256, int_of_hex-word, int_of_hex-word_pos, len-word}
use arc_smart_orders.Abi.Join.{words-join}
use arc_smart_orders.Events.{RawEvent, nth, decode_v4_swap}

-- A version 4 swap with its three topics, whose data are the words of two amounts and a tick that fit
-- an int256 and of three numbers that fit a uint256, is decoded to exactly these values, with the pool
-- and the sender of its topics.
pub decode_v4_swap-words :
    (e : RawEvent) (amount0 amount1 tick : ℤ) (sqrt_price_x96 liquidity fee : ℕ)
    → 3 ≤ length e.topics
    → IsInt256 amount0
    → IsInt256 amount1
    → IsInt256 tick
    → sqrt_price_x96 < 2 ^ 256
    → liquidity < 2 ^ 256
    → fee < 2 ^ 256
    → e.data_hex
      ≡ "0x"
        <> join (
            word amount0
            ∷ word amount1
            ∷ word (pos sqrt_price_x96)
            ∷ word (pos liquidity)
            ∷ word tick
            ∷ word (pos fee)
            ∷ [])
    → decode_v4_swap e
      ≡ some (
          some (record {
            pool_id = lower (nth e.topics 1);
            sender = topic_address (nth e.topics 2);
            amount0 = amount0;
            amount1 = amount1;
            sqrt_price_x96 = sqrt_price_x96;
            liquidity = liquidity;
            tick = tick;
            fee = fee;
          }))
unfolding decode_v4_swap
decode_v4_swap-words e amount0 amount1 tick price liq fee topics a0 a1 t p l f encoded =
    let ws : List String =
      word amount0
      ∷ word amount1
      ∷ word (pos price)
      ∷ word (pos liq)
      ∷ word tick
      ∷ word (pos fee)
      ∷ [] in
    let long : All (λ w. len w ≡ 64) ws = (
      len-word amount0,
      (
        len-word amount1,
        (len-word (pos price), (len-word (pos liq), (len-word tick, (len-word (pos fee), tt)))),
      ),
    ) in
    let taken = words-join ws long in
    let (v0, r0, s0) = int_of_hex-word amount0 a0 in
    let (v1, r1, s1) = int_of_hex-word amount1 a1 in
    let (v4, r4, s4) = int_of_hex-word tick t in
    let enough : ltb (length e.topics) 3 ≡ false = ground arith in
    rw
      (
        encoded,
        taken,
        enough,
        r0,
        s0,
        r1,
        s1,
        int_of_hex-word_pos price p,
        int_of_hex-word_pos liq l,
        r4,
        s4,
        int_of_hex-word_pos fee f,
      )
      refl
