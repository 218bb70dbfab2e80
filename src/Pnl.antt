-- ===== src/Pnl.antt =====
-- arc-intel/indexer/pnl.py: legs from swaps, average-cost accounting per wallet and token, to the
-- closed trades. A swap's missing column is "" or 0, as the code reads it. `lit m k` is the float of
-- `m / 10 ** k`.
pub mod Ledger
use Prim.Native.Nat.{◌^◌}
use Prim.Native.String.{compare}
use arc_smart_orders.Float.{Float}
use arc_smart_orders.Prelude.{
  ℕ, zero, suc, ◌+◌, ◌-◌, ◌*◌, ◌/◌, Bool, true, false, not, ◌&&◌, ◌||◌, Option, none, some, List,
  [], ◌∷◌, ◌++◌, map, String, str_eq, lower, nonempty, ltb, leb, ◌==◌, select, find, exists, length,
  if◌then◌else◌,
}
use arc_smart_orders.TokenMeta.{decimals, is_usd_stable}
use arc_smart_orders.Prelude.Int.{ℤ, pos, negsuc, neg_part, pos_part}

-- A row of `swaps`; amounts are what `_int` reads.
pub record Swap : Type 0 where
  pub wallet : String
  pub pool : String
  pub block_number : ℕ
  pub log_index : ℕ
  pub amount_in : ℤ
  pub amount_out : ℤ

pub data Side : Type 0 where
  buy sell : Side

pub record Leg (F : Type 0) : Type 0 where
  pub wallet : String
  pub token : String
  pub pool : String
  pub block : ℕ
  pub log_index : ℕ
  pub side : Side
  pub token_qty : F
  pub stable_value : F

pub record ClosedTrade (F : Type 0) : Type 0 where
  pub wallet : String
  pub token : String
  pub qty : F
  pub cost : F
  pub proceeds : F
  pub realized : F
  pub exit_multiple : F
  pub entry_block : ℕ
  pub exit_block : ℕ

-- The currencies of a pool, by its id in lower case.
abbrev pub Pools : Type 0
Pools = List (String × String × String)

module _ (fl : Float) (dec_meta : List (String × ℕ)) (stables : List String) where
  open fl use {F, lit}

  -- The part of `leg_from_swap` behind the choice of the stable side.
  pub valued : Swap → String → ℤ → String → ℤ → ℕ → Option (Leg F)
  valued swap pool stable_amt tok tok_amt dec_s =
      if is_usd_stable stables tok then none else elim stable_amt [
        | pos zero ↦ none
        | pos (suc s) ↦ elim tok_amt [
          | pos t ↦ none
          | negsuc t ↦ some (record {
            wallet = lower swap.wallet;
            token = tok;
            pool = pool;
            block = swap.block_number;
            log_index = swap.log_index;
            side = buy;
            token_qty = lit (suc t) (decimals dec_meta tok);
            stable_value = lit (suc s) dec_s;
          })
        ]
        | negsuc s ↦ elim tok_amt [
          | pos zero ↦ none
          | pos (suc t) ↦ some (record {
            wallet = lower swap.wallet;
            token = tok;
            pool = pool;
            block = swap.block_number;
            log_index = swap.log_index;
            side = sell;
            token_qty = lit (suc t) (decimals dec_meta tok);
            stable_value = lit (suc s) dec_s;
          })
          | negsuc t ↦ none
        ]
      ]

  pub leg_from_swap : Pools → Swap → Option (Leg F)
  unfolding valued
  leg_from_swap pools swap =
      let pool = lower swap.pool in
      elim (find (λ (p : String × String × String). str_eq p.0 pool) pools) [
        | none ↦ none
        | some (id, a, b) ↦
            let c0 = lower a in
            let c1 = lower b in
            if is_usd_stable stables c0
            then valued swap pool swap.amount_in c1 swap.amount_out (decimals dec_meta c0)
            else if is_usd_stable stables c1
            then valued swap pool swap.amount_out c0 swap.amount_in (decimals dec_meta c1)
            else none
      ]

  -- The legs, and the number of swaps that are skipped.
  pub reconstruct_legs : Pools → List Swap → List (Leg F) × ℕ
  unfolding leg_from_swap
  reconstruct_legs pools [] = ([], 0)
  reconstruct_legs pools (s ∷ rest) =
      let (legs, skipped) = reconstruct_legs pools rest in
      elim (leg_from_swap pools s) [ none ↦ (legs, skipped + 1) | some leg ↦ (leg ∷ legs, skipped) ]

abbrev pub add_key : String × String → List (String × String) → List (String × String)
add_key (w, t) keys =
    if exists (λ (k : String × String). str_eq k.0 w && str_eq k.1 t) keys
    then keys
    else keys ++ (w, t) ∷ []

-- `sort(key=(block, log_index))`, which is stable.
module _ {F : Type 0} where
  abbrev pub before : Leg F → Leg F → Bool
  before a b = ltb a.block b.block || (a.block == b.block && leb a.log_index b.log_index)

  abbrev pub insert_leg : Leg F → List (Leg F) → List (Leg F)
  insert_leg a [] = a ∷ []
  insert_leg a (b ∷ bs) = let rest = insert_leg a bs in if before a b then a ∷ b ∷ bs else b ∷ rest

  abbrev pub sort_legs : List (Leg F) → List (Leg F)
  sort_legs [] = []
  sort_legs (a ∷ rest) = insert_leg a (sort_legs rest)

  -- `groups`: the keys in the order in which they first come.
  abbrev pub same_group : String × String → Leg F → Bool
  same_group (w, t) l = str_eq l.wallet w && str_eq l.token t

  abbrev pub group_keys : List (String × String) → List (Leg F) → List (String × String)
  group_keys keys [] = keys
  group_keys keys (l ∷ legs) = group_keys (add_key (l.wallet, l.token) keys) legs

-- The running values of the loop over one group.
pub record Book (F : Type 0) : Type 0 where
  pub qty : F
  pub cost : F
  pub entry_block : Option ℕ
  pub out : List (ClosedTrade F)

abbrev pub entry_or : Option ℕ → ℕ → ℕ
entry_or none block = block
entry_or (some b) block = if b == 0 then block else b

module _ (fl : Float) where
  open fl use {F, lit, add, sub, mul, div, flt, fle}

  abbrev pub min_of : F → F → F
  min_of a b = if flt b a then b else a

  abbrev pub empty_book : List (ClosedTrade F) → Book F
  empty_book out = record { qty = lit 0 0; cost = lit 0 0; entry_block = none; out = out }

  -- The branch of a sale with something held.
  unfoldable pub close : String → String → Leg F → Book F → Book F
  close w t l b =
      let sell_qty = min_of l.token_qty b.qty in
      let proceeds = mul l.stable_value (div sell_qty l.token_qty) in
      let cogs = mul (div b.cost b.qty) sell_qty in
      let trade : ClosedTrade F = record {
        wallet = w;
        token = t;
        qty = sell_qty;
        cost = cogs;
        proceeds = proceeds;
        realized = sub proceeds cogs;
        exit_multiple = if flt (lit 0 0) cogs then div proceeds cogs else lit 0 0;
        entry_block = entry_or b.entry_block l.block;
        exit_block = l.block;
      } in
      let qty = sub b.qty sell_qty in
      let done = fle qty (lit 1 18) in
      record {
        qty = if done then lit 0 0 else qty;
        cost = if done then lit 0 0 else sub b.cost cogs;
        entry_block = if done then none else b.entry_block;
        out = b.out ++ trade ∷ [];
      }

  unfoldable pub trade_leg : String → String → Leg F → Book F → Book F
  unfolding close
  trade_leg w t l b = elim l.side [
    | buy ↦ record b {
      qty = add b.qty l.token_qty;
      cost = add b.cost l.stable_value;
      entry_block = elim b.entry_block [ none ↦ some l.block | some first ↦ some first ];
    }
    | sell ↦ if fle b.qty (lit 0 0) then b else close w t l b
  ]

  pub trade_legs : String → String → List (Leg F) → Book F → Book F
  unfolding trade_leg
  trade_legs w t [] b = b
  trade_legs w t (l ∷ legs) b = trade_legs w t legs (trade_leg w t l b)

  pub trade_groups :
      List (Leg F) → List (String × String) → List (ClosedTrade F) → List (ClosedTrade F)
  unfolding trade_legs
  trade_groups legs [] out = out
  trade_groups legs ((w, t) ∷ keys) out =
      trade_groups legs keys
        (trade_legs w t (sort_legs (select (same_group (w, t)) legs)) (empty_book out)).out

  pub closed_trades : List (Leg F) → List (ClosedTrade F)
  unfolding trade_groups
  closed_trades legs = trade_groups legs (group_keys [] legs) []
