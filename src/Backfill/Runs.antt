-- ===== src/Backfill/Runs.antt =====
-- The runs of arc-intel/indexer/backfill.py over chunks of blocks, with the cursor and the batch
-- inserts of arc-intel/indexer/storage.py. `node` is the node's log query for the address and
-- a topic, `print` and `read` are `str` and `int` on block numbers. A run answers whether it came
-- to its end or an exception left it; rates and progress lines are left out.
pub mod Stored
pub mod Ends
pub mod Safe
use Prim.Native.String.{◌++◌ as ◌<>◌}
use arc_smart_orders.Prelude.{
  ℕ, zero, suc, ◌+◌, ◌-◌, ◌*◌, ◌/◌, Bool, true, false, ◌&&◌, Option, none, some, List, [], ◌∷◌,
  ◌++◌, String, str_eq, lower, ltb, leb, ◌==◌, find, exists, length, if◌then◌else◌, ◌>>=◌,
}
use arc_smart_orders.Prelude.Int.{ℤ}
use arc_smart_orders.Abi.{int_of_hex}
use arc_smart_orders.Events.{
  RawEvent, Initialize, V4Swap, Donate, ModifyLiquidity, decode_initialize, decode_v4_swap,
  decode_donate, decode_modify_liquidity,
}
use arc_smart_orders.EventStore.{
  Tables, PoolV4Row, SwapRow, V4EventRow, insert_row, insert_pool_v4, insert_swap, insert_v4_event,
}
use arc_smart_orders.Processor.{ProcessResult, Resolver, v4_swap_topic0, process}
use arc_smart_orders.State.{Table, has_key, set_state}
use arc_smart_orders.Backfill.{Gap, Stats, Source, State, min_ℕ, fetch_topic_logs}
use arc_smart_orders.Backfill.Rows.{
  Log, ev, V4LiquidityRow, pool_row, swap_row, donation_row, liquidity_row, gather, batch,
  insert_liquidity, get_meta,
}

abbrev pub v4_initialize_topic0 : String
v4_initialize_topic0 = "0xdd466e674ea557f56295e2d0218a125ea4b4f0f6f3307b95f85e6110838d6438"

abbrev pub v4_modifyliquidity_topic0 : String
v4_modifyliquidity_topic0 = "0xf208f4912782fd25c7f114ca3723a2d5dd6f3bcc3ac8db5af63baa85f711d5ec"

abbrev pub v4_donate_topic0 : String
v4_donate_topic0 = "0x29ef05caaff9404b7cb6d1c0e9bbae9eaa7ab2541feba1a9c4248594c08156cb"

-- The counts of `stats` that a run adds up itself.
pub record Counts : Type 0 where
  pub pools : ℕ
  pub swaps : ℕ
  pub donates : ℕ
  pub liq : ℕ
  pub tokens : ℕ
  pub events : ℕ
  pub blocks : ℕ

pub record Run (World : Type 0) : Type 0 where
  -- the world, the gaps and the counts of retries and gaps
  pub fetching : State World
  pub tables : Tables
  pub v4_liquidity : List V4LiquidityRow
  pub meta : Table
  pub counts : Counts

-- One launchpad of the configuration, with the topics of its map.
pub record Launchpad : Type 0 where
  pub name : String
  pub address : String
  pub topics : List String

-- A loop whose body answers whether it goes on.
abbrev pub next : {S : Type 0} → (S → Bool × S) → Bool × S → Bool × S
next rest (true, s) = rest s
next rest (false, s) = (false, s)

abbrev pub each : {X S : Type 0} → (X → S → Bool × S) → List X → S → Bool × S
each body [] s = (true, s)
each body (x ∷ xs) s = next (each body xs) (body x s)

-- The loops over the logs that were fetched, if they were.
abbrev pub each_found : {X S : Type 0} → (X → S → Bool × S) → Option (List X) → S → Bool × S
each_found body none s = (false, s)
each_found body (some xs) s = each body xs s

abbrev pub gather_from :
    {Row : Type 0} → (Log → Option (Option Row)) → Option (List Log) → Option (List Row)
gather_from row none = none
gather_from row (some logs) = gather row logs

module _ {World : Type 0} (node : (address topic : String) → Source Log World) (print : ℕ → String)
    (read : String → ℕ) (job : String) (min_size max_retries : ℕ) where
  -- Fuel that is enough for the range where `min_size` is at least 1.
  abbrev pub enough : ℕ → ℕ → ℕ
  enough a b = suc ((b - a) * (max_retries + 1) + max_retries)

  -- Where the fuel is spent there are no logs, and the run does not come to its end: the source splits
  -- a single block without end if `min_size` is 0.
  abbrev pub answered : Run World → Option (List Log × State World) → Option (List Log) × Run World
  answered s none = (none, s)
  answered s (some (logs, fetching)) = (some logs, record s { fetching = fetching })

  unfoldable pub fetched :
      (address topic : String) → ℕ → ℕ → Run World → Option (List Log) × Run World
  fetched address topic a b s =
      answered s (
        fetch_topic_logs (node address topic) (enough a b) a b job min_size max_retries 0
          s.fetching)

  -- `storage.set_meta(f"{job}_cursor", str(b))` and the count of blocks
  abbrev pub mark : ℕ → ℕ → Run World → Run World
  mark a b s = record s {
    meta = set_state (job <> "_cursor") (print b) s.meta;
    counts = record s.counts { blocks = s.counts.blocks + (b + 1 - a) };
  }

  -- The three batches of a chunk.
  unfoldable pub write_v4 : List PoolV4Row → List SwapRow → List V4EventRow → Run World → Run World
  write_v4 pools swaps donates s =
      let (p, t₁) = batch insert_pool_v4 pools s.tables in
      let (w, t₂) = batch insert_swap swaps t₁ in
      let (d, t₃) = batch insert_v4_event donates t₂ in
      record s {
        tables = t₃;
        counts = record s.counts {
          pools = s.counts.pools + p;
          swaps = s.counts.swaps + w;
          donates = s.counts.donates + d;
        };
      }

  -- The chunk behind its third, second and first loop over logs.
  abbrev pub with_donates :
      ℕ
      → ℕ
      → List PoolV4Row
      → List SwapRow
      → Option (List V4EventRow)
      → Run World
      → Bool × Run World
  with_donates a b pools swaps none s = (false, s)
  with_donates a b pools swaps (some donates) s = (true, mark a b (write_v4 pools swaps donates s))

  abbrev pub with_swaps :
      String → ℕ → ℕ → List PoolV4Row → Option (List SwapRow) → Run World → Bool × Run World
  with_swaps manager a b pools none s = (false, s)
  with_swaps manager a b pools (some swaps) s =
      let (logs, s₁) = fetched manager v4_donate_topic0 a b s in
      with_donates a b pools swaps (gather_from donation_row logs) s₁

  abbrev pub with_pools : String → ℕ → ℕ → Option (List PoolV4Row) → Run World → Bool × Run World
  with_pools manager a b none s = (false, s)
  with_pools manager a b (some pools) s =
      let (logs, s₁) = fetched manager v4_swap_topic0 a b s in
      with_swaps manager a b pools (gather_from swap_row logs) s₁

  -- `manager` is POOLMANAGER_V4.
  unfoldable pub v4_chunk : (manager : String) → ℕ → ℕ → Run World → Bool × Run World
  v4_chunk manager a b s =
      let (logs, s₁) = fetched manager v4_initialize_topic0 a b s in
      with_pools manager a b (gather_from pool_row logs) s₁

  abbrev pub with_rows : ℕ → ℕ → Option (List V4LiquidityRow) → Run World → Bool × Run World
  with_rows a b none s = (false, s)
  with_rows a b (some rows) s =
      let (n, table) = batch insert_liquidity rows s.v4_liquidity in
      (
        true,
        mark a b (record s {
          v4_liquidity = table;
          counts = record s.counts { liq = s.counts.liq + n };
        }),
      )

  unfoldable pub liquidity_chunk : (manager : String) → ℕ → ℕ → Run World → Bool × Run World
  liquidity_chunk manager a b s =
      let (logs, s₁) = fetched manager v4_modifyliquidity_topic0 a b s in
      with_rows a b (gather_from liquidity_row logs) s₁

  -- `seconds_of` is `int(block * 0.52)`.
  module _ (seconds_of : ℕ → ℕ) (text_of_hex : String → Option String)
      (topic_maps : String → String → Option String) (launchpads : List Launchpad) where
    abbrev pub add_result : Option (ProcessResult × Tables) → Run World → Bool × Run World
    add_result none s = (false, s)
    add_result (some (res, tables)) s = (
      true,
      record s {
        tables = tables;
        counts = record s.counts {
          tokens = s.counts.tokens + res.tokens;
          events = s.counts.events + res.launchpad_events;
        };
      },
    )

    abbrev pub launchpad_event : Log → Launchpad → Option RawEvent
    launchpad_event log lp = do
      block ← int_of_hex log.block_number
      e ← ev log "launchpad" none (some (seconds_of block))
      some (record e { launchpad = some lp.name })

    unfoldable pub process_log : Launchpad → Log → Run World → Bool × Run World
    process_log lp log s =
        add_result (launchpad_event log lp >>= λ e. process text_of_hex topic_maps none e s.tables)
          s

    unfoldable pub process_topic : ℕ → ℕ → Launchpad → String → Run World → Bool × Run World
    process_topic a b lp topic s =
        let (logs, s₁) = fetched lp.address topic a b s in each_found (process_log lp) logs s₁

    unfoldable pub launchpad_chunk : ℕ → ℕ → Run World → Bool × Run World
    launchpad_chunk a b s =
        next (λ s'. (true, mark a b s'))
          (each (λ (lp : Launchpad). each (process_topic a b lp) lp.topics) launchpads s)

  -- `for a in range(cur, end + 1, chunk)`, in so many rounds: it has come to its end if no block is
  -- left then.
  unfoldable pub chunks :
      (work : ℕ → ℕ → Run World → Bool × Run World)
      → (chunk end rounds a : ℕ) → Run World
      → Bool × Run World
  chunks work chunk end zero a s = (ltb end a, s)
  chunks work chunk end (suc rounds) a s =
      let rest = chunks work chunk end rounds (a + chunk) in
      if leb a end then next rest (work a (min_ℕ (a + chunk - 1) end) s) else (true, s)

  abbrev pub resume_at : ℕ → Option String → ℕ
  resume_at start none = start
  resume_at start (some ck) = read ck + 1

  abbrev pub no_counts : Counts
  no_counts = record {
    pools = 0;
    swaps = 0;
    donates = 0;
    liq = 0;
    tokens = 0;
    events = 0;
    blocks = 0;
  }

  abbrev pub fresh_stats : Run World → Run World
  fresh_stats s = record s {
    fetching = record s.fetching {
      stats = record { retries = 0; gaps_result_limit = 0; gaps_rate_limit = 0; gaps_other = 0 };
    };
    counts = no_counts;
  }

  -- What the three runs share: `work` is the body of their loop. A `range` with step 0 raises.
  unfoldable pub backfill_run :
      (work : ℕ → ℕ → Run World → Bool × Run World)
      → (start end chunk : ℕ) → Run World
      → Bool × Run World
  backfill_run work start end chunk s =
      let cur = resume_at start (get_meta (job <> "_cursor") s.meta) in
      if chunk == 0
      then (false, fresh_stats s)
      else chunks work chunk end (end + 1 - cur) cur (fresh_stats s)

  unfoldable pub backfill_v4_run :
      (manager : String) → (start end chunk : ℕ) → Run World → Bool × Run World
  backfill_v4_run manager = backfill_run (v4_chunk manager)

  unfoldable pub backfill_liquidity_run :
      (manager : String) → (start end chunk : ℕ) → Run World → Bool × Run World
  backfill_liquidity_run manager = backfill_run (liquidity_chunk manager)

  unfoldable pub backfill_launchpad_run :
      (seconds_of : ℕ → ℕ)
      → (text_of_hex : String → Option String) → (topic_maps : String → String → Option String)
      → List Launchpad
      → (start end chunk : ℕ) → Run World
      → Bool × Run World
  backfill_launchpad_run seconds_of text_of_hex topic_maps launchpads =
      backfill_run (launchpad_chunk seconds_of text_of_hex topic_maps launchpads)
