-- ===== src/Tests/Backfilling.antt =====
-- The theorems on the runs of the backfill at concrete inputs.
use Prim.Native.String.{◌++◌ as ◌<>◌}
use arc_smart_orders.Prelude.{
  ℕ, ◌+◌, ◌≡◌, ◌⊎◌, refl, subst, ap, true, List, [], ◌∷◌, String, str_eq, lower, ◌==◌, exists, All,
  arith, inl, inr, Bool-cases, if◌then◌else◌,
}
use arc_smart_orders.Prelude.Int.{pos}
use arc_smart_orders.Abi.{word, digits, digit_char, words, int_of_hex}
use arc_smart_orders.Events.{decode_v4_swap}
use arc_smart_orders.Processor.{v4_swap_topic0}
use arc_smart_orders.Processor.Replay.Keys.{swap_key, has}
use arc_smart_orders.Backfill.{Source, Answer, logs, failed}
use arc_smart_orders.Backfill.Coverage.{gap_at}
use arc_smart_orders.Backfill.Rows.{Log, ev, pool_row, swap_row, donation_row}
use arc_smart_orders.Backfill.Runs.{Run, v4_initialize_topic0, v4_donate_topic0, backfill_v4_run}
use arc_smart_orders.Backfill.Runs.Ends.{Readable, reads, backfill_v4_run_ends}
use arc_smart_orders.Backfill.Runs.Safe.{Honest}
use arc_smart_orders.Backfill.Runs.Safe.Cursor.{attempts, backfill_v4_run_covers}
use arc_smart_orders.Tests.Custodial.{strokes, count, count-strokes}

abbrev blank : String
blank = word (pos 0) <> word (pos 0) <> word (pos 0) <> word (pos 0) <> word (pos 0) <> word (pos 0)

-- A swap, of which there is one at every block.
abbrev swapped : Log
swapped = record {
  transaction_hash = "0xAB";
  log_index = "0x3";
  block_number = "0x64";
  address = "0xM";
  topics = v4_swap_topic0 ∷ blank ∷ blank ∷ [];
  data_hex = "0x" <> blank;
}

abbrev chain : String → ℕ → List Log
chain topic n = if str_eq topic v4_swap_topic0 then swapped ∷ [] else []

-- The node answers for single blocks only.
abbrev node : String → String → Source Log ℕ
node address topic = record {
  _logs = λ a b w. (if a == b then logs (chain topic a) else failed "exceeds limit", w + 1);
  clock = λ w. w;
  sleep = λ seconds w. w + seconds;
}

logs_of : Answer Log → List Log
logs_of (logs ls) = ls
logs_of (failed message) = []

answer_is :
    (topic : String) (a b w : ℕ) (ls : List Log)
    → ((node "0xM" topic)._logs a b w).0 ≡ logs ls
    → (a ≡ b) × (chain topic a ≡ ls)
unfolding logs_of
answer_is topic a b w ls e = elim (Bool-cases (a == b)) [
  | inl t ↦ (ground (arith, t), ap logs_of (rw t at e))
  | inr f ↦ absurd (ground (arith, rw f at e))
]

honest : Honest node strokes count "job" 1 6 "0xM" chain
honest topic a b w ls n q e lo hi held =
    let (one, answer) = answer_is topic a b w ls e in
    let same : n ≡ a = omega arith in
    subst (λ l. exists q l ≡ true) answer (subst (λ k. exists q (chain topic k) ≡ true) same held)

init_logs_read : Readable node strokes count "job" 1 6 "0xM" pool_row v4_initialize_topic0
init_logs_read a b w ls e =
    subst (All (λ l. reads (pool_row l) ≡ true)) (answer_is v4_initialize_topic0 a b w ls e).1 tt

swap_logs_read : Readable node strokes count "job" 1 6 "0xM" swap_row v4_swap_topic0
unfolding swap_row ev decode_v4_swap words int_of_hex word digits digit_char lower
swap_logs_read a b w ls e =
    subst (All (λ l. reads (swap_row l) ≡ true)) (answer_is v4_swap_topic0 a b w ls e).1 (refl, tt)

donation_logs_read : Readable node strokes count "job" 1 6 "0xM" donation_row v4_donate_topic0
donation_logs_read a b w ls e =
    subst (All (λ l. reads (donation_row l) ≡ true)) (answer_is v4_donate_topic0 a b w ls e).1 tt

abbrev begin : Run ℕ
begin = record {
  fetching = record {
    world = 0;
    gaps = [];
    stats = record { retries = 0; gaps_result_limit = 0; gaps_rate_limit = 0; gaps_other = 0 };
  };
  tables = record {
    tokens = [];
    swaps = [];
    launchpad_events = [];
    wallets = [];
    pools_v4 = [];
    token_transfers = [];
    v4_events = [];
  };
  v4_liquidity = [];
  meta = [];
  counts = record {
    pools = 0;
    swaps = 0;
    donates = 0;
    liq = 0;
    tokens = 0;
    events = 0;
    blocks = 0;
  };
}

-- The run to block 9 goes on where a run to block 6 has ended.
abbrev earlier : Run ℕ
earlier = attempts node strokes count "job" 1 6 "0xM" chain 5 3 (6 ∷ []) begin

backfill_v4_run_ends_example :
    (backfill_v4_run node strokes count "job" 1 6 "0xM" 5 9 3 earlier).0 ≡ true
backfill_v4_run_ends_example =
    backfill_v4_run_ends node strokes count "job" 1 6 "0xM" 5 9 3 earlier (omega arith)
      (omega arith) init_logs_read swap_logs_read donation_logs_read

backfill_v4_run_covers_example :
    let s' = (backfill_v4_run node strokes count "job" 1 6 "0xM" 5 9 3 earlier).1 in
    (has s'.tables (swap_key (lower "0xAB") 3) ≡ true)
    ⊎ (exists (gap_at "job" 7) s'.fetching.gaps ≡ true)
unfolding swap_row ev decode_v4_swap words int_of_hex word digits digit_char lower
backfill_v4_run_covers_example =
    backfill_v4_run_covers node strokes count "job" 1 6 "0xM" chain 5 3 (6 ∷ []) 9 begin honest
      (omega arith) count-strokes (omega arith) refl backfill_v4_run_ends_example 7
      (swap_key (lower "0xAB") 3) (omega arith) (omega arith) refl
