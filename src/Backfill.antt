-- ===== src/Backfill.antt =====
-- arc-intel/indexer/backfill.py: fetching the logs of a range of blocks with retries and splits, with
-- the gaps of arc-intel/indexer/storage.py, the search for the launch block, and the runs over
-- chunks with a cursor. The answers of the node are a parameter: `Source` is `source._logs` for one
-- address and one topic, in a world that changes with every call.
pub mod Coverage
pub mod Launch
pub mod Rows
pub mod Runs
use text.Mathlib.Text.{find?}
use arc_smart_orders.Prelude.{
  ℕ, zero, suc, ◌+◌, ◌-◌, ◌*◌, ◌/◌, ◌^◌, Bool, true, false, ◌&&◌, Option, none, some, List, [], ◌∷◌,
  ◌++◌, String, str_eq, lower, ltb, leb, ◌==◌, exists, length, find, select, if◌then◌else◌,
}
use arc_smart_orders.Sql.{delete_where}

abbrev pub rate_limit_hints : List String
rate_limit_hints = "rate limit" ∷ "too many requests" ∷ "429" ∷ "403" ∷ "forbidden" ∷ []

abbrev pub result_limit_hints : List String
result_limit_hints = "max allowed range" ∷ "max results" ∷ "exceeds" ∷ "more than" ∷ []

pub data Kind : Type 0 where
  rate_limit result_limit other : Kind

-- `h in m`
abbrev pub occurs_in : String → String → Bool
occurs_in m h = elim (find? m h) [ none ↦ false | some at ↦ true ]

pub classify_rpc_error : String → Kind
unfolding lower
classify_rpc_error message =
    let m = lower message in
    if exists (occurs_in m) rate_limit_hints
    then rate_limit
    else if exists (occurs_in m) result_limit_hints
    then result_limit
    else other

abbrev pub kind_eq : Kind → Kind → Bool
kind_eq rate_limit rate_limit = true
kind_eq result_limit result_limit = true
kind_eq other other = true
kind_eq _ _ = false

pub record Gap : Type 0 where
  pub job : String
  pub from_block : ℕ
  pub to_block : ℕ
  pub reason : Kind
  pub attempts : ℕ
  pub detected_at : ℕ

-- The primary key.
abbrev pub same_gap : Gap → Gap → Bool
same_gap g h =
    str_eq h.job g.job
    && (h.from_block == g.from_block && (h.to_block == g.to_block && kind_eq h.reason g.reason))

pub insert_gap : Gap → List Gap → Bool × List Gap
insert_gap g gaps = if exists (same_gap g) gaps then (false, gaps) else (true, gaps ++ g ∷ [])

pub record Stats : Type 0 where
  pub retries : ℕ
  pub gaps_result_limit : ℕ
  pub gaps_rate_limit : ℕ
  pub gaps_other : ℕ

-- `stats[f"gaps_{kind}"] += 1`
abbrev pub count_gap : Kind → Stats → Stats
count_gap rate_limit s = record s { gaps_rate_limit = s.gaps_rate_limit + 1 }
count_gap result_limit s = record s { gaps_result_limit = s.gaps_result_limit + 1 }
count_gap other s = record s { gaps_other = s.gaps_other + 1 }

pub data Answer (Log : Type 0) : Type 0 where
  logs : List Log → Answer Log
  failed : (message : String) → Answer Log

pub record Source (Log World : Type 0) : Type 1 where
  pub _logs : (from_block to_block : ℕ) → World → Answer Log × World
  pub clock : World → ℕ
  pub sleep : ℕ → World → World

pub record State (World : Type 0) : Type 0 where
  pub world : World
  pub gaps : List Gap
  pub stats : Stats

abbrev pub min_ℕ : ℕ → ℕ → ℕ
min_ℕ a b = if leb a b then a else b

module _ {Log World : Type 0} (source : Source Log World) where
  -- A range that is given up.
  pub give_up : String → ℕ → ℕ → Kind → ℕ → State World → State World
  unfolding insert_gap
  give_up job a b kind attempts s = record s {
    gaps =
        (insert_gap
          (record {
            job = job;
            from_block = a;
            to_block = b;
            reason = kind;
            attempts = attempts;
            detected_at = source.clock s.world;
          })
          s.gaps).1;
    stats = count_gap kind s.stats;
  }

  -- The retry that follows a failure of another kind.
  pub back_off : ℕ → State World → State World
  back_off attempt s = record s {
    world = source.sleep (min_ℕ 30 (2 ^ attempt)) s.world;
    stats = record s.stats { retries = s.stats.retries + 1 };
  }

  -- `_fetch_topic_logs` in its round number `attempt`, on fuel.
  pub fetch_topic_logs :
      (fuel : ℕ)
      → (a b : ℕ) → String
      → (min_size max_retries attempt : ℕ) → State World
      → Option (List Log × State World)
  unfolding give_up back_off
  fetch_topic_logs zero a b job min_size max_retries attempt s = none
  fetch_topic_logs (suc fuel) a b job min_size max_retries attempt s =
      let (answer, w) = source._logs a b s.world in
      let s' : State World = record s { world = w } in
      elim answer [
        | logs ls ↦ some (ls, s')
        | failed message ↦ elim (classify_rpc_error message) [
          | result_limit ↦ elim (leb (b + 1 - a) min_size) [
            | true ↦ some ([], give_up job a b result_limit (attempt + 1) s')
            | false ↦
                let mid = (a + b) / 2 in
                elim (fetch_topic_logs fuel a mid job min_size max_retries 0 s') [
                  | none ↦ none
                  | some (left, s1) ↦
                      elim (fetch_topic_logs fuel (mid + 1) b job min_size max_retries 0 s1) [
                        | none ↦ none
                        | some (right, s2) ↦ some (left ++ right, s2)
                      ]
                ]
          ]
          | kind ↦ elim (leb max_retries attempt) [
            | true ↦ some ([], give_up job a b kind (attempt + 1) s')
            | false ↦
                fetch_topic_logs fuel a b job min_size max_retries (attempt + 1)
                  (back_off attempt s')
          ]
        ]
      ]

-- The loop of `resolve_launch_block`, on fuel; `timestamp` is the answer for a block.
pub search_block : (timestamp : ℕ → Option ℕ) → (target_ts fuel lo hi : ℕ) → Option ℕ
search_block timestamp target_ts zero lo hi = if ltb lo hi then none else some lo
search_block timestamp target_ts (suc fuel) lo hi = elim (ltb lo hi) [
  | false ↦ some lo
  | true ↦
      let mid = (lo + hi) / 2 in
      elim (timestamp mid) [
        | none ↦ search_block timestamp target_ts fuel lo mid
        | some t ↦ elim (ltb t target_ts) [
          | true ↦ search_block timestamp target_ts fuel (mid + 1) hi
          | false ↦ search_block timestamp target_ts fuel lo mid
        ]
      ]
]

pub resolve_launch_block : (timestamp : ℕ → Option ℕ) → (head target_ts : ℕ) → Option ℕ
unfolding search_block
resolve_launch_block timestamp head target_ts = search_block timestamp target_ts head 0 head
