-- ===== src/Backfill/Runs/Ends.antt =====
-- A run comes to its end where the node's logs can be read.
use Prim.Native.String.{◌++◌ as ◌<>◌}
use arc_smart_orders.Prelude.{
  ℕ, zero, suc, ◌+◌, ◌-◌, ◌/◌, ◌≤◌, ◌<◌, ◌==◌, ◌≡◌, refl, subst, Bool, true, false, Bool-cases,
  Option-cases, inl, inr, Option, none, some, List, [], ◌∷◌, ◌++◌, String, leb, arith, All,
  All-append,
}
use arc_smart_orders.Processor.{v4_swap_topic0}
use arc_smart_orders.Backfill.{
  min_ℕ, logs, Source, State, back_off, fetch_topic_logs, classify_rpc_error,
}
use arc_smart_orders.Backfill.Coverage.{Kind-cases, Answer-cases, fetch_topic_logs_keeps}
use arc_smart_orders.Backfill.Rows.{
  Log, pool_row, swap_row, donation_row, gather, cons_some, get_meta,
}
use arc_smart_orders.Backfill.Runs.{
  Run, v4_initialize_topic0, v4_donate_topic0, enough, fetched, gather_from, next, resume_at,
  fresh_stats, v4_chunk, chunks, backfill_run, backfill_v4_run,
}

module _ {World : Type 0} (source : Source Log World) (P : Log → Type 0) where
  Yields : Option (List Log × State World) → Type 0
  Yields none = Unit
  Yields (some (ls, s)) = All P ls

  split_Yields :
      (left : Option (List Log × State World))
      (right : State World → Option (List Log × State World))
      → Yields left
      → ((s : State World) → Yields (right s))
      → Yields (elim left [
        | none ↦ none
        | some (ls, s1) ↦ elim (right s1) [ none ↦ none | some (rs, s2) ↦ some (ls ++ rs, s2) ]
      ])
  unfolding Yields
  split_Yields none right l r = tt
  split_Yields (some (ls, s1)) right l r = elim (Option-cases (right s1)) [
    | inl e ↦ rw e tt
    | inr ((rs, s2), e) ↦ rw e (All-append P ls rs l (subst Yields e (r s1)))
  ]

  fetch_Yields :
      ((a b : ℕ) (w : World) (ls : List Log) → (source._logs a b w).0 ≡ logs ls → All P ls)
      → (fuel a b : ℕ) (job : String) (min_size max_retries attempt : ℕ) (s : State World)
      → Yields (fetch_topic_logs source fuel a b job min_size max_retries attempt s)
  unfolding fetch_topic_logs Yields back_off
  fetch_Yields good zero a b job min_size max_retries attempt s = tt
  fetch_Yields good (suc fuel) a b job min_size max_retries attempt s =
      let s' : State World = record s { world = (source._logs a b s.world).1 } in
      let again =
        fetch_Yields good fuel a b job min_size max_retries (attempt + 1)
          (back_off source attempt s') in
      elim (Answer-cases ((source._logs a b s.world).0)) [
        | inl (ls, e) ↦ rw (Yields, e) (good a b s.world ls e)
        | inr (message, e) ↦ elim (Kind-cases (classify_rpc_error message)) [
          | inl limit ↦ elim (Bool-cases (leb (b + 1 - a) min_size)) [
            | inl small ↦ rw (Yields, e, limit, small) tt
            | inr large ↦
                let mid = (a + b) / 2 in
                rw (Yields, e, limit, large)
                  (split_Yields _ _ (fetch_Yields good fuel a mid job min_size max_retries 0 s')
                    (λ s1. fetch_Yields good fuel (mid + 1) b job min_size max_retries 0 s1))
          ]
          | inr (inl limit) ↦ elim (Bool-cases (leb max_retries attempt)) [
            | inl spent ↦ rw (Yields, e, limit, spent) tt
            | inr left ↦ rw (Yields, e, limit, left) again
          ]
          | inr (inr limit) ↦ elim (Bool-cases (leb max_retries attempt)) [
            | inl spent ↦ rw (Yields, e, limit, spent) tt
            | inr left ↦ rw (Yields, e, limit, left) again
          ]
        ]
      ]

-- The body of a loop over logs does not raise.
abbrev pub reads : {Row : Type 0} → Option (Option Row) → Bool
reads none = false
reads (some r) = true

gather_total :
    {Row : Type 0} (row : Log → Option (Option Row)) (ls : List Log)
    → All (λ l. reads (row l) ≡ true) ls
    → (rows : List Row) × (gather row ls ≡ some rows)
gather_total row [] h = ([], refl)
gather_total row (l ∷ ls) (h, hs) = elim (Option-cases (row l)) [
  | inl e ↦ absurd (ground (arith, rw e at h))
  | inr (r, e) ↦ let (rows, f) = gather_total row ls hs in (cons_some r rows, rw (e, f) refl)
]

next_goes :
    {S : Type 0} (rest : S → Bool × S) (out : Bool × S)
    → out.0 ≡ true
    → ((s : S) → (rest s).0 ≡ true)
    → (next rest out).0 ≡ true
next_goes rest (true, s) h goes = goes s
next_goes rest (false, s) h goes = h

module _ {World : Type 0} (node : (address topic : String) → Source Log World) (print : ℕ → String)
    (read : String → ℕ) (job : String) (min_size max_retries : ℕ) (manager : String) where
  -- Every log that the node answers for a topic can be read by the loop of the topic.
  abbrev pub Readable : {Row : Type 0} → (Log → Option (Option Row)) → String → Type 0
  Readable row topic =
      (a b : ℕ) (w : World) (ls : List Log)
      → ((node manager topic)._logs a b w).0 ≡ logs ls
      → All (λ l. reads (row l) ≡ true) ls

  fetched_total :
      {Row : Type 0} (row : Log → Option (Option Row)) (topic : String) (a b : ℕ) (s : Run World)
      → Readable row topic
      → 1 ≤ min_size
      → a ≤ b
      → (rows : List Row) × (gather_from row
            (fetched node print read job min_size max_retries manager topic a b s).0
          ≡ some rows)
  unfolding fetched Yields
  fetched_total row topic a b s good pos le =
      let P = λ (l : Log). reads (row l) ≡ true in
      let source = node manager topic in
      let fuel = enough node print read job min_size max_retries a b in
      elim (Option-cases (fetch_topic_logs source fuel a b job min_size max_retries 0 s.fetching)) [
        | inl e ↦
            let (ls, s', ended, keep) =
              fetch_topic_logs_keeps source (λ n. []) fuel a b job min_size max_retries s.fetching
                pos le (omega arith) in
            absurd (ground (arith, rw e at ended))
        | inr ((ls, s'), e) ↦ rw e (
            gather_total row ls (
              subst (Yields source P) e
                (fetch_Yields source P good fuel a b job min_size max_retries 0 s.fetching)))
      ]

  module _ (pools : Readable pool_row v4_initialize_topic0)
      (swaps : Readable swap_row v4_swap_topic0) (donates : Readable donation_row v4_donate_topic0)
      (pos : 1 ≤ min_size) where
    v4_chunk_goes :
        (a b : ℕ) (s : Run World)
        → a ≤ b
        → (v4_chunk node print read job min_size max_retries manager a b s).0 ≡ true
    unfolding v4_chunk
    v4_chunk_goes a b s le =
        let s₁ =
          (fetched node print read job min_size max_retries manager v4_initialize_topic0 a b s).1 in
        let s₂ =
          (fetched node print read job min_size max_retries manager v4_swap_topic0 a b s₁).1 in
        let (ps, e) = fetched_total pool_row v4_initialize_topic0 a b s pools pos le in
        let (ws, f) = fetched_total swap_row v4_swap_topic0 a b s₁ swaps pos le in
        let (ds, g) = fetched_total donation_row v4_donate_topic0 a b s₂ donates pos le in
        rw (e, f, g) refl

    chunks_go :
        (chunk end rounds a : ℕ) (s : Run World)
        → 1 ≤ chunk
        → end < a + rounds
        → (chunks node print read job min_size max_retries
            (v4_chunk node print read job min_size max_retries manager)
            chunk
            end
            rounds
            a
            s).0
          ≡ true
    unfolding chunks
    chunks_go chunk end zero a s moves fuel = ground arith
    chunks_go chunk end (suc rounds) a s moves fuel = elim (Bool-cases (leb a end)) [
      | inr over ↦ rw over refl
      | inl under ↦ rw under (
          next_goes _ _ (v4_chunk_goes a (min_ℕ (a + chunk - 1) end) s (ground arith))
            (λ s'. chunks_go chunk end rounds (a + chunk) s' moves (omega arith)))
    ]

  pub backfill_v4_run_ends :
      (start end chunk : ℕ) (s : Run World)
      → 1 ≤ min_size
      → 1 ≤ chunk
      → Readable pool_row v4_initialize_topic0
      → Readable swap_row v4_swap_topic0
      → Readable donation_row v4_donate_topic0
      → (backfill_v4_run node print read job min_size max_retries manager start end chunk s).0
        ≡ true
  unfolding backfill_v4_run backfill_run
  backfill_v4_run_ends start end chunk s pos moves pools swaps donates =
      let cur =
        resume_at node print read job min_size max_retries start
          (get_meta (job <> "_cursor") s.meta) in
      let steps : (chunk == 0) ≡ false = ground arith in
      rw steps (
        chunks_go pools swaps donates pos chunk end (end + 1 - cur) cur
          (fresh_stats node print read job min_size max_retries s) moves (omega arith))
