-- ===== src/Backfill/Runs/Safe.antt =====
-- What a run leaves behind, whether it comes to its end or not.
pub mod Cursor
use Prim.Native.String.{◌++◌ as ◌<>◌}
use arc_smart_orders.Prelude.{
  ℕ, suc, ◌+◌, ◌-◌, ◌*◌, ◌≤◌, ◌<◌, ◌≡◌, ◌⊎◌, refl, sym, subst, ap, ◌∙◌, Bool, true, false,
  Bool-cases, Option-cases, inl, inr, Option, none, some, List, [], ◌∷◌, String, exists, arith,
}
use arc_smart_orders.Events.{RawEvent}
use arc_smart_orders.EventStore.{
  Tables, PoolV4Row, SwapRow, V4EventRow, insert_pool_v4, insert_swap, insert_v4_event,
}
use arc_smart_orders.Processor.{v4_swap_topic0}
use arc_smart_orders.Processor.Replay.Keys.{Key, swap_key, pool_key, v4_event_key, has}
use arc_smart_orders.State.{Table, set_state}
use arc_smart_orders.Backfill.{Answer, logs, Source, State, fetch_topic_logs}
use arc_smart_orders.Backfill.Coverage.{gap_at, fetch_topic_logs_covers, fetch_topic_logs_keeps}
use arc_smart_orders.Backfill.Rows.{Log, pool_row, swap_row, donation_row, gather, batch}
use arc_smart_orders.Backfill.Runs.{
  Run, v4_initialize_topic0, v4_donate_topic0, enough, answered, gather_from, fetched, mark,
  write_v4, with_donates, with_swaps, with_pools, v4_chunk,
}
use arc_smart_orders.Backfill.Runs.Stored.{
  is_row, pool_wanted, swap_wanted, donation_wanted, gather-exists, Inserts, batch-grows,
  batch-stores, pool-Inserts, swap-Inserts, donation-Inserts,
}

module _ {World : Type 0} (node : (address topic : String) → Source Log World) (print : ℕ → String)
    (read : String → ℕ) (job : String) (min_size max_retries : ℕ) (manager : String)
    (chain : (topic : String) → ℕ → List Log) where
  -- What the node answers for a range holds what the chain has at each of its blocks.
  abbrev pub Honest : Type 0
  Honest =
      (topic : String) (a b : ℕ) (w : World) (ls : List Log) (n : ℕ) (q : Log → Bool)
      → ((node manager topic)._logs a b w).0 ≡ logs ls
      → a ≤ n
      → n ≤ b
      → exists q (chain topic n) ≡ true
      → exists q ls ≡ true

  abbrev pub Gapped : ℕ → Run World → Type 0
  Gapped n s = exists (gap_at job n) s.fetching.gaps ≡ true

  -- No key is lost and no gap.
  pub record Grows (s s' : Run World) : Type 0 where
    pub keys : (k : Key) → has s.tables k ≡ true → has s'.tables k ≡ true
    pub gaps : (n : ℕ) → Gapped n s → Gapped n s'

  pub Grows-trans : (s t u : Run World) → Grows s t → Grows t u → Grows s u
  Grows-trans s t u g h = record {
    keys = λ k e. h.keys k (g.keys k e);
    gaps = λ n e. h.gaps n (g.gaps n e);
  }

  -- What the chain has at the block for a key is stored, or the block is in a gap.
  abbrev pub Held :
      {Row : Type 0}
      → (Log → Option (Option Row))
      → String
      → (Row → Bool)
      → Key
      → ℕ
      → Run World
      → Type 0
  Held row topic p k n s =
      exists (λ l. is_row p (row l)) (chain topic n) ≡ true → (has s.tables k ≡ true) ⊎ Gapped n s

  -- So for every pool, swap and donation of the block.
  pub record Covers (n : ℕ) (s : Run World) : Type 0 where
    pub pools :
        (id : String) → Held pool_row v4_initialize_topic0 (pool_wanted id) (pool_key id) n s
    pub swaps :
        (tx : String) (i : ℕ) → Held swap_row v4_swap_topic0 (swap_wanted tx i) (swap_key tx i) n s
    pub donates :
        (tx : String) (i : ℕ)
        → Held donation_row v4_donate_topic0 (donation_wanted tx i) (v4_event_key tx i) n s

  Held-Grows :
      (k : Key) (n : ℕ) (s s' : Run World)
      → Grows s s'
      → (has s.tables k ≡ true) ⊎ Gapped n s
      → (has s'.tables k ≡ true) ⊎ Gapped n s'
  Held-Grows k n s s' g (inl h) = inl (g.keys k h)
  Held-Grows k n s s' g (inr h) = inr (g.gaps n h)

  pub Covers-Grows : (n : ℕ) (s s' : Run World) → Grows s s' → Covers n s → Covers n s'
  Covers-Grows n s s' g c = record {
    pools = λ id e. Held-Grows (pool_key id) n s s' g (c.pools id e);
    swaps = λ tx i e. Held-Grows (swap_key tx i) n s s' g (c.swaps tx i e);
    donates = λ tx i e. Held-Grows (v4_event_key tx i) n s s' g (c.donates tx i e);
  }

  -- What the chain has of a kind at the blocks is among the rows, or the block is in a gap.
  Ready :
      {Row : Type 0} → (Log → Option (Option Row)) → String → ℕ → ℕ → List Row → Run World → Type 0
  Ready {Row} row topic a b rows s =
      (p : Row → Bool) (n : ℕ)
      → a ≤ n
      → n ≤ b
      → exists (λ l. is_row p (row l)) (chain topic n) ≡ true
      → (exists p rows ≡ true) ⊎ Gapped n s

  Ready-Grows :
      {Row : Type 0} (row : Log → Option (Option Row)) (topic : String) (a b : ℕ) (rows : List Row)
      (s s' : Run World)
      → Grows s s'
      → Ready row topic a b rows s
      → Ready row topic a b rows s'
  unfolding Ready
  Ready-Grows row topic a b rows s s' g r p n lo hi e = elim (r p n lo hi e) [
    | inl h ↦ inl h
    | inr h ↦ inr (g.gaps n h)
  ]

  -- The tables and the cursor are as before.
  record Fetches (a b : ℕ) (topic : String) (s : Run World) (out : Option (List Log) × Run World)
      : Type 0 where
    grows : Grows s out.1
    meta_kept : out.1.meta ≡ s.meta
    found :
        (ls : List Log) (q : Log → Bool) (n : ℕ)
        → out.0 ≡ some ls
        → a ≤ n
        → n ≤ b
        → exists q (chain topic n) ≡ true
        → (exists q ls ≡ true) ⊎ Gapped n out.1

  fetched-Fetches :
      (a b : ℕ) (topic : String) (s : Run World)
      → Honest
      → 1 ≤ min_size
      → a ≤ b
      → Fetches a b topic s (fetched node print read job min_size max_retries manager topic a b s)
  unfolding fetched
  fetched-Fetches a b topic s honest pos le =
      let source = node manager topic in
      let fuel = enough node print read job min_size max_retries a b in
      let (ls, s', e, keep) =
        fetch_topic_logs_keeps source (chain topic) fuel a b job min_size max_retries s.fetching pos
          le (omega arith) in
      rw e (record {
        grows = record { keys = λ k h. h; gaps = keep };
        meta_kept = refl;
        found = λ l q n at lo hi h.
            let (ls', s'', e', held) =
              fetch_topic_logs_covers source (chain topic) (honest topic) fuel a b job min_size
                max_retries s.fetching n q pos (omega arith) lo hi h in
            let same : (ls', s'') ≡ (ls, s') = cc in
            let all : ls ≡ l = ground (arith, at) in
            subst (λ k. (exists q k ≡ true) ⊎ (exists (gap_at job n) s'.gaps ≡ true)) all
              (subst
                (λ (o : List Log × State World).
                  (exists q o.0 ≡ true) ⊎ (exists (gap_at job n) o.1.gaps ≡ true))
                same held);
      })

  module _ (a b : ℕ) (pools : List PoolV4Row) (swaps : List SwapRow) (donates : List V4EventRow)
      (s : Run World) where
    -- The state behind the three batches.
    written : Run World
    written = write_v4 node print read job min_size max_retries pools swaps donates s

    write_v4-Grows : Grows s written
    unfolding written write_v4
    write_v4-Grows = record {
      keys = λ k h. batch-grows (donation-Inserts "" 0) donates _ k (
          batch-grows (swap-Inserts "" 0) swaps _ k
            (batch-grows (pool-Inserts "") pools s.tables k h));
      gaps = λ n h. h;
    }

    stored_or_Gapped :
        (k : Key) (n : ℕ) (found : Bool)
        → (found ≡ true → has written.tables k ≡ true)
        → (found ≡ true) ⊎ Gapped n s
        → (has written.tables k ≡ true) ⊎ Gapped n written
    stored_or_Gapped k n found store (inl h) = inl (store h)
    stored_or_Gapped k n found store (inr h) = inr (write_v4-Grows.gaps n h)

    write_v4-Covers :
        Ready pool_row v4_initialize_topic0 a b pools s
        → Ready swap_row v4_swap_topic0 a b swaps s
        → Ready donation_row v4_donate_topic0 a b donates s
        → (n : ℕ) → a ≤ n
        → n ≤ b
        → Covers n written
    unfolding written write_v4 Ready
    write_v4-Covers rp rw' rd n lo hi = record {
      pools = λ id e.
          stored_or_Gapped (pool_key id) n _
            (λ h. batch-grows (donation-Inserts "" 0) donates _ (pool_key id) (
              batch-grows (swap-Inserts "" 0) swaps _ (pool_key id)
                (batch-stores (pool-Inserts id) pools s.tables h)))
            (rp (pool_wanted id) n lo hi e);
      swaps = λ tx i e.
          stored_or_Gapped (swap_key tx i) n _
            (λ h.
              batch-grows (donation-Inserts "" 0) donates _ (swap_key tx i)
                (batch-stores (swap-Inserts tx i) swaps _ h))
            (rw' (swap_wanted tx i) n lo hi e);
      donates = λ tx i e.
          stored_or_Gapped (v4_event_key tx i) n _
            (λ h. batch-stores (donation-Inserts tx i) donates _ h)
            (rd (donation_wanted tx i) n lo hi e);
    }

  -- A chunk loses nothing. If it ends, it covers its blocks and the cursor is at the last of them;
  -- if not, the cursor is where it was.
  pub record Chunk (a b : ℕ) (s : Run World) (out : Bool × Run World) : Type 0 where
    pub grows : Grows s out.1
    pub mark_kept : out.0 ≡ false → out.1.meta ≡ s.meta
    pub marked : out.0 ≡ true → out.1.meta ≡ set_state (job <> "_cursor") (print b) s.meta
    pub covers : out.0 ≡ true → (n : ℕ) → a ≤ n → n ≤ b → Covers n out.1

  Chunk-after :
      (a b : ℕ) (s s₁ : Run World) (out : Bool × Run World)
      → Grows s s₁
      → s₁.meta ≡ s.meta
      → Chunk a b s₁ out
      → Chunk a b s out
  Chunk-after a b s s₁ out g same c = record {
    grows = Grows-trans s s₁ out.1 g c.grows;
    mark_kept = λ h. c.mark_kept h ∙ same;
    marked = λ h. c.marked h ∙ ap (set_state (job <> "_cursor") (print b)) same;
    covers = c.covers;
  }

  Chunk-stopped : (a b : ℕ) (s : Run World) → Chunk a b s (false, s)
  Chunk-stopped a b s = record {
    grows = record { keys = λ k h. h; gaps = λ n h. h };
    mark_kept = λ h. refl;
    marked = λ h. absurd (ground arith);
    covers = λ h. absurd (ground arith);
  }

  gather-Ready :
      {Row : Type 0} (row : Log → Option (Option Row)) (topic : String) (a b : ℕ) (s : Run World)
      (out : Option (List Log) × Run World) (rows : List Row)
      → Fetches a b topic s out
      → gather_from row out.0 ≡ some rows
      → Ready row topic a b rows out.1
  unfolding Ready
  gather-Ready row topic a b s out rows f h p n lo hi e = elim (Option-cases out.0) [
    | inl none_found ↦ absurd (ground (arith, rw none_found at h))
    | inr (ls, at) ↦ elim (f.found ls (λ l. is_row p (row l)) n at lo hi e) [
      | inl there ↦ inl (gather-exists row p ls rows (rw at at h) there)
      | inr gap ↦ inr gap
    ]
  ]

  with_donates-Chunk :
      (a b : ℕ) (pools : List PoolV4Row) (swaps : List SwapRow) (o : Option (List V4EventRow))
      (s : Run World)
      → Ready pool_row v4_initialize_topic0 a b pools s
      → Ready swap_row v4_swap_topic0 a b swaps s
      → ((rows : List V4EventRow) → o ≡ some rows → Ready donation_row v4_donate_topic0 a b rows s)
      → Chunk a b s (with_donates node print read job min_size max_retries a b pools swaps o s)
  unfolding written write_v4
  with_donates-Chunk a b pools swaps none s rp rs rd = Chunk-stopped a b s
  with_donates-Chunk a b pools swaps (some donates) s rp rs rd =
      let s₁ =
        mark node print read job min_size max_retries a b (written a b pools swaps donates s) in
      let same : Grows (written a b pools swaps donates s) s₁ = record {
        keys = λ k h. h;
        gaps = λ n h. h;
      } in
      record {
        grows = Grows-trans s _ s₁ (write_v4-Grows a b pools swaps donates s) same;
        mark_kept = λ h. absurd (ground arith);
        marked = λ h. refl;
        covers = λ h n lo hi.
            Covers-Grows n _ s₁ same
              (write_v4-Covers a b pools swaps donates s rp rs (rd donates refl) n lo hi);
      }

  module _ (honest : Honest) (pos : 1 ≤ min_size) (a b : ℕ) (le : a ≤ b) where
    with_swaps-Chunk :
        (pools : List PoolV4Row) (o : Option (List SwapRow)) (s : Run World)
        → Ready pool_row v4_initialize_topic0 a b pools s
        → ((rows : List SwapRow) → o ≡ some rows → Ready swap_row v4_swap_topic0 a b rows s)
        → Chunk a b s (with_swaps node print read job min_size max_retries manager a b pools o s)
    with_swaps-Chunk pools none s rp rs = Chunk-stopped a b s
    with_swaps-Chunk pools (some swaps) s rp rs =
        let out = fetched node print read job min_size max_retries manager v4_donate_topic0 a b s in
        let f = fetched-Fetches a b v4_donate_topic0 s honest pos le in
        Chunk-after a b s out.1 _ f.grows f.meta_kept (
          with_donates-Chunk a b pools swaps (gather_from donation_row out.0) out.1
            (Ready-Grows pool_row v4_initialize_topic0 a b pools s out.1 f.grows rp)
            (Ready-Grows swap_row v4_swap_topic0 a b swaps s out.1 f.grows (rs swaps refl))
            (λ rows h. gather-Ready donation_row v4_donate_topic0 a b s out rows f h))

    with_pools-Chunk :
        (o : Option (List PoolV4Row)) (s : Run World)
        → ((rows : List PoolV4Row) → o ≡ some rows → Ready pool_row v4_initialize_topic0 a b rows s)
        → Chunk a b s (with_pools node print read job min_size max_retries manager a b o s)
    with_pools-Chunk none s rp = Chunk-stopped a b s
    with_pools-Chunk (some pools) s rp =
        let out = fetched node print read job min_size max_retries manager v4_swap_topic0 a b s in
        let f = fetched-Fetches a b v4_swap_topic0 s honest pos le in
        Chunk-after a b s out.1 _ f.grows f.meta_kept (
          with_swaps-Chunk pools (gather_from swap_row out.0) out.1
            (Ready-Grows pool_row v4_initialize_topic0 a b pools s out.1 f.grows (rp pools refl))
            (λ rows h. gather-Ready swap_row v4_swap_topic0 a b s out rows f h))

    pub v4_chunk-Chunk :
        (s : Run World)
        → Chunk a b s (v4_chunk node print read job min_size max_retries manager a b s)
    unfolding v4_chunk
    v4_chunk-Chunk s =
        let out =
          fetched node print read job min_size max_retries manager v4_initialize_topic0 a b s in
        let f = fetched-Fetches a b v4_initialize_topic0 s honest pos le in
        Chunk-after a b s out.1 _ f.grows f.meta_kept (
          with_pools-Chunk (gather_from pool_row out.0) out.1
            (λ rows h. gather-Ready pool_row v4_initialize_topic0 a b s out rows f h))
