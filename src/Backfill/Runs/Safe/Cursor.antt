-- ===== src/Backfill/Runs/Safe/Cursor.antt =====
-- The cursor never runs ahead of what is stored.
use Prim.Native.String.{◌++◌ as ◌<>◌}
use arc_smart_orders.Prelude.{
  ℕ, zero, suc, ◌+◌, ◌-◌, ◌==◌, ◌≤◌, ◌<◌, ◌≡◌, ◌⊎◌, refl, subst, ap, ◌∙◌, Bool, true, false,
  Bool-cases, inl, inr, none, some, List, [], ◌∷◌, ◌++◌, String, leb, find, exists, arith, str_eq,
  eq_refl,
}
use arc_smart_orders.Sql.{update_where}
use arc_smart_orders.Processor.{v4_swap_topic0}
use arc_smart_orders.Processor.Replay.Keys.{
  Key, swap_key, launchpad_key, transfer_key, v4_event_key, token_key, pool_key, has,
}
use arc_smart_orders.Backfill.Coverage.{gap_at}
use arc_smart_orders.Backfill.Runs.Stored.{is_row, pool_wanted, swap_wanted, donation_wanted}
use arc_smart_orders.State.{Table, has_key, set_state}
use arc_smart_orders.Backfill.{Source, min_ℕ}
use arc_smart_orders.Backfill.Rows.{Log, get_meta, pool_row, swap_row, donation_row}
use arc_smart_orders.Backfill.Runs.{
  Run, v4_initialize_topic0, v4_donate_topic0, next, chunks, resume_at, fresh_stats, backfill_run,
  backfill_v4_run, v4_chunk,
}
use arc_smart_orders.Backfill.Runs.Safe.{Honest, Covers, Covers-Grows, Chunk, v4_chunk-Chunk}

find-updated :
    (key value : String) (t : Table)
    → exists (has_key key) t ≡ true
    → (k : String) × (find (has_key key) (update_where (has_key key) (λ (k', old). (k', value)) t)
        ≡ some (k, value))
find-updated key value [] h = absurd (ground arith)
find-updated key value ((k, v) ∷ t) h = elim (Bool-cases (str_eq k key)) [
  | inl e ↦ (k, rw (e, e) refl)
  | inr e ↦ let (k', f) = find-updated key value t (rw e at h) in (k', rw (e, e) f)
]

find-appended :
    (key value : String) (t : Table)
    → exists (has_key key) t ≡ false
    → find (has_key key) (t ++ (key, value) ∷ []) ≡ some (key, value)
find-appended key value [] h = rw (eq_refl key) refl
find-appended key value ((k, v) ∷ t) h = elim (Bool-cases (str_eq k key)) [
  | inl e ↦ absurd (ground (arith, rw e at h))
  | inr e ↦ rw e (find-appended key value t (rw e at h))
]

get_meta-found :
    (key k value : String) (t : Table)
    → find (has_key key) t ≡ some (k, value)
    → get_meta key t ≡ some value
get_meta-found key k value t h = rw (h, get_meta) refl

get_meta-set_state :
    (key value : String) (t : Table) → get_meta key (set_state key value t) ≡ some value
unfolding set_state
get_meta-set_state key value t = elim (Bool-cases (exists (has_key key) t)) [
  | inl e ↦ let (k, f) = find-updated key value t e in rw e (get_meta-found key k value _ f)
  | inr e ↦ rw e (get_meta-found key key value _ (find-appended key value t e))
]

-- The pools, swaps and donations that the chain has at a block, by the keys of their rows.
abbrev pub on_chain : (chain : (topic : String) → ℕ → List Log) → ℕ → Key → Bool
on_chain chain n (pool_key id) =
    exists (λ l. is_row (pool_wanted id) (pool_row l)) (chain v4_initialize_topic0 n)
on_chain chain n (swap_key tx i) =
    exists (λ l. is_row (swap_wanted tx i) (swap_row l)) (chain v4_swap_topic0 n)
on_chain chain n (v4_event_key tx i) =
    exists (λ l. is_row (donation_wanted tx i) (donation_row l)) (chain v4_donate_topic0 n)
on_chain chain n (launchpad_key tx i) = false
on_chain chain n (transfer_key tx i) = false
on_chain chain n (token_key address) = false

module _ {World : Type 0} (node : (address topic : String) → Source Log World) (print : ℕ → String)
    (read : String → ℕ) (job : String) (min_size max_retries : ℕ) (manager : String)
    (chain : (topic : String) → ℕ → List Log) (start : ℕ) where
  -- The block at which a run goes on.
  abbrev pub resumes : Run World → ℕ
  resumes s =
      resume_at node print read job min_size max_retries start (get_meta (job <> "_cursor") s.meta)

  abbrev Cover : ℕ → Run World → Type 0
  Cover n s = Covers node print read job min_size max_retries manager chain n s

  -- All blocks from the start up to where a run goes on are covered.
  abbrev pub IsSound : Run World → Type 0
  IsSound s = (n : ℕ) → start ≤ n → n < resumes s → Cover n s

  resume_at-set_state :
      (b : ℕ) (meta : Table)
      → ((k : ℕ) → read (print k) ≡ k)
      → resume_at node print read job min_size max_retries start
          (get_meta (job <> "_cursor") (set_state (job <> "_cursor") (print b) meta))
        ≡ b + 1
  resume_at-set_state b meta back =
      rw (get_meta-set_state (job <> "_cursor") (print b) meta, back b) refl

  -- Runs to some blocks, one after the other, each of which may have been left by an exception.
  abbrev pub attempts : (chunk : ℕ) → List ℕ → Run World → Run World
  attempts chunk [] s = s
  attempts chunk (e ∷ ends) s =
      attempts chunk ends
        (backfill_v4_run node print read job min_size max_retries manager start e chunk s).1

  module _ (honest : Honest node print read job min_size max_retries manager chain)
      (pos : 1 ≤ min_size) (back : (k : ℕ) → read (print k) ≡ k) (chunk end : ℕ)
      (moves : 1 ≤ chunk) where
    -- What a run leaves.
    record Advances (out : Bool × Run World) : Type 0 where
      sound : IsSound out.1
      reaches : out.0 ≡ true → (n : ℕ) → start ≤ n → n ≤ end → Cover n out.1

    work : ℕ → ℕ → Run World → Bool × Run World
    work a b s = v4_chunk node print read job min_size max_retries manager a b s

    loop : ℕ → ℕ → Run World → Bool × Run World
    loop rounds a s = chunks node print read job min_size max_retries work chunk end rounds a s

    -- All blocks of the range before `a` are covered.
    Done : ℕ → Run World → Type 0
    Done a s = (n : ℕ) → start ≤ n → n < a → n ≤ end → Cover n s

    next-Advances :
        (a b : ℕ) (s : Run World) (out : Bool × Run World) (rest : Run World → Bool × Run World)
        → b ≤ end
        → ((n : ℕ) → n ≤ end → n < a + chunk → n ≤ b)
        → IsSound s
        → Done a s
        → Chunk node print read job min_size max_retries manager chain a b s out
        → ((s' : Run World) → IsSound s' → Done (a + chunk) s' → Advances (rest s'))
        → Advances (next rest out)
    unfolding Done
    next-Advances a b s (false, s') rest in_range whole sound done c go = record {
      sound = λ n lo hi.
          let same : resumes s' ≡ resumes s =
            ap
              (λ m.
                resume_at node print read job min_size max_retries start
                  (get_meta (job <> "_cursor") m))
              (c.mark_kept refl) in
          Covers-Grows node print read job min_size max_retries manager chain n s s' c.grows
            (sound n lo (subst (λ k. n < k) same hi));
      reaches = λ h. absurd (ground arith);
    }
    next-Advances a b s (true, s') rest in_range whole sound done c go =
        let here : (n : ℕ) → start ≤ n → n ≤ b → Cover n s' = λ n lo hi.
          elim (Bool-cases (leb a n)) [
            | inl e ↦ c.covers refl n (ground arith) hi
            | inr e ↦
                Covers-Grows node print read job min_size max_retries manager chain n s s' c.grows
                  (done n lo (ground arith) (omega arith))
          ] in
        let marked : resumes s' ≡ b + 1 =
          ap
            (λ m.
              resume_at node print read job min_size max_retries start
                (get_meta (job <> "_cursor") m))
            (c.marked refl)
          ∙ resume_at-set_state b s.meta back in
        go s' (λ n lo hi. here n lo (omega (arith, subst (λ k. n < k) marked hi)))
          (λ n lo hi end'. here n lo (whole n end' hi))

    chunks-Advances :
        (rounds a : ℕ) (s : Run World)
        → end < a + rounds
        → IsSound s
        → Done a s
        → Advances (loop rounds a s)
    unfolding chunks work loop Done
    chunks-Advances zero a s fuel sound done = record {
      sound = sound;
      reaches = λ h n lo hi. done n lo (omega arith) hi;
    }
    chunks-Advances (suc rounds) a s fuel sound done = elim (Bool-cases (leb a end)) [
      | inr over ↦
          rw over (record { sound = sound; reaches = λ h n lo hi. done n lo (ground arith) hi })
      | inl under ↦
          let b = min_ℕ (a + chunk - 1) end in
          rw under (
            next-Advances a b s (work a b s) (loop rounds (a + chunk)) (ground arith)
              (λ n hi lt. ground arith) sound done
              (v4_chunk-Chunk node print read job min_size max_retries manager chain honest pos a b
                (ground arith) s)
              (λ s'. chunks-Advances rounds (a + chunk) s' (omega arith)))
    ]

    run-Advances :
        (s : Run World)
        → IsSound s
        → Advances
            (backfill_v4_run node print read job min_size max_retries manager start end chunk s)
    unfolding backfill_v4_run backfill_run Done loop work
    run-Advances s sound =
        let s' = fresh_stats node print read job min_size max_retries s in
        let kept : (n : ℕ) → Cover n s → Cover n s' = λ n c.
          Covers-Grows node print read job min_size max_retries manager chain n s s'
            (record { keys = λ k h. h; gaps = λ n h. h }) c in
        let steps : (chunk == 0) ≡ false = ground arith in
        rw steps (
          chunks-Advances (end + 1 - resumes s) (resumes s) s' (omega arith)
            (λ n lo hi. kept n (sound n lo hi)) (λ n lo hi end'. kept n (sound n lo hi)))

  Covers-has :
      (n : ℕ) (s : Run World) (k : Key)
      → Cover n s
      → on_chain chain n k ≡ true
      → (has s.tables k ≡ true) ⊎ (exists (gap_at job n) s.fetching.gaps ≡ true)
  Covers-has n s (pool_key id) c h = c.pools id h
  Covers-has n s (swap_key tx i) c h = c.swaps tx i h
  Covers-has n s (v4_event_key tx i) c h = c.donates tx i h
  Covers-has n s (launchpad_key tx i) c h = absurd (ground arith)
  Covers-has n s (transfer_key tx i) c h = absurd (ground arith)
  Covers-has n s (token_key address) c h = absurd (ground arith)

  attempts-IsSound :
      (chunk : ℕ)
      → Honest node print read job min_size max_retries manager chain
      → 1 ≤ min_size
      → ((k : ℕ) → read (print k) ≡ k)
      → 1 ≤ chunk
      → (ends : List ℕ) (s : Run World) → IsSound s
      → IsSound (attempts chunk ends s)
  attempts-IsSound chunk honest pos back moves [] s sound = sound
  attempts-IsSound chunk honest pos back moves (e ∷ ends) s sound =
      attempts-IsSound chunk honest pos back moves ends _
        (run-Advances honest pos back chunk e moves s sound).sound

  -- The node is honest, chunks have at least one block, and block numbers are read as they are
  -- printed. From a store without a cursor, after any runs to any blocks, left by exceptions or not: a
  -- run that comes to its end has dropped nothing. Whatever pool, swap or donation the chain has at a
  -- block from the start to that run's end is stored, or the block is in a gap of the job.
  pub backfill_v4_run_covers :
      (chunk : ℕ) (ends : List ℕ) (end : ℕ) (s : Run World)
      → Honest node print read job min_size max_retries manager chain
      → 1 ≤ min_size
      → ((k : ℕ) → read (print k) ≡ k)
      → 1 ≤ chunk
      → get_meta (job <> "_cursor") s.meta ≡ none
      → (backfill_v4_run node print read job min_size max_retries manager start end chunk
          (attempts chunk ends s)).0
        ≡ true
      → (n : ℕ) (k : Key) → start ≤ n
      → n ≤ end
      → on_chain chain n k ≡ true
      → let s' =
          (backfill_v4_run node print read job min_size max_retries manager start end chunk
            (attempts chunk ends s)).1 in
        (has s'.tables k ≡ true) ⊎ (exists (gap_at job n) s'.fetching.gaps ≡ true)
  backfill_v4_run_covers chunk ends end s honest pos back moves none_yet ended n k lo hi held =
      let fresh : IsSound s = λ m from below. absurd (omega (arith, rw none_yet at below)) in
      Covers-has n _ k
        ((run-Advances honest pos back chunk end moves (attempts chunk ends s)
            (attempts-IsSound chunk honest pos back moves ends s fresh)).reaches
          ended n lo hi)
        held
