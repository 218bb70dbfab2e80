-- ===== src/Backfill/Runs/Stored.antt =====
-- What the loops over logs and the batch inserts do to the keys of the tables.
use arc_smart_orders.Prelude.{
  ℕ, ◌≡◌, ◌⊎◌, refl, subst, Bool, true, false, ◌&&◌, Bool-cases, inl, inr, Option, none, some, List,
  [], ◌∷◌, String, str_eq, eq_iff, ==_iff, lower, ◌==◌, exists, arith, >>=-eq-some,
}
use arc_smart_orders.EventStore.{
  Tables, PoolV4Row, SwapRow, V4EventRow, insert_pool_v4, insert_swap, insert_v4_event,
}
use arc_smart_orders.Processor.Replay.Keys.{Key, swap_key, pool_key, v4_event_key, has}
use arc_smart_orders.Processor.Replay.Inserts.{
  insert_swap-Effect, insert_pool_v4-Effect, insert_v4_event-Effect,
}
use arc_smart_orders.Backfill.Rows.{Log, gather, cons_some, batch}

-- A row that a log gives, and what it is to be.
abbrev pub is_row : {Row : Type 0} → (Row → Bool) → Option (Option Row) → Bool
is_row p none = false
is_row p (some none) = false
is_row p (some (some r)) = p r

-- The row of a key.
abbrev pub pool_wanted : String → PoolV4Row → Bool
pool_wanted id r = str_eq (lower r.pool_id) id

abbrev pub swap_wanted : String → ℕ → SwapRow → Bool
swap_wanted tx i r = str_eq (lower r.tx_hash) tx && r.log_index == i

abbrev pub donation_wanted : String → ℕ → V4EventRow → Bool
donation_wanted tx i r = str_eq (lower r.tx_hash) tx && r.log_index == i

exists-cons_some :
    {Row : Type 0} (p : Row → Bool) (r : Option Row) (rows : List Row)
    → (is_row p (some r) ≡ true) ⊎ (exists p rows ≡ true)
    → exists p (cons_some r rows) ≡ true
exists-cons_some p none rows (inl h) = absurd (ground arith)
exists-cons_some p none rows (inr h) = h
exists-cons_some p (some x) rows (inl h) = rw h refl
exists-cons_some p (some x) rows (inr h) = ground (arith, h)

pub gather-exists :
    {Row : Type 0} (row : Log → Option (Option Row)) (p : Row → Bool) (logs : List Log)
    (rows : List Row)
    → gather row logs ≡ some rows
    → exists (λ l. is_row p (row l)) logs ≡ true
    → exists p rows ≡ true
gather-exists row p [] rows h e = absurd (ground arith)
gather-exists row p (l ∷ logs) rows h e =
    let (r, at, h₁) = >>=-eq-some (row l) _ h in
    let (rest, later, h₂) = >>=-eq-some (gather row logs) _ h₁ in
    let all : cons_some r rest ≡ rows = cc in
    subst (λ rs. exists p rs ≡ true) all
      (exists-cons_some p r rest (elim (Bool-cases (is_row p (row l))) [
        | inl f ↦ inl (subst (λ o. is_row p o ≡ true) at f)
        | inr f ↦ inr (gather-exists row p logs rest later (rw f at e))
      ]))

-- An insert that loses no key and stores the wanted rows under `k`.
pub record Inserts {Row : Type 0} (p : Row → Bool) (k : Key) (insert : Row → Tables → Bool × Tables)
    : Type 0 where
  pub grows : (r : Row) (t : Tables) (l : Key) → has t l ≡ true → has (insert r t).1 l ≡ true
  pub stores : (r : Row) (t : Tables) → p r ≡ true → has (insert r t).1 k ≡ true

module _ {Row : Type 0} {p : Row → Bool} {k : Key} {insert : Row → Tables → Bool × Tables}
    (good : Inserts p k insert) where
  pub batch-grows :
      (rows : List Row) (t : Tables) (l : Key)
      → has t l ≡ true
      → has (batch insert rows t).1 l ≡ true
  unfolding batch
  batch-grows [] t l h = h
  batch-grows (r ∷ rows) t l h = batch-grows rows (insert r t).1 l (good.grows r t l h)

  pub batch-stores :
      (rows : List Row) (t : Tables) → exists p rows ≡ true → has (batch insert rows t).1 k ≡ true
  unfolding batch
  batch-stores [] t h = absurd (ground arith)
  batch-stores (r ∷ rows) t h = elim (Bool-cases (p r)) [
    | inl e ↦ batch-grows rows (insert r t).1 k (good.stores r t e)
    | inr e ↦ batch-stores rows (insert r t).1 (rw e at h)
  ]

pub pool-Inserts : (id : String) → Inserts (pool_wanted id) (pool_key id) insert_pool_v4
pool-Inserts id = record {
  grows = λ r t l h. (insert_pool_v4-Effect r t).grows l h;
  stores = λ r t e.
      let same : lower r.pool_id ≡ id = (eq_iff (lower r.pool_id) id).0 e in
      subst (λ x. has (insert_pool_v4 r t).1 (pool_key x) ≡ true) same
        (insert_pool_v4-Effect r t).stores.0;
}

both : (tx tx' : String) (i i' : ℕ) → (str_eq tx tx' && i == i') ≡ true → (tx ≡ tx') × (i ≡ i')
both tx tx' i i' h =
    let (l, r) : (str_eq tx tx' ≡ true) × ((i == i') ≡ true) = ground arith in
    ((eq_iff tx tx').0 l, (==_iff i i').0 r)

pub swap-Inserts : (tx : String) (i : ℕ) → Inserts (swap_wanted tx i) (swap_key tx i) insert_swap
swap-Inserts tx i = record {
  grows = λ r t l h. (insert_swap-Effect r t).grows l h;
  stores = λ r t e.
      let (a, b) = both (lower r.tx_hash) tx r.log_index i e in
      subst (λ x. has (insert_swap r t).1 (swap_key x i) ≡ true) a
        (subst (λ j. has (insert_swap r t).1 (swap_key (lower r.tx_hash) j) ≡ true) b
          (insert_swap-Effect r t).stores.0);
}

pub donation-Inserts :
    (tx : String) (i : ℕ) → Inserts (donation_wanted tx i) (v4_event_key tx i) insert_v4_event
donation-Inserts tx i = record {
  grows = λ r t l h. (insert_v4_event-Effect r t).grows l h;
  stores = λ r t e.
      let (a, b) = both (lower r.tx_hash) tx r.log_index i e in
      subst (λ x. has (insert_v4_event r t).1 (v4_event_key x i) ≡ true) a
        (subst (λ j. has (insert_v4_event r t).1 (v4_event_key (lower r.tx_hash) j) ≡ true) b
          (insert_v4_event-Effect r t).stores.0);
}
