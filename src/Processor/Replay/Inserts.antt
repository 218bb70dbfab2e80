-- ===== src/Processor/Replay/Inserts.antt =====
-- What the inserts of the event store do to the primary keys that are in its tables.
use arc_smart_orders.Prelude.{
  ℕ, ◌≡◌, refl, ◌∙◌, Option, Bool, true, false, Bool-cases, inl, inr, List, [], ◌∷◌, ◌++◌, String,
  lower, exists, All, All-append, All-split, All-map, eq_refl, ==_refl,
}
use arc_smart_orders.Sql.{exists-append, exists-append_own}
use arc_smart_orders.Processor.Replay.Keys.{
  Key, swap_key, launchpad_key, transfer_key, v4_event_key, token_key, pool_key, has, rows_of,
  grow_swaps, grow_launchpad_events, grow_token_transfers, grow_v4_events, grow_tokens,
  grow_pools_v4,
}
use arc_smart_orders.EventStore.{
  Tables, TokenRow, SwapRow, LaunchpadEventRow, TokenTransferRow, PoolV4Row, V4EventRow, insert_row,
  insert_swap, insert_token, insert_launchpad_event, insert_token_transfer, insert_pool_v4,
  insert_v4_event, upsert_wallet, swap_is, token_is, launchpad_is, transfer_is, pool_is,
  v4_event_is,
}

-- From `t` to `t'`: no key is lost, the given ones are there, and nothing changes where they were.
pub record Effect (keys : List Key) (t t' : Tables) : Type 0 where
  pub grows : (k : Key) → has t k ≡ true → has t' k ≡ true
  pub stores : All (λ k. has t' k ≡ true) keys
  pub fixed : All (λ k. has t k ≡ true) keys → rows_of t' ≡ rows_of t

pub Effect-refl : (t : Tables) → Effect [] t t
Effect-refl t = record { grows = λ k h. h; stores = tt; fixed = λ h. refl }

module _ {A : Type 0} (same : A → Bool) (row : A) (rows : List A) where
  insert_row-grows :
      (q : A → Bool) → exists q rows ≡ true → exists q (insert_row same row rows).1 ≡ true
  unfolding insert_row
  insert_row-grows q h = elim (Bool-cases (exists same rows)) [
    | inl e ↦ rw e h
    | inr e ↦ rw e (exists-append q rows (row ∷ []) h)
  ]

  insert_row-stores : same row ≡ true → exists same (insert_row same row rows).1 ≡ true
  unfolding insert_row
  insert_row-stores h = elim (Bool-cases (exists same rows)) [
    | inl e ↦ rw e e
    | inr e ↦ rw e (exists-append_own same rows row h)
  ]

  insert_row-fixed : exists same rows ≡ true → insert_row same row rows ≡ (false, rows)
  unfolding insert_row
  insert_row-fixed h = rw h refl

pub insert_swap-Effect :
    (r : SwapRow) (t : Tables)
    → Effect (swap_key (lower r.tx_hash) r.log_index ∷ []) t (insert_swap r t).1
unfolding insert_swap
insert_swap-Effect r t =
    let same = swap_is (lower r.tx_hash) r.log_index in
    let row : SwapRow = record r { tx_hash = lower r.tx_hash } in
    record {
      grows = grow_swaps t (insert_row same row t.swaps).1 (insert_row-grows same row t.swaps);
      stores = (
        insert_row-stores same row t.swaps
            (rw (eq_refl (lower r.tx_hash), ==_refl r.log_index) refl),
        tt,
      );
      fixed = λ h. rw (insert_row-fixed same row t.swaps h.0) refl;
    }

pub insert_launchpad_event-Effect :
    (r : LaunchpadEventRow) (t : Tables)
    → Effect (launchpad_key (lower r.tx_hash) r.log_index ∷ []) t (insert_launchpad_event r t).1
unfolding insert_launchpad_event
insert_launchpad_event-Effect r t =
    let same = launchpad_is (lower r.tx_hash) r.log_index in
    let row : LaunchpadEventRow = record r {
      tx_hash = lower r.tx_hash;
      address = lower r.address;
    } in
    record {
      grows =
          grow_launchpad_events t (insert_row same row t.launchpad_events).1
            (insert_row-grows same row t.launchpad_events);
      stores = (
        insert_row-stores same row t.launchpad_events
            (rw (eq_refl (lower r.tx_hash), ==_refl r.log_index) refl),
        tt,
      );
      fixed = λ h. rw (insert_row-fixed same row t.launchpad_events h.0) refl;
    }

pub insert_token_transfer-Effect :
    (r : TokenTransferRow) (t : Tables)
    → Effect (transfer_key (lower r.tx_hash) r.log_index ∷ []) t (insert_token_transfer r t).1
unfolding insert_token_transfer
insert_token_transfer-Effect r t =
    let same = transfer_is (lower r.tx_hash) r.log_index in
    let row : TokenTransferRow = record r {
      tx_hash = lower r.tx_hash;
      token = lower r.token;
      from_addr = lower r.from_addr;
      to_addr = lower r.to_addr;
    } in
    record {
      grows =
          grow_token_transfers t (insert_row same row t.token_transfers).1
            (insert_row-grows same row t.token_transfers);
      stores = (
        insert_row-stores same row t.token_transfers
            (rw (eq_refl (lower r.tx_hash), ==_refl r.log_index) refl),
        tt,
      );
      fixed = λ h. rw (insert_row-fixed same row t.token_transfers h.0) refl;
    }

pub insert_v4_event-Effect :
    (r : V4EventRow) (t : Tables)
    → Effect (v4_event_key (lower r.tx_hash) r.log_index ∷ []) t (insert_v4_event r t).1
unfolding insert_v4_event
insert_v4_event-Effect r t =
    let same = v4_event_is (lower r.tx_hash) r.log_index in
    let row : V4EventRow = record r { tx_hash = lower r.tx_hash } in
    record {
      grows =
          grow_v4_events t (insert_row same row t.v4_events).1
            (insert_row-grows same row t.v4_events);
      stores = (
        insert_row-stores same row t.v4_events
            (rw (eq_refl (lower r.tx_hash), ==_refl r.log_index) refl),
        tt,
      );
      fixed = λ h. rw (insert_row-fixed same row t.v4_events h.0) refl;
    }

pub insert_token-Effect :
    (r : TokenRow) (t : Tables) → Effect (token_key (lower r.address) ∷ []) t (insert_token r t).1
unfolding insert_token
insert_token-Effect r t =
    let same = token_is (lower r.address) in
    let row : TokenRow = record r { address = lower r.address } in
    record {
      grows = grow_tokens t (insert_row same row t.tokens).1 (insert_row-grows same row t.tokens);
      stores = (insert_row-stores same row t.tokens (eq_refl (lower r.address)), tt);
      fixed = λ h. rw (insert_row-fixed same row t.tokens h.0) refl;
    }

pub insert_pool_v4-Effect :
    (r : PoolV4Row) (t : Tables) → Effect (pool_key (lower r.pool_id) ∷ []) t (insert_pool_v4 r t).1
unfolding insert_pool_v4
insert_pool_v4-Effect r t =
    let same = pool_is (lower r.pool_id) in
    let row : PoolV4Row = record r { pool_id = lower r.pool_id } in
    record {
      grows =
          grow_pools_v4 t (insert_row same row t.pools_v4).1 (insert_row-grows same row t.pools_v4);
      stores = (insert_row-stores same row t.pools_v4 (eq_refl (lower r.pool_id)), tt);
      fixed = λ h. rw (insert_row-fixed same row t.pools_v4 h.0) refl;
    }

touched :
    (address : String) (ts : Option ℕ) (t : Tables) (k : Key)
    → has t k ≡ true
    → has (upsert_wallet address ts t) k ≡ true
unfolding upsert_wallet
touched address ts t (swap_key tx i) h = h
touched address ts t (launchpad_key tx i) h = h
touched address ts t (transfer_key tx i) h = h
touched address ts t (v4_event_key tx i) h = h
touched address ts t (token_key a) h = h
touched address ts t (pool_key a) h = h

pub upsert_wallet-Effect :
    (address : String) (ts : Option ℕ) (t : Tables) → Effect [] t (upsert_wallet address ts t)
unfolding upsert_wallet
upsert_wallet-Effect address ts t = record {
  grows = touched address ts t;
  stores = tt;
  fixed = λ h. refl;
}

pub Effect-trans :
    (ks ls : List Key) (t u v : Tables) → Effect ks t u → Effect ls u v → Effect (ks ++ ls) t v
Effect-trans ks ls t u v a b = record {
  grows = λ k h. b.grows k (a.grows k h);
  stores =
      All-append (λ k. has v k ≡ true) ks ls
        (All-map (λ k. has u k ≡ true) (λ k. has v k ≡ true) ks b.grows a.stores) b.stores;
  fixed = λ h.
      let (h1, h2) = All-split (λ k. has t k ≡ true) ks ls h in
      b.fixed (All-map (λ k. has t k ≡ true) (λ k. has u k ≡ true) ls a.grows h2) ∙ a.fixed h1;
}
