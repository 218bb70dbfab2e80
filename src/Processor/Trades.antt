-- ===== src/Processor/Trades.antt =====
-- The trade count of a wallet.
use arc_smart_orders.Prelude.{
  ℕ, ◌+◌, ◌≡◌, refl, ap, ◌∙◌, true, false, inl, inr, Option, none, some, Option-cases, List, String,
  str_eq, lower, find, exists, arith, eq_refl,
}
use arc_smart_orders.Sql.{
  find-update_where, find-holds, exists-find-none, exists-find-some, find-append_none,
}
use arc_smart_orders.Events.{RawEvent}
use arc_smart_orders.EventStore.{
  Tables, WalletRow, SwapRow, wallet_is, swap_is, insert_row, insert_swap, insert_token,
  upsert_wallet,
}
use arc_smart_orders.Processor.{
  ProcessResult, Parts, Resolver, process, process_swap, write_swap, swap_parts, swap_row,
  insert_pair, resolved,
}

abbrev count_of : Option WalletRow → ℕ
count_of none = 0
count_of (some w) = w.trade_count

abbrev pub trades : String → List WalletRow → ℕ
trades address ws = count_of (find (wallet_is (lower address)) ws)

trades-upsert_wallet :
    (address : String) (ts : Option ℕ) (t : Tables)
    → trades address (upsert_wallet address ts t).wallets ≡ trades address t.wallets + 1
unfolding upsert_wallet
trades-upsert_wallet address ts t =
    let q = wallet_is (lower address) in
    let bump =
      λ (w : WalletRow). let r : WalletRow = record w { trade_count = w.trade_count + 1 } in r in
    let written = find-update_where q q bump t.wallets (λ w. refl) in
    let fresh : WalletRow = record {
      address = lower address;
      first_seen_ts = ts;
      trade_count = 1;
    } in
    elim (Option-cases (find q t.wallets)) [
      | inl e ↦
          rw
            (
              exists-find-none q t.wallets e,
              find-append_none q t.wallets fresh e (eq_refl (lower address)),
              e,
            )
            (omega arith)
      | inr (w, e) ↦
          rw (exists-find-some q t.wallets w e, written, e, find-holds q t.wallets w e) refl
    ]

insert_pair-wallets :
    (ev : RawEvent) (pair : Option (String × String)) (t : Tables)
    → ((insert_pair ev pair t).1.wallets ≡ t.wallets) × ((insert_pair ev pair t).1.swaps ≡ t.swaps)
unfolding insert_token
insert_pair-wallets ev none t = (refl, refl)
insert_pair-wallets ev (some (a, b)) t = (refl, refl)

insert_swap_known :
    (r : SwapRow) (t : Tables)
    → exists (swap_is (lower r.tx_hash) r.log_index) t.swaps ≡ true
    → insert_swap r t ≡ (false, t)
unfolding insert_swap insert_row
insert_swap_known r t there = rw there refl

insert_pair-trades :
    (ev : RawEvent) (pair : Option (String × String)) (w : String) (ts : Option ℕ) (t : Tables)
    → trades w (insert_pair ev pair (upsert_wallet w ts t)).1.wallets ≡ trades w t.wallets + 1
insert_pair-trades ev pair w ts t =
    ap (trades w) (insert_pair-wallets ev pair (upsert_wallet w ts t)).0
    ∙ trades-upsert_wallet w ts t

insert_pair-swaps :
    (ev : RawEvent) (pair : Option (String × String)) (w : String) (ts : Option ℕ) (t : Tables)
    → (insert_pair ev pair (upsert_wallet w ts t)).1.swaps ≡ t.swaps
unfolding upsert_wallet
insert_pair-swaps ev pair w ts t = (insert_pair-wallets ev pair (upsert_wallet w ts t)).1

-- A swap that is in its table already, and names a wallet, is processed as a duplicate, which leaves
-- the table of swaps as it is; but it adds one to the wallet's trade count.
pub duplicate_counts_trade :
    (text_of_hex : String → Option String) (topic_maps : String → String → Option String)
    (f : Resolver) (ev : RawEvent) (d : Parts) (w : String) (t : Tables)
    → str_eq ev.kind "dex_swap" ≡ true
    → swap_parts ev ≡ some (some d)
    → d.wallet ≡ some w
    → exists (swap_is (lower ev.tx_hash) ev.log_index) t.swaps ≡ true
    → (out : ProcessResult × Tables) × (process text_of_hex topic_maps f ev t ≡ some out)
      × (out.0.swaps ≡ 0)
      × (out.0.duplicates ≡ 1)
      × (out.1.swaps ≡ t.swaps)
      × (trades w out.1.wallets ≡ trades w t.wallets + 1)
unfolding process process_swap write_swap
duplicate_counts_trade text_of_hex topic_maps f ev d w t kind parts wallet there =
    let known = insert_swap_known (swap_row ev d t) t there in
    (
      write_swap f ev d t,
      rw (kind, parts) refl,
      rw known refl,
      rw known refl,
      rw (known, wallet) (insert_pair-swaps ev (resolved f ev) w ev.block_time t),
      rw (known, wallet) (insert_pair-trades ev (resolved f ev) w ev.block_time t),
    )
