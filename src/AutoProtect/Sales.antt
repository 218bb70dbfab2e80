-- ===== src/AutoProtect/Sales.antt =====
-- What is sold, for whom.
use arc_smart_orders.Prelude.{
  ℕ, ◌≡◌, refl, sym, ap, subst, true, false, Bool-cases, Option-cases, inl, inr, Option, none, some,
  List, [], ◌∷◌, ◌++◌, String, lower, leb, All, All-snoc, In, >>=-eq-some, arith, nonempty, not,
  ◌||◌, ◌&&◌,
}
use arc_smart_orders.Float.{Float}
use arc_smart_orders.State.{custody_paused}
use arc_smart_orders.Custody.{Wallet, get_custody}
use arc_smart_orders.Subscriptions.{Subscriber, member}
use arc_smart_orders.AutoProtect.{
  Pool, Storage, Store, Sale, Chain, risk, is_protected, sale, sale_for, submit, submit_if,
  sell_one, sell_each, sell_for_holders, on_alerts, load_pool, latest_price, on_alert,
}

-- The same chain, with the swaps that were asked for, in order.
abbrev pub recorded : {W : Type 0} → Chain W → Chain (W × List Sale)
recorded chain = record {
  erc20_balance = λ token holder w. chain.erc20_balance token holder w.0;
  ensure_approval = λ chat enc_secret token w.
      let (ready, w₁) = chain.ensure_approval chat enc_secret token w.0 in (ready, (w₁, w.1));
  new_nonce = λ w. chain.new_nonce w.0;
  time = λ w. chain.time w.0;
  swap = λ s order_nonce deadline w.
      let (done, w₁) = chain.swap s order_nonce deadline w.0 in (done, (w₁, w.1 ++ s ∷ []));
}

-- The sale is of the token, with the secret of the chat's own wallet, to the wallet itself, for a
-- chat whose settings allow it.
abbrev pub Permitted : Store → String → Sale → Type 0
Permitted store token s =
    (custody_paused store.vault.state ≡ false)
    × (is_protected store token s.chat ≡ true)
    × (s.token_in ≡ token)
    × ((c : Wallet) × (get_custody s.chat store.vault ≡ some c)
        × (s.enc_secret ≡ c.enc_secret)
        × (s.recipient ≡ c.address))

module _ (fl : Float) (ratio : ℕ → ℕ → fl.F) (truncate : fl.F → ℕ) where
  open fl use {F, lit}

  module _ {W : Type 0} (chain : Chain W) (pct floor_pct price : F) (dec : ℕ) (pool : Pool)
      (store : Store) (token : String) where
    -- What a sale comes from.
    pub sale_for-eq_some :
        (chat : String) (w : W) (s : Sale)
        → sale_for fl ratio truncate chain pct floor_pct price dec pool store token chat w ≡ some s
        → (is_protected store token chat ≡ true)
          × ((c : Wallet) × (bal : ℕ) × (get_custody chat store.vault ≡ some c)
              × (sale fl ratio truncate chain pct floor_pct price dec pool store token chat c bal
                  ≡ s))
    unfolding sale_for
    sale_for-eq_some chat w s h = elim (Bool-cases (is_protected store token chat)) [
      | inr e ↦ absurd (ground (arith, rw e at h))
      | inl e ↦
          let (c, there, h₁) = >>=-eq-some (get_custody chat store.vault) _ (rw e at h) in
          let (bal, read, h₂) = >>=-eq-some (chain.erc20_balance token c.address w) _ h₁ in
          elim (Bool-cases (leb bal 0)) [
            | inl f ↦ absurd (ground (arith, rw f at h₂))
            | inr f ↦ let last = rw f at h₂ in (e, (c, bal, there, cc))
          ]
    ]

    sale_for-Permitted :
        (chat : String) (w : W) (s : Sale)
        → custody_paused store.vault.state ≡ false
        → sale_for fl ratio truncate chain pct floor_pct price dec pool store token chat w ≡ some s
        → Permitted store token s
    unfolding sale
    sale_for-Permitted chat w s on h =
        let (e, (c, bal, there, same)) = sale_for-eq_some chat w s h in
        subst (Permitted store token) same (on, e, refl, (c, there, refl, refl))

  module _ {W : Type 0} (chain : Chain W) (pct floor_pct price : F) (dec : ℕ) (pool : Pool)
      (store : Store) (token : String) (P : Sale → Type 0) where
    abbrev asked : ℕ × (W × List Sale) → List Sale
    asked out = out.1.1

    submit-asked :
        (s : Sale) (w : W × List Sale)
        → P s
        → All P w.1
        → All P
            (submit fl ratio truncate
              (recorded chain)
              pct
              floor_pct
              price
              dec
              pool
              store
              token
              s
              w).1.1
    unfolding submit
    submit-asked s w p h =
        elim (Bool-cases (chain.ensure_approval s.chat s.enc_secret s.token_in w.0).0) [
          | inl e ↦ rw e (All-snoc P w.1 s h p)
          | inr e ↦ rw e h
        ]

    -- A property of all the sales that the guards let through is one of all the swaps asked for.
    Fine : Type 0
    Fine =
        (chat : String) (v : W × List Sale) (s : Sale)
        → sale_for fl ratio truncate (recorded chain) pct floor_pct price dec pool store token chat
            v
          ≡ some s
        → P s

    submit_if-asked :
        (o : Option Sale) (w : W × List Sale)
        → ((s : Sale) → o ≡ some s → P s)
        → All P w.1
        → All P
            (submit_if fl ratio truncate
              (recorded chain)
              pct
              floor_pct
              price
              dec
              pool
              store
              token
              o
              w).1.1
    unfolding submit_if
    submit_if-asked none w each h = h
    submit_if-asked (some s) w each h = submit-asked s w (each s refl) h

    sell_one-asked :
        (chat : String) (w : W × List Sale)
        → Fine
        → All P w.1
        → All P
            (sell_one fl ratio truncate
              (recorded chain)
              pct
              floor_pct
              price
              dec
              pool
              store
              token
              chat
              w).1.1
    unfolding sell_one Fine
    sell_one-asked chat w each h = submit_if-asked _ w (each chat w) h

    sell_each-asked :
        (ss : List Subscriber) (w : W × List Sale)
        → Fine
        → All P w.1
        → All P
            (sell_each fl ratio truncate
              (recorded chain)
              pct
              floor_pct
              price
              dec
              pool
              store
              token
              ss
              w).1.1
    unfolding sell_each
    sell_each-asked [] w each h = h
    sell_each-asked (x ∷ xs) w each h =
        sell_each-asked xs _ each (sell_one-asked x.chat_id w each h)

  module _ {W : Type 0} (chain : Chain W) (rpc_decimals : String → ℕ) (storage : Storage F)
      (store : Store) where
    sell_for_holders-asked :
        (P : Sale → Type 0) (pct floor_pct : F) (token : String) (w : W × List Sale)
        → ((s : Sale) → Permitted store (lower token) s → P s)
        → All P w.1
        → All P
            (sell_for_holders fl ratio truncate
              (recorded chain)
              pct
              floor_pct
              rpc_decimals
              storage
              store
              token
              w).1.1
    unfolding sell_for_holders Fine
    sell_for_holders-asked P pct floor_pct token w each h =
        elim (Bool-cases (not (nonempty token) || custody_paused store.vault.state)) [
          | inl e ↦ rw (e, All) h
          | inr e ↦ elim (Option-cases (load_pool storage (lower token))) [
            | inl f ↦ rw (e, f, All) h
            | inr (pool, f) ↦
                let open' : custody_paused store.vault.state ≡ false = ground arith in
                rw (e, f, All)
                  (sell_each-asked chain pct floor_pct
                    (latest_price fl ratio truncate storage (lower token))
                    (rpc_decimals (lower token)) pool store (lower token) P store.subscribers w
                    (λ chat v s asked.
                      each s (sale_for-Permitted _ _ _ _ _ _ _ _ chat v s open' asked))
                    h)
          ]
        ]

    -- An alert of the list, of a kind that sells, speaks of the token.
    abbrev Follows : List (String × Option String) → Sale → Type 0
    Follows alerts s =
        (kind : String) × (token : String) × In (kind, some token) alerts
        × (member kind risk ≡ true)
        × Permitted store (lower token) s

    on_alert-asked :
        (P : Sale → Type 0) (kind : String) (token : Option String) (w : W × List Sale)
        → ((s : Sale) (t : String)
            → token ≡ some t
            → member kind risk ≡ true
            → Permitted store (lower t) s
            → P s)
        → All P w.1
        → All P
            (on_alert fl ratio truncate
              (recorded chain)
              rpc_decimals
              storage
              store
              kind
              token
              w).1.1
    unfolding on_alert
    on_alert-asked P kind none w each h = h
    on_alert-asked P kind (some token) w each h =
        elim (Bool-cases (member kind risk && nonempty token)) [
          | inr e ↦ rw (e, All) h
          | inl e ↦
              rw (e, All)
                (sell_for_holders-asked P (lit 100 0) (lit 30 0) token w
                  (λ s p. each s token refl (ground arith) p) h)
        ]

    on_alerts-asked :
        (P : Sale → Type 0) (alerts : List (String × Option String)) (w : W × List Sale)
        → ((s : Sale) → Follows alerts s → P s)
        → All P w.1
        → All P
            (on_alerts fl ratio truncate (recorded chain) rpc_decimals storage store alerts w).1.1
    unfolding on_alerts
    on_alerts-asked P [] w each h = h
    on_alerts-asked P ((kind, token) ∷ alerts) w each h =
        on_alerts-asked P alerts _ (λ s (k, t, m, sells, p). each s (k, t, inr m, sells, p))
          (on_alert-asked P kind token w
            (λ s t same sells p. each s (kind, t, inl (ap (λ o. (kind, o)) (sym same)), sells, p))
            h)

  -- Whatever the chain, the signer and the clock do, every swap that a list of alerts makes the bot ask
  -- for is allowed: custody is not paused; one of the alerts is of a kind that sells, and the swap is
  -- of its token; the chat has auto-protection on, is not frozen and holds the token; the swap is
  -- signed with the secret of the chat's own wallet and pays to that wallet.
  pub on_alerts-Permitted :
      {W : Type 0} (chain : Chain W) (rpc_decimals : String → ℕ) (storage : Storage F)
      (store : Store) (alerts : List (String × Option String)) (w : W)
      → All
          (λ s.
            (kind : String) × (token : String) × In (kind, some token) alerts
            × (member kind risk ≡ true)
            × Permitted store (lower token) s)
          (on_alerts fl ratio truncate
            (recorded chain)
            rpc_decimals
            storage
            store
            alerts
            (w, [])).1.1
  on_alerts-Permitted chain rpc_decimals storage store alerts w =
      on_alerts-asked chain rpc_decimals storage store _ alerts (w, []) (λ s p. p) tt
