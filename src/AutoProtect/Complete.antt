-- ===== src/AutoProtect/Complete.antt =====
-- Everyone's turn comes.
use mathlib.Core.List.{append_assoc, append-nil}
use arc_smart_orders.Prelude.{
  ℕ, suc, ◌+◌, ◌≡◌, ◌≢◌, refl, sym, ap, ◌∙◌, subst, true, false, Bool-cases, Option-cases, inl, inr,
  Option, none, some, List, [], ◌∷◌, ◌++◌, String, lower, nonempty, All, length, if◌then◌else◌,
  All-map,
}
use arc_smart_orders.Float.{Float}
use arc_smart_orders.State.{custody_paused}
use arc_smart_orders.Custody.{Wallet, get_custody}
use arc_smart_orders.Subscriptions.{Subscriber}
use arc_smart_orders.AutoProtect.{
  Pool, Store, Sale, Chain, is_protected, sale, sale_for, submit, submit_if, sell_one, sell_each,
  sell_for_holders, Storage, load_pool, latest_price,
}
use arc_smart_orders.AutoProtect.Sales.{recorded, sale_for-eq_some}

-- Every call succeeds; an approval moves no token, and a swap takes the token that is sold from no
-- one but its recipient.
pub record IsCalm {W : Type 0} (chain : Chain W) : Type 0 where
  pub approves :
      (chat enc_secret token : String) (w : W)
      → (chain.ensure_approval chat enc_secret token w).0 ≡ true
  pub approval_moves_nothing :
      (chat enc_secret token t holder : String) (w : W)
      → chain.erc20_balance t holder (chain.ensure_approval chat enc_secret token w).1
        ≡ chain.erc20_balance t holder w
  pub swaps : (s : Sale) (nonce deadline : ℕ) (w : W) → (chain.swap s nonce deadline w).0 ≡ true
  pub swap_moves_own :
      (s : Sale) (nonce deadline : ℕ) (holder : String) (w : W)
      → s.recipient ≢ holder
      → chain.erc20_balance s.token_in holder (chain.swap s nonce deadline w).1
        ≡ chain.erc20_balance s.token_in holder w

-- The wallets of two chats have different addresses.
abbrev pub Apart : Store → String → String → Type 0
Apart store a b =
    (c d : Wallet)
    → get_custody a store.vault ≡ some c
    → get_custody b store.vault ≡ some d
    → c.address ≢ d.address

abbrev pub OwnWallets : Store → List Subscriber → Type 0
OwnWallets store [] = Unit
OwnWallets store (x ∷ xs) = All (λ y. Apart store x.chat_id y.chat_id) xs × OwnWallets store xs

abbrev cons_if : Option Sale → List Sale → List Sale
cons_if none ss = ss
cons_if (some s) ss = s ∷ ss

module _ (fl : Float) (ratio : ℕ → ℕ → fl.F) (truncate : fl.F → ℕ) where
  open fl use {F}

  module _ {W : Type 0} (chain : Chain W) (pct floor_pct price : F) (dec : ℕ) (pool : Pool)
      (store : Store) (token : String) where
    -- What there is to sell in one state of the world.
    abbrev pub sales : List Subscriber → W → List Sale
    sales [] w = []
    sales (x ∷ xs) w =
        cons_if
          (sale_for fl ratio truncate chain pct floor_pct price dec pool store token x.chat_id w)
          (sales xs w)

    -- The balance of a chat's own wallet is all that a sale depends on.
    Same : W → W → String → Type 0
    Same v w chat =
        (c : Wallet)
        → get_custody chat store.vault ≡ some c
        → chain.erc20_balance token c.address v ≡ chain.erc20_balance token c.address w

    sale_for-Same :
        (chat : String) (v w : W)
        → Same v w chat
        → sale_for fl ratio truncate chain pct floor_pct price dec pool store token chat v
          ≡ sale_for fl ratio truncate chain pct floor_pct price dec pool store token chat w
    unfolding sale_for Same
    sale_for-Same chat v w same = elim (Bool-cases (is_protected store token chat)) [
      | inr e ↦ rw e refl
      | inl e ↦ elim (Option-cases (get_custody chat store.vault)) [
        | inl f ↦ rw (e, f) refl
        | inr (c, f) ↦ rw (e, f, same c f) refl
      ]
    ]

    sales-Same :
        (xs : List Subscriber) (v w : W)
        → All (λ x. Same v w x.chat_id) xs
        → sales xs v ≡ sales xs w
    sales-Same [] v w h = refl
    sales-Same (x ∷ xs) v w (e, h) =
        ap (λ o. cons_if o (sales xs v)) (sale_for-Same x.chat_id v w e)
        ∙ ap (cons_if _) (sales-Same xs v w h)

    -- The world after the calls of a sale.
    abbrev after : Sale → W → W
    after s w =
        let w₁ = (chain.ensure_approval s.chat s.enc_secret s.token_in w).1 in
        (chain.swap s (chain.new_nonce w₁) (chain.time w₁ + 300) w₁).1

    after-Same :
        (a b : String) (s : Sale) (w : W)
        → IsCalm chain
        → Apart store a b
        → sale_for fl ratio truncate chain pct floor_pct price dec pool store token a w ≡ some s
        → Same (after s w) w b
    unfolding Same sale
    after-Same a b s w calm apart h =
        let (on, (c, bal, there, same)) =
          sale_for-eq_some fl ratio truncate chain pct floor_pct price dec pool store token a w s
            h in
        subst (λ (r : Sale). Same (after r w) w b) same
          (λ d found.
            calm.swap_moves_own _ _ _ d.address _ (apart c d there found)
            ∙ calm.approval_moves_nothing _ _ _ token d.address w)

    submit-after :
        (s : Sale) (w : W) (l : List Sale)
        → IsCalm chain
        → submit fl ratio truncate
            (recorded chain)
            pct
            floor_pct
            price
            dec
            pool
            store
            token
            s
            (w, l)
          ≡ (true, (after s w, l ++ s ∷ []))
    unfolding submit
    submit-after s w l calm =
        rw (calm.approves s.chat s.enc_secret s.token_in w)
          (ap (λ b. (b, (after s w, l ++ s ∷ []))) (calm.swaps s _ _ _))

    -- A run has sold `ss` behind `l`.
    Sold : ℕ × (W × List Sale) → List Sale → List Sale → Type 0
    Sold out l ss = (out.0 ≡ length ss) × (out.1.1 ≡ l ++ ss)

    sell_rec : List Subscriber → W × List Sale → ℕ × (W × List Sale)
    sell_rec xs w =
        sell_each fl ratio truncate (recorded chain) pct floor_pct price dec pool store token xs w

    turn-Sold :
        (o : Option Sale) (x : Subscriber) (xs : List Subscriber) (w : W) (l : List Sale)
        → IsCalm chain
        → All (λ y. Apart store x.chat_id y.chat_id) xs
        → ((v : W) (m : List Sale) → Sold (sell_rec xs (v, m)) m (sales xs v))
        → sale_for fl ratio truncate chain pct floor_pct price dec pool store token x.chat_id w ≡ o
        → let (done, w₁) =
            submit_if fl ratio truncate
              (recorded chain)
              pct
              floor_pct
              price
              dec
              pool
              store
              token
              o
              (w, l) in
          let (sold, w₂) = sell_rec xs w₁ in
          Sold (if done then suc sold else sold, w₂) l (cons_if o (sales xs w))
    unfolding submit_if Sold
    turn-Sold none x xs w l calm apart ih h = ih w l
    turn-Sold (some s) x xs w l calm apart ih h =
        let (count, log) = ih (after s w) (l ++ s ∷ []) in
        let same : sales xs (after s w) ≡ sales xs w =
          sales-Same xs (after s w) w
            (All-map _ _ xs (λ y far. after-Same x.chat_id y.chat_id s w calm far h) apart) in
        rw (submit-after s w l calm) (
          ap suc (count ∙ ap length same),
          log ∙ ap (◌++◌ (l ++ s ∷ [])) same ∙ append_assoc l (s ∷ []) _,
        )

    sell_each-Sold :
        (xs : List Subscriber) (w : W) (l : List Sale)
        → IsCalm chain
        → OwnWallets store xs
        → Sold (sell_rec xs (w, l)) l (sales xs w)
    unfolding sell_each sell_one sell_rec Sold sale_for sale
    sell_each-Sold [] w l calm own = (refl, sym (append-nil l))
    sell_each-Sold (x ∷ xs) w l calm (apart, own) =
        turn-Sold _ x xs w l calm apart (λ v m. sell_each-Sold xs v m calm own) refl

  -- Where every call succeeds, swaps take the token from their own wallets only and the wallets of
  -- the subscribers have different addresses: unless custody is paused, the sale of a token with a pool
  -- sells for everyone whom the guards let through, and for nobody twice. The swaps that it asks for
  -- are, in the order of the subscribers, the sales that the guards and the balances at the start
  -- give, and it returns their number.
  pub sell_for_holders-sales :
      {W : Type 0} (chain : Chain W) (pct floor_pct : F) (rpc_decimals : String → ℕ)
      (storage : Storage F) (store : Store) (token : String) (pool : Pool) (w : W)
      → IsCalm chain
      → OwnWallets store store.subscribers
      → nonempty token ≡ true
      → custody_paused store.vault.state ≡ false
      → load_pool storage (lower token) ≡ some pool
      → let t = lower token in
        let out =
          sell_for_holders fl ratio truncate
            (recorded chain)
            pct
            floor_pct
            rpc_decimals
            storage
            store
            token
            (w, []) in
        let price = latest_price fl ratio truncate storage t in
        let ss =
          sales chain pct floor_pct price (rpc_decimals t) pool store t store.subscribers w in
        (out.0 ≡ length ss) × (out.1.1 ≡ ss)
  unfolding Sold sell_rec sell_for_holders
  sell_for_holders-sales chain pct floor_pct rpc_decimals storage store token pool w calm own there
        on found =
      rw (there, on, found)
        (sell_each-Sold chain pct floor_pct _ _ pool store (lower token) store.subscribers w [] calm
          own)
