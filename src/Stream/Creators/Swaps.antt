-- ===== src/Stream/Creators/Swaps.antt =====
-- From the creators' sales to the swaps of the auto protection.
use arc_smart_orders.Prelude.{
  ℕ, ◌≡◌, refl, sym, subst, ap, ◌⊎◌, inl, inr, true, List, ◌∷◌, ◌++◌, String, Option, some, none,
  lower, All, All-append, All-map, All-In, In-All, In, map, Bool-cases, [],
}
use arc_smart_orders.Float.{Float}
use arc_smart_orders.Subscriptions.{member}
use arc_smart_orders.AutoProtect.{risk, Store, Storage, Chain, on_alerts}
use arc_smart_orders.AutoProtect.Sales.{recorded, Permitted, on_alerts-Permitted}
use arc_smart_orders.Detect.{
  Alert, LiquidityRemoval, or_text, removes, removal_alert, liquidity_removal_alerts,
}
use arc_smart_orders.Stream.{Settings, IncrementalState, Leg}
use arc_smart_orders.Stream.Feed.{Batch, initial, feed, reported}
use arc_smart_orders.Stream.Creators.{is_creator_sale, Knows, Excused, Fine, quiet}
use arc_smart_orders.Stream.Creators.Legs.{apply_legs-Fine}

-- One of the legs is a sale of the token by its creator, as the dictionary of that cycle has it.
abbrev pub SoldByCreator : {F : Type 0} → List (Batch F) → String → Type 0
SoldByCreator {F} batches token =
    (b : Batch F) × (l : Leg F) × In b batches
    × In l b.legs
    × (is_creator_sale b.creators l ≡ true)
    × (l.token ≡ token)

-- One of the rows is a withdrawal of a part of the pool that is large enough, of the token's pool.
abbrev pub IsWithdrawn :
    (fl : Float) → (min_ratio : fl.F) → List (LiquidityRemoval fl.F) → String → Type 0
IsWithdrawn fl min_ratio rows token =
    (r : LiquidityRemoval fl.F) × In r rows
    × (removes fl min_ratio r ≡ true)
    × (or_text r.token r.pool_id ≡ token)

module _ (fl : Float) (square root : fl.F → fl.F) where
  open fl use {F}

  feed-Fine :
      (known : String → Type 0) (c : Settings F) (batches : List (Batch F)) (s : IncrementalState F)
      → All (λ b. All (λ l. is_creator_sale b.creators l ≡ true → known l.token) b.legs) batches
      → Knows known s.last_dev_sell_block
      → Fine fl square root known (feed fl square root c batches s)
  unfolding feed
  feed-Fine known c [] s all h = quiet fl square root known s h
  feed-Fine known c (b ∷ bs) s (here, all) h =
      let first = apply_legs-Fine fl square root known c b.creators b.emit b.legs s here h in
      let rest = feed-Fine known c bs _ all first.knows in
      record {
        alerts = All-append (Excused known) _ _ first.alerts rest.alerts;
        knows = rest.knows;
      }

  feed-SoldByCreator :
      (c : Settings F) (batches : List (Batch F))
      → All (Excused (SoldByCreator batches)) (feed fl square root c batches initial).0
  feed-SoldByCreator c batches =
      (feed-Fine (SoldByCreator batches) c batches initial
        (All-In _ batches (λ b m. All-In _ b.legs (λ l n sells. (b, l, m, n, sells, refl))))
        tt).alerts

abbrev or_else : String → Option String → String
or_else d none = d
or_else d (some t) = t

liquidity_removal_alerts-IsWithdrawn :
    (fl : Float) (min_ratio : fl.F) (rows : List (LiquidityRemoval fl.F))
    → All (λ a. IsWithdrawn fl min_ratio rows a.token) (liquidity_removal_alerts fl rows min_ratio)
unfolding liquidity_removal_alerts removal_alert
liquidity_removal_alerts-IsWithdrawn fl min_ratio [] = tt
liquidity_removal_alerts-IsWithdrawn fl min_ratio (r ∷ rows) =
    let rest =
      All-map _ _ (liquidity_removal_alerts fl rows min_ratio)
        (λ (a : Alert fl.F) (q, m, e, same). (q, inr m, e, same))
        (liquidity_removal_alerts-IsWithdrawn fl min_ratio rows) in
    elim (Bool-cases (removes fl min_ratio r)) [
      | inl e ↦ rw e ((r, inl refl, e, refl), rest)
      | inr e ↦ rw e rest
    ]

reported-Excused :
    {F : Type 0} (known : String → Type 0) (alerts : List (Alert F))
    → All (Excused known) alerts
    → (kind token : String)
    → In {A = String × Option String}
        (kind, some token)
        (map (λ (a : Alert F). (a.kind, some a.token)) alerts)
    → member kind risk ≡ true
    → known token
reported-Excused known [] all kind token m sells = absurd m
reported-Excused known (a ∷ alerts) (first, all) kind token (inl e) sells =
    subst known (sym (ap (λ (p : String × Option String). or_else token p.1) e)) (
      first (
        subst (λ (k : String). member k risk ≡ true) (ap (λ (p : String × Option String). p.0) e)
          sells))
reported-Excused known (a ∷ alerts) (first, all) kind token (inr m) sells =
    reported-Excused known alerts all kind token m sells

-- Whatever the chain, the signer and the clock do, when the auto protection is handed alerts that are
-- among those of all cycles, from an empty state on, and those of the removals of liquidity: every
-- swap that it asks for is of a token that its creator sold in one of the legs, or of one from whose
-- pool a row withdraws at least half of what was added; and it is allowed: custody is not paused, the
-- chat has auto-protection on, is not frozen and holds the token, and the swap is signed with the
-- secret of the chat's own wallet and pays to that wallet.
pub swaps-SoldByCreator :
    (fl : Float) (square root : fl.F → fl.F) (ratio : ℕ → ℕ → fl.F) (truncate : fl.F → ℕ)
    {W : Type 0} (chain : Chain W) (rpc_decimals : String → ℕ) (storage : Storage fl.F)
    (store : Store) (c : Settings fl.F) (batches : List (Batch fl.F))
    (rows : List (LiquidityRemoval fl.F)) (alerts : List (Alert fl.F)) (w : W)
    → ((a : Alert fl.F)
        → In a alerts
        → In a (
            (feed fl square root c batches initial).0
            ++ liquidity_removal_alerts fl rows (fl.lit 5 1)))
    → All
        (λ s.
          (token : String) × (SoldByCreator batches token ⊎ IsWithdrawn fl (fl.lit 5 1) rows token)
          × Permitted store (lower token) s)
        (on_alerts fl ratio truncate
          (recorded chain)
          rpc_decimals
          storage
          store
          (reported alerts)
          (w, [])).1.1
swaps-SoldByCreator fl square root ratio truncate chain rpc_decimals storage store c batches rows
      alerts w among =
    let half = fl.lit 5 1 in
    let known : String → Type 0 =
      λ token. SoldByCreator batches token ⊎ IsWithdrawn fl half rows token in
    let excused =
      All-append (Excused known) _ _
        (All-map (Excused (SoldByCreator batches)) (Excused known) _ (λ a h k. inl (h k))
          (feed-SoldByCreator fl square root c batches))
        (All-map (λ a. IsWithdrawn fl half rows a.token) (Excused known) _ (λ a h k. inr h)
          (liquidity_removal_alerts-IsWithdrawn fl half rows)) in
    All-map _ _ _
      (λ s (kind, token, m, sells, allowed). (
        token,
        reported-Excused known alerts
            (All-In _ alerts (λ a n. In-All (Excused known) a _ (among a n) excused)) kind token m
            sells,
        allowed,
      ))
      (on_alerts-Permitted fl ratio truncate chain rpc_decimals storage store _ w)
