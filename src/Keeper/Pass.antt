-- ===== src/Keeper/Pass.antt =====
-- A pass of the keeper that no other connection disturbs, and what it leaves of every order.
use mathlib.Core.Option
use arc_smart_orders.Prelude.{
  ℕ, ◌+◌, ◌≡◌, ◌≢◌, refl, ◌∙◌, true, false, some, String, List, [], ◌∷◌, if◌then◌else◌, ◌==◌,
  ==_iff, ==_refl, arith, All, length, exists, nonempty, Bool-cases, Option-cases, inl, inr,
  All-map, All-both,
}
use arc_smart_orders.Sql.{Distinct}
use arc_smart_orders.Orders.{
  Preorder, Table, signed, submitting, executed, coalesce, get_preorder, claim_order, has_id,
  set_preorder_status, orders_due,
}
use arc_smart_orders.Orders.Lookup.{
  get-claim, get-mark_executed, get-bump_attempt, get-set_preorder_status, get_preorder-id,
  claim_signed,
}
use arc_smart_orders.Orders.Valid.{IsValid}
use arc_smart_orders.Orders.Due.{IsReady, orders_due-IsReady}
use arc_smart_orders.Keeper.{
  Outcome, sent, raised, Submit, OnExecuted, Summary, nothing_done, or_env, settle, keeper_step,
  keeper_loop, run_keeper,
}

-- The orders that a pass took on.
abbrev pub total : Summary → ℕ
total s = s.submitted + s.failed

module _ {Real : Type 0} where
  -- A submission that answers by `f` while nobody else writes the table.
  abbrev pub quiet : (Preorder Real → Outcome) → Submit Real
  quiet f po t = (f po, t)

  abbrev pub no_callback : OnExecuted Real
  no_callback po tx t = t

  abbrev pub outcome_row : Outcome → Preorder Real → Preorder Real
  outcome_row (sent tx) r = record r { status = executed; tx_hash = some tx }
  outcome_row raised r = record r { status = signed; attempts = some (coalesce r.attempts 0 + 1) }

  settle-get :
      (o : Outcome) (d : Preorder Real) (t : Table Real) (s : Summary) (k : ℕ)
      → get_preorder k (settle no_callback d s (o, t)).0
        ≡ Option.map (λ r. if r.id == d.id then outcome_row o r else r) (get_preorder k t)
  unfolding settle
  settle-get (sent tx) d t s k = get-mark_executed k d.id tx t
  settle-get raised d t s k =
      let e₁ = get-bump_attempt k d.id (set_preorder_status d.id signed t) in
      let e₂ = get-set_preorder_status k d.id signed t in
      elim (Option-cases (get_preorder k t)) [
        | inl absent ↦ ground (arith, e₁, e₂)
        | inr (r, found) ↦ ground (arith, e₁, e₂)
      ]

  outcome-submitting :
      (o : Outcome) (d : Preorder Real)
      → outcome_row o (record d { status = submitting }) ≡ outcome_row o d
  outcome-submitting (sent tx) d = refl
  outcome-submitting raised d = refl

  settle-total :
      (o : Outcome) (d : Preorder Real) (t : Table Real) (s : Summary)
      → total (settle no_callback d s (o, t)).1 ≡ total s + 1
  unfolding settle
  settle-total (sent tx) d t s = omega arith
  settle-total raised d t s = omega arith

  module _ (f : Preorder Real → Outcome) where
    -- One round on an order that is ready: its row becomes what the outcome says, and no other
    -- row changes.
    step-get :
        (d : Preorder Real) (t : Table Real) (s : Summary) (k : ℕ)
        → IsReady t d
        → get_preorder k (keeper_step (quiet f) no_callback d t s).0
          ≡ (if k == d.id then some (outcome_row (f d) d) else get_preorder k t)
    unfolding keeper_step
    step-get d t s k (found, is_signed) =
        let claimed = claim_signed t d found is_signed in
        let e₁ = settle-get (f d) d (claim_order d.id t).1 s k in
        let e₂ = get-claim k d.id t in
        elim (Bool-cases (k == d.id)) [
          | inl same ↦
              let e : k ≡ d.id = (==_iff k d.id).0 same in
              let here : get_preorder k t ≡ some d = rw e found in
              rw (claimed, same)
                (ground (arith, e₁, e₂, here, is_signed, outcome-submitting (f d) d, ==_refl d.id))
          | inr other ↦
              rw (claimed, other)
                (elim (Option-cases (get_preorder k t)) [
                  | inl absent ↦ ground (arith, e₁, e₂)
                  | inr (r, there) ↦ ground (arith, e₁, e₂, there, get_preorder-id k t r there)
                ])
        ]

    step-total :
        (d : Preorder Real) (t : Table Real) (s : Summary)
        → IsReady t d
        → total (keeper_step (quiet f) no_callback d t s).1 ≡ total s + 1
    unfolding keeper_step
    step-total d t s (found, is_signed) =
        rw (claim_signed t d found is_signed) (settle-total (f d) d (claim_order d.id t).1 s)

    absent_of_ne :
        (k : ℕ) (ds : List (Preorder Real))
        → All (λ (d : Preorder Real). d.id ≢ k) ds
        → exists (has_id k) ds ≡ false
    absent_of_ne k [] h = refl
    absent_of_ne k (d ∷ ds) h = ground (arith, absent_of_ne k ds h.1)

    -- What a pass from `t` to `t'` does to the orders `ds` and to all others.
    abbrev Settles : List (Preorder Real) → Table Real → Table Real → Type 0
    Settles ds t t' =
        All (λ d. get_preorder d.id t' ≡ some (outcome_row (f d) d)) ds
        × ((k : ℕ) → exists (has_id k) ds ≡ false → get_preorder k t' ≡ get_preorder k t)

    step-IsReady :
        (d : Preorder Real) (t : Table Real) (s : Summary) (ds : List (Preorder Real))
        → IsReady t d
        → All (λ (x : Preorder Real). x.id ≢ d.id) ds
        → All (IsReady t) ds
        → All (IsReady (keeper_step (quiet f) no_callback d t s).0) ds
    step-IsReady d t s ds ready ne h =
        All-map _ _ ds
          (λ x (differs, (found, is_signed)).
            (step-get d t s x.id ready ∙ ground (arith, differs, found), is_signed))
          (All-both _ _ ds ne h)

    loop-Settles :
        (ds : List (Preorder Real)) (t : Table Real) (s : Summary)
        → All (IsReady t) ds
        → Distinct (λ (d : Preorder Real). d.id) ds
        → let (t', s') = keeper_loop (quiet f) no_callback ds t s in
          Settles ds t t' × (total s' ≡ total s + length ds)
    unfolding keeper_loop
    loop-Settles [] t s h u = ((tt, λ k e. refl), omega arith)
    loop-Settles (d ∷ ds) t s h u =
        let (t₁, s₁) = keeper_step (quiet f) no_callback d t s in
        let ready = step-IsReady d t s ds h.0 u.0 h.1 in
        let (rest, count) = loop-Settles ds t₁ s₁ ready u.1 in
        let head = rest.1 d.id (absent_of_ne d.id ds u.0) in
        let own = step-get d t s d.id h.0 in
        (
          (
            (head ∙ own ∙ ground (arith, ==_refl d.id), rest.0),
            λ k e. rest.1 k (ground arith) ∙ step-get d t s k h.0 ∙ ground arith,
          ),
          omega (arith, count, step-total d t s h.0),
        )

  found_of_exists :
      (Q : Preorder Real → Type 0) (k : ℕ) (ds : List (Preorder Real))
      → All Q ds
      → exists (has_id k) ds ≡ true
      → (d : Preorder Real) × (d.id ≡ k) × Q d
  found_of_exists Q k [] h e = absurd (ground arith)
  found_of_exists Q k (d ∷ ds) h e = elim (Bool-cases (d.id == k)) [
    | inl same ↦ (d, (==_iff d.id k).0 same, h.0)
    | inr other ↦ found_of_exists Q k ds h.1 (rw other at e)
  ]

  -- What a pass that takes `due` makes of the row `r`.
  abbrev pub after_pass :
      (Preorder Real → Outcome) → List (Preorder Real) → Preorder Real → Preorder Real
  after_pass f due r = if exists (has_id r.id) due then outcome_row (f r) r else r

  Settles-after_pass :
      (f : Preorder Real → Outcome) (due : List (Preorder Real)) (t t' : Table Real)
      → All (IsReady t) due
      → Settles f due t t'
      → (k : ℕ) → get_preorder k t' ≡ Option.map (after_pass f due) (get_preorder k t)
  Settles-after_pass f due t t' ready (done, others) k = elim (Bool-cases (exists (has_id k) due)) [
    | inl taken ↦
        let (d, same, ((here, _), row)) =
          found_of_exists (λ d. IsReady t d × (get_preorder d.id t' ≡ some (outcome_row (f d) d))) k
            due (All-both _ _ due ready done) taken in
        let there : get_preorder k t ≡ some d = rw same at here in
        let row' : get_preorder k t' ≡ some (outcome_row (f d) d) = rw same at row in
        rw (row', there) (ground (arith, same, taken))
    | inr left ↦ elim (Option-cases (get_preorder k t)) [
      | inl absent ↦ ground (arith, others k left, absent)
      | inr (r, there) ↦ ground (arith, others k left, there, get_preorder-id k t r there)
    ]
  ]

  -- A configured pass over a valid table, undisturbed by other connections, where submission
  -- answers by `f`: every order that is due becomes executed with its transaction, or signed with
  -- one more attempt; no other order changes; the two counts add up to the number of orders due.
  pub run_keeper-after_pass :
      (f : Preorder Real → Outcome) (executor env_executor relayer env_relayer : String)
      (now limit k : ℕ) (t : Table Real)
      → IsValid t
      → nonempty (or_env executor env_executor) ≡ true
      → nonempty (or_env relayer env_relayer) ≡ true
      → let due = orders_due "buy" now limit t in
        let (t', report) =
          run_keeper (quiet f) no_callback executor env_executor relayer env_relayer now limit t in
        (get_preorder k t' ≡ Option.map (after_pass f due) (get_preorder k t))
        × (total report.summary ≡ length due)
  unfolding run_keeper
  run_keeper-after_pass f executor env_executor relayer env_relayer now limit k t v ex re =
      let due = orders_due "buy" now limit t in
      let (ready, _, distinct, _) = orders_due-IsReady "buy" now limit t v in
      let (settles, count) = loop-Settles f due t nothing_done ready distinct in
      let t' = (keeper_loop (quiet f) no_callback due t nothing_done).0 in
      rw (ex, re) (Settles-after_pass f due t t' ready settles k, omega (arith, count))
