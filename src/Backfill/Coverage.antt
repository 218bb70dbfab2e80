-- ===== src/Backfill/Coverage.antt =====
-- What fetching a range of blocks leaves behind: no block is dropped in silence.
use native.Mathlib.Nat.{mul-le-mul_right}
use arc_smart_orders.Prelude.{
  ℕ, zero, suc, ◌+◌, ◌-◌, ◌*◌, ◌/◌, ◌<◌, ◌≤◌, ◌≡◌, refl, subst, ◌⊎◌, inl, inr, Bool, true, false,
  ◌&&◌, Option, none, some, List, [], ◌∷◌, ◌++◌, String, str_eq, leb, exists, arith, eq_refl,
  Bool-cases, Option-cases,
}
use arc_smart_orders.Backfill.{
  Gap, Kind, rate_limit, result_limit, other, same_gap, insert_gap, Answer, logs, failed, Source,
  State, give_up, back_off, fetch_topic_logs, classify_rpc_error,
}

exists-append :
    {A : Type 0} (q : A → Bool) (xs ys : List A)
    → (exists q xs ≡ true) ⊎ (exists q ys ≡ true)
    → exists q (xs ++ ys) ≡ true
exists-append q [] ys (inl h) = absurd (ground arith)
exists-append q [] ys (inr h) = h
exists-append q (x ∷ xs) ys (inl h) = elim (Bool-cases (q x)) [
  | inl e ↦ rw e refl
  | inr e ↦ rw e (exists-append q xs ys (inl (rw e at h)))
]
exists-append q (x ∷ xs) ys (inr h) = elim (Bool-cases (q x)) [
  | inl e ↦ rw e refl
  | inr e ↦ rw e (exists-append q xs ys (inr h))
]

exists-implies :
    {A : Type 0} (p q : A → Bool) (xs : List A)
    → ((x : A) → p x ≡ true → q x ≡ true)
    → exists p xs ≡ true
    → exists q xs ≡ true
exists-implies p q [] f h = h
exists-implies p q (x ∷ xs) f h = elim (Bool-cases (p x)) [
  | inl e ↦ rw (f x e) refl
  | inr e ↦ elim (Bool-cases (q x)) [
    | inl t ↦ rw t refl
    | inr t ↦ rw t (exists-implies p q xs f (rw e at h))
  ]
]

-- A gap of the job around a block.
abbrev pub gap_at : String → ℕ → Gap → Bool
gap_at job n g = str_eq g.job job && (leb g.from_block n && leb n g.to_block)

insert_gap-keeps :
    (q : Gap → Bool) (g : Gap) (gaps : List Gap)
    → exists q gaps ≡ true
    → exists q (insert_gap g gaps).1 ≡ true
unfolding insert_gap
insert_gap-keeps q g gaps h = elim (Bool-cases (exists (same_gap g) gaps)) [
  | inl e ↦ rw e h
  | inr e ↦ rw e (exists-append q gaps (g ∷ []) (inl h))
]

insert_gap-at :
    (n : ℕ) (g : Gap) (gaps : List Gap)
    → str_eq g.job g.job ≡ true
    → g.from_block ≤ n
    → n ≤ g.to_block
    → exists (gap_at g.job n) (insert_gap g gaps).1 ≡ true
unfolding insert_gap
insert_gap-at n g gaps own lo hi = elim (Bool-cases (exists (same_gap g) gaps)) [
  | inl e ↦ rw e (exists-implies (same_gap g) (gap_at g.job n) gaps (λ h k. ground (arith, k)) e)
  | inr e ↦
      let here : exists (gap_at g.job n) (g ∷ []) ≡ true =
        let low : leb g.from_block n ≡ true = ground arith in
        let high : leb n g.to_block ≡ true = ground arith in rw (own, low, high) refl in
      rw e (exists-append (gap_at g.job n) gaps (g ∷ []) (inr here))
]

pub Kind-cases : (k : Kind) → (k ≡ result_limit) ⊎ ((k ≡ rate_limit) ⊎ (k ≡ other))
Kind-cases result_limit = inl refl
Kind-cases rate_limit = inr (inl refl)
Kind-cases other = inr (inr refl)

pub Answer-cases :
    {Log : Type 0} (x : Answer Log)
    → ((ls : List Log) × (x ≡ logs ls)) ⊎ ((message : String) × (x ≡ failed message))
Answer-cases (logs ls) = inl (ls, refl)
Answer-cases (failed message) = inr (message, refl)

-- Fuel for a range of `d + 1` blocks: a round and its retries for each half that a split can make.
abbrev pub Enough : (d max_retries attempt fuel : ℕ) → Type 0
Enough d max_retries attempt fuel = d * (max_retries + 1) + (max_retries - attempt) < fuel

Enough-split :
    (x y max_retries attempt fuel : ℕ)
    → x < y
    → Enough y max_retries attempt (suc fuel)
    → Enough x max_retries 0 fuel
Enough-split x y max_retries attempt fuel h f =
    omega (arith, mul-le-mul_right (max_retries + 1) h, f)

module _ {Log World : Type 0} (source : Source Log World) (q : Log → Bool) (n : ℕ)
    (job : String) where
  -- Gaps stay, and what the chain has of `q` at the block is in the logs or the block is in a gap.
  Part : (held : Bool) → ℕ → ℕ → State World → Option (List Log × State World) → Type 0
  Part held a b s none = ⊥
  Part held a b s (some (ls, s')) =
      (exists (gap_at job n) s.gaps ≡ true → exists (gap_at job n) s'.gaps ≡ true)
      × (a ≤ n
          → n ≤ b
          → held ≡ true
          → (exists q ls ≡ true) ⊎ (exists (gap_at job n) s'.gaps ≡ true))

  give_up-Part :
      (held : Bool) (a b : ℕ) (kind : Kind) (attempts : ℕ) (s s' : State World)
      → str_eq job job ≡ true
      → s'.gaps ≡ s.gaps
      → Part held a b s (some ([], give_up source job a b kind attempts s'))
  unfolding Part give_up
  give_up-Part held a b kind attempts s s' own same = rw (← same) (
    insert_gap-keeps (gap_at job n) _ s'.gaps,
    (λ lo hi h. inr (insert_gap-at n _ s'.gaps own lo hi)),
  )

  split_Part :
      (held : Bool) (a m b : ℕ) (s : State World) (left : Option (List Log × State World))
      (right : State World → Option (List Log × State World))
      → Part held a m s left
      → ((s1 : State World) → Part held (m + 1) b s1 (right s1))
      → Part held a b s (elim left [
        | none ↦ none
        | some (ls, s1) ↦ elim (right s1) [ none ↦ none | some (rs, s2) ↦ some (ls ++ rs, s2) ]
      ])
  unfolding Part
  split_Part held a m b s none right p r = p
  split_Part held a m b s (some (ls, s1)) right p r = elim (Option-cases (right s1)) [
    | inl e ↦ absurd (subst (λ o. Part held (m + 1) b s1 o) e (r s1))
    | inr ((rs, s2), e) ↦
        let both = subst (λ o. Part held (m + 1) b s1 o) e (r s1) in
        rw e (
          (λ h. both.0 (p.0 h)),
          (λ lo hi h. elim (Bool-cases (leb n m)) [
            | inl low ↦ elim (p.1 lo (ground arith) h) [
              | inl k ↦ inl (exists-append q ls rs (inl k))
              | inr k ↦ inr (both.0 k)
            ]
            | inr high ↦ elim (both.1 (ground arith) hi h) [
              | inl k ↦ inl (exists-append q ls rs (inr k))
              | inr k ↦ inr k
            ]
          ]),
        )
  ]

  fetch_Part :
      (held : Bool)
      → ((a b : ℕ) (w : World) (ls : List Log)
          → (source._logs a b w).0 ≡ logs ls
          → a ≤ n
          → n ≤ b
          → held ≡ true
          → exists q ls ≡ true)
      → str_eq job job ≡ true
      → (fuel a b min_size max_retries attempt : ℕ) (s : State World) → 1 ≤ min_size
      → a ≤ b
      → attempt ≤ max_retries
      → Enough (b - a) max_retries attempt fuel
      → Part held a b s (fetch_topic_logs source fuel a b job min_size max_retries attempt s)
  unfolding fetch_topic_logs Part back_off
  fetch_Part held honest own zero a b min_size max_retries attempt s pos ord tries f =
      absurd (omega arith)
  fetch_Part held honest own (suc fuel) a b min_size max_retries attempt s pos ord tries f =
      let s' : State World = record s { world = (source._logs a b s.world).1 } in
      let again : attempt < max_retries
          → Part held a b s' (
              fetch_topic_logs source fuel a b job min_size max_retries (attempt + 1)
                (back_off source attempt s')) =
        λ more.
          fetch_Part held honest own fuel a b min_size max_retries (attempt + 1)
            (back_off source attempt s') pos ord (omega arith) (omega (arith, f)) in
      elim (Answer-cases ((source._logs a b s.world).0)) [
        | inl (ls, e) ↦ rw (Part, e) ((λ h. h), (λ lo hi h. inl (honest a b s.world ls e lo hi h)))
        | inr (message, e) ↦ elim (Kind-cases (classify_rpc_error message)) [
          | inl limit ↦ elim (Bool-cases (leb (b + 1 - a) min_size)) [
            | inl small ↦
                rw (Part, e, limit, small)
                  (give_up-Part held a b result_limit (attempt + 1) s s' own refl)
            | inr large ↦
                let mid = (a + b) / 2 in
                let wide : a < b = ground (arith, large) in
                let l : a ≤ mid = omega (arith, wide) in
                let r : mid < b = omega (arith, wide) in
                rw (Part, e, limit, large)
                  (split_Part held a mid b s' _
                    (λ s1. fetch_topic_logs source fuel (mid + 1) b job min_size max_retries 0 s1)
                    (fetch_Part held honest own fuel a mid min_size max_retries 0 s' pos l
                      (omega arith)
                      (Enough-split (mid - a) (b - a) max_retries attempt fuel (omega (arith, l, r))
                        f))
                    (λ s1.
                      fetch_Part held honest own fuel (mid + 1) b min_size max_retries 0 s1 pos
                        (omega (arith, r)) (omega arith)
                        (Enough-split (b - (mid + 1)) (b - a) max_retries attempt fuel
                          (omega (arith, l, r)) f)))
          ]
          | inr (inl limit) ↦ elim (Bool-cases (leb max_retries attempt)) [
            | inl spent ↦
                rw (Part, e, limit, spent)
                  (give_up-Part held a b rate_limit (attempt + 1) s s' own refl)
            | inr left ↦ rw (Part, e, limit, left) (again (ground arith))
          ]
          | inr (inr limit) ↦ elim (Bool-cases (leb max_retries attempt)) [
            | inl spent ↦
                rw (Part, e, limit, spent) (give_up-Part held a b other (attempt + 1) s s' own refl)
            | inr left ↦ rw (Part, e, limit, left) (again (ground arith))
          ]
        ]
      ]

module _ {Log World : Type 0} (source : Source Log World) (chain : ℕ → List Log) where
  pub fetch_topic_logs_covers :
      ((a b : ℕ) (w : World) (ls : List Log) (n : ℕ) (q : Log → Bool)
        → (source._logs a b w).0 ≡ logs ls
        → a ≤ n
        → n ≤ b
        → exists q (chain n) ≡ true
        → exists q ls ≡ true)
      → (fuel a b : ℕ) (job : String) (min_size max_retries : ℕ) (s : State World) (n : ℕ)
        (q : Log → Bool)
      → 1 ≤ min_size
      → (b - a) * (max_retries + 1) + max_retries < fuel
      → a ≤ n
      → n ≤ b
      → exists q (chain n) ≡ true
      → (ls : List Log) × (s' : State World) × (fetch_topic_logs source fuel a b job min_size
            max_retries 0 s
          ≡ some (ls, s'))
        × ((exists q ls ≡ true) ⊎ (exists (gap_at job n) s'.gaps ≡ true))
  unfolding Part
  fetch_topic_logs_covers honest fuel a b job min_size max_retries s n q pos f lo hi held =
      let part =
        fetch_Part source q n job (exists q (chain n)) (λ a b w ls. honest a b w ls n q)
          (eq_refl job) fuel a b min_size max_retries 0 s pos (omega (arith, lo, hi)) (omega arith)
          (omega (arith, f)) in
      elim (Option-cases (fetch_topic_logs source fuel a b job min_size max_retries 0 s)) [
        | inl e ↦ absurd (subst (λ o. Part source q n job (exists q (chain n)) a b s o) e part)
        | inr ((ls, s'), e) ↦
            let done = subst (λ o. Part source q n job (exists q (chain n)) a b s o) e part in
            (ls, s', e, done.1 lo hi held)
      ]

  -- Fetching ends, and the gaps that there are stay.
  pub fetch_topic_logs_keeps :
      (fuel a b : ℕ) (job : String) (min_size max_retries : ℕ) (s : State World)
      → 1 ≤ min_size
      → a ≤ b
      → (b - a) * (max_retries + 1) + max_retries < fuel
      → (ls : List Log) × (s' : State World) × (fetch_topic_logs source fuel a b job min_size
            max_retries 0 s
          ≡ some (ls, s'))
        × ((n : ℕ) → exists (gap_at job n) s.gaps ≡ true → exists (gap_at job n) s'.gaps ≡ true)
  unfolding Part
  fetch_topic_logs_keeps fuel a b job min_size max_retries s pos le f =
      let part = λ (n : ℕ).
        fetch_Part source (λ l. true) n job false (λ a b w ls e lo hi h. absurd (ground arith))
          (eq_refl job) fuel a b min_size max_retries 0 s pos le (omega arith) (omega (arith, f)) in
      elim (Option-cases (fetch_topic_logs source fuel a b job min_size max_retries 0 s)) [
        | inl e ↦ absurd (subst (λ o. Part source (λ l. true) 0 job false a b s o) e (part 0))
        | inr ((ls, s'), e) ↦ (
          ls,
          s',
          e,
          λ n. (subst (λ o. Part source (λ l. true) n job false a b s o) e (part n)).0,
        )
      ]
