-- ===== src/Alerts/Spacing.antt =====
-- Alerts that pass the cooldown are a window apart.
use arc_smart_orders.Prelude.{
  ℕ, ◌+◌, ◌≤◌, ◌≡◌, refl, sym, ap, subst, ◌∙◌, true, false, ◌&&◌, Option, none, some, List, [], ◌∷◌,
  String, str_eq, ltb, find, exists, arith, inl, inr, Bool-cases, Option-cases, eq_refl, eq_iff,
  and_false, and_split, if◌then◌else◌,
}
use arc_smart_orders.Sql.{
  find-update_where, find-holds, exists-find-none, exists-find-some, find-append_none,
  find-append_some, find-append_miss,
}
use arc_smart_orders.Alerts.{Cooldown, cooldown_ok, cools, too_soon}

pub record Call : Type 0 where
  pub token : String
  pub kind : String
  pub now_ts : ℕ

module _ (window_s : ℕ) (token kind : String) where
  -- The times at which calls for the token and the kind pass, in a sequence of calls with one window.
  abbrev pub passes : List Call → List Cooldown → List ℕ
  passes [] t = []
  passes (c ∷ calls) t =
      let rest = passes calls (cooldown_ok c.token c.kind c.now_ts window_s t).1 in
      if (cooldown_ok c.token c.kind c.now_ts window_s t).0
        && (str_eq c.token token && str_eq c.kind kind)
      then c.now_ts ∷ rest
      else rest

-- Each time is the window or more after the one before it.
abbrev pub AreApart : ℕ → List ℕ → Type 0
AreApart window_s [] = Unit
AreApart window_s (a ∷ []) = Unit
AreApart window_s (a ∷ b ∷ rest) = (a + window_s ≤ b) × AreApart window_s (b ∷ rest)

module _ (token kind : String) where
  cools-apart :
      (token' kind' : String) (c : Cooldown)
      → (str_eq token' token && str_eq kind' kind) ≡ false
      → cools token kind c ≡ true
      → cools token' kind' c ≡ false
  cools-apart token' kind' c apart own = elim (Bool-cases (cools token' kind' c)) [
    | inr e ↦ e
    | inl e ↦
        let (t, k) = and_split (str_eq c.token token) (str_eq c.kind kind) own in
        let (t', k') = and_split (str_eq c.token token') (str_eq c.kind kind') e in
        let same_token =
          (eq_iff token' token).1
            (sym ((eq_iff c.token token').0 t') ∙ (eq_iff c.token token).0 t) in
        let same_kind =
          (eq_iff kind' kind).1 (sym ((eq_iff c.kind kind').0 k') ∙ (eq_iff c.kind kind).0 k) in
        absurd (ground (arith, rw (same_token, same_kind) at apart))
  ]

  -- Calls for others leave the row.
  find-cooldown_ok_other :
      (token' kind' : String) (now_ts window_s : ℕ) (t : List Cooldown)
      → (str_eq token' token && str_eq kind' kind) ≡ false
      → find (cools token kind) (cooldown_ok token' kind' now_ts window_s t).1
        ≡ find (cools token kind) t
  unfolding cooldown_ok
  find-cooldown_ok_other token' kind' now_ts window_s t apart =
      let q = cools token kind in
      let fresh : Cooldown = record { token = token'; kind = kind'; ts = now_ts } in
      let written =
        find-update_where q (cools token' kind') (λ c. record c { ts = now_ts }) t (λ c. refl) in
      elim (Bool-cases (too_soon now_ts window_s (find (cools token' kind') t))) [
        | inl e ↦ rw e refl
        | inr e ↦ elim (Bool-cases (exists (cools token' kind') t)) [
          | inl there ↦ elim (Option-cases (find q t)) [
            | inl f ↦ rw (e, there, written, f) refl
            | inr (c, f) ↦
                rw (e, there, written, f, cools-apart token' kind' c apart (find-holds q t c f))
                  refl
          ]
          | inr missing ↦ elim (Option-cases (find q t)) [
            | inl f ↦ rw (e, missing, find-append_miss q t fresh f apart, f) refl
            | inr (c, f) ↦ rw (e, missing, find-append_some q t fresh c f, f) refl
          ]
        ]
      ]

  -- A call that passes writes its time.
  find-cooldown_ok_own :
      (now_ts window_s : ℕ) (t : List Cooldown)
      → (cooldown_ok token kind now_ts window_s t).0 ≡ true
      → (c : Cooldown) × (find (cools token kind) (cooldown_ok token kind now_ts window_s t).1
          ≡ some c)
        × (c.ts ≡ now_ts)
  unfolding cooldown_ok
  find-cooldown_ok_own now_ts window_s t passes =
      let q = cools token kind in
      let written = find-update_where q q (λ c. record c { ts = now_ts }) t (λ c. refl) in
      let fresh : Cooldown = record { token = token; kind = kind; ts = now_ts } in
      let own : q fresh ≡ true = rw (eq_refl token, eq_refl kind) refl in
      elim (Bool-cases (too_soon now_ts window_s (find q t))) [
        | inl e ↦ absurd (ground (arith, rw e at passes))
        | inr e ↦ elim (Option-cases (find q t)) [
          | inl f ↦
              (fresh, rw (e, exists-find-none q t f, find-append_none q t fresh f own) refl, refl)
          | inr (c, f) ↦ (
            record c { ts = now_ts },
            rw (e, exists-find-some q t c f, written, f, find-holds q t c f) refl,
            refl,
          )
        ]
      ]

  After : ℕ → Option Cooldown → List ℕ → Type 0
  After window_s none times = AreApart window_s times
  After window_s (some c) times = AreApart window_s (c.ts ∷ times)

  After-empty : (window_s : ℕ) (o : Option Cooldown) → After window_s o []
  unfolding After
  After-empty window_s none = tt
  After-empty window_s (some c) = tt

  refused_same :
      (now_ts window_s : ℕ) (t : List Cooldown)
      → (cooldown_ok token kind now_ts window_s t).0 ≡ false
      → (cooldown_ok token kind now_ts window_s t).1 ≡ t
  unfolding cooldown_ok
  refused_same now_ts window_s t refused =
      elim (Bool-cases (too_soon now_ts window_s (find (cools token kind) t))) [
        | inl e ↦ rw e refl
        | inr e ↦ absurd (ground (arith, rw e at refused))
      ]

  passed_late :
      (now_ts window_s : ℕ) (t : List Cooldown) (c : Cooldown)
      → (cooldown_ok token kind now_ts window_s t).0 ≡ true
      → find (cools token kind) t ≡ some c
      → c.ts + window_s ≤ now_ts
  unfolding cooldown_ok
  passed_late now_ts window_s t c passed f = elim (Bool-cases (ltb now_ts (c.ts + window_s))) [
    | inl e ↦ absurd (ground (arith, rw (f, e) at passed))
    | inr e ↦ ground (arith, e)
  ]

  -- A call that passes comes a window after the one before.
  After-cons :
      (now_ts window_s : ℕ) (t : List Cooldown) (times : List ℕ)
      → (cooldown_ok token kind now_ts window_s t).0 ≡ true
      → After window_s (find (cools token kind) (cooldown_ok token kind now_ts window_s t).1) times
      → After window_s (find (cools token kind) t) (now_ts ∷ times)
  unfolding After
  After-cons now_ts window_s t times passed h =
      let (c', f, at) = find-cooldown_ok_own now_ts window_s t passed in
      let next : AreApart window_s (c'.ts ∷ times) = subst (λ o. After window_s o times) f h in
      let next' = subst (λ x. AreApart window_s (x ∷ times)) at next in
      elim (Option-cases (find (cools token kind) t)) [
        | inl e ↦ subst (λ o. After window_s o (now_ts ∷ times)) (sym e) next'
        | inr (c, e) ↦
            subst (λ o. After window_s o (now_ts ∷ times)) (sym e)
              (passed_late now_ts window_s t c passed e, next')
      ]

  own_call :
      (window_s now_ts : ℕ) (calls : List Call) (t : List Cooldown)
      → let t' = (cooldown_ok token kind now_ts window_s t).1 in
        After window_s (find (cools token kind) t') (passes window_s token kind calls t')
        → After window_s (find (cools token kind) t) (
            passes window_s token kind
              (record { token = token; kind = kind; now_ts = now_ts } ∷ calls)
              t)
  own_call window_s now_ts calls t h =
      elim (Bool-cases (cooldown_ok token kind now_ts window_s t).0) [
        | inl passed ↦
            rw (passed, eq_refl token, eq_refl kind)
              (After-cons now_ts window_s t
                (passes window_s token kind calls (cooldown_ok token kind now_ts window_s t).1)
                passed h)
        | inr refused ↦
            let same = refused_same now_ts window_s t refused in
            rw refused (
              subst
                (λ o.
                  After window_s o
                    (passes window_s token kind calls (cooldown_ok token kind now_ts window_s t).1))
                (ap (find (cools token kind)) same) h)
      ]

  passes-After :
      (window_s : ℕ) (calls : List Call) (t : List Cooldown)
      → After window_s (find (cools token kind) t) (passes window_s token kind calls t)
  passes-After window_s [] t = After-empty window_s (find (cools token kind) t)
  passes-After window_s (c ∷ calls) t =
      elim (Bool-cases (str_eq c.token token && str_eq c.kind kind)) [
        | inr other ↦
            let t' = (cooldown_ok c.token c.kind c.now_ts window_s t).1 in
            rw (other, and_false (cooldown_ok c.token c.kind c.now_ts window_s t).0)
              (subst (λ o. After window_s o (passes window_s token kind calls t'))
                (find-cooldown_ok_other c.token c.kind c.now_ts window_s t other)
                (passes-After window_s calls t'))
        | inl own ↦
            let (same_token, same_kind) =
              and_split (str_eq c.token token) (str_eq c.kind kind) own in
            let mine : Call = record { token = token; kind = kind; now_ts = c.now_ts } in
            let path : mine ≡ c = λ i. record {
              token = sym ((eq_iff c.token token).0 same_token) i;
              kind = sym ((eq_iff c.kind kind).0 same_kind) i;
              now_ts = c.now_ts;
            } in
            subst
              (λ x.
                After window_s (find (cools token kind) t)
                  (passes window_s token kind (x ∷ calls) t))
              path
              (own_call window_s c.now_ts calls t
                (passes-After window_s calls (cooldown_ok token kind c.now_ts window_s t).1))
      ]

-- In any sequence of calls with one window, for whatever tokens and kinds and at whatever times, the
-- times at which calls for one token and kind pass are the window apart, or more.
pub cooldown_ok-AreApart :
    (window_s : ℕ) (token kind : String) (calls : List Call)
    → AreApart window_s (passes window_s token kind calls [])
unfolding After
cooldown_ok-AreApart window_s token kind calls = passes-After token kind window_s calls []
