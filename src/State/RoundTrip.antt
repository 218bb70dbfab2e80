-- ===== src/State/RoundTrip.antt =====
-- What is written under a key of the table is read back, and other keys are left alone.
use arc_smart_orders.Prelude.{
  ℕ, ◌≡◌, refl, ap, nonempty, sym, subst, ◌∙◌, true, false, Option, some, [], ◌∷◌, ◌++◌, String,
  str_eq, find, exists, arith, inl, inr, Bool-cases, Option-cases, eq_iff, if◌then◌else◌,
}
use arc_smart_orders.Sql.{find-update_where, find-holds}
use arc_smart_orders.State.{
  Table, get_state, set_state, has_key, wd_key, float_or_zero, withdraw_today, add_withdraw_today,
}
use arc_smart_orders.Float.{Float}

-- A key that equals `a` and not `b` keeps them apart.
pub other_key : (k a b : String) → str_eq k a ≡ true → str_eq k b ≡ false → str_eq b a ≡ false
other_key k a b e d = elim (Bool-cases (str_eq b a)) [
  | inr f ↦ f
  | inl f ↦
      let same : k ≡ b = (eq_iff k a).0 e ∙ sym ((eq_iff b a).0 f) in
      absurd (ground (arith, (eq_iff k b).1 same, d))
]

not_both : (r a b : String) → str_eq r a ≡ true → str_eq b a ≡ false → str_eq r b ≡ false
not_both r a b e d = elim (Bool-cases (str_eq r b)) [
  | inr f ↦ f
  | inl f ↦
      let same : b ≡ a = sym ((eq_iff r b).0 f) ∙ (eq_iff r a).0 e in
      absurd (ground (arith, (eq_iff b a).1 same, d))
]

find-absent :
    (key : String) (k v : String) (t : Table)
    → exists (has_key k) t ≡ false
    → find (has_key key) (t ++ (k, v) ∷ [])
      ≡ (if str_eq k key then some (k, v) else find (has_key key) t)
find-absent key k v [] h = refl
find-absent key k v ((k', v') ∷ t) h = elim (Bool-cases (str_eq k' k)) [
  | inl e ↦ absurd (ground (arith, rw e at h))
  | inr other ↦ elim (Bool-cases (str_eq k' key)) [
    | inl e ↦ let differ = other_key k' key k e other in rw (e, differ) refl
    | inr e ↦ rw e (find-absent key k v t (rw other at h))
  ]
]

find-present :
    (key : String) (t : Table)
    → exists (has_key key) t ≡ true
    → (r : String × String) × (find (has_key key) t ≡ some r)
find-present key [] h = absurd (ground arith)
find-present key ((k, v) ∷ t) h = elim (Bool-cases (str_eq k key)) [
  | inl e ↦ ((k, v), rw e refl)
  | inr e ↦ let (r, f) = find-present key t (rw e at h) in (r, rw e f)
]

-- What was written under a key is read back under it, and every other key reads as before, with its
-- default where it is missing.
pub get_state-set_state :
    (key k value default : String) (t : Table)
    → get_state key default (set_state k value t)
      ≡ (if str_eq k key then value else get_state key default t)
unfolding get_state set_state
get_state-set_state key k value default t = elim (Bool-cases (exists (has_key k) t)) [
  | inr absent ↦
      rw (absent, find-absent key k value t absent)
        (elim (Bool-cases (str_eq k key)) [ inl e ↦ rw e refl | inr e ↦ rw e refl ])
  | inl present ↦
      rw (present, find-update_where (has_key key) (has_key k) (λ r. (r.0, value)) t (λ r. refl))
        (elim (Bool-cases (str_eq k key)) [
          | inl e ↦
              let same : k ≡ key = (eq_iff k key).0 e in
              let (r, f) = find-present k t present in
              let own = find-holds (has_key k) t r f in
              let there : find (has_key key) t ≡ some r =
                subst (λ x. find (has_key x) t ≡ some r) same f in
              rw (there, own, e) refl
          | inr e ↦ elim (Option-cases (find (has_key key) t)) [
            | inl f ↦ rw (f, e) refl
            | inr (r, f) ↦
                let apart = not_both r.0 key k (find-holds (has_key key) t r f) e in
                rw (f, apart, e) refl
          ]
        ])
]

module _ (fl : Float) (day : ℕ → String) (to_float : String → Option fl.F) (to_text : fl.F → String)
    (written : (x : fl.F) → nonempty (to_text x) ≡ true)
    (read : (x : fl.F) → to_float (to_text x) ≡ some x) where
  -- The total of a chat's day after an entry in a total.
  pub withdraw_today-add_withdraw_today :
      (chat uid : String) (usdc : fl.F) (now now' : ℕ) (t : Table)
      → withdraw_today fl day to_float to_text uid now'
          (add_withdraw_today fl day to_float to_text chat usdc now t).1
        ≡ (if str_eq
              (wd_key fl day to_float to_text chat now)
              (wd_key fl day to_float to_text uid now')
            then fl.add (withdraw_today fl day to_float to_text chat now t) usdc
            else withdraw_today fl day to_float to_text uid now' t)
  unfolding withdraw_today add_withdraw_today
  withdraw_today-add_withdraw_today chat uid usdc now now' t =
      let k = wd_key fl day to_float to_text chat now in
      let k' = wd_key fl day to_float to_text uid now' in
      let total = fl.add (withdraw_today fl day to_float to_text chat now t) usdc in
      let step = get_state-set_state k' k (to_text total) "0" t in
      ap (float_or_zero fl day to_float to_text) step ∙ elim (Bool-cases (str_eq k k')) [
        | inl e ↦ rw (e, written total, read total) refl
        | inr e ↦ rw e refl
      ]
