-- ===== src/Backfill/Launch.antt =====
-- The search for the launch block ends, at the block that parts the earlier times from the later.
use arc_smart_orders.Prelude.{
  ℕ, zero, suc, ◌+◌, ◌-◌, ◌/◌, ◌<◌, ◌≤◌, ◌≡◌, refl, ◌∙◌, ◌↔◌, true, false, Option, some, ltb, arith,
  inl, inr, Bool-cases,
}
use arc_smart_orders.Backfill.{search_block, resolve_launch_block}

module _ (timestamp : ℕ → Option ℕ) (target_ts fuel lo hi t : ℕ) (open_ : ltb lo hi ≡ true)
    (at : timestamp ((lo + hi) / 2) ≡ some t) where
  search_later :
      ltb t target_ts ≡ true
      → search_block timestamp target_ts (suc fuel) lo hi
        ≡ search_block timestamp target_ts fuel ((lo + hi) / 2 + 1) hi
  unfolding search_block
  search_later e = rw (search_block, open_, at, e) refl

  search_earlier :
      ltb t target_ts ≡ false
      → search_block timestamp target_ts (suc fuel) lo hi
        ≡ search_block timestamp target_ts fuel lo ((lo + hi) / 2)
  unfolding search_block
  search_earlier e = rw (search_block, open_, at, e) refl

module _ (timestamp : ℕ → Option ℕ) (target_ts head : ℕ)
    (rises : (i j s t : ℕ) → i ≤ j → timestamp i ≡ some s → timestamp j ≡ some t → s ≤ t)
    (known : (n : ℕ) → n < head → (t : ℕ) × (timestamp n ≡ some t)) where
  Before : ℕ → Type 0
  Before lo = (n t : ℕ) → n < lo → timestamp n ≡ some t → t < target_ts

  After : ℕ → Type 0
  After hi = (n t : ℕ) → hi ≤ n → n < head → timestamp n ≡ some t → target_ts ≤ t

  search_block_parts :
      (fuel lo hi : ℕ)
      → lo ≤ hi
      → hi ≤ head
      → hi - lo ≤ fuel
      → Before lo
      → After hi
      → (r : ℕ) × (search_block timestamp target_ts fuel lo hi ≡ some r) × Before r × After r
  unfolding search_block Before After
  search_block_parts zero lo hi ord top f before after =
      let same : ltb lo hi ≡ false = ground arith in
      (lo, rw same refl, before, (λ n t p q k. after n t (omega (arith, ord, f, p)) q k))
  search_block_parts (suc fuel) lo hi ord top f before after = elim (Bool-cases (ltb lo hi)) [
    | inr e ↦ (
      lo,
      rw (search_block, e) refl,
      before,
      (λ n t p q k. after n t (ground (arith, e, ord, p)) q k),
    )
    | inl e ↦
        let mid = (lo + hi) / 2 in
        let open_ : lo < hi = ground (arith, e) in
        let l : lo ≤ mid = omega (arith, open_) in
        let u : mid < hi = omega (arith, open_) in
        let (t, at) = known mid (omega (arith, u, top)) in
        elim (Bool-cases (ltb t target_ts)) [
          | inl early ↦
              let (r, eq, b, a) =
                search_block_parts fuel (mid + 1) hi (omega (arith, u)) top (omega (arith, f, l, u))
                  (λ n s p k.
                    let le = rises n mid s t (omega (arith, p)) k at in ground (arith, le, early))
                  after in
              (r, search_later timestamp target_ts fuel lo hi t e at early ∙ eq, b, a)
          | inr late ↦
              let (r, eq, b, a) =
                search_block_parts fuel lo mid l (omega (arith, u, top)) (omega (arith, f, l, u))
                  before
                  (λ n s p q k. let le = rises mid n t s p at k in ground (arith, le, late)) in
              (r, search_earlier timestamp target_ts fuel lo hi t e at late ∙ eq, b, a)
        ]
  ]

  -- Where every block below the head has a time and times do not fall, the search for the launch
  -- block ends and finds the number that parts the blocks below the head: the earlier ones are
  -- those whose time is before the target.
  pub resolve_launch_block_parts :
      (n t : ℕ)
      → n < head
      → timestamp n ≡ some t
      → (r : ℕ) × (resolve_launch_block timestamp head target_ts ≡ some r)
        × ((n < r) ↔ (t < target_ts))
  unfolding resolve_launch_block Before After
  resolve_launch_block_parts n t low at =
      let (r, eq, before, after) =
        search_block_parts head 0 head (omega arith) (omega arith) (omega arith)
          (λ n t p k. absurd (omega (arith, p))) (λ n t p q k. absurd (omega (arith, p, q))) in
      (
        r,
        eq,
        (
          (λ p. before n t p at),
          λ p. elim (Bool-cases (ltb n r)) [
            | inl below ↦ ground (arith, below)
            | inr above ↦
                let late = after n t (ground (arith, above)) low at in
                absurd (omega (arith, late, p))
          ],
        ),
      )
