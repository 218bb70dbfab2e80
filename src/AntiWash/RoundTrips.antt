-- ===== src/AntiWash/RoundTrips.antt =====
-- No round trip is left among the fills that count.
use arc_smart_orders.Float.{Float}
use arc_smart_orders.Fills.{Fill}
use arc_smart_orders.AntiWash.Pairs.{has, has-append, drop_pairs-In, In-sort_fills}
use arc_smart_orders.AntiWash.{
  wash_pair, drop_pairs, sort_fills, in_group, keys_of, drop_groups, roundtrip_fill_ids, qualifies,
  filter_fills,
}
use arc_smart_orders.Prelude.{
  ℕ, ◌≡◌, refl, sym, ◌∙◌, subst, inl, inr, Bool, true, false, not, ◌&&◌, List, [], ◌∷◌, String,
  str_eq, lower, select, exists, All, arith, In, All-In, In-select, select-In, not-true,
  exists-select, Bool-cases, eq_iff, eq_refl, and_split,
}

module _ {F : Type 0} where
  abbrev key_of : Fill F → String × String → Bool
  key_of f k = str_eq k.0 f.user && str_eq k.1 (lower f.token)

  other_key_kept :
      (x f : Fill F) (k : String × String)
      → key_of f k ≡ true
      → key_of f (x.user, lower x.token) ≡ false
      → not (str_eq k.0 x.user && str_eq k.1 (lower x.token)) ≡ true
  other_key_kept x f k own apart =
      elim (Bool-cases (str_eq k.0 x.user && str_eq k.1 (lower x.token))) [
        | inr e ↦ rw e refl
        | inl e ↦
            let (u, t) = and_split (str_eq k.0 x.user) (str_eq k.1 (lower x.token)) e in
            let (u', t') = and_split (str_eq k.0 f.user) (str_eq k.1 (lower f.token)) own in
            let user =
              (eq_iff x.user f.user).1 (sym ((eq_iff k.0 x.user).0 u) ∙ (eq_iff k.0 f.user).0 u') in
            let token =
              (eq_iff (lower x.token) (lower f.token)).1
                (sym ((eq_iff k.1 (lower x.token)).0 t) ∙ (eq_iff k.1 (lower f.token)).0 t') in
            absurd (ground (arith, rw (user, token) at apart))
      ]

  keys_of-has :
      (f : Fill F) (fills : List (Fill F)) → In f fills → exists (key_of f) (keys_of fills) ≡ true
  keys_of-has f [] m = absurd m
  keys_of-has f (x ∷ fills) (inl e) =
      subst (λ z. exists (key_of z) (keys_of (x ∷ fills)) ≡ true) (sym e)
        (rw (eq_refl x.user, eq_refl (lower x.token)) refl)
  keys_of-has f (x ∷ fills) (inr m) = elim (Bool-cases (key_of f (x.user, lower x.token))) [
    | inl e ↦ rw e refl
    | inr e ↦ rw e (
        exists-select (λ k. not (str_eq k.0 x.user && str_eq k.1 (lower x.token))) (key_of f)
          (keys_of fills) (λ k own. other_key_kept x f k own e) (keys_of-has f fills m))
  ]

module _ {F : Type 0} (window_s : ℕ) where
  in_group-key :
      (f g : Fill F) (k : String × String)
      → str_eq f.user g.user ≡ true
      → str_eq (lower f.token) (lower g.token) ≡ true
      → key_of f k ≡ true
      → in_group k g ≡ true
  in_group-key f g k users tokens own =
      let (u, t) = and_split (str_eq k.0 f.user) (str_eq k.1 (lower f.token)) own in
      let user =
        (eq_iff g.user k.0).1 (sym ((eq_iff k.0 f.user).0 u ∙ (eq_iff f.user g.user).0 users)) in
      let token = (eq_iff (lower g.token) k.1).1 (
        sym
          ((eq_iff k.1 (lower f.token)).0 t ∙ (eq_iff (lower f.token) (lower g.token)).0 tokens)) in
      rw (user, token) refl

  drop_groups-has :
      (f g : Fill F) (keys : List (String × String)) (fills : List (Fill F))
      → exists (key_of f) keys ≡ true
      → In f fills
      → In g fills
      → str_eq f.user g.user ≡ true
      → str_eq (lower f.token) (lower g.token) ≡ true
      → wash_pair window_s f g ≡ true
      → has f.fill_id (drop_groups window_s keys fills) ≡ true
  unfolding drop_groups
  drop_groups-has f g [] fills e m k users tokens h = absurd (ground arith)
  drop_groups-has f g (key ∷ keys) fills e m k users tokens h =
      let group = drop_pairs window_s (sort_fills (select (in_group key) fills)) in
      let later = drop_groups window_s keys fills in
      elim (Bool-cases (key_of f key)) [
        | inl own ↦
            let mine = in_group-key f f key (eq_refl f.user) (eq_refl (lower f.token)) own in
            let yours = in_group-key f g key users tokens own in
            has-append f.fill_id group later (
              inl (
                drop_pairs-In window_s f g (sort_fills (select (in_group key) fills))
                  (In-sort_fills f _ (In-select (in_group key) f fills m mine))
                  (In-sort_fills g _ (In-select (in_group key) g fills k yours)) h))
        | inr other ↦
            has-append f.fill_id group later
              (inr (drop_groups-has f g keys fills (rw other at e) m k users tokens h))
      ]

-- The condition of `filter_fills`, and what it leaves out.
counts : (fl : Float) → fl.F → List String → List String → Fill fl.F → Bool
counts fl min_notional own_tokens drop f =
    not (exists (λ t. str_eq (lower t) (lower f.token)) own_tokens)
    && (qualifies fl min_notional f && not (has f.fill_id drop))

counts-free :
    (fl : Float) (min_notional : fl.F) (own_tokens drop : List String) (f : Fill fl.F)
    → counts fl min_notional own_tokens drop f ≡ true
    → has f.fill_id drop ≡ false
unfolding counts
counts-free fl min_notional own_tokens drop f h =
    let (not_own, more) =
      and_split (not (exists (λ t. str_eq (lower t) (lower f.token)) own_tokens))
        (qualifies fl min_notional f && not (has f.fill_id drop)) h in
    not-true (has f.fill_id drop)
      ((and_split (qualifies fl min_notional f) (not (has f.fill_id drop)) more).1)

abbrev pub round_trip : {F : Type 0} → ℕ → Fill F → Fill F → Bool
round_trip window_s f g =
    str_eq f.user g.user && (str_eq (lower f.token) (lower g.token) && wash_pair window_s f g)

pub round_trip-has :
    {F : Type 0} (window_s : ℕ) (f g : Fill F) (fills : List (Fill F))
    → In f fills
    → In g fills
    → round_trip window_s f g ≡ true
    → has f.fill_id (roundtrip_fill_ids window_s fills) ≡ true
unfolding roundtrip_fill_ids
round_trip-has window_s f g fills here there e =
    let (users, rest) =
      and_split (str_eq f.user g.user)
        (str_eq (lower f.token) (lower g.token) && wash_pair window_s f g) e in
    let (tokens, wash) =
      and_split (str_eq (lower f.token) (lower g.token)) (wash_pair window_s f g) rest in
    drop_groups-has window_s f g (keys_of fills) fills (keys_of-has f fills here) here there users
      tokens wash

-- No two of the fills that count are a round trip: of one user and one token, in whatever case its
-- address is written, on different sides, and no more than the window apart.
pub filter_fills-no_round_trip :
    (fl : Float) (min_notional : fl.F) (own_tokens : List String) (window_s : ℕ)
    (fills : List (Fill fl.F))
    → let counted = filter_fills fl min_notional own_tokens window_s fills in
      All (λ f. All (λ g. round_trip window_s f g ≡ false) counted) counted
unfolding filter_fills counts
filter_fills-no_round_trip fl min_notional own_tokens window_s fills =
    let drop = roundtrip_fill_ids window_s fills in
    let p = counts fl min_notional own_tokens drop in
    All-In (λ f. All (λ g. round_trip window_s f g ≡ false) (select p fills)) (select p fills)
      (λ f m.
        All-In (λ g. round_trip window_s f g ≡ false) (select p fills)
          (λ g k. elim (Bool-cases (round_trip window_s f g)) [
            | inr e ↦ e
            | inl e ↦
                let (kept, here) = select-In p f fills m in
                let (kept', there) = select-In p g fills k in
                let dropped = round_trip-has window_s f g fills here there e in
                let free = counts-free fl min_notional own_tokens drop f kept in
                absurd (ground (arith, free, dropped))
          ]))
