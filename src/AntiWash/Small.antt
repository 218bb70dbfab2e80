-- ===== src/AntiWash/Small.antt =====
-- The volume of one fill by itself, and of a round trip.
use arc_smart_orders.Float.{Float}
use arc_smart_orders.Fills.{Fill}
use arc_smart_orders.Prelude.{
  ℕ, ◌≡◌, refl, inl, inr, true, ◌&&◌, List, [], ◌∷◌, String, str_eq, lower, eq_refl, str_eq-sym,
  and_split, and_false,
}
use arc_smart_orders.AntiWash.{
  filter_fills, volume_by_user, roundtrip_fill_ids, drop_groups, drop_pairs, drop_with, qualifies,
  wash_pair,
}
use arc_smart_orders.AntiWash.Pairs.{wash_pair-sym}
use arc_smart_orders.AntiWash.RoundTrips.{round_trip, round_trip-has}

round_trip-sym :
    {F : Type 0} (window_s : ℕ) (a b : Fill F)
    → round_trip window_s a b ≡ true
    → round_trip window_s b a ≡ true
round_trip-sym window_s a b h =
    let (users, rest) =
      and_split (str_eq a.user b.user)
        (str_eq (lower a.token) (lower b.token) && wash_pair window_s a b) h in
    let (tokens, wash) =
      and_split (str_eq (lower a.token) (lower b.token)) (wash_pair window_s a b) rest in
    rw
      (
        str_eq-sym a.user b.user users,
        str_eq-sym (lower a.token) (lower b.token) tokens,
        wash_pair-sym window_s a b wash,
      )
      refl

module _ (fl : Float) where
  open fl use {F, lit, add, fle}

  pub volume_by_user-one :
      (min_notional : F) (window_s : ℕ) (f : Fill F)
      → fle min_notional f.usdc ≡ true
      → volume_by_user fl min_notional [] window_s (f ∷ []) ≡ (f.user, add (lit 0 0) f.usdc) ∷ []
  unfolding volume_by_user filter_fills roundtrip_fill_ids drop_groups drop_pairs drop_with
      qualifies
  volume_by_user-one min_notional window_s f large =
      rw (eq_refl f.user, eq_refl (lower f.token), large) refl

  pub volume_by_user-round_trip :
      (min_notional : F) (own_tokens : List String) (window_s : ℕ) (a b : Fill F)
      → round_trip window_s a b ≡ true
      → volume_by_user fl min_notional own_tokens window_s (a ∷ b ∷ []) ≡ []
  unfolding volume_by_user filter_fills
  volume_by_user-round_trip min_notional own_tokens window_s a b h =
      let fills = a ∷ b ∷ [] in
      let first = round_trip-has window_s a b fills (inl refl) (inr (inl refl)) h in
      let second =
        round_trip-has window_s b a fills (inr (inl refl)) (inl refl)
          (round_trip-sym window_s a b h) in
      rw (first, second, and_false, and_false, and_false, and_false) refl
