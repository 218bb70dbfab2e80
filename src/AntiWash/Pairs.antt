-- ===== src/AntiWash/Pairs.antt =====
-- The loops of the round-trip filter over one group of fills.
use arc_smart_orders.Fills.{Fill}
use arc_smart_orders.AntiWash.{wash_pair, drop_with, drop_pairs, insert_fill, sort_fills}
use arc_smart_orders.Prelude.{
  ℕ, ◌+◌, ◌-◌, ◌≡◌, refl, sym, subst, ◌⊎◌, inl, inr, Bool, true, false, not, List, [], ◌∷◌, ◌++◌,
  String, str_eq, leb, exists, arith, In, str_eq-sym_false, not-true, Bool-cases, eq_refl,
  and_split,
}

abbrev pub has : String → List String → Bool
has id = exists (λ i. str_eq i id)

pub has-append :
    (id : String) (xs ys : List String)
    → (has id xs ≡ true) ⊎ (has id ys ≡ true)
    → has id (xs ++ ys) ≡ true
has-append id [] ys (inl h) = absurd (ground arith)
has-append id [] ys (inr h) = h
has-append id (x ∷ xs) ys h = elim (Bool-cases (str_eq x id)) [
  | inl e ↦ rw e refl
  | inr e ↦ rw e (has-append id xs ys (elim h [ inl k ↦ inl (rw e at k) | inr k ↦ inr k ]))
]

module _ {F : Type 0} (window_s : ℕ) where
  pub wash_pair-sym : (a b : Fill F) → wash_pair window_s a b ≡ true → wash_pair window_s b a ≡ true
  wash_pair-sym a b h =
      let (differ, near) =
        and_split (not (str_eq a.side b.side)) (leb ((b.ts - a.ts) + (a.ts - b.ts)) window_s) h in
      let apart = str_eq-sym_false a.side b.side (not-true (str_eq a.side b.side) differ) in
      let times : leb ((a.ts - b.ts) + (b.ts - a.ts)) window_s ≡ true = ground (arith, near) in
      rw (apart, times) refl

  wash_pair_irrefl : (a : Fill F) → wash_pair window_s a a ≡ false
  wash_pair_irrefl a = rw (eq_refl a.side) refl

  drop_with-In :
      (a b : Fill F) (l : List (Fill F))
      → In b l
      → wash_pair window_s a b ≡ true
      → (has a.fill_id (drop_with window_s a l) ≡ true)
        × (has b.fill_id (drop_with window_s a l) ≡ true)
  unfolding drop_with
  drop_with-In a b [] m h = absurd m
  drop_with-In a b (x ∷ l) (inl same) h =
      let e = subst (λ z. wash_pair window_s a z ≡ true) same h in
      let ids = drop_with window_s a l in
      let pair : List String = a.fill_id ∷ x.fill_id ∷ [] in
      let left : has a.fill_id pair ≡ true = rw (eq_refl a.fill_id) refl in
      let right : has x.fill_id pair ≡ true =
        has-append x.fill_id (a.fill_id ∷ []) (x.fill_id ∷ [])
          (inr (rw (eq_refl x.fill_id) refl)) in
      subst
        (λ z.
          (has a.fill_id (drop_with window_s a (x ∷ l)) ≡ true)
          × (has z.fill_id (drop_with window_s a (x ∷ l)) ≡ true))
        (sym same)
        (rw e (has-append a.fill_id pair ids (inl left), has-append x.fill_id pair ids (inl right)))
  drop_with-In a b (x ∷ l) (inr m) h =
      let (left, right) = drop_with-In a b l m h in
      let pair : List String = a.fill_id ∷ x.fill_id ∷ [] in
      let ids = drop_with window_s a l in
      elim (Bool-cases (wash_pair window_s a x)) [
        | inl e ↦
            rw e
              (has-append a.fill_id pair ids (inr left), has-append b.fill_id pair ids (inr right))
        | inr e ↦ rw e (left, right)
      ]

  pub drop_pairs-In :
      (f g : Fill F) (l : List (Fill F))
      → In f l
      → In g l
      → wash_pair window_s f g ≡ true
      → has f.fill_id (drop_pairs window_s l) ≡ true
  unfolding drop_pairs
  drop_pairs-In f g [] m k h = absurd m
  drop_pairs-In f g (x ∷ l) (inl a) (inl b) h =
      let own = subst (λ z. wash_pair window_s z g ≡ true) a h in
      let self = subst (λ z. wash_pair window_s x z ≡ true) b own in
      absurd (ground (arith, self, wash_pair_irrefl x))
  drop_pairs-In f g (x ∷ l) (inl a) (inr k) h =
      let own = subst (λ z. wash_pair window_s z g ≡ true) a h in
      subst (λ z. has z.fill_id (drop_pairs window_s (x ∷ l)) ≡ true) (sym a)
        (has-append x.fill_id (drop_with window_s x l) (drop_pairs window_s l)
          (inl ((drop_with-In x g l k own).0)))
  drop_pairs-In f g (x ∷ l) (inr m) (inl b) h =
      let own = subst (λ z. wash_pair window_s z f ≡ true) b (wash_pair-sym f g h) in
      has-append f.fill_id (drop_with window_s x l) (drop_pairs window_s l)
        (inl ((drop_with-In x f l m own).1))
  drop_pairs-In f g (x ∷ l) (inr m) (inr k) h =
      has-append f.fill_id (drop_with window_s x l) (drop_pairs window_s l)
        (inr (drop_pairs-In f g l m k h))

module _ {F : Type 0} where
  In-insert_fill : (x a : Fill F) (l : List (Fill F)) → (x ≡ a) ⊎ In x l → In x (insert_fill a l)
  In-insert_fill x a [] h = h
  In-insert_fill x a (b ∷ l) h = elim (Bool-cases (leb a.ts b.ts)) [
    | inl e ↦ rw e h
    | inr e ↦ rw e (elim h [
      | inl k ↦ inr (In-insert_fill x a l (inl k))
      | inr k ↦ elim k [ inl same ↦ inl same | inr m ↦ inr (In-insert_fill x a l (inr m)) ]
    ])
  ]

  pub In-sort_fills : (x : Fill F) (l : List (Fill F)) → In x l → In x (sort_fills l)
  In-sort_fills x [] h = h
  In-sort_fills x (a ∷ l) (inl e) = In-insert_fill x a (sort_fills l) (inl e)
  In-sort_fills x (a ∷ l) (inr m) = In-insert_fill x a (sort_fills l) (inr (In-sort_fills x l m))
