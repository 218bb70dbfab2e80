-- ===== src/Contest/Winner.antt =====
-- The winner of a round moved the most.
use arc_smart_orders.Float.{Float, IsOrder}
use arc_smart_orders.Contest.Prizes.{
  Row, ranks_before, insert_entry, sort_entries, leaderboard, winner, number_rows, first_row,
}
use arc_smart_orders.Prelude.{
  ◌≡◌, subst, true, false, Option, none, some, List, [], ◌∷◌, String, select, take, All, All-map,
  All-both, All-select, arith, inl, inr, Bool-cases,
}

module _ (fl : Float) (order : IsOrder fl) where
  open fl use {F, lit, flt, fle}

  IsNumber : String × F → Type 0
  IsNumber e = fle e.1 e.1 ≡ true

  NotBelow : F → String × F → Type 0
  NotBelow v e = flt v e.1 ≡ false

  asym : (a b : F) → flt a b ≡ true → flt b a ≡ false
  asym a b h = elim (Bool-cases (flt b a)) [
    | inr e ↦ e
    | inl e ↦ absurd (ground (arith, order.not_both a b h, order.le-of_lt b a e))
  ]

  not_below_trans :
      (a b e : F)
      → fle a a ≡ true
      → fle b b ≡ true
      → fle e e ≡ true
      → flt a b ≡ false
      → flt b e ≡ false
      → flt a e ≡ false
  not_below_trans a b e na nb ne ab be = elim (Bool-cases (flt a e)) [
    | inr k ↦ k
    | inl k ↦
        let up = order.le_trans e b a (order.total b e nb ne be) (order.total a b na nb ab) in
        absurd (ground (arith, up, order.not_both a e k))
  ]

  ranks-not_below : (a b : String × F) → ranks_before fl a b ≡ true → flt a.1 b.1 ≡ false
  ranks-not_below a b h = elim (Bool-cases (flt b.1 a.1)) [
    | inl e ↦ asym b.1 a.1 e
    | inr e ↦ elim (Bool-cases (flt a.1 b.1)) [
      | inl k ↦ absurd (ground (arith, rw (e, k) at h))
      | inr k ↦ k
    ]
  ]

  ranks_not-not_below : (a b : String × F) → ranks_before fl a b ≡ false → flt b.1 a.1 ≡ false
  ranks_not-not_below a b h = elim (Bool-cases (flt b.1 a.1)) [
    | inl e ↦ absurd (ground (arith, rw e at h))
    | inr e ↦ e
  ]

  All-insert_entry :
      (P : String × F → Type 0) (a : String × F) (l : List (String × F))
      → P a
      → All P l
      → All P (insert_entry fl a l)
  All-insert_entry P a [] p h = (p, tt)
  All-insert_entry P a (b ∷ l) p h = elim (Bool-cases (ranks_before fl a b)) [
    | inl e ↦ rw e (p, h)
    | inr e ↦ rw e (h.0, All-insert_entry P a l p h.1)
  ]

  insert_entry-All :
      (P : String × F → Type 0) (a : String × F) (l : List (String × F))
      → All P (insert_entry fl a l)
      → P a × All P l
  insert_entry-All P a [] h = (h.0, tt)
  insert_entry-All P a (b ∷ l) h = elim (Bool-cases (ranks_before fl a b)) [
    | inl e ↦ let k = rw e at h in (k.0, k.1)
    | inr e ↦ let k = rw e at h in let (p, rest) = insert_entry-All P a l (k.1) in (p, (k.0, rest))
  ]

  sort_entries-All :
      (P : String × F → Type 0) (l : List (String × F)) → All P (sort_entries fl l) → All P l
  sort_entries-All P [] h = tt
  sort_entries-All P (a ∷ l) h =
      let (p, rest) = insert_entry-All P a (sort_entries fl l) h in (p, sort_entries-All P l rest)

  -- The first entry is below none.
  Top : List (String × F) → Type 0
  Top [] = Unit
  Top (b ∷ l) = All (NotBelow b.1) (b ∷ l) × All IsNumber (b ∷ l)

  insert_entry-Top :
      (a : String × F) (l : List (String × F)) → IsNumber a → Top l → Top (insert_entry fl a l)
  unfolding Top NotBelow IsNumber
  insert_entry-Top a [] n h = ((order.lt_irrefl a.1, tt), (n, tt))
  insert_entry-Top a (b ∷ l) n h = elim (Bool-cases (ranks_before fl a b)) [
    | inl e ↦
        let up = ranks-not_below a b e in
        let above =
          All-map (λ x. NotBelow b.1 x × IsNumber x) (NotBelow a.1) (b ∷ l)
            (λ x k. not_below_trans a.1 b.1 x.1 n (h.1.0) (k.1) up (k.0))
            (All-both (NotBelow b.1) IsNumber (b ∷ l) (h.0) (h.1)) in
        rw e ((order.lt_irrefl a.1, above), (n, h.1))
    | inr e ↦
        let below : NotBelow b.1 a = ranks_not-not_below a b e in
        rw e (
          (h.0.0, All-insert_entry (NotBelow b.1) a l below (h.0.1)),
          (h.1.0, All-insert_entry IsNumber a l n (h.1.1)),
        )
  ]

  sort_entries-Top : (l : List (String × F)) → All IsNumber l → Top (sort_entries fl l)
  unfolding Top
  sort_entries-Top [] h = tt
  sort_entries-Top (a ∷ l) h =
      insert_entry-Top a (sort_entries fl l) (h.0) (sort_entries-Top l (h.1))

  Beaten : List (String × F) → Option (Row F) → Type 0
  Beaten all none = Unit
  Beaten all (some r) = All (NotBelow r.volume) all

  first-Beaten : (l : List (String × F)) → Top l → Beaten l (first_row (number_rows 1 (take 1 l)))
  unfolding Top Beaten
  first-Beaten [] h = tt
  first-Beaten (b ∷ l) h = h.0

  Beaten-sort :
      (l : List (String × F)) (o : Option (Row F)) → Beaten (sort_entries fl l) o → Beaten l o
  unfolding Beaten
  Beaten-sort l none h = tt
  Beaten-sort l (some r) h = sort_entries-All (NotBelow r.volume) l h

  -- Where all volumes are numbers, no one of those who moved anything moved more than the winner.
  pub winner-moved_most :
      (volumes : List (String × F)) (r : Row F)
      → All (λ (e : String × F). fle e.1 e.1 ≡ true) volumes
      → winner fl volumes ≡ some r
      → All
          (λ (e : String × F). flt r.volume e.1 ≡ false)
          (select (λ (e : String × F). flt (lit 0 0) e.1) volumes)
  unfolding winner leaderboard Beaten NotBelow IsNumber
  winner-moved_most volumes r numbers won =
      let moved = select (λ (e : String × F). flt (lit 0 0) e.1) volumes in
      let top =
        sort_entries-Top moved
          (All-select IsNumber (λ (e : String × F). flt (lit 0 0) e.1) volumes numbers) in
      subst (Beaten moved) won (Beaten-sort moved _ (first-Beaten (sort_entries fl moved) top))
