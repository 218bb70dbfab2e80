-- ===== src/Sql.antt =====
-- The statements that the store sends to SQLite, on a table that is a list of rows in rowid order:
-- UPDATE, DELETE and the row counts that the cursor reports.
use mathlib.Core.Option
use arc_smart_orders.Prelude.{
  ℕ, ◌≡◌, refl, ap, ◌<◌, Bool, true, List, [], ◌∷◌, map, arith, if◌then◌else◌, find, none, some,
  All, not, select, suc, ◌≢◌, false, exists, ◌++◌, inl, inr, Bool-cases,
}

module _ {ℓ} {A : Type ℓ} where
  -- `UPDATE … SET f WHERE p`
  abbrev pub update_where : (A → Bool) → (A → A) → List A → List A
  update_where p f [] = []
  update_where p f (r ∷ rs) = (if p r then f r else r) ∷ update_where p f rs

  -- `cursor.rowcount` of a statement `… WHERE p`
  abbrev pub count_where : (A → Bool) → List A → ℕ
  count_where p [] = 0
  count_where p (r ∷ rs) = let rest = count_where p rs in if p r then suc rest else rest

  -- `DELETE … WHERE p`
  abbrev pub delete_where : (A → Bool) → List A → List A
  delete_where p = select (λ r. not (p r))

  -- No later row has the number of an earlier one.
  abbrev pub Distinct : (A → ℕ) → List A → Type 0
  Distinct key [] = Unit
  Distinct key (r ∷ rs) = All (λ s. key s ≢ key r) rs × Distinct key rs

module _ {ℓ} {A : Type ℓ} where
  pub update_where-map :
      (p : A → Bool) (f : A → A) (rs : List A)
      → update_where p f rs ≡ map (λ r. if p r then f r else r) rs
  update_where-map p f [] = refl
  update_where-map p f (r ∷ rs) = ap (◌∷◌ (if p r then f r else r)) (update_where-map p f rs)

  pub count-zero_find : (p : A → Bool) (rs : List A) → count_where p rs ≡ 0 → find p rs ≡ none
  count-zero_find p [] h = refl
  count-zero_find p (r ∷ rs) h = ground (arith, count-zero_find p rs)

  -- A row that a lookup finds and a statement's condition holds of is counted by the statement.
  pub find-count_pos :
      (q p : A → Bool) (rs : List A) (r : A)
      → find q rs ≡ some r
      → p r ≡ true
      → 0 < count_where p rs
  find-count_pos q p [] r h e = cc
  find-count_pos q p (x ∷ rs) r h e = ground (arith, find-count_pos q p rs r)

  pub find-holds : (q : A → Bool) (rs : List A) (r : A) → find q rs ≡ some r → q r ≡ true
  find-holds q [] r h = cc
  find-holds q (x ∷ rs) r h = ground (arith, find-holds q rs r)

  -- What a lookup reads after an UPDATE, where the SET keeps the looked up column.
  pub find-update_where :
      (q p : A → Bool) (f : A → A) (rs : List A)
      → ((r : A) → q (f r) ≡ q r)
      → find q (update_where p f rs) ≡ Option.map (λ r. if p r then f r else r) (find q rs)
  find-update_where q p f [] keep = refl
  find-update_where q p f (r ∷ rs) keep = ground (arith, keep r, find-update_where q p f rs keep)

-- Lookups and INSERTs.
pub exists-find-none :
    {A : Type 0} (q : A → Bool) (xs : List A) → find q xs ≡ none → exists q xs ≡ false
exists-find-none q [] h = refl
exists-find-none q (x ∷ xs) h = elim (Bool-cases (q x)) [
  | inl e ↦ absurd (ground (arith, rw e at h))
  | inr e ↦ rw e (exists-find-none q xs (rw e at h))
]

pub exists-find-some :
    {A : Type 0} (q : A → Bool) (xs : List A) (x : A) → find q xs ≡ some x → exists q xs ≡ true
exists-find-some q [] x h = absurd (ground arith)
exists-find-some q (y ∷ ys) x h = elim (Bool-cases (q y)) [
  | inl e ↦ rw e refl
  | inr e ↦ rw e (exists-find-some q ys x (rw e at h))
]

pub find-append_none :
    {A : Type 0} (q : A → Bool) (xs : List A) (x : A)
    → find q xs ≡ none
    → q x ≡ true
    → find q (xs ++ x ∷ []) ≡ some x
find-append_none q [] x h e = rw e refl
find-append_none q (y ∷ ys) x h e = elim (Bool-cases (q y)) [
  | inl f ↦ absurd (ground (arith, rw f at h))
  | inr f ↦ rw f (find-append_none q ys x (rw f at h) e)
]

pub find-append_some :
    {A : Type 0} (q : A → Bool) (xs : List A) (x y : A)
    → find q xs ≡ some y
    → find q (xs ++ x ∷ []) ≡ some y
find-append_some q [] x y h = absurd (ground arith)
find-append_some q (z ∷ zs) x y h = elim (Bool-cases (q z)) [
  | inl f ↦ rw f (rw f at h)
  | inr f ↦ rw f (find-append_some q zs x y (rw f at h))
]

pub find-append_miss :
    {A : Type 0} (q : A → Bool) (xs : List A) (x : A)
    → find q xs ≡ none
    → q x ≡ false
    → find q (xs ++ x ∷ []) ≡ none
find-append_miss q [] x h e = rw e refl
find-append_miss q (y ∷ ys) x h e = elim (Bool-cases (q y)) [
  | inl f ↦ absurd (ground (arith, rw f at h))
  | inr f ↦ rw f (find-append_miss q ys x (rw f at h) e)
]

pub exists-append_own :
    {A : Type 0} (q : A → Bool) (xs : List A) (x : A) → q x ≡ true → exists q (xs ++ x ∷ []) ≡ true
exists-append_own q [] x h = rw h refl
exists-append_own q (y ∷ xs) x h = elim (Bool-cases (q y)) [
  | inl e ↦ rw e refl
  | inr e ↦ rw e (exists-append_own q xs x h)
]

pub exists-append :
    {A : Type 0} (q : A → Bool) (xs ys : List A) → exists q xs ≡ true → exists q (xs ++ ys) ≡ true
exists-append q [] ys h = absurd (ground arith)
exists-append q (x ∷ xs) ys h = elim (Bool-cases (q x)) [
  | inl e ↦ rw e refl
  | inr e ↦ rw e (exists-append q xs ys (rw e at h))
]
