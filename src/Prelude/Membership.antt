-- ===== src/Prelude/Membership.antt =====
-- Membership in a list, by recursion, and equality of texts turned round.
use mathlib.Core.Path.{◌≡◌, refl, sym, subst}
use mathlib.Core.Logic.{◌⊎◌, inl, inr}
use mathlib.Core.Bool.{Bool, true, false, not}
use mathlib.Core.List.{List, [], ◌∷◌}
use Prim.Native.String.{String}
use native.Mathlib.Omega.{arith}
use text.Mathlib.TextEquality.{eq_iff}
use arc_smart_orders.Prelude.Lists.{select, exists, All}
use arc_smart_orders.Prelude.Tests.{str_eq, Bool-cases}

-- Membership, by recursion.
abbrev pub In : {A : Type 0} → A → List A → Type 0
In x [] = ⊥
In x (y ∷ ys) = (x ≡ y) ⊎ In x ys

pub In-All : {A : Type 0} (P : A → Type 0) (x : A) (xs : List A) → In x xs → All P xs → P x
In-All P x [] m h = absurd m
In-All P x (y ∷ ys) (inl e) h = subst P (sym e) h.0
In-All P x (y ∷ ys) (inr m) h = In-All P x ys m h.1

pub All-In : {A : Type 0} (P : A → Type 0) (xs : List A) → ((x : A) → In x xs → P x) → All P xs
All-In P [] h = tt
All-In P (x ∷ xs) h = (h x (inl refl), All-In P xs (λ y k. h y (inr k)))

pub In-select :
    {A : Type 0} (p : A → Bool) (x : A) (xs : List A) → In x xs → p x ≡ true → In x (select p xs)
In-select p x [] h e = h
In-select p x (y ∷ ys) (inl h) e = rw (subst (λ z. p z ≡ true) h e) (inl h)
In-select p x (y ∷ ys) (inr h) e = elim (Bool-cases (p y)) [
  | inl f ↦ rw f (inr (In-select p x ys h e))
  | inr f ↦ rw f (In-select p x ys h e)
]

pub select-In :
    {A : Type 0} (p : A → Bool) (x : A) (xs : List A) → In x (select p xs) → (p x ≡ true) × In x xs
select-In p x [] h = absurd h
select-In p x (y ∷ ys) h = elim (Bool-cases (p y)) [
  | inl f ↦ elim (rw f at h) [
    | inl k ↦ (subst (λ z. p z ≡ true) (sym k) f, inl k)
    | inr k ↦ let (e, m) = select-In p x ys k in (e, inr m)
  ]
  | inr f ↦ let (e, m) = select-In p x ys (rw f at h) in (e, inr m)
]

pub str_eq-sym : (a b : String) → str_eq a b ≡ true → str_eq b a ≡ true
str_eq-sym a b h = (eq_iff b a).1 (sym ((eq_iff a b).0 h))

pub str_eq-sym_false : (a b : String) → str_eq a b ≡ false → str_eq b a ≡ false
str_eq-sym_false a b h = elim (Bool-cases (str_eq b a)) [
  | inl e ↦ absurd (ground (arith, str_eq-sym b a e, h))
  | inr e ↦ e
]

pub not-true : (b : Bool) → not b ≡ true → b ≡ false
not-true true h = absurd (ground arith)
not-true false h = refl

pub exists-select :
    {A : Type 0} (p q : A → Bool) (xs : List A)
    → ((x : A) → q x ≡ true → p x ≡ true)
    → exists q xs ≡ true
    → exists q (select p xs) ≡ true
exists-select p q [] f h = h
exists-select p q (x ∷ xs) f h = elim (Bool-cases (q x)) [
  | inl e ↦ rw (f x e, e) refl
  | inr e ↦ elim (Bool-cases (p x)) [
    | inl k ↦ rw (k, e) (exists-select p q xs f (rw e at h))
    | inr k ↦ rw k (exists-select p q xs f (rw e at h))
  ]
]
