-- ===== src/Float.antt =====
-- Python's floats, an operation each, and the laws of IEEE 754 that theorems rest on.
pub mod Exact
use arc_smart_orders.Prelude.{ℕ, ◌≡◌, Bool, true, false}

pub record Float : Type 1 where
  pub F : Type 0
  -- `m * 10 ** -k`, the literal with k decimals; `float(n)` is `lit n 0`.
  pub lit : ℕ → ℕ → F
  pub add : F → F → F
  pub sub : F → F → F
  pub mul : F → F → F
  pub div : F → F → F
  pub neg : F → F
  pub fabs : F → F
  -- `round(a, k)`
  pub round : F → ℕ → F
  -- `a < b` and `a <= b`; both fail if one side is not a number.
  pub flt : F → F → Bool
  pub fle : F → F → Bool

-- Comparison as IEEE 754 has it. `fle a a` says that `a` is a number.
pub record IsOrder (fl : Float) : Type 0 where
  pub lt_irrefl : (a : fl.F) → fl.flt a a ≡ false
  pub le-of_lt : (a b : fl.F) → fl.flt a b ≡ true → fl.fle a b ≡ true
  pub le_trans : (a b c : fl.F) → fl.fle a b ≡ true → fl.fle b c ≡ true → fl.fle a c ≡ true
  pub not_both : (a b : fl.F) → fl.flt a b ≡ true → fl.fle b a ≡ false
  pub total :
      (a b : fl.F) → fl.fle a a ≡ true → fl.fle b b ≡ true → fl.flt a b ≡ false → fl.fle b a ≡ true

-- Sums and differences of finite numbers, which are rounded to nearest and so keep the sign.
pub record IsFiniteArithmetic (fl : Float) : Type 0 where
  pub finite : fl.F → Bool
  pub number : (a : fl.F) → finite a ≡ true → fl.fle a a ≡ true
  pub zero_finite : finite (fl.lit 0 0) ≡ true
  pub add_nonneg :
      (a b : fl.F)
      → finite a ≡ true
      → finite b ≡ true
      → fl.fle (fl.lit 0 0) a ≡ true
      → fl.fle (fl.lit 0 0) b ≡ true
      → fl.fle (fl.lit 0 0) (fl.add a b) ≡ true
  pub sub_nonneg :
      (a b : fl.F)
      → finite a ≡ true
      → finite b ≡ true
      → fl.fle b a ≡ true
      → fl.fle (fl.lit 0 0) (fl.sub a b) ≡ true
  pub sub_self : (a : fl.F) → finite a ≡ true → fl.sub a a ≡ fl.lit 0 0
  pub tiny_pos : fl.fle (fl.lit 0 0) (fl.lit 1 18) ≡ true
