-- ===== src/Float/Exact.antt =====
-- Whole numbers as a model of the interface: concrete runs and examples compute in it.
use arc_smart_orders.Prelude.{◌+◌, ◌/◌, ◌^◌, ◌≡◌, refl, true, false, arith}
use arc_smart_orders.Prelude.Int.{ℤ, pos, pos_part, neg_part, ◌+ℤ◌, ◌-ℤ◌, ◌*ℤ◌, ltb_ℤ, leb_ℤ}
use arc_smart_orders.Float.{Float, IsOrder, IsFiniteArithmetic}

-- A literal is rounded down, a quotient of numbers that are not negative likewise.
abbrev pub exact : Float
exact = record {
  F = ℤ;
  lit = λ m k. pos (m / 10 ^ k);
  add = ◌+ℤ◌;
  sub = ◌-ℤ◌;
  mul = ◌*ℤ◌;
  div = λ a b. pos (pos_part a / pos_part b);
  neg = λ a. pos 0 -ℤ a;
  fabs = λ a. pos (pos_part a + neg_part a);
  round = λ a k. a;
  flt = ltb_ℤ;
  fle = leb_ℤ;
}

lt_irrefl : (a : ℤ) → ltb_ℤ a a ≡ false
lt_irrefl a = ground arith

le-of_lt : (a b : ℤ) → ltb_ℤ a b ≡ true → leb_ℤ a b ≡ true
le-of_lt a b h = ground arith

le_trans : (a b c : ℤ) → leb_ℤ a b ≡ true → leb_ℤ b c ≡ true → leb_ℤ a c ≡ true
le_trans a b c h k = ground arith

not_both : (a b : ℤ) → ltb_ℤ a b ≡ true → leb_ℤ b a ≡ false
not_both a b h = ground arith

total : (a b : ℤ) → leb_ℤ a a ≡ true → leb_ℤ b b ≡ true → ltb_ℤ a b ≡ false → leb_ℤ b a ≡ true
total a b ha hb h = ground arith

pub exact-IsOrder : IsOrder exact
exact-IsOrder = record {
  lt_irrefl = lt_irrefl;
  le-of_lt = le-of_lt;
  le_trans = le_trans;
  not_both = not_both;
  total = total;
}

number : (a : ℤ) → true ≡ true → leb_ℤ a a ≡ true
number a h = ground arith

add_nonneg :
    (a b : ℤ)
    → true ≡ true
    → true ≡ true
    → leb_ℤ (pos 0) a ≡ true
    → leb_ℤ (pos 0) b ≡ true
    → leb_ℤ (pos 0) (a +ℤ b) ≡ true
unfolding ◌+ℤ◌
add_nonneg a b ha hb h k = ground arith

sub_nonneg :
    (a b : ℤ) → true ≡ true → true ≡ true → leb_ℤ b a ≡ true → leb_ℤ (pos 0) (a -ℤ b) ≡ true
unfolding ◌-ℤ◌
sub_nonneg a b ha hb h = ground arith

sub_self : (a : ℤ) → true ≡ true → a -ℤ a ≡ pos 0
unfolding ◌-ℤ◌
sub_self a h = ground arith

pub exact-IsFiniteArithmetic : IsFiniteArithmetic exact
exact-IsFiniteArithmetic = record {
  finite = λ a. true;
  number = number;
  zero_finite = refl;
  add_nonneg = add_nonneg;
  sub_nonneg = sub_nonneg;
  sub_self = sub_self;
  tiny_pos = refl;
}

pub finite-exact : (a : ℤ) → exact-IsFiniteArithmetic.finite a ≡ true
unfolding exact-IsFiniteArithmetic
finite-exact a = refl
