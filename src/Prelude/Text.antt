-- ===== src/Prelude/Text.antt =====
-- Python texts as native strings: `str.lower()` on ASCII letters, and truthiness.
use Prim.Native.Nat.{ℕ, zero, suc, ◌+◌, ◌-◌, ◌<◌, compare, Ordering}
use Prim.Native.Char.{Char, char, IsScalar}
use Prim.Native.String.{String}
use mathlib.Core.Bool.{Bool, true, false}
use mathlib.Core.Path.{◌≡◌, refl}
use mathlib.Core.Logic.{dite}
use native.Mathlib.Omega.{arith}
use native.Mathlib.Decide.{dec_lt}

pub IsScalar-below : (n : ℕ) → n < 55296 → IsScalar n
IsScalar-below n h = let e : compare n 55296 ≡ Ordering.lt = ground arith in rw e tt

unfoldable pub lower_char : Char → Char
unfolding dec_lt IsScalar-below
lower_char (char n h) =
    dite (dec_lt 64 n)
      (λ a.
        dite (dec_lt n 91) (λ b. char (n + 32) (IsScalar-below (n + 32) (omega arith)))
          (λ _. char n h))
      (λ _. char n h)

-- `s.lower()`; letters beyond ASCII are left alone.
unfoldable pub lower : String → String
unfolding lower_char
lower String.[] = String.[]
lower (String.◌∷◌ c s) = String.◌∷◌ (lower_char c) (lower s)

unfoldable pub upper_char : Char → Char
unfolding dec_lt IsScalar-below
upper_char (char n h) =
    dite (dec_lt 96 n)
      (λ a.
        dite (dec_lt n 123) (λ b. char (n - 32) (IsScalar-below (n - 32) (omega arith)))
          (λ _. char n h))
      (λ _. char n h)

-- `s.upper()`; letters beyond ASCII are left alone.
unfoldable pub upper : String → String
unfolding upper_char
upper String.[] = String.[]
upper (String.◌∷◌ c s) = String.◌∷◌ (upper_char c) (upper s)

-- `bool(s)`
abbrev pub nonempty : String → Bool
nonempty String.[] = false
nonempty (String.◌∷◌ c s) = true

-- `len(u)`, `u[:n]` and `u[n:]`, by characters
abbrev pub len : String → ℕ
len String.[] = 0
len (String.◌∷◌ c u) = suc (len u)

abbrev pub up_to : ℕ → String → String
up_to zero u = String.[]
up_to (suc n) String.[] = String.[]
up_to (suc n) (String.◌∷◌ c u) = String.◌∷◌ c (up_to n u)

abbrev pub from : ℕ → String → String
from zero u = u
from (suc n) String.[] = String.[]
from (suc n) (String.◌∷◌ c u) = from n u

lower-test : lower "0xAbZ9[" ≡ "0xabz9["
unfolding lower
lower-test = refl
