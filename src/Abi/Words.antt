-- ===== src/Abi/Words.antt =====
-- What the writer of words writes, the reader reads back.
use Prim.Native.Char.{code}
use arc_smart_orders.Prelude.{
  ℕ, zero, suc, ◌+◌, ◌-◌, ◌*◌, ◌/◌, ◌%◌, ◌^◌, ◌<◌, ◌≤◌, ◌≡◌, refl, ◌∙◌, true, Option, none, some,
  String, nonempty, len, arith,
}
use arc_smart_orders.Prelude.Int.{ℤ, pos, negsuc}
use arc_smart_orders.Abi.{
  hex_digit, hex_loop, drop_base, int_of_hex, to_signed, digit_char, digits, word,
}

hex_digit-digit_char : (v : ℕ) → hex_digit (code (digit_char v)) ≡ some (v % 16)
unfolding digit_char
hex_digit-digit_char v = ground arith

-- 16 ^ n
abbrev power : ℕ → ℕ
power zero = 1
power (suc n) = 16 * power n

hex_loop-digits : (n v : ℕ) (s : String) → v < power n → hex_loop 0 (digits n v s) ≡ hex_loop v s
unfolding digits
hex_loop-digits zero v s h = let e : v ≡ 0 = omega arith in rw e refl
hex_loop-digits (suc n) v s h =
    let less : v / 16 < power n = omega arith in
    let back : v / 16 * 16 + v % 16 ≡ v = omega arith in
    hex_loop-digits n (v / 16) (String.◌∷◌ (digit_char v) s) less
    ∙ rw (hex_digit-digit_char v, hex_loop, back) refl

len-digits : (n v : ℕ) (s : String) → len (digits n v s) ≡ n + len s
unfolding digits
len-digits zero v s = omega arith
len-digits (suc n) v s = omega (arith, len-digits n (v / 16) (String.◌∷◌ (digit_char v) s))

-- A text of digits has no base prefix.
drop_base-hex : (acc v : ℕ) (s : String) → hex_loop acc s ≡ some v → drop_base s ≡ s
drop_base-hex acc v String.[] h = refl
drop_base-hex acc v (String.◌∷◌ c String.[]) h = refl
drop_base-hex acc v (String.◌∷◌ c (String.◌∷◌ d s)) h = ground arith

nonempty-of_len : (s : String) → 1 ≤ len s → nonempty s ≡ true
nonempty-of_len String.[] h = absurd (omega arith)
nonempty-of_len (String.◌∷◌ c s) h = refl

int_of_hex_read : (v : ℕ) (s : String) → hex_loop 0 s ≡ some v → 1 ≤ len s → int_of_hex s ≡ some v
unfolding int_of_hex
int_of_hex_read v s read long = rw (drop_base-hex 0 v s read, nonempty-of_len s long) read

int_of_hex-digits : (v : ℕ) → v < 2 ^ 256 → int_of_hex (digits 64 v String.[]) ≡ some v
int_of_hex-digits v h =
    int_of_hex_read v (digits 64 v String.[]) (hex_loop-digits 64 v String.[] h)
      (omega (arith, len-digits 64 v String.[]))

-- The range of an int256.
abbrev pub IsInt256 : ℤ → Type 0
IsInt256 (pos n) = n < 2 ^ 255
IsInt256 (negsuc n) = n < 2 ^ 255

abbrev pub as_int256 : Option ℕ → Option ℤ
as_int256 none = none
as_int256 (some v) = some (to_signed v 256)

-- The number that a word stands for, as `_to_signed(int(w, 16), 256)` reads it.
abbrev pub read_int : String → Option ℤ
read_int w = as_int256 (int_of_hex w)

to_signed-pos : (n : ℕ) → n < 2 ^ 255 → to_signed n 256 ≡ pos n
unfolding to_signed
to_signed-pos n h = ground arith

to_signed-negsuc : (n : ℕ) → n < 2 ^ 255 → to_signed (2 ^ 256 - 1 - n) 256 ≡ negsuc n
unfolding to_signed
to_signed-negsuc n h = ground arith

-- The number that is written for an integer, and what it is read as.
pub int_of_hex-word :
    (x : ℤ) → IsInt256 x → (v : ℕ) × (int_of_hex (word x) ≡ some v) × (to_signed v 256 ≡ x)
unfolding word
int_of_hex-word (pos n) h =
    let e : n % 2 ^ 256 ≡ n = omega arith in
    (n, rw e (int_of_hex-digits n (omega arith)), to_signed-pos n h)
int_of_hex-word (negsuc n) h =
    let e : n % 2 ^ 256 ≡ n = omega arith in
    (
      2 ^ 256 - 1 - n,
      rw e (int_of_hex-digits (2 ^ 256 - 1 - n) (omega arith)),
      to_signed-negsuc n h,
    )

pub int_of_hex-word_pos : (n : ℕ) → n < 2 ^ 256 → int_of_hex (word (pos n)) ≡ some n
unfolding word
int_of_hex-word_pos n h = let e : n % 2 ^ 256 ≡ n = omega arith in rw e (int_of_hex-digits n h)

-- Every integer that fits an int256 is read back as it was written.
pub read_int-word : (x : ℤ) → IsInt256 x → read_int (word x) ≡ some x
read_int-word x h = let (v, read, signed) = int_of_hex-word x h in rw (read, signed) refl

pub len-word : (x : ℤ) → len (word x) ≡ 64
unfolding word
len-word (pos n) = omega (arith, len-digits 64 (n % 2 ^ 256) String.[])
len-word (negsuc n) = omega (arith, len-digits 64 (2 ^ 256 - 1 - n % 2 ^ 256) String.[])
