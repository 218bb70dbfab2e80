-- ===== src/Abi.antt =====
-- Words of the ABI as hexadecimal text: reading them, from arc-intel/indexer/processor.py, and
-- writing them, from arc-intel/execution/sessions.py. `int_of_hex` is Python's `int(s, 16)` on digits
-- with or without a leading 0x; what else Python reads (signs, blanks, underscores) does not occur in
-- the answers of a node.
pub mod Words
pub mod Join
use Prim.Native.Char.{Char, char, code, IsScalar}
use Prim.Native.String.{◌++◌ as ◌<>◌}
use mathlib.Core.Logic.{dite}
use native.Mathlib.Decide.{dec_lt}
use arc_smart_orders.Prelude.{
  IsScalar-below, ℕ, zero, suc, ◌+◌, ◌-◌, ◌*◌, ◌/◌, ◌%◌, ◌^◌, ◌<◌, Bool, true, false, ◌&&◌, ◌||◌,
  Option, none, some, List, [], ◌∷◌, String, lower, nonempty, leb, ltb, ◌==◌, len, up_to, from,
  arith, ◌≡◌, refl, if◌then◌else◌,
}
use arc_smart_orders.Prelude.Int.{ℤ, pos, negsuc, sub_ℕ}

abbrev pub hex_digit : ℕ → Option ℕ
hex_digit c =
    if leb b'0' c && leb c b'9'
    then some (c - b'0')
    else if leb b'a' c && leb c b'f'
    then some (c - 87)
    else if leb b'A' c && leb c b'F'
    then some (c - 55)
    else none

abbrev pub hex_loop : ℕ → String → Option ℕ
hex_loop acc String.[] = some acc
hex_loop acc (String.◌∷◌ c s) = elim (hex_digit (code c)) [
  | none ↦ none
  | some d ↦ hex_loop (acc * 16 + d) s
]

-- `d[2:] if d.startswith("0x") else d`
abbrev pub drop_0x : String → String
drop_0x (String.◌∷◌ c (String.◌∷◌ d s)) =
    if code c == b'0' && code d == b'x' then s else String.◌∷◌ c (String.◌∷◌ d s)
drop_0x s = s

-- The base prefix that `int` allows.
abbrev pub drop_base : String → String
drop_base (String.◌∷◌ c (String.◌∷◌ d s)) =
    if code c == b'0' && (code d == b'x' || code d == b'X')
    then s
    else String.◌∷◌ c (String.◌∷◌ d s)
drop_base s = s

-- `none` is a ValueError.
unfoldable pub int_of_hex : String → Option ℕ
int_of_hex s = if nonempty (drop_base s) then hex_loop 0 (drop_base s) else none

-- `[d[i:i + 64] for i in range(0, len(d), 64)]`, on fuel of the text's length.
abbrev pub chunks : ℕ → String → List String
chunks zero d = []
chunks (suc fuel) String.[] = []
chunks (suc fuel) (String.◌∷◌ c d) =
    up_to 64 (String.◌∷◌ c d) ∷ chunks fuel (from 64 (String.◌∷◌ c d))

unfoldable pub words : String → List String
words text = let d = drop_0x text in chunks (len d) d

-- `"".join(ws)`
abbrev pub join : List String → String
join [] = String.[]
join (w ∷ ws) = w <> join ws

unfoldable pub to_signed : ℕ → ℕ → ℤ
to_signed v bits = if leb (2 ^ bits / 2) v then sub_ℕ v (2 ^ bits) else pos v

-- `"0x" + topic[-40:].lower()`
unfoldable pub topic_address : String → String
topic_address topic =
    "0x" <> lower (if leb (len topic) 40 then topic else from (len topic - 40) topic)

-- The last hexadecimal digit of a number, in lower case.
unfoldable pub digit_char : ℕ → Char
unfolding dec_lt
digit_char v =
    dite (dec_lt (v % 16) 10)
      (λ h. char (b'0' + v % 16) (IsScalar-below (b'0' + v % 16) (omega arith)))
      (λ _. char (87 + v % 16) (IsScalar-below (87 + v % 16) (omega arith)))

-- The last `n` hexadecimal digits of a number, before the text `s`.
unfoldable pub digits : ℕ → ℕ → String → String
digits zero v s = s
digits (suc n) v s = digits n (v / 16) (String.◌∷◌ (digit_char v) s)

-- `format(x & ((1 << 256) - 1), "064x")` for x from 0 on, and below.
unfoldable pub word : ℤ → String
word (pos n) = digits 64 (n % 2 ^ 256) String.[]
word (negsuc n) = digits 64 (2 ^ 256 - 1 - n % 2 ^ 256) String.[]

-- `s.replace("0x", "")`
abbrev pub without_0x : String → String
without_0x (String.◌∷◌ c (String.◌∷◌ d s)) =
    let rest = without_0x s in
    let keep = String.◌∷◌ c (without_0x (String.◌∷◌ d s)) in
    if code c == b'0' && code d == b'x' then rest else keep
without_0x s = s

abbrev pub zeros : ℕ → String → String
zeros zero s = s
zeros (suc n) s = String.◌∷◌ (digit_char 0) (zeros n s)

-- `a.lower().replace("0x", "").rjust(64, "0")`
unfoldable pub addr : String → String
unfolding digit_char lower
addr a = let h = without_0x (lower a) in zeros (64 - len h) h
