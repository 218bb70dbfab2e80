-- ===== src/Keccak.antt =====
-- Keccak-256 in arc-intel/indexer/token_risk.py, on bytes as numbers, and the function selectors.
use Prim.Native.Nat.{bit_and, bit_or, bit_xor}
use Prim.Native.Char.{code}
use Prim.Native.String.{◌++◌ as ◌<>◌}
use native.Mathlib.Decide.{dec_lt}
use arc_smart_orders.Abi.{digits, digit_char}
use arc_smart_orders.Prelude.{
  ltb, String, up_to, ◌≡◌, refl, drop, ℕ, zero, suc, ◌+◌, ◌-◌, ◌*◌, ◌/◌, ◌%◌, ◌^◌, List, [], ◌∷◌,
  ◌++◌, ◌==◌, take, length, if◌then◌else◌,
}

abbrev pub keccak_rc : List ℕ
keccak_rc =
    0x0000000000000001 ∷ 0x0000000000008082 ∷ 0x800000000000808A ∷ 0x8000000080008000
    ∷ 0x000000000000808B ∷ 0x0000000080000001 ∷ 0x8000000080008081 ∷ 0x8000000000008009
    ∷ 0x000000000000008A ∷ 0x0000000000000088 ∷ 0x0000000080008009 ∷ 0x000000008000000A
    ∷ 0x000000008000808B ∷ 0x800000000000008B ∷ 0x8000000000008089 ∷ 0x8000000000008003
    ∷ 0x8000000000008002 ∷ 0x8000000000000080 ∷ 0x000000000000800A ∷ 0x800000008000000A
    ∷ 0x8000000080008081 ∷ 0x8000000000008080 ∷ 0x0000000080000001 ∷ 0x8000000080008008 ∷ []

-- `_KECCAK_R`, its rows one after the other.
abbrev pub keccak_r : List ℕ
keccak_r =
    0 ∷ 36 ∷ 3 ∷ 41 ∷ 18 ∷ 1 ∷ 44 ∷ 10 ∷ 45 ∷ 2 ∷ 62 ∷ 6 ∷ 43 ∷ 15 ∷ 61 ∷ 28 ∷ 55 ∷ 25 ∷ 21 ∷ 56
    ∷ 27 ∷ 20 ∷ 39 ∷ 8 ∷ 14 ∷ []

abbrev pub mask64 : ℕ
mask64 = 2 ^ 64 - 1

-- `l[i]`; every index below is in range.
abbrev pub at : List ℕ → ℕ → ℕ
at [] i = 0
at (x ∷ xs) zero = x
at (x ∷ xs) (suc i) = at xs i

-- `[f(x) for x in range(i, i + n)]`
abbrev pub tabulate : ℕ → ℕ → (ℕ → ℕ) → List ℕ
tabulate zero i f = []
tabulate (suc n) i f = f i ∷ tabulate n (i + 1) f

pub rol : ℕ → ℕ → ℕ
rol x n = if n == 0 then x else bit_and (bit_or (x * 2 ^ n) (x / 2 ^ (64 - n))) mask64

-- One round. The code fills `b` at `y + 5 * ((2x + 3y) % 5)` from `state[x + 5y]`; at an index `k` of
-- `b` that is `y = k % 5`, and `x` with `2x + 3y = k / 5` modulo 5.
pub keccak_round : ℕ → List ℕ → List ℕ
unfolding rol
keccak_round rc state =
    let c = tabulate 5 0 (λ x.
      bit_xor
        (bit_xor (bit_xor (bit_xor (at state x) (at state (x + 5))) (at state (x + 10)))
          (at state (x + 15)))
        (at state (x + 20))) in
    let d = tabulate 5 0 (λ x. bit_xor (at c ((x + 4) % 5)) (rol (at c ((x + 1) % 5)) 1)) in
    let s = tabulate 25 0 (λ i. bit_xor (at state i) (at d (i % 5))) in
    let b = tabulate 25 0 (λ k.
      let y = k % 5 in
      let x = (3 * (k / 5 + 2 * y)) % 5 in rol (at s (x + 5 * y)) (at keccak_r (5 * x + y))) in
    let t = tabulate 25 0 (λ i.
      let x = i % 5 in
      let y = i / 5 in
      bit_xor (at b i)
        (bit_and (bit_xor (at b ((x + 1) % 5 + 5 * y)) mask64) (at b ((x + 2) % 5 + 5 * y)))) in
    tabulate 25 0 (λ i. if i == 0 then bit_xor (at t 0) rc else at t i)

pub keccak_f : List ℕ → List ℕ → List ℕ
unfolding keccak_round
keccak_f [] state = state
keccak_f (rc ∷ rcs) state = keccak_f rcs (keccak_round rc state)

abbrev pub rate : ℕ
rate = 136

-- `while len(d) % rate != 0: d.append(0x00)`, on fuel.
abbrev pub fill : ℕ → List ℕ → List ℕ
fill zero d = d
fill (suc fuel) d = let more = fill fuel (d ++ 0 ∷ []) in if length d % rate == 0 then d else more

-- `d[-1] ^= 0x80`
abbrev pub mark_last : List ℕ → List ℕ
mark_last [] = []
mark_last (x ∷ []) = bit_xor x 0x80 ∷ []
mark_last (x ∷ y ∷ d) = x ∷ mark_last (y ∷ d)

unfoldable pub pad : List ℕ → List ℕ
pad data_bytes = mark_last (fill rate (data_bytes ++ 0x01 ∷ []))

-- `int.from_bytes(b, "little")` and `n.to_bytes(k, "little")`
abbrev pub from_bytes : List ℕ → ℕ
from_bytes [] = 0
from_bytes (b ∷ bs) = b + 256 * from_bytes bs

abbrev pub to_bytes : ℕ → ℕ → List ℕ
to_bytes zero n = []
to_bytes (suc k) n = n % 256 ∷ to_bytes k (n / 256)

-- The lanes of one block, into the state.
abbrev pub absorb : List ℕ → List ℕ → List ℕ
absorb block state = tabulate 25 0 (λ i.
    if ltb i (rate / 8)
    then bit_xor (at state i) (from_bytes (take 8 (drop (i * 8) block)))
    else at state i)

-- The loop over the blocks, on fuel of the length.
pub sponge : ℕ → List ℕ → List ℕ → List ℕ
unfolding keccak_f
sponge zero d state = state
sponge (suc fuel) [] state = state
sponge (suc fuel) (x ∷ d) state =
    sponge fuel (drop rate (x ∷ d)) (keccak_f keccak_rc (absorb (take rate (x ∷ d)) state))

-- `b"".join(state[i].to_bytes(8, "little") …)[:32]`
abbrev pub lane_bytes : List ℕ → List ℕ
lane_bytes [] = []
lane_bytes (x ∷ xs) = to_bytes 8 x ++ lane_bytes xs

pub keccak256 : List ℕ → List ℕ
unfolding sponge pad
keccak256 data_bytes =
    let d = pad data_bytes in take 32 (lane_bytes (sponge (length d) d (tabulate 25 0 (λ i. 0))))

-- `signature.encode()` of an ASCII text
abbrev pub encode : String → List ℕ
encode String.[] = []
encode (String.◌∷◌ c s) = code c ∷ encode s

-- `bs.hex()`
pub hex : List ℕ → String
unfolding digits
hex [] = String.[]
hex (b ∷ bs) = digits 2 b (hex bs)

unfoldable pub selector : String → String
unfolding keccak256 hex
selector signature = "0x" <> up_to 8 (hex (keccak256 (encode signature)))

transfer_selector : selector "transfer(address,uint256)" ≡ "0xa9059cbb"
unfolding selector digit_char dec_lt
transfer_selector = refl
