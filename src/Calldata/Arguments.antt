-- ===== src/Calldata/Arguments.antt =====
-- What a reader of the calldata finds is what was written.
use Prim.Native.String.{◌++◌ as ◌<>◌}
use native.Mathlib.Decide.{dec_lt}
use arc_smart_orders.Prelude.{
  ℕ, zero, suc, ◌+◌, ◌-◌, ◌≤◌, ◌≡◌, refl, subst, ap, ◌∙◌, some, [], ◌∷◌, String, len, from, lower,
  map, arith, All,
}
use arc_smart_orders.Prelude.Int.{ℤ}
use arc_smart_orders.Abi.{addr, word, words, zeros, without_0x, digit_char, join}
use arc_smart_orders.Abi.Words.{read_int, read_int-word, IsInt256, len-word}
use arc_smart_orders.Abi.Join.{from-append, words-join, append-nil}
use arc_smart_orders.Keccak.{selector}
use arc_smart_orders.Calldata.{b32, calldata_authorize_session}

len-zeros : (n : ℕ) (s : String) → len (zeros n s) ≡ n + len s
len-zeros zero s = omega arith
len-zeros (suc n) s = omega (arith, len-zeros n s)

-- An address, or a key of a pool, that is not too long for a word.
abbrev pub Fits : String → Type 0
Fits a = len (without_0x (lower a)) ≤ 64

len-addr : (a : String) → Fits a → len (addr a) ≡ 64
unfolding addr
len-addr a h = omega (arith, len-zeros (64 - len (without_0x (lower a))) (without_0x (lower a)))

from-selector : (s t : String) → len s ≡ 10 → from 10 (s <> t) ≡ t
from-selector s t h = subst (λ n. from n (s <> t) ≡ t) h (from-append s t)

len-selector :
    len (selector "authorizeSession(address,bytes32,address,uint256,uint256,uint256,uint64)") ≡ 10
unfolding selector digit_char dec_lt
len-selector = refl

-- Behind the selector, the calldata of an authorisation is taken apart into the words of its
-- arguments, where its two addresses and the key of the pool fit a word; and the four numbers are read
-- back from theirs, where they fit an int256.
pub calldata_authorize_session-words :
    (session_key pid token_in : String) (max_per_order max_total min_out_floor expiry : ℤ)
    → Fits session_key
    → Fits pid
    → Fits token_in
    → IsInt256 max_per_order
    → IsInt256 max_total
    → IsInt256 min_out_floor
    → IsInt256 expiry
    → let call =
        calldata_authorize_session session_key pid token_in max_per_order max_total min_out_floor
          expiry in
      let numbers = word max_per_order ∷ word max_total ∷ word min_out_floor ∷ word expiry ∷ [] in
      (words ("0x" <> from 10 call) ≡ addr session_key ∷ b32 pid ∷ addr token_in ∷ numbers)
      × (map read_int numbers
          ≡ some max_per_order ∷ some max_total ∷ some min_out_floor ∷ some expiry ∷ [])
unfolding calldata_authorize_session
calldata_authorize_session-words session_key pid token_in max_per_order max_total min_out_floor
      expiry fits_key fits_pid fits_token m t f e =
    let ws =
      addr session_key
      ∷ b32 pid
      ∷ addr token_in
      ∷ word max_per_order
      ∷ word max_total
      ∷ word min_out_floor
      ∷ word expiry
      ∷ [] in
    let signature : String =
      "authorizeSession(address,bytes32,address,uint256,uint256,uint256,uint64)" in
    let long : All (λ w. len w ≡ 64) ws = (
      len-addr session_key fits_key,
      (
        len-addr pid fits_pid,
        (
          len-addr token_in fits_token,
          (
            len-word max_per_order,
            (len-word max_total, (len-word min_out_floor, (len-word expiry, tt))),
          ),
        ),
      ),
    ) in
    let body : from 10 (selector signature <> join ws) ≡ join ws =
      from-selector (selector signature) (join ws) len-selector in
    let taken = rw append-nil at (ap (λ s. words ("0x" <> s)) body ∙ words-join ws long) in
    (
      taken,
      rw
          (
            read_int-word max_per_order m,
            read_int-word max_total t,
            read_int-word min_out_floor f,
            read_int-word expiry e,
          )
          refl,
    )
