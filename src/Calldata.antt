-- ===== src/Calldata.antt =====
-- The calldata of the set-up transactions in arc-intel/execution/sessions.py.
pub mod Arguments
use Prim.Native.Char.{code}
use Prim.Native.String.{◌++◌ as ◌<>◌}
use arc_smart_orders.Prelude.{ℕ, ◌+◌, ◌*◌, Option, none, some, List, [], ◌∷◌, String, map, ◌>>=◌}
use arc_smart_orders.Prelude.Int.{ℤ}
use arc_smart_orders.Abi.{hex_digit, addr, word}
use arc_smart_orders.Keccak.{selector, keccak256, hex}

-- `_b32`, which is written like `_addr`.
abbrev pub b32 : String → String
b32 = addr

unfoldable pub calldata_approve : String → ℤ → String
calldata_approve spender amount =
    selector "approve(address,uint256)" <> (addr spender <> word amount)

unfoldable pub calldata_permit2_approve : String → String → (amount expiration : ℤ) → String
calldata_permit2_approve token spender amount expiration =
    selector "approve(address,address,uint160,uint48)"
    <> (addr token <> (addr spender <> (word amount <> word expiration)))

unfoldable pub calldata_authorize_session :
    (session_key pid token_in : String)
    → (max_per_order max_total min_out_floor expiry : ℤ) → String
calldata_authorize_session session_key pid token_in max_per_order max_total min_out_floor expiry =
    selector "authorizeSession(address,bytes32,address,uint256,uint256,uint256,uint64)"
    <> (addr session_key
        <> (b32 pid
            <> (addr token_in
                <> (word max_per_order
                    <> (word max_total <> (word min_out_floor <> word expiry))))))

unfoldable pub calldata_revoke_session : String → String
calldata_revoke_session session_key = selector "revokeSession(address)" <> addr session_key

-- `bytes.fromhex`; `none` is a ValueError. The texts it is given here hold no blanks.
abbrev pub bytes_of_hex : String → Option (List ℕ)
bytes_of_hex String.[] = some []
bytes_of_hex (String.◌∷◌ c String.[]) = none
bytes_of_hex (String.◌∷◌ c (String.◌∷◌ d s)) = do
  a ← hex_digit (code c)
  b ← hex_digit (code d)
  rest ← bytes_of_hex s
  some ((16 * a + b) ∷ rest)

pub record PoolKey : Type 0 where
  pub currency0 : String
  pub currency1 : String
  pub fee : ℤ
  pub tick_spacing : ℤ
  pub hooks : String

pub pool_id : PoolKey → Option String
pool_id key = do
  enc ← bytes_of_hex (
      addr key.currency0
      <> (addr key.currency1 <> (word key.fee <> (word key.tick_spacing <> addr key.hooks))))
  some ("0x" <> hex (keccak256 enc))
