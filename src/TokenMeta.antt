-- ===== src/TokenMeta.antt =====
-- arc-intel/indexer/tokenmeta.py: the decimals of tokens and the stable coins. A missing or empty map
-- of decimals, and a missing set of further stable coins, is the empty list.
use arc_smart_orders.Prelude.{
  ℕ, Bool, ◌||◌, none, some, List, [], ◌∷◌, String, str_eq, lower, find, exists,
}

abbrev pub default_decimals : ℕ
default_decimals = 18

abbrev pub known_token_decimals : List (String × ℕ)
known_token_decimals =
    ("0x0000000000000000000000000000000000000000", 18)
    ∷ ("0xfffffffffffffffffffffffffffffffffffffffe", 18)
    ∷ ("0x3600000000000000000000000000000000000000", 6)
    ∷ ("0xbef5f6d51cb62b58e6a8f77868681825c6fe21c1", 6)
    ∷ ("0x171a4217b86a807a64eb94757db6849fb4dbdaa0", 8)
    ∷ []

abbrev pub usd_stables : List String
usd_stables =
    "0x0000000000000000000000000000000000000000" ∷ "0xfffffffffffffffffffffffffffffffffffffffe"
    ∷ "0x3600000000000000000000000000000000000000" ∷ "0xbef5f6d51cb62b58e6a8f77868681825c6fe21c1"
    ∷ []

pub decimals : List (String × ℕ) → String → ℕ
decimals meta token =
    let t = lower token in
    elim (find (λ (r : String × ℕ). str_eq r.0 t) meta) [
      | some r ↦ r.1
      | none ↦ elim (find (λ (r : String × ℕ). str_eq r.0 t) known_token_decimals) [
        | some r ↦ r.1
        | none ↦ default_decimals
      ]
    ]

pub is_usd_stable : List String → String → Bool
is_usd_stable extra token =
    let t = lower token in exists (λ s. str_eq s t) usd_stables || exists (λ s. str_eq s t) extra
