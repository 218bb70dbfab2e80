-- ===== src/Custody.antt =====
-- The tables of custody in arc-intel/bot/store.py: wallets, registered withdrawal addresses, the
-- audit of key uses, and the allowlist of the closed beta. `now` is the argument or `time.time()`.
pub mod Addresses
use arc_smart_orders.Prelude.{
  ℕ, ◌+◌, Bool, true, false, ◌&&◌, Option, none, some, List, [], ◌∷◌, ◌++◌, String, str_eq, lower,
  leb, ltb, select, take, find, exists, map, if◌then◌else◌,
}
use mathlib.Core.List.{reverse}
use arc_smart_orders.Sql.{delete_where, count_where}
use arc_smart_orders.State

pub record Wallet : Type 0 where
  pub chat : String
  pub address : String
  pub enc_secret : String
  pub created_ts : ℕ
  pub status : String

pub record Addr : Type 0 where
  pub chat : String
  pub address : String
  pub status : String
  pub created_ts : ℕ
  pub usable_ts : ℕ

pub record KeyUse : Type 0 where
  pub uid : String
  pub reason : String
  pub caller : String
  pub ts : ℕ

pub record Vault : Type 0 where
  pub state : State.Table
  pub custody : List Wallet
  pub custody_addrs : List Addr
  pub key_audit : List KeyUse
  pub allowlist : List String

abbrev pub of_chat : String → Wallet → Bool
of_chat chat w = str_eq w.chat chat

-- The primary key of custody_addrs.
abbrev pub addr_is : String → String → Addr → Bool
addr_is chat address a = str_eq a.chat chat && str_eq a.address (lower address)

-- INSERT OR REPLACE
unfoldable pub save_custody : (now : ℕ) → (chat address enc_secret status : String) → Vault → Vault
save_custody now chat address enc_secret status v = record v {
  custody =
      delete_where (of_chat chat) v.custody
      ++ record {
        chat = chat;
        address = lower address;
        enc_secret = enc_secret;
        created_ts = now;
        status = status;
      }
        ∷ [];
}

unfoldable pub get_custody : String → Vault → Option Wallet
get_custody chat v = find (of_chat chat) v.custody

pub delete_custody : String → Vault → Vault
delete_custody chat v = record v { custody = delete_where (of_chat chat) v.custody }

pub list_custody_addresses : Vault → List (String × String)
list_custody_addresses v =
    map (λ (w : Wallet). (w.chat, w.address)) (select (λ w. str_eq w.status "active") v.custody)

abbrev pub usable_or : ℕ → Option Addr → ℕ
usable_or default none = default
usable_or default (some a) = a.usable_ts

unfoldable pub get_custody_addr : String → String → Vault → Option Addr
get_custody_addr chat address v = find (addr_is chat address) v.custody_addrs

-- INSERT OR IGNORE, then a SELECT.
unfoldable pub add_custody_addr : String → String → (delay_s now : ℕ) → Vault → ℕ × Vault
unfolding get_custody_addr
add_custody_addr chat address delay_s now v =
    let fresh : Addr = record {
      chat = chat;
      address = lower address;
      status = "pending";
      created_ts = now;
      usable_ts = now + delay_s;
    } in
    let v' : Vault =
      if exists (addr_is chat address) v.custody_addrs
      then v
      else record v { custody_addrs = v.custody_addrs ++ fresh ∷ [] } in
    (usable_or (now + delay_s) (get_custody_addr chat address v'), v')

-- `ORDER BY created_ts`, a stable sort.
abbrev pub insert_by_time : Addr → List Addr → List Addr
insert_by_time a [] = a ∷ []
insert_by_time a (b ∷ bs) =
    let rest = insert_by_time a bs in if leb a.created_ts b.created_ts then a ∷ b ∷ bs else b ∷ rest

abbrev pub sort_by_time : List Addr → List Addr
sort_by_time [] = []
sort_by_time (a ∷ rest) = insert_by_time a (sort_by_time rest)

pub list_custody_addrs : String → Vault → List Addr
list_custody_addrs chat v = sort_by_time (select (λ a. str_eq a.chat chat) v.custody_addrs)

abbrev pub usable_at : ℕ → Option Addr → Bool
usable_at now none = false
usable_at now (some a) = leb a.usable_ts now

unfoldable pub custody_addr_usable : String → String → ℕ → Vault → Bool
unfolding get_custody_addr
custody_addr_usable chat address now v = usable_at now (get_custody_addr chat address v)

pub log_key_audit : String → String → String → ℕ → Vault → Vault
log_key_audit uid reason caller ts v = record v {
  key_audit = v.key_audit ++ record { uid = uid; reason = reason; caller = caller; ts = ts } ∷ [];
}

pub list_key_audit : ℕ → Vault → List KeyUse
list_key_audit limit v = take limit (reverse v.key_audit)

unfoldable pub is_allowed : String → Vault → Bool
is_allowed chat_id v = exists (λ c. str_eq c chat_id) v.allowlist

pub add_allow : String → Vault → Vault
unfolding is_allowed
add_allow chat_id v =
    if is_allowed chat_id v then v else record v { allowlist = v.allowlist ++ chat_id ∷ [] }

pub remove_allow : String → Vault → Bool × Vault
remove_allow chat_id v = (
  ltb 0 (count_where (λ c. str_eq c chat_id) v.allowlist),
  record v { allowlist = delete_where (λ c. str_eq c chat_id) v.allowlist },
)
