-- ===== src/Subscriptions/Auto.antt =====
-- Linked wallets and the subscriptions that are made from them: the tables `wallet_links` and
-- `auto_subs` of arc-intel/bot/store.py.
pub mod Unlink
use arc_smart_orders.Prelude.{
  ℕ, Bool, true, false, not, ◌&&◌, Option, none, some, List, [], ◌∷◌, ◌++◌, String, str_eq, lower,
  select, find, exists, map, length, if◌then◌else◌,
}
use arc_smart_orders.Sql.{update_where, delete_where}
use arc_smart_orders.Subscriptions.{Subs, Link, is_chat, add_token, remove_token}

abbrev pub link_of : String → Link → Bool
link_of chat_id l = str_eq l.chat_id chat_id

abbrev pub address_or_empty : Option Link → String
address_or_empty none = ""
address_or_empty (some l) = l.address

pub link_wallet : ℕ → String → String → Subs → Subs
link_wallet now chat_id address s =
    let link : Link = record { chat_id = chat_id; address = lower address; created_ts = now } in
    if exists (link_of chat_id) s.wallet_links
    then record s {
      wallet_links =
          update_where (link_of chat_id)
            (λ l. record l { address = lower address; created_ts = now }) s.wallet_links;
    }
    else record s { wallet_links = s.wallet_links ++ link ∷ [] }

pub get_linked_wallet : String → Subs → String
get_linked_wallet chat_id s = address_or_empty (find (link_of chat_id) s.wallet_links)

pub list_linked_wallets : Subs → List (String × String)
list_linked_wallets s = map (λ (l : Link). (l.chat_id, l.address)) s.wallet_links

abbrev pub auto_is : String → String → String × String → Bool
auto_is chat_id token (c, t) = str_eq c chat_id && str_eq t token

unfoldable pub auto_subs_of : String → Subs → List String
auto_subs_of chat_id s =
    map (λ (r : String × String). r.1)
      (select (λ (r : String × String). str_eq r.0 chat_id) s.auto_subs)

unfoldable pub is_auto_sub : String → String → Subs → Bool
is_auto_sub chat_id token s = exists (auto_is chat_id (lower token)) s.auto_subs

pub add_auto_sub : (now_text chat_id token : String) → ℕ → Subs → Bool × Subs
add_auto_sub now_text chat_id token now_block s =
    let t = lower token in
    let ((ok, reason), s') = add_token now_text chat_id t now_block true s in
    if str_eq reason "added"
    then (
      true,
      record s' {
        auto_subs =
            if exists (auto_is chat_id t) s'.auto_subs
            then s'.auto_subs
            else s'.auto_subs ++ (chat_id, t) ∷ [];
      },
    )
    else (false, s')

pub remove_auto_sub : String → String → Subs → Bool × Subs
unfolding is_auto_sub
remove_auto_sub chat_id token s =
    let t = lower token in
    if not (is_auto_sub chat_id t s)
    then (false, s)
    else let (reply, s') = remove_token chat_id t s in
      (true, record s' { auto_subs = delete_where (auto_is chat_id t) s'.auto_subs })

pub promote_to_manual : String → String → Subs → Subs
promote_to_manual chat_id token s = record s {
  auto_subs = delete_where (auto_is chat_id (lower token)) s.auto_subs;
}

-- The loop of `unlink_wallet`.
unfoldable pub remove_all : String → List String → Subs → Subs
remove_all chat_id [] s = s
remove_all chat_id (tok ∷ rest) s = remove_all chat_id rest (remove_token chat_id tok s).1

unfoldable pub unlink_wallet : String → Subs → ℕ × Subs
unfolding remove_all auto_subs_of
unlink_wallet chat_id s =
    let autos = auto_subs_of chat_id s in
    let s' = remove_all chat_id autos s in
    (
      length autos,
      record s' {
        auto_subs = delete_where (λ (r : String × String). str_eq r.0 chat_id) s'.auto_subs;
        wallet_links = delete_where (link_of chat_id) s'.wallet_links;
        subscribers =
            update_where (is_chat chat_id) (λ r. record r { wallets = [] }) s'.subscribers;
      },
    )
