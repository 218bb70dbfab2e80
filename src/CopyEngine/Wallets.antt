-- ===== src/CopyEngine/Wallets.antt =====
-- The table copy_wallets of arc-intel/bot/store.py: the leaders that a chat follows. The column
-- created_ts, which only orders a list for display, is not kept.
use arc_smart_orders.Prelude.{
  ℕ, ◌≡◌, refl, Bool, true, ◌&&◌, Option, none, some, [], ◌∷◌, ◌++◌, String, str_eq, lower, ltb,
  find, Bool-cases, inl, inr, exists, if◌then◌else◌,
}
use arc_smart_orders.Sql.{update_where, delete_where, count_where, find-update_where}
use arc_smart_orders.CopyEngine.{CopyWallet, CopyStore}
use mathlib.Core.Option

module _ {F : Type 0} where
  abbrev pub follows : String → String → CopyWallet F → Bool
  follows follower leader w = str_eq w.follower_chat follower && str_eq w.leader (lower leader)

  -- INSERT … ON CONFLICT(follower_chat,leader) DO UPDATE
  unfoldable pub add_copy_wallet :
      (follower leader : String)
      → (flat_usdc : Option F) → (now_block : ℕ) → CopyStore F
      → CopyStore F
  add_copy_wallet follower leader flat_usdc now_block s = record s {
    wallets =
        if exists (follows follower leader) s.wallets
        then update_where (follows follower leader)
            (λ (w : CopyWallet F). record w { flat_usdc = flat_usdc; enabled = true }) s.wallets
        else s.wallets
          ++ record {
            follower_chat = follower;
            leader = lower leader;
            flat_usdc = flat_usdc;
            enabled = true;
            last_block = now_block;
          }
            ∷ [];
  }

  unfoldable pub get_copy_wallet : String → String → CopyStore F → Option (CopyWallet F)
  get_copy_wallet follower leader s = find (follows follower leader) s.wallets

  unfoldable pub remove_copy_wallet : String → String → CopyStore F → Bool × CopyStore F
  remove_copy_wallet follower leader s = (
    ltb 0 (count_where (follows follower leader) s.wallets),
    record s { wallets = delete_where (follows follower leader) s.wallets },
  )

  unfoldable pub set_copy_wallet_enabled : String → String → Bool → CopyStore F → Bool × CopyStore F
  set_copy_wallet_enabled follower leader enabled s = (
    ltb 0 (count_where (follows follower leader) s.wallets),
    record s {
      wallets =
          update_where (follows follower leader)
            (λ (w : CopyWallet F). record w { enabled = enabled }) s.wallets;
    },
  )

  -- Switching a leader on or off leaves the block up to which its trades have been dealt with.
  last_block-set_copy_wallet_enabled :
      (follower leader : String) (enabled : Bool) (s : CopyStore F)
      → Option.map
          (λ (w : CopyWallet F). w.last_block)
          (get_copy_wallet follower leader (set_copy_wallet_enabled follower leader enabled s).1)
        ≡ Option.map (λ (w : CopyWallet F). w.last_block) (get_copy_wallet follower leader s)
  unfolding get_copy_wallet set_copy_wallet_enabled
  last_block-set_copy_wallet_enabled follower leader enabled s =
      rw
        (find-update_where (follows follower leader) (follows follower leader)
          (λ (w : CopyWallet F). record w { enabled = enabled }) s.wallets (λ r. refl))
        (kept (find (follows follower leader) s.wallets))
    where
      kept :
          (o : Option (CopyWallet F))
          → Option.map
              (λ (w : CopyWallet F). w.last_block)
              (Option.map
                (λ r. if follows follower leader r then record r { enabled = enabled } else r)
                o)
            ≡ Option.map (λ (w : CopyWallet F). w.last_block) o
      kept none = refl
      kept (some w) = elim (Bool-cases (follows follower leader w)) [
        | inl e ↦ rw e refl
        | inr e ↦ rw e refl
      ]
