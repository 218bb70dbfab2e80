-- ===== src/Custody/Addresses.antt =====
-- Registered withdrawal addresses wait for their delay.
use arc_smart_orders.Prelude.{
  ℕ, ◌+◌, ◌≡◌, refl, true, String, lower, leb, find, inl, inr, Option-cases, eq_refl,
}
use arc_smart_orders.Sql.{exists-find-none, exists-find-some, find-append_none}
use arc_smart_orders.Custody.{
  Vault, Addr, addr_is, usable_or, add_custody_addr, get_custody_addr, custody_addr_usable,
}

-- After an address was registered, it can be used exactly from the time that the call answers with:
-- the delay from now for a new address, and the time that was fixed before for a known one.
pub custody_addr_usable-add_custody_addr :
    (chat address : String) (delay now at : ℕ) (v : Vault)
    → let (usable, v') = add_custody_addr chat address delay now v in
      (custody_addr_usable chat address at v' ≡ leb usable at)
      × (usable ≡ usable_or (now + delay) (get_custody_addr chat address v))
unfolding add_custody_addr custody_addr_usable get_custody_addr
custody_addr_usable-add_custody_addr chat address delay now at v =
    let q = addr_is chat address in
    elim (Option-cases (find q v.custody_addrs)) [
      | inr (a, e) ↦ rw (exists-find-some q v.custody_addrs a e, e) (refl, refl)
      | inl e ↦
          let fresh : Addr = record {
            chat = chat;
            address = lower address;
            status = "pending";
            created_ts = now;
            usable_ts = now + delay;
          } in
          let own : q fresh ≡ true = rw (eq_refl chat, eq_refl (lower address)) refl in
          let there = find-append_none q v.custody_addrs fresh e own in
          rw (exists-find-none q v.custody_addrs e, there, e) (refl, refl)
    ]
