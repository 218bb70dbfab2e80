-- ===== src/CustodyServer/Withdraw/Allowed.antt =====
-- What holds where a withdrawal is submitted.
use arc_smart_orders.Prelude.{
  ℕ, ◌≡◌, ◌<◌, ◌≤◌, refl, sym, subst, true, false, ◌&&◌, Option, none, some, String, lower, str_eq,
  arith, inl, inr, Bool-cases, Option-cases, ◌==◌, if◌then◌else◌,
}
use arc_smart_orders.Prelude.Int.{ℤ, pos, negsuc}
use arc_smart_orders.Float.{Float}
use arc_smart_orders.State.{totp_confirmed, custody_paused, is_frozen}
use arc_smart_orders.Custody.{
  Vault, Wallet, Addr, get_custody, get_custody_addr, custody_addr_usable, usable_at,
}
use arc_smart_orders.CustodyServer.{guards, totp_ok}
use arc_smart_orders.CustodyServer.Withdraw.{
  Request, Permit, Check, denied, permitted, Outside, or_text, truthy, today, check_amount,
  check_wallet, withdraw_check,
}

pub guards-none :
    (uid : String) (v : Vault)
    → guards uid v ≡ none
    → (custody_paused v.state ≡ false) × (is_frozen uid v.state ≡ false)
unfolding guards
guards-none uid v h = elim (Bool-cases (custody_paused v.state)) [
  | inl e ↦ absurd (ground (arith, rw e at h))
  | inr open_ ↦ elim (Bool-cases (is_frozen uid v.state)) [
    | inl e ↦ absurd (ground (arith, rw (open_, e) at h))
    | inr free ↦ (open_, free)
  ]
]

module _ (fl : Float) (out : Outside fl) where
  -- The amount is positive, and a withdrawal of the stable coin stays within the cap.
  Capped : ℕ → String → Vault → Permit fl.F → Type 0
  Capped now uid v p =
      (p.uid ≡ uid)
      × (0 < p.amount)
      × ((truthy fl out p.usdc && fl.flt out.cap (fl.add (today fl out uid now v) p.usdc)) ≡ false)

  OnPermit : (Permit fl.F → Type 0) → Check fl.F → Type 0
  OnPermit P (denied reply) = Unit
  OnPermit P (permitted p) = P p

  check_amount-Capped :
      (now : ℕ) (r : Request) (c : Wallet) (to token : String) (n : Option ℤ) (v : Vault)
      → OnPermit
          (λ p. Capped now r.uid v p × (p.to ≡ to))
          (check_amount fl out now r c to token n v)
  unfolding check_amount OnPermit Capped
  check_amount-Capped now r c to token none v = tt
  check_amount-Capped now r c to token (some (negsuc n)) v = tt
  check_amount-Capped now r c to token (some (pos amount)) v = elim (Bool-cases (amount == 0)) [
    | inl e ↦ rw e tt
    | inr e ↦
        let usdc =
          if str_eq token (lower out.stable)
          then fl.div (fl.lit amount 0) (fl.lit 1000000 0)
          else fl.lit 0 0 in
        elim (Bool-cases
          (truthy fl out usdc && fl.flt out.cap (fl.add (today fl out r.uid now v) usdc))) [
            | inl over ↦ rw (e, over) tt
            | inr fits ↦ rw (e, fits) ((refl, ground (arith, e), fits), refl)
          ]
  ]

  Guarded : ℕ → Request → Vault → Permit fl.F → Type 0
  Guarded now r v p =
      (totp_confirmed r.uid v.state ≡ true)
      × (totp_ok out.verify r.uid r.code v ≡ true)
      × (custody_addr_usable r.uid p.to now v ≡ true)
      × Capped now r.uid v p

  OnPermit-map :
      (P Q : Permit fl.F → Type 0) (c : Check fl.F)
      → ((p : Permit fl.F) → P p → Q p)
      → OnPermit P c
      → OnPermit Q c
  unfolding OnPermit
  OnPermit-map P Q (denied reply) f h = tt
  OnPermit-map P Q (permitted p) f h = f p h

  check_wallet-Guarded :
      (now : ℕ) (r : Request) (c : Wallet) (v : Vault)
      → OnPermit (Guarded now r v) (check_wallet fl out now r c v)
  unfolding check_wallet OnPermit Guarded
  check_wallet-Guarded now r c v =
      let to = lower r.to in
      let token = lower (or_text r.token (lower out.stable)) in
      elim (Bool-cases (totp_confirmed r.uid v.state)) [
        | inr e ↦ rw e tt
        | inl confirmed ↦ elim (Bool-cases (totp_ok out.verify r.uid r.code v)) [
          | inr e ↦ rw (confirmed, e) tt
          | inl passed ↦ elim (Bool-cases (out.is_address to)) [
            | inr e ↦ rw (confirmed, passed, e) tt
            | inl good ↦ elim (Bool-cases (custody_addr_usable r.uid to now v)) [
              | inr e ↦ rw (confirmed, passed, good, e) tt
              | inl usable ↦ elim (Bool-cases (out.is_address token)) [
                | inr e ↦ rw (confirmed, passed, good, usable, e) tt
                | inl fine ↦
                    rw (confirmed, passed, good, usable, fine)
                      (OnPermit-map _ (Guarded now r v) _
                        (λ p h. (
                          confirmed,
                          passed,
                          subst (λ t. custody_addr_usable r.uid t now v ≡ true) (sym (h.1)) usable,
                          h.0,
                        ))
                        (check_amount-Capped now r c to token (out.int (or_text r.amount_raw "0"))
                          v))
              ]
            ]
          ]
        ]
      ]

  Cleared : ℕ → Request → Vault → Permit fl.F → Type 0
  Cleared now r v p =
      (custody_paused v.state ≡ false) × (is_frozen r.uid v.state ≡ false) × Guarded now r v p

  withdraw_check-Cleared :
      (now : ℕ) (r : Request) (v : Vault)
      → OnPermit (Cleared now r v) (withdraw_check fl out now r v)
  unfolding withdraw_check OnPermit Cleared
  withdraw_check-Cleared now r v = elim (Option-cases (guards r.uid v)) [
    | inr (reply, e) ↦ rw (OnPermit, e) tt
    | inl free ↦ elim (Option-cases (get_custody r.uid v)) [
      | inl e ↦ rw (OnPermit, free, e) tt
      | inr (c, e) ↦
          let clear = guards-none r.uid v free in
          rw (OnPermit, free, e)
            (OnPermit-map (Guarded now r v) (Cleared now r v) _ (λ p h. (clear.0, clear.1, h))
              (check_wallet-Guarded now r c v))
    ]
  ]

  usable_at-registered :
      (now : ℕ) (o : Option Addr)
      → usable_at now o ≡ true
      → (a : Addr) × (o ≡ some a) × (a.usable_ts ≤ now)
  usable_at-registered now none h = absurd (ground arith)
  usable_at-registered now (some a) h = (a, refl, ground (arith, h))

  -- Where the handler comes to submit a withdrawal, custody is not paused and the chat not frozen,
  -- the chat has confirmed its second factor and the code passes, the target is an address that the
  -- chat registered and whose delay is over, the amount is positive, and what the chat has withdrawn
  -- today with this withdrawal is not above the cap, unless the withdrawal counts as nothing.
  pub withdraw_check-permitted :
      (now : ℕ) (r : Request) (v : Vault) (p : Permit fl.F)
      → withdraw_check fl out now r v ≡ permitted p
      → (custody_paused v.state ≡ false)
        × (is_frozen r.uid v.state ≡ false)
        × (totp_confirmed r.uid v.state ≡ true)
        × (totp_ok out.verify r.uid r.code v ≡ true)
        × ((a : Addr) × (get_custody_addr r.uid p.to v ≡ some a) × (a.usable_ts ≤ now))
        × (0 < p.amount)
        × ((truthy fl out p.usdc && fl.flt out.cap (fl.add (today fl out r.uid now v) p.usdc))
            ≡ false)
  unfolding OnPermit Cleared Guarded Capped custody_addr_usable
  withdraw_check-permitted now r v p h =
      let k : Cleared now r v p =
        subst (OnPermit (Cleared now r v)) h (withdraw_check-Cleared now r v) in
      let (open_, free, (confirmed, passed, usable, (own, some_, fits))) = k in
      (
        open_,
        free,
        confirmed,
        passed,
        usable_at-registered now (get_custody_addr r.uid p.to v) usable,
        some_,
        fits,
      )

  -- The part of it that the daily cap rests on.
  pub withdraw_check-cap :
      (now : ℕ) (r : Request) (v : Vault) (p : Permit fl.F)
      → withdraw_check fl out now r v ≡ permitted p
      → (p.uid ≡ r.uid)
        × ((truthy fl out p.usdc && fl.flt out.cap (fl.add (today fl out r.uid now v) p.usdc))
            ≡ false)
  unfolding OnPermit Cleared Guarded Capped
  withdraw_check-cap now r v p h =
      let k : Cleared now r v p =
        subst (OnPermit (Cleared now r v)) h (withdraw_check-Cleared now r v) in
      let (open_, free, (confirmed, passed, usable, (own, some_, fits))) = k in (own, fits)
