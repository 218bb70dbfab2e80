-- ===== src/CustodyServer/Withdraw/Cap.antt =====
-- The daily cap on withdrawals: kept by requests one after the other, passed by two at a time.
use arc_smart_orders.Prelude.{
  ℕ, ◌≡◌, refl, sym, ap, ◌∙◌, subst, true, false, ◌&&◌, some, All, List, [], ◌∷◌, String, str_eq,
  nonempty, inl, inr, Bool-cases, Option-cases, eq_refl, if◌then◌else◌,
}
use arc_smart_orders.Float.{Float}
use arc_smart_orders.State.{wd_key, withdraw_today}
use arc_smart_orders.State.RoundTrip.{withdraw_today-add_withdraw_today}
use arc_smart_orders.Custody.{Vault}
use arc_smart_orders.CustodyServer.Withdraw.{
  Request, Permit, Check, denied, permitted, Outside, truthy, today, withdraw_check,
  withdraw_settle, withdraw_found, custody_withdraw,
}
use arc_smart_orders.CustodyServer.Withdraw.Allowed.{withdraw_check-cap}

-- A request, with the time of its checks and that of its entry.
pub record Timed : Type 0 where
  pub now : ℕ
  pub later : ℕ
  pub request : Request

module _ (fl : Float) (out : Outside fl) where
  -- The requests of a history, one after the other.
  abbrev pub withdraws : List Timed → Vault → Vault
  withdraws [] v = v
  withdraws (q ∷ rest) v = withdraws rest (custody_withdraw fl out q.now q.later q.request v).1

  abbrev pub key : String → ℕ → String
  key uid now = wd_key fl out.day out.to_float out.to_text uid now

  today-same_day :
      (uid : String) (now later : ℕ) (v : Vault)
      → out.day now ≡ out.day later
      → today fl out uid now v ≡ today fl out uid later v
  unfolding today withdraw_today
  today-same_day uid now later v e = rw e refl

  withdraw_settle_nothing :
      (now : ℕ) (p : Permit fl.F) (v : Vault)
      → truthy fl out p.usdc ≡ false
      → withdraw_settle fl out now p v ≡ v
  unfolding withdraw_settle
  withdraw_settle_nothing now p v e = rw e refl

module _ (fl : Float) (out : Outside fl) (written : (x : fl.F) → nonempty (out.to_text x) ≡ true)
    (read : (x : fl.F) → out.to_float (out.to_text x) ≡ some x) where
  today-withdraw_settle :
      (now now' : ℕ) (uid : String) (p : Permit fl.F) (v : Vault)
      → truthy fl out p.usdc ≡ true
      → today fl out uid now' (withdraw_settle fl out now p v) ≡ (
          if str_eq (key fl out p.uid now) (key fl out uid now')
          then fl.add (today fl out p.uid now v) p.usdc
          else today fl out uid now' v)
  unfolding today withdraw_settle
  today-withdraw_settle now now' uid p v counts = rw counts (
      withdraw_today-add_withdraw_today fl out.day out.to_float out.to_text written read p.uid uid
        p.usdc now now' v.state)

  today-withdraw_settle_own :
      (now : ℕ) (uid : String) (p : Permit fl.F) (v : Vault)
      → p.uid ≡ uid
      → truthy fl out p.usdc ≡ true
      → today fl out uid now (withdraw_settle fl out now p v)
        ≡ fl.add (today fl out uid now v) p.usdc
  today-withdraw_settle_own now uid p v own counts =
      let same : str_eq (key fl out p.uid now) (key fl out uid now) ≡ true =
        subst (λ u. str_eq (key fl out p.uid now) (key fl out u now) ≡ true) own
          (eq_refl (key fl out p.uid now)) in
      today-withdraw_settle now now uid p v counts
      ∙ rw same (ap (λ u. fl.add (today fl out u now v) p.usdc) own)

  Within : Vault → Type 0
  Within v = (uid : String) (now : ℕ) → fl.flt out.cap (today fl out uid now v) ≡ false

  withdraw_settle-Within :
      (now : ℕ) (p : Permit fl.F) (v : Vault)
      → (truthy fl out p.usdc && fl.flt out.cap (fl.add (today fl out p.uid now v) p.usdc)) ≡ false
      → Within v
      → Within (withdraw_settle fl out now p v)
  unfolding Within
  withdraw_settle-Within now p v fits h uid now' = elim (Bool-cases (truthy fl out p.usdc)) [
    | inr nothing ↦ rw (withdraw_settle_nothing fl out now p v nothing) (h uid now')
    | inl counts ↦
        rw (today-withdraw_settle now now' uid p v counts)
          (elim (Bool-cases (str_eq (key fl out p.uid now) (key fl out uid now'))) [
            | inl e ↦ rw e (rw counts at fits)
            | inr e ↦ rw e (h uid now')
          ])
  ]

  withdraw_found-Within :
      (now later : ℕ) (r : Request) (v : Vault) (c : Check fl.F)
      → out.day now ≡ out.day later
      → withdraw_check fl out now r v ≡ c
      → Within v
      → Within (withdraw_found fl out later c v).1
  unfolding withdraw_found
  withdraw_found-Within now later r v (denied reply) day e h = h
  withdraw_found-Within now later r v (permitted p) day e h = elim (Option-cases (out.submit p)) [
    | inl raised ↦ rw (withdraw_found, raised) h
    | inr (tx, sent) ↦
        let (own, fits) = withdraw_check-cap fl out now r v p e in
        rw (withdraw_found, sent)
          (withdraw_settle-Within later p v
            (subst (λ x. (truthy fl out p.usdc && fl.flt out.cap (fl.add x p.usdc)) ≡ false)
              (ap (λ u. today fl out u now v) (sym own)
                ∙ today-same_day fl out p.uid now later v day)
              fits)
            h)
  ]

  custody_withdraw-Within :
      (now later : ℕ) (r : Request) (v : Vault)
      → out.day now ≡ out.day later
      → Within v
      → Within (custody_withdraw fl out now later r v).1
  unfolding custody_withdraw
  custody_withdraw-Within now later r v day h =
      withdraw_found-Within now later r v (withdraw_check fl out now r v) day refl h

  -- Where a float is written as a text that is not empty and read back as it was, and no request is
  -- checked on one day and entered on another: requests that run one after the other leave the total
  -- of every chat on every day not above the cap, if it is not above it before.
  pub withdraws_within_cap :
      (history : List Timed) (v : Vault) (uid : String) (now : ℕ)
      → All (λ q. out.day q.now ≡ out.day q.later) history
      → ((uid : String) (now : ℕ) → fl.flt out.cap (today fl out uid now v) ≡ false)
      → fl.flt out.cap (today fl out uid now (withdraws fl out history v)) ≡ false
  unfolding Within
  withdraws_within_cap [] v uid now days h = h uid now
  withdraws_within_cap (q ∷ rest) v uid now (day, days) h =
      withdraws_within_cap rest (custody_withdraw fl out q.now q.later q.request v).1 uid now days
        (custody_withdraw-Within q.now q.later q.request v day h)

  -- Two requests of a chat that are both checked before either is entered may pass the cap: each
  -- total is within it by itself, and the total of the day is the sum of both, above it if that is.
  pub withdrawals_pass_cap_together :
      (now : ℕ) (r1 r2 : Request) (v : Vault) (p1 p2 : Permit fl.F)
      → withdraw_check fl out now r1 v ≡ permitted p1
      → withdraw_check fl out now r2 v ≡ permitted p2
      → r1.uid ≡ r2.uid
      → truthy fl out p1.usdc ≡ true
      → truthy fl out p2.usdc ≡ true
      → fl.flt out.cap (fl.add (fl.add (today fl out r1.uid now v) p1.usdc) p2.usdc) ≡ true
      → (fl.flt out.cap (fl.add (today fl out r1.uid now v) p1.usdc) ≡ false)
        × (fl.flt out.cap (fl.add (today fl out r1.uid now v) p2.usdc) ≡ false)
        × (fl.flt out.cap (
              today fl out r1.uid now
                (withdraw_settle fl out now p2 (withdraw_settle fl out now p1 v)))
            ≡ true)
  withdrawals_pass_cap_together now r1 r2 v p1 p2 c1 c2 same t1 t2 over =
      let (own1, fits1) = withdraw_check-cap fl out now r1 v p1 c1 in
      let (own2, fits2) = withdraw_check-cap fl out now r2 v p2 c2 in
      let total =
        today-withdraw_settle_own now r1.uid p2 (withdraw_settle fl out now p1 v) (own2 ∙ sym same)
          t2
        ∙ ap (λ x. fl.add x p2.usdc) (today-withdraw_settle_own now r1.uid p1 v own1 t1) in
      (
        rw t1 at fits1,
        rw t2 at (
            subst
              (λ u.
                (truthy fl out p2.usdc && fl.flt out.cap (fl.add (today fl out u now v) p2.usdc))
                ≡ false)
              (sym same) fits2),
        rw total over,
      )
