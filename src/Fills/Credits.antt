-- ===== src/Fills/Credits.antt =====
-- Whom the referral program pays, over any sequence of bindings and fills.
use text.Mathlib.Text.{starts_with}
use arc_smart_orders.Float.{Float}
use arc_smart_orders.Positions.{apply_fill, Result-cases}
use arc_smart_orders.Fills.{
  Store, Binding, Credit, has_fill, record_fill, settle_fill, accrue_referral, credit_fee,
  add_referral_credit, bind_referral, get_referrer, get_position, upsert, commission_usdc,
  fee_from_notional,
}
use arc_smart_orders.Prelude.{
  ℕ, ◌≡◌, true, false, none, some, List, [], ◌∷◌, ◌++◌, String, str_eq, lower, arith, find, inl,
  inr, Bool-cases, Option-cases, All, All-snoc, nonempty, eq_iff,
}

-- Nobody refers himself, and nobody is bound twice.
abbrev pub Bound : List Binding → Type 0
Bound [] = Unit
Bound (b ∷ bs) =
    (str_eq b.chat b.owner_chat ≡ false)
    × All (λ (x : Binding). str_eq b.chat x.chat ≡ false) bs
    × Bound bs

-- No fill is paid for twice, no simulated fill is paid for, and no buyer is paid for his own fill.
abbrev pub Paid : {F : Type 0} → List (Credit F) → Type 0
Paid {F} [] = Unit
Paid {F} (c ∷ cs) =
    (starts_with c.fill_id "paper" ≡ false)
    × (str_eq c.buyer_chat c.owner_chat ≡ false)
    × All (λ (x : Credit F). str_eq c.fill_id x.fill_id ≡ false) cs
    × Paid cs

Bound-append :
    (bs : List Binding) (b : Binding)
    → str_eq b.chat b.owner_chat ≡ false
    → find (λ (x : Binding). str_eq x.chat b.chat) bs ≡ none
    → Bound bs
    → Bound (bs ++ b ∷ [])
Bound-append [] b own absent h = (own, tt, tt)
Bound-append (x ∷ bs) b own absent h =
    (h.0, All-snoc _ bs b h.1 (ground arith), Bound-append bs b own (ground arith) h.2)

Paid-append :
    {F : Type 0} (cs : List (Credit F)) (c : Credit F)
    → starts_with c.fill_id "paper" ≡ false
    → str_eq c.buyer_chat c.owner_chat ≡ false
    → find (λ (x : Credit F). str_eq x.fill_id c.fill_id) cs ≡ none
    → Paid cs
    → Paid (cs ++ c ∷ [])
Paid-append [] c real own absent h = (real, own, tt, tt)
Paid-append (x ∷ cs) c real own absent h =
    (h.0, h.1, All-snoc _ cs c h.2 (ground arith), Paid-append cs c real own (ground arith) h.3)

Bound-find :
    (bs : List Binding) (k : String) (b : Binding)
    → Bound bs
    → find (λ (x : Binding). str_eq x.chat k) bs ≡ some b
    → str_eq k b.owner_chat ≡ false
Bound-find [] k b h e = cc
Bound-find (x ∷ bs) k b h e = ground (arith, eq_iff x.chat k, Bound-find bs k b h.2)

-- The calls that touch the referral tables, with their arguments.
pub data Call (F : Type 0) : Type 0 where
  bind : ℕ → String → String → String → Call F
  record_one : ℕ → String → String → String → String → F → F → ℕ → ℕ → Call F

module _ (fl : Float) where
  open fl use {F, lit, fle}

  unfoldable pub call : Call F → Store F → Store F
  call (bind now chat owner code) s = (bind_referral now chat owner code s).1
  call (record_one now id user token side qty usdc block ts) s =
      (record_fill fl now id user token side qty usdc block ts s).1

  unfoldable pub calls : List (Call F) → Store F → Store F
  calls [] s = s
  calls (c ∷ cs) s = calls cs (call c s)

  abbrev pub IsFair : Store F → Type 0
  IsFair s = Bound s.bindings × Paid s.credits

  bind-IsFair :
      (now : ℕ) (chat owner code : String) (s : Store F)
      → IsFair s
      → IsFair (bind_referral now chat owner code s).1
  unfolding bind_referral
  bind-IsFair now chat owner code s h = elim (Bool-cases (str_eq chat owner)) [
    | inl own ↦ rw own h
    | inr other ↦ elim (Option-cases (find (λ (b : Binding). str_eq b.chat chat) s.bindings)) [
      | inl absent ↦
          rw (other, absent, bind_referral) (Bound-append s.bindings _ other absent h.0, h.1)
      | inr (old, there) ↦ rw (other, there, bind_referral) h
    ]
  ]

  credit-IsFair :
      (now : ℕ) (id owner buyer token : String) (fee comm : F) (ts : ℕ) (s : Store F)
      → starts_with id "paper" ≡ false
      → str_eq buyer owner ≡ false
      → IsFair s
      → IsFair (add_referral_credit now id owner buyer token fee comm ts s).1
  unfolding add_referral_credit
  credit-IsFair now id owner buyer token fee comm ts s real own h =
      elim (Option-cases (find (λ (c : Credit F). str_eq c.fill_id id) s.credits)) [
        | inl absent ↦
            rw (absent, add_referral_credit) (h.0, Paid-append s.credits _ real own absent h.1)
        | inr (old, there) ↦ rw (there, add_referral_credit) h
      ]

  credit_fee-IsFair :
      (now : ℕ) (id owner buyer token : String) (ts pct : ℕ) (s : Store F) (fee : F)
      → starts_with id "paper" ≡ false
      → str_eq buyer owner ≡ false
      → IsFair s
      → IsFair (credit_fee fl now id owner buyer token ts pct s fee).1
  unfolding credit_fee
  credit_fee-IsFair now id owner buyer token ts pct s fee real own h =
      elim (Bool-cases (fle fee (lit 0 0))) [
        | inl small ↦ rw (small, credit_fee) h
        | inr large ↦ elim (Option-cases (commission_usdc fl fee pct)) [
          | inl bad ↦ rw (large, bad, credit_fee) h
          | inr (comm, good) ↦
              rw (large, good, credit_fee)
                (credit-IsFair now id owner buyer token fee comm ts s real own h)
        ]
      ]

  referrer-is_other :
      (buyer : String) (s : Store F)
      → IsFair s
      → nonempty (get_referrer buyer s) ≡ true
      → str_eq buyer (get_referrer buyer s) ≡ false
  unfolding get_referrer
  referrer-is_other buyer s h somebody =
      elim (Option-cases (find (λ (b : Binding). str_eq b.chat buyer) s.bindings)) [
        | inl absent ↦
            let empty : nonempty (get_referrer buyer s) ≡ false = rw (absent, get_referrer) in cc
        | inr (b, found) ↦ rw (found, get_referrer) (Bound-find s.bindings buyer b h.0 found)
      ]

  accrue-IsFair :
      (now : ℕ) (id buyer token : String) (n : F) (ts fee_bps pct : ℕ) (s : Store F)
      → IsFair s
      → IsFair (accrue_referral fl now id buyer token n ts fee_bps pct s).1
  unfolding accrue_referral
  accrue-IsFair now id buyer token n ts fee_bps pct s h =
      elim (Bool-cases (starts_with id "paper")) [
        | inl paper ↦ rw (paper, accrue_referral) h
        | inr real ↦ elim (Bool-cases (nonempty (get_referrer buyer s))) [
          | inr nobody ↦ rw (real, nobody, accrue_referral) h
          | inl somebody ↦ elim (Option-cases (fee_from_notional fl n fee_bps)) [
            | inl bad ↦ rw (real, somebody, bad, accrue_referral) h
            | inr (fee, good) ↦
                rw (real, somebody, good, accrue_referral)
                  (credit_fee-IsFair now id (get_referrer buyer s) buyer token ts pct s fee real
                    (referrer-is_other buyer s h somebody) h)
          ]
        ]
      ]

  settle-IsFair :
      (now : ℕ) (id user token side : String) (qty usdc : F) (block ts : ℕ) (s : Store F)
      → IsFair s
      → IsFair (settle_fill fl now id user token side qty usdc block ts s).1
  unfolding settle_fill
  settle-IsFair now id user token side qty usdc block ts s h =
      elim (Result-cases (apply_fill fl (get_position fl user token s) side qty usdc block)) [
        | inl (pos, e) ↦
            rw (e, settle_fill)
              (accrue-IsFair now id user token usdc ts 100 3000
                (record s { positions = upsert fl (lower user) (lower token) pos s.positions }) h)
        | inr (e, raised) ↦ rw (raised, settle_fill) h
      ]

  call-IsFair : (c : Call F) (s : Store F) → IsFair s → IsFair (call c s)
  unfolding call record_fill
  call-IsFair (bind now chat owner code) s h = bind-IsFair now chat owner code s h
  call-IsFair (record_one now id user token side qty usdc block ts) s h =
      elim (Bool-cases (has_fill fl id s)) [
        | inl old ↦ rw (old, call, record_fill) h
        | inr new ↦
            rw (new, call, record_fill) (settle-IsFair now id user token side qty usdc block ts _ h)
      ]

  -- From a store where all of this holds, whatever bindings are asked for and whatever fills are recorded, in any order: in the end
  -- nobody refers himself and nobody has two referrers, no fill earned two commissions, no
  -- simulated fill earned one, and nobody was paid for his own fill.
  pub calls-IsFair : (cs : List (Call F)) (s : Store F) → IsFair s → IsFair (calls cs s)
  unfolding calls
  calls-IsFair [] s h = h
  calls-IsFair (c ∷ cs) s h = calls-IsFair cs (call c s) (call-IsFair c s h)
