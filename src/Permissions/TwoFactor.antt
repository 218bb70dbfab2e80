-- ===== src/Permissions/TwoFactor.antt =====
-- The second factor that large trades need.
use arc_smart_orders.Float.{Float}
use arc_smart_orders.Prelude.{ℕ, ◌≡◌, refl, Bool, true, false, List, [], ◌∷◌, String, arith, exists}
use arc_smart_orders.Permissions.{Approval, Status, create_approval, cancel, confirm, mark_executed}
use arc_smart_orders.Permissions.Story.{Call, cancels, confirms, executes, call, calls}

-- Approved, now or before.
abbrev pub was_approved : Status → Bool
was_approved Status.approved = true
was_approved Status.executed = true
was_approved _ = false

-- A confirmation that came with the second factor.
abbrev pub with_factor : Call → Bool
with_factor (confirms now ok) = ok
with_factor _ = false

module _ {Intent F : Type 0} where
  call-Unapproved :
      (x : Call) (a : Approval Intent F)
      → a.requires_2fa ≡ true
      → with_factor x ≡ false
      → was_approved a.status ≡ false
      → ((call x a).requires_2fa ≡ true) × (was_approved (call x a).status ≡ false)
  unfolding call cancel confirm mark_executed
  call-Unapproved (cancels now) a two without new = ground arith
  call-Unapproved (confirms now ok) a two without new = ground arith
  call-Unapproved (executes now) a two without new = ground arith

  calls-Unapproved :
      (xs : List Call) (a : Approval Intent F)
      → a.requires_2fa ≡ true
      → exists with_factor xs ≡ false
      → was_approved a.status ≡ false
      → was_approved (calls xs a).status ≡ false
  unfolding calls
  calls-Unapproved [] a two without new = new
  calls-Unapproved (x ∷ xs) a two without new =
      let (still, unapproved) = call-Unapproved x a two (ground arith) new in
      calls-Unapproved xs (call x a) still (ground arith) unapproved

module _ {Intent : Type 0} (fl : Float) where
  open fl use {F, fle}

  -- A trade of the threshold or more is never approved and never executed, by any calls on its
  -- new approval, unless one of them is a confirmation with the second factor.
  pub create_approval_needs_factor :
      (xs : List Call) (id user : String) (intent : Intent) (amount : F) (now cs ttl : ℕ)
      (threshold : F)
      → fle threshold amount ≡ true
      → exists with_factor xs ≡ false
      → was_approved
          (calls xs (create_approval fl id user intent amount now cs ttl threshold)).status
        ≡ false
  unfolding create_approval
  create_approval_needs_factor xs id user intent amount now cs ttl threshold large without =
      calls-Unapproved xs (create_approval fl id user intent amount now cs ttl threshold) large
        without refl
