-- ===== src/Permissions.antt =====
-- arc-intel/security/permissions.py: the approval of a trade intent as a state machine. Times are
-- epoch seconds. `Intent` is the dictionary that the approval carries.
pub mod Story
pub mod TwoFactor
use arc_smart_orders.Float.{Float}
use arc_smart_orders.Prelude.{
  ℕ, ◌+◌, Bool, true, false, not, ◌&&◌, List, [], ◌∷◌, ◌++◌, String, ltb, leb, if◌then◌else◌,
}

pub data Status : Type 0 where
  pending cancelled expired approved executed : Status

abbrev pub is_pending : Status → Bool
is_pending pending = true
is_pending _ = false

abbrev pub is_approved : Status → Bool
is_approved approved = true
is_approved _ = false

-- The first parts of the entries of `history`.
pub data Event : Type 0 where
  created cancelled expired approved executed : Event

-- The texts that `confirm` returns.
pub data Reason : Type 0 where
  not_pending : Status → Reason
  expired cancel_window_open twofa_required approved : Reason

abbrev pub default_cancel_seconds : ℕ
default_cancel_seconds = 300

abbrev pub default_ttl_seconds : ℕ
default_ttl_seconds = 3600

pub record Approval (Intent F : Type 0) : Type 0 where
  pub id : String
  pub user : String
  pub intent : Intent
  pub amount : F
  pub created_at : ℕ
  pub cancel_until : ℕ
  pub expires_at : ℕ
  pub requires_2fa : Bool
  pub status : Status
  pub history : List (Event × ℕ)

module _ {Intent F : Type 0} where
  unfoldable pub can_cancel : Approval Intent F → ℕ → Bool
  can_cancel a now = is_pending a.status && leb now a.cancel_until

  unfoldable pub cancel : Approval Intent F → ℕ → Approval Intent F × Bool
  unfolding can_cancel
  cancel a now = if not (can_cancel a now) then (a, false) else (
    record a { status = Status.cancelled; history = a.history ++ (Event.cancelled, now) ∷ [] },
    true,
  )

  unfoldable pub is_expired : Approval Intent F → ℕ → Bool
  is_expired a now = ltb a.expires_at now

  unfoldable pub confirm : Approval Intent F → ℕ → Bool → Approval Intent F × Bool × Reason
  unfolding is_expired
  confirm a now twofa_ok =
      if not (is_pending a.status)
      then (a, false, not_pending a.status)
      else if is_expired a now
      then (
        record a { status = Status.expired; history = a.history ++ (Event.expired, now) ∷ [] },
        false,
        Reason.expired,
      )
      else if leb now a.cancel_until
      then (a, false, cancel_window_open)
      else if a.requires_2fa && not twofa_ok
      then (a, false, twofa_required)
      else (
        record a { status = Status.approved; history = a.history ++ (Event.approved, now) ∷ [] },
        true,
        Reason.approved,
      )

  pub can_execute : Approval Intent F → ℕ → Bool
  unfolding is_expired
  can_execute a now = is_approved a.status && not (is_expired a now)

  pub mark_executed : Approval Intent F → ℕ → Approval Intent F × Bool
  unfolding can_execute
  mark_executed a now = if not (can_execute a now) then (a, false) else (
    record a { status = Status.executed; history = a.history ++ (Event.executed, now) ∷ [] },
    true,
  )

module _ {Intent : Type 0} (fl : Float) where
  open fl use {F, fle}

  pub create_approval :
      String
      → String
      → Intent
      → (amount : F) → (now cancel_seconds ttl_seconds : ℕ) → (twofa_threshold : F)
      → Approval Intent F
  create_approval approval_id user intent amount now cancel_seconds ttl_seconds twofa_threshold =
      record {
        id = approval_id;
        user = user;
        intent = intent;
        amount = amount;
        created_at = now;
        cancel_until = now + cancel_seconds;
        expires_at = now + ttl_seconds;
        requires_2fa = fle twofa_threshold amount;
        status = Status.pending;
        history = (Event.created, now) ∷ [];
      }
