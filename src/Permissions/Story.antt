-- ===== src/Permissions/Story.antt =====
-- Every approval that the functions of `permissions` can bring about, from its creation on.
use arc_smart_orders.Float.{Float}
use arc_smart_orders.Prelude.{
  ℕ, ◌+◌, ◌<◌, ◌≤◌, ◌≡◌, refl, Bool, not, ◌&&◌, ◌||◌, List, [], ◌∷◌, String, arith, ltb, leb, inl,
  inr, Bool-cases,
}
use arc_smart_orders.Permissions.{
  Approval, Status, Event, create_approval, cancel, confirm, mark_executed,
}

-- The calls on one approval, each at its time.
pub data Call : Type 0 where
  cancels : ℕ → Call
  confirms : ℕ → Bool → Call
  executes : ℕ → Call

-- What the history of an approval must be, by its status: created; cancelled within the window;
-- found expired; approved after the window and in time; or executed, after such an approval, in
-- time. `c`, `u` and `e` are the times of creation, of the end of the window and of expiry.
abbrev pub History : ℕ → ℕ → ℕ → Status → List (Event × ℕ) → Type 0
History c u e Status.pending h = h ≡ (Event.created, c) ∷ []
History c u e Status.cancelled h =
    (t : ℕ) × (h ≡ (Event.created, c) ∷ (Event.cancelled, t) ∷ []) × (t ≤ u)
History c u e Status.expired h =
    (t : ℕ) × (h ≡ (Event.created, c) ∷ (Event.expired, t) ∷ []) × (e < t)
History c u e Status.approved h =
    (t : ℕ) × (h ≡ (Event.created, c) ∷ (Event.approved, t) ∷ []) × (u < t) × (t ≤ e)
History c u e Status.executed h =
    (t s : ℕ) × (h ≡ (Event.created, c) ∷ (Event.approved, t) ∷ (Event.executed, s) ∷ [])
    × (u < t)
    × (t ≤ e)
    × (s ≤ e)

module _ {Intent F : Type 0} where
  abbrev pub HasHistory : ℕ → ℕ → ℕ → Approval Intent F → Type 0
  HasHistory c u e a = History c u e a.status a.history × (a.cancel_until ≡ u) × (a.expires_at ≡ e)

  unfoldable pub call : Call → Approval Intent F → Approval Intent F
  call (cancels now) a = (cancel a now).0
  call (confirms now ok) a = (confirm a now ok).0
  call (executes now) a = (mark_executed a now).0

  unfoldable pub calls : List Call → Approval Intent F → Approval Intent F
  calls [] a = a
  calls (x ∷ xs) a = calls xs (call x a)

  unchanged :
      (x : Call) (s : Status) (c u e : ℕ) (a : Approval Intent F)
      → call x a ≡ a
      → HasHistory c u e a
      → HasHistory c u e (call x a)
  unchanged x s c u e a same h = rw same h

  cancel-HasHistory :
      (now c u e : ℕ) (a : Approval Intent F)
      → a.status ≡ Status.pending
      → HasHistory c u e a
      → HasHistory c u e (call (cancels now) a)
  unfolding call cancel
  cancel-HasHistory now c u e a p h =
      let before : History c u e Status.pending a.history = rw p at (h.0) in
      elim (Bool-cases (leb now a.cancel_until)) [
        | inl in_time ↦
            let moved : call (cancels now) a ≡ record a {
              status = Status.cancelled;
              history = (Event.created, c) ∷ (Event.cancelled, now) ∷ [];
            } =
              ground (arith, p, in_time, before) in
            rw moved ((now, refl, ground arith), h.1, h.2)
        | inr late ↦ unchanged (cancels now) a.status c u e a (ground (arith, p, late)) h
      ]

  confirm-HasHistory :
      (now : ℕ) (ok : Bool) (c u e : ℕ) (a : Approval Intent F)
      → a.status ≡ Status.pending
      → HasHistory c u e a
      → HasHistory c u e (call (confirms now ok) a)
  unfolding call confirm
  confirm-HasHistory now ok c u e a p h =
      let before : History c u e Status.pending a.history = rw p at (h.0) in
      elim (Bool-cases (ltb a.expires_at now)) [
        | inl late ↦
            let moved : call (confirms now ok) a ≡ record a {
              status = Status.expired;
              history = (Event.created, c) ∷ (Event.expired, now) ∷ [];
            } =
              ground (arith, p, late, before) in
            rw moved ((now, refl, ground arith), h.1, h.2)
        | inr in_time ↦ elim (Bool-cases (leb now a.cancel_until || a.requires_2fa && not ok)) [
          | inl refused ↦
              unchanged (confirms now ok) a.status c u e a (ground (arith, p, in_time, refused)) h
          | inr free ↦
              let moved : call (confirms now ok) a ≡ record a {
                status = Status.approved;
                history = (Event.created, c) ∷ (Event.approved, now) ∷ [];
              } =
                ground (arith, p, in_time, free, before) in
              rw moved ((now, refl, ground arith, ground arith), h.1, h.2)
        ]
      ]

  execute-HasHistory :
      (now c u e : ℕ) (a : Approval Intent F)
      → a.status ≡ Status.approved
      → HasHistory c u e a
      → HasHistory c u e (call (executes now) a)
  unfolding call mark_executed
  execute-HasHistory now c u e a p h =
      let (t, before, after_window, in_time) : History c u e Status.approved a.history =
        rw p at (h.0) in
      elim (Bool-cases (ltb a.expires_at now)) [
        | inl late ↦ unchanged (executes now) a.status c u e a (ground (arith, p, late)) h
        | inr soon ↦
            let moved : call (executes now) a ≡ record a {
              status = Status.executed;
              history = (Event.created, c) ∷ (Event.approved, t) ∷ (Event.executed, now) ∷ [];
            } =
              ground (arith, p, soon, before) in
            rw moved ((t, now, refl, after_window, in_time, ground arith), h.1, h.2)
      ]

  -- Only a pending approval is cancelled or confirmed, only an approved one is executed.
  call-by_status :
      (x : Call) (s : Status) (c u e : ℕ) (a : Approval Intent F)
      → a.status ≡ s
      → HasHistory c u e a
      → HasHistory c u e (call x a)
  unfolding call cancel confirm mark_executed
  call-by_status (cancels now) Status.pending c u e a p h = cancel-HasHistory now c u e a p h
  call-by_status (confirms now ok) Status.pending c u e a p h =
      confirm-HasHistory now ok c u e a p h
  call-by_status (executes now) Status.approved c u e a p h = execute-HasHistory now c u e a p h
  call-by_status x s c u e a p h = unchanged x s c u e a (ground (arith, p)) h

  calls-HasHistory :
      (xs : List Call) (c u e : ℕ) (a : Approval Intent F)
      → HasHistory c u e a
      → HasHistory c u e (calls xs a)
  unfolding calls
  calls-HasHistory [] c u e a h = h
  calls-HasHistory (x ∷ xs) c u e a h =
      calls-HasHistory xs c u e (call x a) (call-by_status x a.status c u e a refl h)

module _ {Intent : Type 0} (fl : Float) where
  open fl use {F}

  -- After any calls at any times on a new approval, its status and its history tell the same
  -- story: in particular an executed approval was approved strictly after its window for
  -- cancelling and not after its expiry, was executed not after its expiry, and was never
  -- cancelled.
  pub create_approval-History :
      (xs : List Call) (id user : String) (intent : Intent) (amount : F) (now cs ttl : ℕ)
      (threshold : F)
      → let a = calls xs (create_approval fl id user intent amount now cs ttl threshold) in
        History now (now + cs) (now + ttl) a.status a.history
  unfolding create_approval
  create_approval-History xs id user intent amount now cs ttl threshold =
      let a = create_approval fl id user intent amount now cs ttl threshold in
      (calls-HasHistory xs now (now + cs) (now + ttl) a (refl, refl, refl)).0
