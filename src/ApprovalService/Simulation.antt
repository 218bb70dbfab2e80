-- ===== src/ApprovalService/Simulation.antt =====
-- The rows of the approvals against the state machine of security/permissions.py.
use mathlib.Core.Option
use arc_smart_orders.Permissions
use arc_smart_orders.Permissions.{Approval, Status, Event, confirm, is_expired, is_pending}
use arc_smart_orders.ApprovalService.{
  Stored, Approvals, get_approval, update_approval, approve, approve_found, cancel, cancel_found,
  same_code, has_id,
}
use arc_smart_orders.Prelude.{
  ℕ, ◌<◌, ◌≤◌, ◌≡◌, refl, ◌∙◌, true, false, not, ◌&&◌, Option, some, [], ◌∷◌, ◌++◌, String, str_eq,
  arith, ltb, leb, inl, inr, Bool-cases,
}
use arc_smart_orders.Sql.{find-update_where, find-holds}

module _ {F : Type 0} where
  -- What the state machine sees of a row.
  abbrev pub view : Stored F → Approval Unit F
  view r = record {
    id = "";
    user = r.chat_id;
    intent = tt;
    amount = r.notional;
    created_at = r.created_ts;
    cancel_until = r.cancel_until;
    expires_at = r.expires_ts;
    requires_2fa = r.requires_2fa;
    status = r.status;
    history = r.history;
  }

  get-update_approval :
      (k : ℕ) (st : Status) (ts : ℕ) (note : Event) (s : Approvals F) (r : Stored F)
      → get_approval k s ≡ some r
      → get_approval k (update_approval k st ts note s)
        ≡ some (record r { status = st; history = r.history ++ (note, ts) ∷ [] })
  unfolding get_approval update_approval
  get-update_approval k st ts note s r found =
      find-update_where (has_id k) (has_id k) _ s.rows (λ x. refl)
      ∙ ground (arith, found, find-holds (has_id k) s.rows r found)

  -- `approve`, called by the chat of an approval, does to its row what `confirm` does to the
  -- approval, with the second factor given by the code, and answers with the same success.
  pub approve-confirm :
      (chat : String) (k now : ℕ) (code : Option String) (s : Approvals F) (a : Stored F)
      → get_approval k s ≡ some a
      → str_eq a.chat_id chat ≡ true
      → let ((ok, reply), s') = approve chat k now code s in
        let (a', done, reason) = confirm (view a) now (same_code code a.code) in
        (ok ≡ done) × (Option.map view (get_approval k s') ≡ some a')
  unfolding approve approve_found confirm is_expired
  approve-confirm chat k now code s a found own =
      rw (found, own)
        elim (Bool-cases (is_pending a.status)) [
          | inr e ↦ rw (e, found) (refl, refl)
          | inl e ↦ elim (Bool-cases (ltb a.expires_ts now)) [
            | inl late ↦
                rw (e, late, get-update_approval k Status.expired now Event.expired s a found)
                  (refl, refl)
            | inr early ↦ elim (Bool-cases (leb now a.cancel_until)) [
              | inl open_ ↦ rw (e, early, open_, found) (refl, refl)
              | inr closed ↦ elim (Bool-cases (a.requires_2fa && not (same_code code a.code))) [
                | inl need ↦ rw (e, early, closed, need, found) (refl, refl)
                | inr fine ↦
                    rw
                      (
                        e,
                        early,
                        closed,
                        fine,
                        get-update_approval k Status.approved now Event.approved s a found,
                      )
                      (refl, refl)
              ]
            ]
          ]
        ]

  -- `cancel`, called at any time by the chat of an approval that is still pending, answers with success
  -- and leaves its row cancelled, with the event at the end of its history and all else as it was. Past
  -- the cancel window the state machine refuses it and leaves the approval alone; within the window
  -- it cancels it too, and the row then is that of the state machine.
  pub cancel_past_the_window :
      (chat : String) (k now : ℕ) (s : Approvals F) (a : Stored F)
      → get_approval k s ≡ some a
      → str_eq a.chat_id chat ≡ true
      → is_pending a.status ≡ true
      → let ((ok, reply), s') = cancel chat k now s in
        let machine = Permissions.cancel (view a) now in
        (ok ≡ true)
        × (get_approval k s'
            ≡ some (record a {
              status = Status.cancelled;
              history = a.history ++ (Event.cancelled, now) ∷ [];
            }))
        × (a.cancel_until < now → machine ≡ (view a, false))
        × (now ≤ a.cancel_until
            → (machine.1 ≡ true) × (Option.map view (get_approval k s') ≡ some machine.0))
  unfolding cancel cancel_found Permissions.cancel Permissions.can_cancel
  cancel_past_the_window chat k now s a found own still =
      rw (found, own, still)
        (
          refl,
          get-update_approval k Status.cancelled now Event.cancelled s a found,
          (λ late. let shut : leb now a.cancel_until ≡ false = ground arith in rw shut refl),
          (λ early.
              let open_ : leb now a.cancel_until ≡ true = ground arith in
              rw (open_, get-update_approval k Status.cancelled now Event.cancelled s a found)
                (refl, refl)),
        )
