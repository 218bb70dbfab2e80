-- ===== src/SessionKeeper/Revoked.antt =====
-- A session that its user revoked.
use arc_smart_orders.Prelude.{
  ◌≡◌, false, some, List, [], ◌∷◌, String, str_eq, lower, arith, All, select, inl, inr, Bool-cases,
}
use arc_smart_orders.Sql.{update_where}
use arc_smart_orders.SessionKeeper.{Session, Vault, get_session, session_is, key_is, revoke_session}
use arc_smart_orders.SessionKeeper.Guards.{latest-holds}

revoked_rows :
    (chat key pool_id token_in : String) (ss : List Session)
    → All
        (λ (s : Session). str_eq s.session_key (lower key) ≡ false)
        (select
          (session_is chat pool_id token_in "active")
          (update_where (key_is chat key) (λ s. record s { status = "revoked" }) ss))
revoked_rows chat key pool_id token_in [] = tt
revoked_rows chat key pool_id token_in (s ∷ ss) =
    let rest = revoked_rows chat key pool_id token_in ss in
    elim (Bool-cases (key_is chat key s)) [
      | inl taken ↦
          let gone : session_is chat pool_id token_in "active" (record s { status = "revoked" })
              ≡ false =
            ground arith in
          rw (taken, gone) rest
      | inr other ↦ elim (Bool-cases (session_is chat pool_id token_in "active" s)) [
        | inl active ↦ rw (other, active) (ground (arith, other, active), rest)
        | inr inactive ↦ rw (other, inactive) rest
      ]
    ]

-- After a chat revoked a session, no lookup of an active session of that chat, for whatever pool and
-- token, finds one with that key: the keeper does not sign with it any more.
pub get_session-revoke_session :
    {Real : Type 0} (chat key pool_id token_in : String) (v : Vault Real) (s : Session)
    → get_session chat pool_id token_in "active" (revoke_session chat key v).1 ≡ some s
    → str_eq s.session_key (lower key) ≡ false
unfolding get_session revoke_session
get_session-revoke_session chat key pool_id token_in v s h =
    latest-holds (λ s. str_eq s.session_key (lower key) ≡ false) _ s
      (revoked_rows chat key pool_id token_in v.sessions) h
