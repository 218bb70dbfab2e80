-- ===== src/SessionKeeper/Guards.antt =====
-- What keeps the session keeper from submitting.
use arc_smart_orders.Prelude.{
  ℕ, ◌≡◌, refl, subst, true, ◌||◌, ◌&&◌, Option, some, List, [], ◌∷◌, String, str_eq, lower, arith,
  All, select, ltb, nonempty, inl, inr, Bool-cases, Option-cases, select-holds,
}
use arc_smart_orders.Orders.{Preorder, armed_orders}
use arc_smart_orders.Keeper.{Summary, nothing_done, or_env}
use arc_smart_orders.State.{custody_paused, is_frozen}
use arc_smart_orders.SessionKeeper.{
  Session, Vault, Dispatch, get_session, latest, session_is, session_step, session_loop,
  run_session_keeper,
}

module _ {Real J : Type 0} (loads : String → Option J) (get : J → String → String)
    (dispatch : Dispatch Real J) where
  blocked_loop :
      (due : List (Preorder Real)) (v : Vault Real) (s : Summary)
      → All
          (λ (po : Preorder Real). (custody_paused v.state || is_frozen po.chat v.state) ≡ true)
          due
      → session_loop loads get dispatch due v s ≡ (v, s)
  unfolding session_loop session_step
  blocked_loop [] v s h = refl
  blocked_loop (po ∷ due) v s h = rw (h.0) (blocked_loop due v s h.1)

  -- While custody is paused or the chats of all armed orders are frozen, a pass changes nothing and
  -- counts nothing, however submission would answer.
  pub run_session_keeper_blocked :
      (executor env_executor relayer env_relayer : String) (now limit : ℕ) (v : Vault Real)
      → All
          (λ (po : Preorder Real). (custody_paused v.state || is_frozen po.chat v.state) ≡ true)
          (armed_orders "session" now limit v.orders)
      → let (v', report) =
          run_session_keeper loads get dispatch executor env_executor relayer env_relayer now limit
            v in
        (v' ≡ v) × (report.summary ≡ nothing_done)
  unfolding run_session_keeper
  run_session_keeper_blocked executor env_executor relayer env_relayer now limit v h =
      let same = blocked_loop (armed_orders "session" now limit v.orders) v nothing_done h in
      elim (Bool-cases
        (nonempty (or_env executor env_executor) && nonempty (or_env relayer env_relayer))) [
          | inl configured ↦ rw (configured, same) (refl, refl)
          | inr dormant ↦ rw dormant (refl, refl)
        ]

pub latest-holds :
    (P : Session → Type 0) (ss : List Session) (s : Session) → All P ss → latest ss ≡ some s → P s
latest-holds P [] s h e = absurd (ground arith)
latest-holds P (x ∷ ss) s h e = elim (Option-cases (latest ss)) [
  | inl alone ↦ let same : x ≡ s = ground (arith, alone, e) in subst P same (h.0)
  | inr (r, rest) ↦ elim (Bool-cases (ltb x.created_ts r.created_ts)) [
    | inl newer ↦
        let same : r ≡ s = ground (arith, rest, newer, e) in
        subst P same (latest-holds P ss r h.1 rest)
    | inr older ↦ let same : x ≡ s = ground (arith, rest, older, e) in subst P same (h.0)
  ]
]

-- The session that is found is one of the chat, for the pool and the token, and has the status,
-- that were asked for.
pub get_session-holds :
    {Real : Type 0} (chat pool_id token_in status : String) (v : Vault Real) (s : Session)
    → get_session chat pool_id token_in status v ≡ some s
    → (str_eq s.chat chat ≡ true)
      × (str_eq s.pool_id (lower pool_id) ≡ true)
      × (str_eq s.token_in (lower token_in) ≡ true)
      × (str_eq s.status status ≡ true)
unfolding get_session
get_session-holds chat pool_id token_in status v s h =
    latest-holds
      (λ s.
        (str_eq s.chat chat ≡ true)
        × (str_eq s.pool_id (lower pool_id) ≡ true)
        × (str_eq s.token_in (lower token_in) ≡ true)
        × (str_eq s.status status ≡ true))
      (select (session_is chat pool_id token_in status) v.sessions) s
      (select-holds _ (session_is chat pool_id token_in status) v.sessions (λ x k. ground arith)) h
