-- ===== src/Sender/Drops.antt =====
-- Messages that are not sent again.
use arc_smart_orders.Prelude.{
  ℕ, suc, ◌≡◌, refl, ap, true, false, Option, some, List, [], ◌∷◌, ◌++◌, String, ◌==◌,
}
use arc_smart_orders.Sender.{
  Message, Job, Transport, send, sent, http_error, failed, is_set, plain, do_job, after_do, handle,
  run,
}

-- The same transport, with the messages that were tried, in order.
abbrev pub recorded : {K W : Type 0} → Transport K W → Transport K (W × List (Message K))
recorded transport = record {
  send = λ m timeout w.
      let (answer, w₁) = transport.send m timeout w.0 in (answer, (w₁, w.1 ++ m ∷ []));
  edit_message =
      λ e timeout w. let (answer, w₁) = transport.edit_message e timeout w.0 in (answer, (w₁, w.1));
  sleep = λ s w. (transport.sleep s w.0, w.1);
}

module _ {K W : Type 0} (transport : Transport K W) (seconds : String → Option ℕ)
    (timeout : ℕ) where
  handle-refused :
      (m : Message K) (v v₁ : W) (code : ℕ) (retry_after : Option String)
      → (code == 429) ≡ false
      → transport.send m timeout v ≡ (http_error code retry_after, v₁)
      → handle (recorded transport) seconds timeout (send m) (v, []) ≡ (v₁, m ∷ [])
  unfolding handle do_job after_do
  handle-refused m v v₁ code retry_after other refused = rw (refused, other) refl

  handle-failed :
      (m : Message K) (u u₁ u₂ : W)
      → is_set m.parse_mode ≡ true
      → transport.send m timeout u ≡ (failed, u₁)
      → transport.send (plain m) timeout u₁ ≡ (sent, u₂)
      → handle (recorded transport) seconds timeout (send m) (u, []) ≡ (u₂, m ∷ plain m ∷ [])
  unfolding handle do_job after_do
  handle-failed m u u₁ u₂ mode fails taken = rw (fails, mode, taken) refl

  -- A message with a parse mode is the next job of a worker. Where the call fails without an HTTP
  -- status, the worker tries the message a second time, as plain text: if that is taken, it goes on
  -- to the rest of the queue after these two tries. Where the call is answered with an HTTP status
  -- other than 429, which is how a text that its parse mode does not accept is refused, the worker
  -- goes on to the rest of the queue after one try. Either way it counts the job as done.
  pub refused_text_is_dropped :
      (m : Message K) (q : List (Option (Job K))) (u u₁ u₂ v v₁ : W) (code : ℕ)
      (retry_after : Option String)
      → is_set m.parse_mode ≡ true
      → (code == 429) ≡ false
      → transport.send m timeout u ≡ (failed, u₁)
      → transport.send (plain m) timeout u₁ ≡ (sent, u₂)
      → transport.send m timeout v ≡ (http_error code retry_after, v₁)
      → let worker = run (recorded transport) seconds timeout in
        (worker (some (send m) ∷ q) (u, [])
          ≡ (suc (worker q (u₂, m ∷ plain m ∷ [])).0, (worker q (u₂, m ∷ plain m ∷ [])).1))
        × (worker (some (send m) ∷ q) (v, [])
            ≡ (suc (worker q (v₁, m ∷ [])).0, (worker q (v₁, m ∷ [])).1))
  unfolding run
  refused_text_is_dropped m q u u₁ u₂ v v₁ code retry_after mode other fails taken refused = (
    ap (λ w. let out = run (recorded transport) seconds timeout q w in (suc out.0, out.1))
        (handle-failed m u u₁ u₂ mode fails taken),
    ap (λ w. let out = run (recorded transport) seconds timeout q w in (suc out.0, out.1))
        (handle-refused m v v₁ code retry_after other refused),
  )
