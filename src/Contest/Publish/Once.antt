-- ===== src/Contest/Publish/Once.antt =====
-- Each round is announced once.
use arc_smart_orders.Prelude.{
  ℕ, ◌+◌, ◌≡◌, false, ◌==◌, ◌≤◌, ◌+◌, some, refl, ◌⊎◌, inl, inr, Bool, true, none, List, String,
  ltb, ◌==◌, arith, Bool-cases,
}
use arc_smart_orders.Prelude.Int.{ℤ, pos, negsuc}
use arc_smart_orders.Float.{Float}
use arc_smart_orders.Sql.{exists-append_own, delete_where}
use arc_smart_orders.Fills.{ts_or}
use arc_smart_orders.Contest.{previous_round, Past}
use arc_smart_orders.Contest.Ledger.{
  ContestRound, same_round, contest_round_published, mark_contest_round,
}
use arc_smart_orders.Contest.Publish.{
  Published, Board, announce, publish_round, count_sent, targets_of,
}

same_round_refl : (i : ℤ) → same_round i i ≡ true
same_round_refl (pos n) = ground arith
same_round_refl (negsuc n) = ground arith

published-mark :
    (now : ℕ) (i : ℤ) (ts : ℕ) (t : List ContestRound)
    → contest_round_published i (mark_contest_round now i ts t) ≡ true
unfolding contest_round_published mark_contest_round
published-mark now i ts t =
    exists-append_own (λ (r : ContestRound). same_round r.round_id i)
      (delete_where (λ (r : ContestRound). same_round r.round_id i) t)
      (record { round_id = i; published_ts = ts_or ts now }) (same_round_refl i)

module _ (fl : Float) where
  open fl use {F}

  -- An announcement that is made enters its round; any other changes nothing.
  announce-cases :
      (deliver : ℕ → String → Bool) (env : String) (now : ℕ) (channel : String) (broadcast : Bool)
      (prev : Past) (b : Board F)
      → let out = announce fl deliver env now channel broadcast prev b in
        (out ≡ (none, b)) ⊎ (contest_round_published prev.id out.1.rounds ≡ true)
  unfolding announce
  announce-cases deliver env now channel broadcast prev b =
      elim (Bool-cases (count_sent deliver 0 (targets_of channel broadcast b.subs) == 0)) [
        | inl e ↦ inl (rw e refl)
        | inr e ↦ inr (rw e (published-mark now prev.id now b.rounds))
      ]

  publish_round-cases :
      (deliver : ℕ → String → Bool) (env : String) (now : ℕ) (channel : String)
      (round_hours delay_s : ℕ) (broadcast : Bool) (b : Board F)
      → let out = publish_round fl deliver env now channel round_hours delay_s broadcast b in
        (out ≡ (none, b))
        ⊎ (contest_round_published (previous_round now round_hours).id out.1.rounds ≡ true)
  unfolding publish_round
  publish_round-cases deliver env now channel round_hours delay_s broadcast b =
      let prev = previous_round now round_hours in
      elim (Bool-cases (ltb now (prev.end + delay_s))) [
        | inl e ↦ inl (rw e refl)
        | inr e ↦ elim (Bool-cases (contest_round_published prev.id b.rounds)) [
          | inl p ↦ inl (rw (e, p) refl)
          | inr p ↦ rw (e, p) (announce-cases deliver env now channel broadcast prev b)
        ]
      ]

  published_again :
      (deliver : ℕ → String → Bool) (env : String) (now : ℕ) (channel : String)
      (round_hours delay_s : ℕ) (broadcast : Bool) (b : Board F)
      → contest_round_published (previous_round now round_hours).id b.rounds ≡ true
      → publish_round fl deliver env now channel round_hours delay_s broadcast b ≡ (none, b)
  unfolding publish_round
  published_again deliver env now channel round_hours delay_s broadcast b done =
      elim (Bool-cases (ltb now ((previous_round now round_hours).end + delay_s))) [
        | inl e ↦ rw e refl
        | inr e ↦ rw (e, done) refl
      ]

  -- A pass either answers nothing and changes nothing, or no later pass announces that round again:
  -- while the table of rounds is as the pass left it, a pass about the same round answers nothing and
  -- changes nothing, whatever the channel, the delay and the sends, and whatever else was written.
  pub publish_round_once :
      (deliver deliver' : ℕ → String → Bool) (env env' : String) (now now' : ℕ)
      (channel channel' : String) (round_hours round_hours' delay_s delay_s' : ℕ)
      (broadcast broadcast' : Bool) (b b' : Board F)
      → let out = publish_round fl deliver env now channel round_hours delay_s broadcast b in
        b'.rounds ≡ out.1.rounds
        → (previous_round now' round_hours').id ≡ (previous_round now round_hours).id
        → (out ≡ (none, b))
          ⊎ (publish_round fl deliver' env' now' channel' round_hours' delay_s' broadcast' b'
              ≡ (none, b'))
  publish_round_once deliver deliver' env env' now now' channel channel' round_hours round_hours'
        delay_s delay_s' broadcast broadcast' b b' same_rounds same_id =
      elim (publish_round-cases deliver env now channel round_hours delay_s broadcast b) [
        | inl e ↦ inl e
        | inr e ↦ inr (
            published_again deliver' env' now' channel' round_hours' delay_s' broadcast' b'
              (rw (same_rounds, same_id) e))
      ]

  -- From the delay after the end of a round on, a pass that finds it not yet announced, and of whose
  -- sends one or more go out, announces it: it answers with that round, which is entered.
  pub publish_round_announces :
      (deliver : ℕ → String → Bool) (env : String) (now : ℕ) (channel : String)
      (round_hours delay_s : ℕ) (broadcast : Bool) (b : Board F)
      → let prev = previous_round now round_hours in
        let out = publish_round fl deliver env now channel round_hours delay_s broadcast b in
        prev.end + delay_s ≤ now
        → contest_round_published prev.id b.rounds ≡ false
        → 1 ≤ count_sent deliver 0 (targets_of channel broadcast b.subs)
        → (r : Published F) × (out.0 ≡ some r)
          × (r.round ≡ prev.id)
          × (contest_round_published prev.id out.1.rounds ≡ true)
  unfolding publish_round announce
  publish_round_announces deliver env now channel round_hours delay_s broadcast b late fresh sends =
      let prev = previous_round now round_hours in
      let sent = count_sent deliver 0 (targets_of channel broadcast b.subs) in
      let due : ltb now (prev.end + delay_s) ≡ false = ground (arith, late) in
      let some_sent : (sent == 0) ≡ false = ground (arith, sends) in
      rw (due, fresh, some_sent) (_, refl, refl, published-mark now prev.id now b.rounds)
