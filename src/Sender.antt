-- ===== src/Sender.antt =====
-- arc-intel/bot/sender.py: the replies to commands, which workers take from a queue. The
-- transport and the clock are the parameter `transport`, a keyboard is a value of `K`, and `seconds`
-- reads a text of digits.
pub mod Drops
use arc_smart_orders.Prelude.{
  ℕ, zero, suc, Bool, true, false, Option, none, some, List, [], ◌∷◌, ◌++◌, String, nonempty, ltb,
  ◌==◌, if◌then◌else◌,
}

pub record Message (K : Type 0) : Type 0 where
  pub chat : String
  pub text : String
  pub parse_mode : Option String
  pub keyboard : Option K
  pub inline : Option K
  pub remove_keyboard : Bool

pub record Edit (K : Type 0) : Type 0 where
  pub chat : String
  pub message_id : ℕ
  pub text : String
  pub parse_mode : Option String
  pub inline : Option K

pub data Job (K : Type 0) : Type 0 where
  send : Message K → Job K
  edit : Edit K → Job K

-- How a call ends: HTTPError has its code and the header Retry-After; other exceptions are `failed`.
pub data Answer : Type 0 where
  sent : Answer
  http_error : (code : ℕ) → (retry_after : Option String) → Answer
  failed : Answer

pub record Transport (K W : Type 0) : Type 0 where
  pub send : Message K → (timeout : ℕ) → W → Answer × W
  pub edit_message : Edit K → (timeout : ℕ) → W → Answer × W
  pub sleep : ℕ → W → W

-- The queue; None tells a worker to stop.
pub record SenderPool (K : Type 0) : Type 0 where
  pub timeout : ℕ
  pub q : List (Option (Job K))
  pub workers : ℕ

abbrev pub is_set : Option String → Bool
is_set none = false
is_set (some mode) = nonempty mode

abbrev pub wait_for : (seconds : String → Option ℕ) → Option String → ℕ
wait_for seconds none = 2
wait_for seconds (some text) = elim (seconds text) [
  | none ↦ 2
  | some s ↦ if ltb 30 s then 30 else s
]

module _ {K : Type 0} where
  abbrev pub put : Job K → SenderPool K → SenderPool K
  put job p = record p { q = p.q ++ some job ∷ [] }

  abbrev pub stops : ℕ → List (Option (Job K))
  stops zero = []
  stops (suc n) = none ∷ stops n

  abbrev pub close : SenderPool K → SenderPool K
  close p = record p { q = p.q ++ stops p.workers }

  abbrev pub plain : Message K → Message K
  plain m = record m { parse_mode = none }

  module _ {W : Type 0} (transport : Transport K W) (seconds : String → Option ℕ)
      (timeout : ℕ) where
    -- What follows the first try of a message.
    abbrev pub after_send : Message K → Answer × W → Answer × W
    after_send m (sent, w) = (sent, w)
    after_send m (http_error code retry_after, w) = (http_error code retry_after, w)
    after_send m (failed, w) =
        if is_set m.parse_mode then transport.send (plain m) timeout w else (sent, w)

    unfoldable pub do_job : Job K → W → Answer × W
    do_job (send m) w = after_send m (transport.send m timeout w)
    do_job (edit e) w = transport.edit_message e timeout w

    -- The handlers around the first `_do` of a job.
    unfoldable pub after_do : Job K → Answer × W → W
    after_do job (sent, w) = w
    after_do job (failed, w) = w
    after_do job (http_error code retry_after, w) =
        if code == 429 then (do_job job (transport.sleep (wait_for seconds retry_after) w)).1 else w

    unfoldable pub handle : Job K → W → W
    handle job w = after_do job (do_job job w)

    -- A worker takes items until None: how many are done, what is left in the queue, the world.
    unfoldable pub run : List (Option (Job K)) → W → ℕ × (List (Option (Job K)) × W)
    run [] w = (0, ([], w))
    run (none ∷ q) w = (1, (q, w))
    run (some job ∷ q) w = let (done, rest) = run q (handle job w) in (suc done, rest)
