-- ===== src/Contest/Publish.antt =====
-- arc-intel/bot/contest_publish.py: the announcement of the round that closed. `deliver` says whether
-- the i-th send of a pass, to that chat, goes out. The texts and images of the messages, which
-- bot/poster.py makes, are not modelled. `now` is whole seconds, and `env` is the value of
-- ARC_INTEL_PRIZE_PAYOUT.
pub mod Once
use Prim.Native.String.{◌++◌ as ◌<>◌}
use arc_smart_orders.Prelude.{
  len, up_to, from, ℕ, zero, suc, ◌+◌, ◌-◌, Bool, true, false, Option, none, some, List, [], ◌∷◌,
  ◌++◌, String, nonempty, ltb, leb, ◌==◌, map, if◌then◌else◌,
}
use arc_smart_orders.Prelude.Int.{ℤ, pos_part}
use arc_smart_orders.Float.{Float}
use arc_smart_orders.State.{Table, get_state}
use arc_smart_orders.Fills.{Store}
use arc_smart_orders.Subscriptions.{Subs, Subscriber, list}
use arc_smart_orders.AntiWash.{default_window_s}
use arc_smart_orders.Contest.{Past, previous_round}
use arc_smart_orders.Contest.Prizes.{Row, Results, settle, fee_bps}
use arc_smart_orders.Contest.Ledger.{
  ContestRound, ContestWinner, contest_volume_between, contest_referred_volume_between,
  contest_round_published, mark_contest_round, record_contest_winner, prize_payout_enabled,
}

-- What the pass reads and writes of the store.
pub record Board (F : Type 0) : Type 0 where
  pub store : Store F
  pub subs : Subs
  pub rounds : List ContestRound
  pub winners : List (ContestWinner F)

pub record Shown (F : Type 0) : Type 0 where
  pub user : String
  pub volume : F
  pub prize : F

pub record Payout : Type 0 where
  pub paid : Bool
  pub reason : String

pub record Published (F : Type 0) : Type 0 where
  pub round : ℤ
  pub pozo : F
  pub sent : ℕ
  pub winners : ℕ
  pub prize_payout : Payout

-- `enabled` is none unless the caller decides.
pub settle_prizes : String → Option Bool → Table → Payout
settle_prizes env none t =
    if prize_payout_enabled env t
    then record { paid = false; reason = "not_implemented" }
    else record { paid = false; reason = "disabled" }
settle_prizes env (some true) t = record { paid = false; reason = "not_implemented" }
settle_prizes env (some false) t = record { paid = false; reason = "disabled" }

abbrev pub targets_of : String → Bool → Subs → List String
targets_of channel broadcast s =
    (if nonempty channel then channel ∷ [] else [])
    ++ (if broadcast then map (λ (r : Subscriber). r.chat_id) (list s) else [])

abbrev pub count_sent : (ℕ → String → Bool) → ℕ → List String → ℕ
count_sent deliver i [] = 0
count_sent deliver i (chat ∷ chats) =
    let rest = count_sent deliver (i + 1) chats in if deliver i chat then rest + 1 else rest

abbrev pub one_if {ℓ} : {A : Type ℓ} → Option A → ℕ
one_if none = 0
one_if (some a) = 1

-- The function of arc-intel/monetization/contest.py.
pub mask_user : String → String
mask_user u = if leb (len u) 5 then u else up_to 2 u <> ("…" <> from (len u - 2) u)

module _ (fl : Float) where
  open fl use {F, lit}

  pub display_name : Table → String → String
  display_name t user =
      let name = get_state ("name:" <> user) "" t in if nonempty name then name else mask_user user

  abbrev pub shown : Table → Option (Row F) → F → Option (Shown F)
  shown t none prize = none
  shown t (some w) prize =
      some (record { user = display_name t w.user; volume = w.volume; prize = prize })

  -- Fills are from the epoch on, so a round that begins before it is read from there.
  pub results : Past → Board F → Results F
  results prev b =
      let start = pos_part prev.start in
      settle fl (contest_volume_between fl start prev.end (lit 5 0) [] default_window_s b.store)
        (contest_referred_volume_between fl start prev.end (lit 5 0) [] default_window_s b.store)
        fee_bps

  abbrev pub record_shown :
      ℤ → String → Option (Shown F) → List (ContestWinner F) → List (ContestWinner F)
  record_shown round_id category none t = t
  record_shown round_id category (some w) t =
      record_contest_winner
        (record {
          round_id = round_id;
          category = category;
          user = w.user;
          volume = w.volume;
          prize = w.prize;
        })
        t

  unfoldable pub announce :
      (ℕ → String → Bool)
      → String
      → ℕ
      → String
      → Bool
      → Past
      → Board F
      → Option (Published F) × Board F
  announce deliver env now channel broadcast prev b =
      let s = results prev b in
      let trader = shown b.subs.state s.trader s.prize.trader in
      let affiliate = shown b.subs.state s.affiliate s.prize.affiliate in
      let sent = count_sent deliver 0 (targets_of channel broadcast b.subs) in
      if sent == 0 then (none, b) else (
        some (record {
          round = prev.id;
          pozo = s.pozo;
          sent = sent;
          winners = one_if trader + one_if affiliate;
          prize_payout = settle_prizes env none b.subs.state;
        }),
        record b {
          rounds = mark_contest_round now prev.id now b.rounds;
          winners =
              record_shown prev.id "affiliate" affiliate
                (record_shown prev.id "trader" trader b.winners);
        },
      )

  -- No targets and no send that went out are the same answer.
  unfoldable pub publish_round :
      (ℕ → String → Bool)
      → String
      → ℕ
      → String
      → (round_hours delay_s : ℕ) → Bool
      → Board F
      → Option (Published F) × Board F
  unfolding announce previous_round contest_round_published
  publish_round deliver env now channel round_hours delay_s broadcast b =
      let prev = previous_round now round_hours in
      if ltb now (prev.end + delay_s)
      then (none, b)
      else if contest_round_published prev.id b.rounds
      then (none, b)
      else announce deliver env now channel broadcast prev b
