-- ===== src/Alerts.antt =====
-- The alert tables of arc-intel/bot/store.py: what was delivered, the queue, the cooldowns, the paper
-- alerts with their outcomes, and the requests of the closed beta. `context` and `horizons_json` are
-- the JSON texts.
pub mod Spacing
use arc_smart_orders.Prelude.{
  ℕ, ◌+◌, Bool, true, false, not, ◌&&◌, ◌||◌, Option, none, some, List, [], ◌∷◌, ◌++◌, String,
  str_eq, ltb, leb, ◌==◌, select, take, find, exists, map, length, if◌then◌else◌,
}
use arc_smart_orders.Sql.{update_where, delete_where, count_where}

pub record Delivered : Type 0 where
  pub chat_id : String
  pub token : String
  pub kind : String
  pub block : ℕ

pub record Alert : Type 0 where
  pub token : String
  pub kind : String
  pub block : ℕ
  pub severity : String
  pub message : String
  pub context : String

pub record Cooldown : Type 0 where
  pub token : String
  pub kind : String
  pub ts : ℕ

pub record PaperAlert : Type 0 where
  pub kind : String
  pub token : String
  pub alert_block : ℕ
  pub detected_ts : ℕ

pub record PaperOutcome : Type 0 where
  pub kind : String
  pub token : String
  pub alert_block : ℕ
  pub delay_seconds : ℕ
  pub computed_ts : ℕ
  pub horizons_json : String

-- INSERT OR IGNORE, where `same` says that a row has the primary key.
abbrev pub insert_new {ℓ} : {A : Type ℓ} → (A → Bool) → A → List A → List A
insert_new same row rows = if exists same rows then rows else rows ++ row ∷ []

abbrev pub delivery_is : String → String → String → ℕ → Delivered → Bool
delivery_is chat_id token kind block d =
    str_eq d.chat_id chat_id && (str_eq d.token token && (str_eq d.kind kind && d.block == block))

pub is_delivered : String → String → String → ℕ → List Delivered → Bool
is_delivered chat_id token kind block t = exists (delivery_is chat_id token kind block) t

pub mark_delivered : String → String → String → ℕ → List Delivered → List Delivered
mark_delivered chat_id token kind block t =
    insert_new (delivery_is chat_id token kind block)
      (record { chat_id = chat_id; token = token; kind = kind; block = block }) t

abbrev pub alert_is : String → String → ℕ → Alert → Bool
alert_is token kind block a = str_eq a.token token && (str_eq a.kind kind && a.block == block)

unfoldable pub enqueue_alert : Alert → List Alert → List Alert
enqueue_alert a q = insert_new (alert_is a.token a.kind a.block) a q

unfoldable pub enqueue_alert_many : List Alert → List Alert → List Alert
unfolding enqueue_alert
enqueue_alert_many [] q = q
enqueue_alert_many (a ∷ rest) q = enqueue_alert_many rest (enqueue_alert a q)

pub queue_size : List Alert → ℕ
queue_size q = length q

abbrev pub urgent : Alert → Bool
urgent a = str_eq a.kind "dev_sell" || str_eq a.kind "compound"

-- `ORDER BY (kind IN …) DESC, block, rowid`: whether `a`, of the earlier row, comes before `b`.
abbrev pub goes_first : Alert → Alert → Bool
goes_first a b =
    if urgent a
    then (if urgent b then leb a.block b.block else true)
    else if urgent b
    then false
    else leb a.block b.block

abbrev pub insert_alert : Alert → List Alert → List Alert
insert_alert a [] = a ∷ []
insert_alert a (b ∷ bs) =
    let rest = insert_alert a bs in if goes_first a b then a ∷ b ∷ bs else b ∷ rest

abbrev pub sort_alerts : List Alert → List Alert
sort_alerts [] = []
sort_alerts (a ∷ rest) = insert_alert a (sort_alerts rest)

unfoldable pub dequeue : ℕ → List Alert → List Alert
dequeue limit q = take limit (sort_alerts q)

pub remove_from_queue : String → String → ℕ → List Alert → List Alert
remove_from_queue token kind block q = delete_where (alert_is token kind block) q

pub purge_queue : ℕ → List Alert → ℕ × List Alert
purge_queue before_block q =
    (count_where (λ a. ltb a.block before_block) q, delete_where (λ a. ltb a.block before_block) q)

abbrev pub cools : String → String → Cooldown → Bool
cools token kind c = str_eq c.token token && str_eq c.kind kind

-- `row and now_ts - ts < window_s`
abbrev pub too_soon : ℕ → ℕ → Option Cooldown → Bool
too_soon now_ts window_s none = false
too_soon now_ts window_s (some c) = ltb now_ts (c.ts + window_s)

unfoldable pub cooldown_ok :
    String → String → (now_ts window_s : ℕ) → List Cooldown → Bool × List Cooldown
cooldown_ok token kind now_ts window_s t =
    if too_soon now_ts window_s (find (cools token kind) t) then (false, t) else (
      true,
      if exists (cools token kind) t
          then update_where (cools token kind) (λ c. record c { ts = now_ts }) t
          else t ++ record { token = token; kind = kind; ts = now_ts } ∷ [],
    )

abbrev pub paper_is : String → String → ℕ → PaperAlert → Bool
paper_is kind token block a = str_eq a.kind kind && (str_eq a.token token && a.alert_block == block)

pub add_paper_alert : String → String → ℕ → ℕ → List PaperAlert → List PaperAlert
add_paper_alert kind token alert_block detected_ts t =
    insert_new (paper_is kind token alert_block)
      (record { kind = kind; token = token; alert_block = alert_block; detected_ts = detected_ts })
      t

abbrev pub outcome_is : String → String → ℕ → ℕ → PaperOutcome → Bool
outcome_is kind token block delay o =
    str_eq o.kind kind
    && (str_eq o.token token && (o.alert_block == block && o.delay_seconds == delay))

pub list_pending_paper_alerts :
    ℕ → ℕ → List PaperAlert → List PaperOutcome → List (String × String × ℕ)
list_pending_paper_alerts ready_before_block delay_seconds t outcomes =
    map (λ (a : PaperAlert). (a.kind, a.token, a.alert_block))
      (select
        (λ a.
          leb a.alert_block ready_before_block
          && not (exists (outcome_is a.kind a.token a.alert_block delay_seconds) outcomes))
        t)

-- INSERT OR REPLACE
pub save_paper_outcome : PaperOutcome → List PaperOutcome → List PaperOutcome
save_paper_outcome o t =
    delete_where (outcome_is o.kind o.token o.alert_block o.delay_seconds) t ++ o ∷ []

pub list_paper_outcomes : ℕ → List PaperOutcome → List PaperOutcome
list_paper_outcomes delay_seconds t = select (λ o. o.delay_seconds == delay_seconds) t

-- Requests are chat and time.
pub add_request : String → ℕ → List (String × ℕ) → List (String × ℕ)
add_request chat_id ts t = insert_new (λ (r : String × ℕ). str_eq r.0 chat_id) (chat_id, ts) t

abbrev pub insert_request : String × ℕ → List (String × ℕ) → List (String × ℕ)
insert_request r [] = r ∷ []
insert_request r (s ∷ ss) =
    let rest = insert_request r ss in if leb r.1 s.1 then r ∷ s ∷ ss else s ∷ rest

-- `ORDER BY ts`
pub list_requests : List (String × ℕ) → List (String × ℕ)
list_requests [] = []
list_requests (r ∷ rest) = insert_request r (list_requests rest)
