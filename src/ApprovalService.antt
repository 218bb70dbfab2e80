-- ===== src/ApprovalService.antt =====
-- arc-intel/bot/approvals.py over the table `approvals` of arc-intel/bot/store.py: the approvals of a
-- chat, kept in rows. The texts of the columns `status` and `history` are those of
-- security/permissions.py. `last` is what `cursor.lastrowid` says after an INSERT that was ignored.
pub mod Simulation
use arc_smart_orders.Float.{Float}
use arc_smart_orders.Permissions.{Status, Event, is_pending}
use arc_smart_orders.Permissions
use arc_smart_orders.Prelude.{
  ℕ, ◌+◌, Bool, true, false, not, ◌&&◌, Option, none, some, List, [], ◌∷◌, ◌++◌, String, str_eq,
  ltb, leb, ◌==◌, select, find, take, map, if◌then◌else◌,
}
use mathlib.Core.List.{reverse}
use arc_smart_orders.Sql.{update_where}

pub record Stored (F : Type 0) : Type 0 where
  pub id : ℕ
  pub chat_id : String
  pub token : String
  pub kind : String
  pub side : String
  pub notional : F
  pub alert_block : ℕ
  pub created_ts : ℕ
  pub cancel_until : ℕ
  pub expires_ts : ℕ
  pub requires_2fa : Bool
  pub code : Option String
  pub status : Status
  pub history : List (Event × ℕ)

-- `next_id` is the AUTOINCREMENT counter.
pub record Approvals (F : Type 0) : Type 0 where
  pub rows : List (Stored F)
  pub next_id : ℕ

-- The texts that `approve` and `cancel` return.
pub data Reply : Type 0 where
  not_found expired twofa_required approved cancelled : Reply
  already : Status → Reply
  window_open : ℕ → Reply

-- `str(code) != str(a["code"])`, negated.
abbrev pub same_code : Option String → Option String → Bool
same_code none none = true
same_code (some a) (some b) = str_eq a b
same_code none (some b) = str_eq "None" b
same_code (some a) none = str_eq a "None"

module _ {F : Type 0} where
  -- The columns of the UNIQUE constraint.
  abbrev pub is_for : String → String → String → ℕ → Stored F → Bool
  is_for chat_id token kind alert_block r =
      str_eq r.chat_id chat_id
      && (str_eq r.token token && (str_eq r.kind kind && r.alert_block == alert_block))

  abbrev pub id_or_zero : Option (Stored F) → ℕ
  id_or_zero none = 0
  id_or_zero (some r) = r.id

  pub approval_id : String → String → String → ℕ → Approvals F → ℕ
  approval_id chat_id token kind alert_block s =
      id_or_zero (find (is_for chat_id token kind alert_block) s.rows)

  abbrev pub approval_exists : String → String → String → ℕ → Approvals F → Bool
  approval_exists chat_id token kind alert_block s =
      elim (find (is_for chat_id token kind alert_block) s.rows) [ none ↦ false | some r ↦ true ]

  unfoldable pub create_approval :
      (last : ℕ)
      → (chat_id token kind side : String) → (notional : F)
      → (alert_block created_ts cancel_until expires_ts : ℕ) → (requires_2fa : Bool)
      → (code : Option String) → Approvals F
      → ℕ × Approvals F
  unfolding approval_id
  create_approval last chat_id token kind side notional alert_block created_ts cancel_until
        expires_ts requires_2fa code s =
      if approval_exists chat_id token kind alert_block s
      then (if last == 0 then approval_id chat_id token kind alert_block s else last, s)
      else (
        s.next_id,
        record {
          rows =
              s.rows
              ++ record {
                id = s.next_id;
                chat_id = chat_id;
                token = token;
                kind = kind;
                side = side;
                notional = notional;
                alert_block = alert_block;
                created_ts = created_ts;
                cancel_until = cancel_until;
                expires_ts = expires_ts;
                requires_2fa = requires_2fa;
                code = code;
                status = Status.pending;
                history = (Event.created, created_ts) ∷ [];
              }
                ∷ [];
          next_id = s.next_id + 1;
        },
      )

  abbrev pub has_id : ℕ → Stored F → Bool
  has_id n r = r.id == n

  unfoldable pub get_approval : ℕ → Approvals F → Option (Stored F)
  get_approval approval_id s = find (has_id approval_id) s.rows

  pub list_open_approvals : String → ℕ → Approvals F → List (Stored F)
  list_open_approvals chat_id now s =
      select (λ r. str_eq r.chat_id chat_id && (is_pending r.status && leb now r.expires_ts)) s.rows

  pub pending : String → ℕ → Approvals F → List (Stored F)
  unfolding list_open_approvals
  pending chat now s = list_open_approvals chat now s

  pub can_cancel : Stored F → ℕ → Bool
  can_cancel a now = is_pending a.status

  pub list_approvals : String → ℕ → Approvals F → List (Stored F)
  list_approvals chat_id limit s =
      take limit (reverse (select (λ r. str_eq r.chat_id chat_id) s.rows))

  abbrev pub history_or_empty : Option (Stored F) → List (Event × ℕ)
  history_or_empty none = []
  history_or_empty (some r) = r.history

  pub update_approval : ℕ → Status → ℕ → Event → Approvals F → Approvals F
  unfolding get_approval
  update_approval approval_id status ts note s =
      let hist = history_or_empty (get_approval approval_id s) ++ (note, ts) ∷ [] in
      record s {
        rows =
            update_where (has_id approval_id) (λ r. record r { status = status; history = hist })
              s.rows;
      }

  -- The part of `approve` behind the lookup.
  pub approve_found :
      String
      → ℕ
      → ℕ
      → Option String
      → Option (Stored F)
      → Approvals F
      → (Bool × Reply) × Approvals F
  unfolding update_approval
  approve_found chat approval_id now code none s = ((false, not_found), s)
  approve_found chat approval_id now code (some a) s =
      if not (str_eq a.chat_id chat)
      then ((false, not_found), s)
      else if not (is_pending a.status)
      then ((false, already a.status), s)
      else if ltb a.expires_ts now
      then ((false, Reply.expired), update_approval approval_id Status.expired now Event.expired s)
      else if leb now a.cancel_until
      then ((false, window_open a.cancel_until), s)
      else if a.requires_2fa && not (same_code code a.code)
      then ((false, twofa_required), s)
      else (
        (true, Reply.approved),
        update_approval approval_id Status.approved now Event.approved s,
      )

  pub approve : String → ℕ → ℕ → Option String → Approvals F → (Bool × Reply) × Approvals F
  unfolding approve_found
  approve chat approval_id now code s =
      approve_found chat approval_id now code (get_approval approval_id s) s

  -- The part of `cancel` behind the lookup.
  pub cancel_found : String → ℕ → ℕ → Option (Stored F) → Approvals F → (Bool × Reply) × Approvals F
  unfolding update_approval
  cancel_found chat approval_id now none s = ((false, not_found), s)
  cancel_found chat approval_id now (some a) s =
      if not (str_eq a.chat_id chat)
      then ((false, not_found), s)
      else if not (is_pending a.status)
      then ((false, already a.status), s)
      else (
        (true, Reply.cancelled),
        update_approval approval_id Status.cancelled now Event.cancelled s,
      )

  pub cancel : String → ℕ → ℕ → Approvals F → (Bool × Reply) × Approvals F
  unfolding cancel_found
  cancel chat approval_id now s = cancel_found chat approval_id now (get_approval approval_id s) s

-- `f"{random.randint(0, 9999):04d}"` is the argument `drawn`.
unfoldable pub propose :
    (fl : Float)
    → (last : ℕ) → (drawn : String) → (chat token kind side : String) → (notional : fl.F)
    → (alert_block now cancel_seconds ttl_seconds : ℕ) → (threshold : fl.F) → Approvals fl.F
    → ℕ × Approvals fl.F
unfolding create_approval
propose fl last drawn chat token kind side notional alert_block now cancel_seconds ttl_seconds
      threshold s =
    let requires = fl.fle threshold notional in
    create_approval last chat token kind side notional alert_block now (now + cancel_seconds)
      (now + ttl_seconds) requires (if requires then some drawn else none) s
