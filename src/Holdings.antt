-- ===== src/Holdings.antt =====
-- Holdings and exit plans of arc-intel/bot/store.py. `now` is `int(time.time())`, and an argument
-- or a column that is None or NULL is `none`.
use arc_smart_orders.Prelude.{
  ℕ, Bool, ◌&&◌, Option, none, some, List, [], ◌∷◌, ◌++◌, String, str_eq, lower, leb, select, find,
  exists, map, if◌then◌else◌,
}
use arc_smart_orders.Sql.{update_where, delete_where}
use arc_smart_orders.Float.{Float}

pub record Holding : Type 0 where
  pub chat : String
  pub token : String
  pub added_ts : ℕ

abbrev pub holding_is : String → String → Holding → Bool
holding_is chat token h = str_eq h.chat chat && str_eq h.token (lower token)

-- INSERT OR IGNORE
unfoldable pub add_holding : (now : ℕ) → String → String → List Holding → List Holding
add_holding now chat token hs =
    if exists (holding_is chat token) hs
    then hs
    else hs ++ record { chat = chat; token = lower token; added_ts = now } ∷ []

unfoldable pub remove_holding : String → String → List Holding → List Holding
remove_holding chat token hs = delete_where (holding_is chat token) hs

-- `ORDER BY added_ts DESC`, a stable sort.
abbrev pub insert_by_age : Holding → List Holding → List Holding
insert_by_age h [] = h ∷ []
insert_by_age h (k ∷ ks) =
    let rest = insert_by_age h ks in if leb k.added_ts h.added_ts then h ∷ k ∷ ks else k ∷ rest

abbrev pub sort_by_age : List Holding → List Holding
sort_by_age [] = []
sort_by_age (h ∷ hs) = insert_by_age h (sort_by_age hs)

unfoldable pub list_holdings : String → List Holding → List String
list_holdings chat hs =
    map (λ (h : Holding). h.token) (sort_by_age (select (λ h. str_eq h.chat chat) hs))

pub record ExitPlan (F : Type 0) : Type 0 where
  pub chat : String
  pub token : String
  pub sl_pct : Option F
  pub tp_pct : Option F
  -- A column that was added later: NULL in an older row.
  pub trailing_pct : Option F
  pub updated_ts : ℕ

pub record Percents (F : Type 0) : Type 0 where
  pub sl_pct : F
  pub tp_pct : F
  pub trailing_pct : F

module _ (fl : Float) where
  open fl use {F, lit}

  abbrev pub or_zero : Option F → F
  or_zero none = lit 0 0
  or_zero (some x) = x

  abbrev pub plan_is : String → String → ExitPlan F → Bool
  plan_is chat token p = str_eq p.chat chat && str_eq p.token (lower token)

  -- INSERT … ON CONFLICT(chat,token) DO UPDATE
  unfoldable pub set_exit_plan :
      (now : ℕ)
      → (chat token : String) → (sl_pct tp_pct trailing_pct : Option F) → List (ExitPlan F)
      → List (ExitPlan F)
  set_exit_plan now chat token sl_pct tp_pct trailing_pct ps =
      let fresh : ExitPlan F = record {
        chat = chat;
        token = lower token;
        sl_pct = some (or_zero sl_pct);
        tp_pct = some (or_zero tp_pct);
        trailing_pct = some (or_zero trailing_pct);
        updated_ts = now;
      } in
      if exists (plan_is chat token) ps
      then update_where (plan_is chat token) (λ p. fresh) ps
      else ps ++ fresh ∷ []

  abbrev pub percents : ExitPlan F → Percents F
  percents p = record {
    sl_pct = or_zero p.sl_pct;
    tp_pct = or_zero p.tp_pct;
    trailing_pct = or_zero p.trailing_pct;
  }

  unfoldable pub get_exit_plan : String → String → List (ExitPlan F) → Option (Percents F)
  get_exit_plan chat token ps = elim (find (plan_is chat token) ps) [
    | none ↦ none
    | some p ↦ some (percents p)
  ]

  unfoldable pub list_exit_plans : String → List (ExitPlan F) → List (String × Percents F)
  list_exit_plans chat ps = map (λ p. (p.token, percents p)) (select (λ p. str_eq p.chat chat) ps)
