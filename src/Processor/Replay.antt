-- ===== src/Processor/Replay.antt =====
-- Events that were processed are in the tables, and change no row but their wallet's when they come
-- again.
pub mod Keys
pub mod Inserts
use arc_smart_orders.Prelude.{
  ℕ, ◌≡◌, refl, ◌∙◌, Bool, true, false, not, ◌&&◌, ◌||◌, Bool-cases, Option-cases, inl, inr, Option,
  none, some, List, [], ◌∷◌, ◌++◌, String, str_eq, lower, ltb, length, exists, All, In, arith,
  if◌then◌else◌, ◌>>=◌,
}
use arc_smart_orders.Abi.{topic_address}
use arc_smart_orders.Events.{
  RawEvent, Initialize, Donate, TokenCreated, nth, decode_initialize, decode_donate,
  decode_token_created,
}
use arc_smart_orders.EventStore.{Tables, insert_swap, insert_token}
use arc_smart_orders.Processor.{
  ProcessResult, Parts, Resolver, process, process_swap, process_transfer, process_v4_donate,
  process_pool_init, process_launchpad, write_swap, write_parts, write_transfer, write_donate,
  write_pool_init, write_launchpad, write_created, created_token, swap_parts, swap_row, touch,
  insert_pair, resolved, bare_token, transfer_value, topic0_of, transfer_topic0, token_named,
  name_is, or_empty,
}
use Keys.{
  Key, swap_key, launchpad_key, transfer_key, v4_event_key, token_key, pool_key, has, rows_of,
}
use Inserts.{
  Effect, Effect-refl, Effect-trans, insert_swap-Effect, insert_token-Effect,
  insert_launchpad_event-Effect, insert_token_transfer-Effect, insert_pool_v4-Effect,
  insert_v4_event-Effect, upsert_wallet-Effect,
}

-- The keys of the rows that processing an event inserts.
abbrev pub pair_keys : Option (String × String) → List Key
pair_keys none = []
pair_keys (some (a, b)) = token_key (lower a) ∷ token_key (lower b) ∷ []

abbrev pub swap_keys : Resolver → RawEvent → Option (Option Parts) → List Key
swap_keys f ev none = []
swap_keys f ev (some none) = []
swap_keys f ev (some (some d)) =
    swap_key (lower ev.tx_hash) ev.log_index ∷ pair_keys (resolved f ev)

abbrev pub pool_keys : Option (Option Initialize) → List Key
pool_keys none = []
pool_keys (some none) = []
pool_keys (some (some d)) = pool_key (lower d.pool_id) ∷ []

abbrev pub donate_keys : RawEvent → Option (Option Donate) → List Key
donate_keys ev none = []
donate_keys ev (some none) = []
donate_keys ev (some (some d)) = v4_event_key (lower ev.tx_hash) ev.log_index ∷ []

abbrev pub token_keys : Option TokenCreated → List Key
token_keys none = []
token_keys (some d) = token_key (lower d.token) ∷ []

touch-Effect :
    (wallet : Option String) (ts : Option ℕ) (t : Tables) → Effect [] t (touch wallet ts t).1
touch-Effect none ts t = Effect-refl t
touch-Effect (some w) ts t = upsert_wallet-Effect w ts t

insert_pair-Effect :
    (ev : RawEvent) (pair : Option (String × String)) (t : Tables)
    → Effect (pair_keys pair) t (insert_pair ev pair t).1
insert_pair-Effect ev none t = Effect-refl t
insert_pair-Effect ev (some (a, b)) t =
    let r = bare_token a (some ev.address) in
    let r' = bare_token b (some ev.address) in
    Effect-trans (token_key (lower a) ∷ []) (token_key (lower b) ∷ []) t (insert_token r t).1 _
      (insert_token-Effect r t) (insert_token-Effect r' (insert_token r t).1)

write_swap-Effect :
    (f : Resolver) (ev : RawEvent) (d : Parts) (t : Tables)
    → Effect (swap_keys f ev (some (some d))) t (write_swap f ev d t).1
unfolding write_swap
write_swap-Effect f ev d t =
    let t1 = (insert_swap (swap_row ev d t) t).1 in
    let t2 = (touch d.wallet ev.block_time t1).1 in
    Effect-trans (swap_key (lower ev.tx_hash) ev.log_index ∷ []) (pair_keys (resolved f ev)) t t1 _
      (insert_swap-Effect (swap_row ev d t) t)
      (Effect-trans [] (pair_keys (resolved f ev)) t1 t2 _ (touch-Effect d.wallet ev.block_time t1)
        (insert_pair-Effect ev (resolved f ev) t2))

-- What a step that may raise does.
abbrev pub Outcome : List Key → Tables → Option (ProcessResult × Tables) → Type 0
Outcome ks t none = Unit
Outcome ks t (some (r, t')) = Effect ks t t'

process_swap-Outcome :
    (f : Resolver) (ev : RawEvent) (t : Tables)
    → Outcome (swap_keys f ev (swap_parts ev)) t (process_swap f ev t)
unfolding process_swap
process_swap-Outcome f ev t =
    elim (swap_parts ev)
      as (λ p. Outcome (swap_keys f ev p) t (p >>= λ d. some (write_parts f ev d t))) [
        | none ↦ tt
        | some none ↦ Effect-refl t
        | some (some d) ↦ write_swap-Effect f ev d t
      ]

process_pool_init-Outcome :
    (ev : RawEvent) (t : Tables)
    → Outcome (pool_keys (decode_initialize ev)) t (process_pool_init ev t)
unfolding process_pool_init write_pool_init
process_pool_init-Outcome ev t =
    elim (decode_initialize ev)
      as (λ o. Outcome (pool_keys o) t (o >>= λ d. some (write_pool_init ev d t))) [
        | none ↦ tt
        | some none ↦ Effect-refl t
        | some (some d) ↦ insert_pool_v4-Effect _ t
      ]

process_v4_donate-Outcome :
    (ev : RawEvent) (t : Tables)
    → Outcome (donate_keys ev (decode_donate ev)) t (process_v4_donate ev t)
unfolding process_v4_donate write_donate
process_v4_donate-Outcome ev t =
    elim (decode_donate ev)
      as (λ o. Outcome (donate_keys ev o) t (o >>= λ d. some (write_donate ev d t))) [
        | none ↦ tt
        | some none ↦ Effect-refl t
        | some (some d) ↦ insert_v4_event-Effect _ t
      ]

abbrev pub transfer_keys : RawEvent → List Key
transfer_keys ev =
    if not (str_eq (topic0_of ev) transfer_topic0) || ltb (length ev.topics) 3
    then []
    else transfer_key (lower ev.tx_hash) ev.log_index ∷ []

process_transfer-Outcome :
    (ev : RawEvent) (t : Tables) → Outcome (transfer_keys ev) t (process_transfer ev t)
unfolding process_transfer write_transfer
process_transfer-Outcome ev t =
    elim (Bool-cases (not (str_eq (topic0_of ev) transfer_topic0) || ltb (length ev.topics) 3)) [
      | inl e ↦ rw e (Effect-refl t)
      | inr e ↦
          rw e
            (elim (transfer_value ev.data_hex)
              as (λ o.
                Outcome (transfer_key (lower ev.tx_hash) ev.log_index ∷ []) t
                  (o >>= λ v. some (write_transfer ev v t))) [
                    | none ↦ tt
                    | some v ↦ insert_token_transfer-Effect _ t
                  ])
    ]

pub launchpad_row_key : RawEvent → List Key
launchpad_row_key ev = launchpad_key (lower ev.tx_hash) ev.log_index ∷ []

write_launchpad-Effect :
    (ev : RawEvent) (name token : Option String) (t : Tables)
    → Effect (launchpad_row_key ev) t (write_launchpad ev name token t).1
unfolding write_launchpad launchpad_row_key
write_launchpad-Effect ev name token t = insert_launchpad_event-Effect _ t

created_token-Effect :
    (ev : RawEvent) (d : Option TokenCreated) (t : Tables)
    → Effect (token_keys d) t (created_token ev d t).1
created_token-Effect ev none t = Effect-refl t
created_token-Effect ev (some d) t = insert_token-Effect _ t

write_created-Effect :
    (ev : RawEvent) (name : Option String) (d : Option TokenCreated) (t : Tables)
    → Effect (token_keys d ++ launchpad_row_key ev) t (write_created ev name d t).1
unfolding write_created
write_created-Effect ev name d t =
    let t1 = (created_token ev d t).1 in
    Effect-trans (token_keys d) (launchpad_row_key ev) t t1 _ (created_token-Effect ev d t)
      (write_launchpad-Effect ev name (token_named d) t1)

module _ (text_of_hex : String → Option String) (topic_maps : String → String → Option String)
    (f : Resolver) where
  abbrev pub launchpad_keys : RawEvent → List Key
  launchpad_keys ev =
      if name_is (topic_maps (or_empty ev.launchpad) (topic0_of ev)) "TokenCreated"
      then token_keys (decode_token_created text_of_hex ev) ++ launchpad_row_key ev
      else launchpad_row_key ev

  process_launchpad-Outcome :
      (ev : RawEvent) (t : Tables)
      → Outcome (launchpad_keys ev) t (process_launchpad text_of_hex topic_maps f ev t)
  unfolding process_launchpad
  process_launchpad-Outcome ev t =
      let name = topic_maps (or_empty ev.launchpad) (topic0_of ev) in
      elim (Bool-cases (name_is name "TokenCreated")) [
        | inl e ↦ rw e (write_created-Effect ev name (decode_token_created text_of_hex ev) t)
        | inr e ↦
            elim (Bool-cases (
              (name_is name "CurveOpened" || name_is name "PartsDeployed")
              && ltb 1 (length ev.topics))) [
                | inl c ↦
                    rw (e, c)
                      (write_launchpad-Effect ev name (some (topic_address (nth ev.topics 1))) t)
                | inr c ↦ rw (e, c) (write_launchpad-Effect ev name none t)
              ]
      ]

  -- The keys of the rows that processing an event inserts.
  abbrev pub keys_of_event : RawEvent → List Key
  keys_of_event ev =
      if str_eq ev.kind "dex_swap"
      then swap_keys f ev (swap_parts ev)
      else if str_eq ev.kind "launchpad"
      then launchpad_keys ev
      else if str_eq ev.kind "pool_init"
      then pool_keys (decode_initialize ev)
      else if str_eq ev.kind "token_transfer"
      then transfer_keys ev
      else if str_eq ev.kind "v4_donate"
      then donate_keys ev (decode_donate ev)
      else []

  pub process-Outcome :
      (ev : RawEvent) (t : Tables)
      → Outcome (keys_of_event ev) t (process text_of_hex topic_maps f ev t)
  unfolding process
  process-Outcome ev t = elim (Bool-cases (str_eq ev.kind "dex_swap")) [
    | inl e ↦ rw e (process_swap-Outcome f ev t)
    | inr a ↦ elim (Bool-cases (str_eq ev.kind "launchpad")) [
      | inl e ↦ rw (a, e) (process_launchpad-Outcome ev t)
      | inr b ↦ elim (Bool-cases (str_eq ev.kind "pool_init")) [
        | inl e ↦ rw (a, b, e) (process_pool_init-Outcome ev t)
        | inr c ↦ elim (Bool-cases (str_eq ev.kind "token_transfer")) [
          | inl e ↦ rw (a, b, c, e) (process_transfer-Outcome ev t)
          | inr d ↦ elim (Bool-cases (str_eq ev.kind "v4_donate")) [
            | inl e ↦ rw (a, b, c, d, e) (process_v4_donate-Outcome ev t)
            | inr e ↦ rw (a, b, c, d, e) (Effect-refl t)
          ]
        ]
      ]
    ]
  ]
