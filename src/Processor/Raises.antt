-- ===== src/Processor/Raises.antt =====
-- Whether an event raises does not depend on the tables.
use arc_smart_orders.Prelude.{
  ◌≡◌, refl, Bool, true, false, not, ◌&&◌, ◌||◌, Bool-cases, inl, inr, Option, none, some, String,
  str_eq, ltb, length, ◌>>=◌,
}
use arc_smart_orders.Events.{RawEvent, decode_initialize, decode_donate}
use arc_smart_orders.EventStore.{Tables}
use arc_smart_orders.Processor.{
  Resolver, process, process_swap, process_transfer, process_v4_donate, process_pool_init,
  process_launchpad, swap_parts, transfer_value, topic0_of, transfer_topic0, name_is, or_empty,
}

abbrev pub succeeds {ℓ} : {A : Type ℓ} → Option A → Bool
succeeds none = false
succeeds (some a) = true

succeeds-then {ℓ κ} :
    {A : Type ℓ} {B : Type κ} (o : Option A) (g h : A → B)
    → succeeds (o >>= λ a. some (g a)) ≡ succeeds (o >>= λ a. some (h a))
succeeds-then none g h = refl
succeeds-then (some a) g h = refl

module _ (ev : RawEvent) (t u : Tables) where
  process_transfer_raises : succeeds (process_transfer ev t) ≡ succeeds (process_transfer ev u)
  unfolding process_transfer
  process_transfer_raises =
      elim (Bool-cases (not (str_eq (topic0_of ev) transfer_topic0) || ltb (length ev.topics) 3)) [
        | inl e ↦ rw e refl
        | inr e ↦ rw e (succeeds-then (transfer_value ev.data_hex) _ _)
      ]

  module _ (text_of_hex : String → Option String) (topic_maps : String → String → Option String)
      (f : Resolver) where
    process_launchpad_raises :
        succeeds (process_launchpad text_of_hex topic_maps f ev t)
        ≡ succeeds (process_launchpad text_of_hex topic_maps f ev u)
    unfolding process_launchpad
    process_launchpad_raises =
        let name = topic_maps (or_empty ev.launchpad) (topic0_of ev) in
        elim (Bool-cases (name_is name "TokenCreated")) [
          | inl e ↦ rw e refl
          | inr e ↦
              elim (Bool-cases (
                (name_is name "CurveOpened" || name_is name "PartsDeployed")
                && ltb 1 (length ev.topics))) [ inl c ↦ rw (e, c) refl | inr c ↦ rw (e, c) refl ]
        ]

    pub process_raises :
        succeeds (process text_of_hex topic_maps f ev t)
        ≡ succeeds (process text_of_hex topic_maps f ev u)
    unfolding process process_swap process_pool_init process_v4_donate
    process_raises = elim (Bool-cases (str_eq ev.kind "dex_swap")) [
      | inl e ↦ rw e (succeeds-then (swap_parts ev) _ _)
      | inr a ↦ elim (Bool-cases (str_eq ev.kind "launchpad")) [
        | inl e ↦ rw (a, e) process_launchpad_raises
        | inr b ↦ elim (Bool-cases (str_eq ev.kind "pool_init")) [
          | inl e ↦ rw (a, b, e) (succeeds-then (decode_initialize ev) _ _)
          | inr c ↦ elim (Bool-cases (str_eq ev.kind "token_transfer")) [
            | inl e ↦ rw (a, b, c, e) process_transfer_raises
            | inr d ↦ elim (Bool-cases (str_eq ev.kind "v4_donate")) [
              | inl e ↦ rw (a, b, c, d, e) (succeeds-then (decode_donate ev) _ _)
              | inr e ↦ rw (a, b, c, d, e) refl
            ]
          ]
        ]
      ]
    ]
