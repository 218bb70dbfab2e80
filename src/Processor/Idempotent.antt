-- ===== src/Processor/Idempotent.antt =====
-- Events that come again.
use arc_smart_orders.Prelude.{
  ◌≡◌, refl, subst, ◌∙◌, true, Option, none, some, List, [], ◌∷◌, String, All, All-map, In, ◌>>=◌,
  >>=-eq-some, arith, In-All,
}
use arc_smart_orders.Events.{RawEvent}
use arc_smart_orders.EventStore.{Tables}
use arc_smart_orders.Processor.{ProcessResult, Resolver, process}
use arc_smart_orders.Processor.Replay.{Outcome, keys_of_event, process-Outcome}
use arc_smart_orders.Processor.Replay.Keys.{Key, has, rows_of}
use arc_smart_orders.Processor.Replay.Inserts.{Effect}
use arc_smart_orders.Processor.Raises.{succeeds, process_raises}

module _ (text_of_hex : String → Option String) (topic_maps : String → String → Option String)
    (f : Resolver) where
  -- The events one after the other; an exception ends the run.
  abbrev pub process_all : List RawEvent → Tables → Option Tables
  process_all [] t = some t
  process_all (e ∷ es) t =
      process text_of_hex topic_maps f e t >>= λ (out : ProcessResult × Tables).
      process_all es out.1

  abbrev Stored : Tables → RawEvent → Type 0
  Stored t e = All (λ k. has t k ≡ true) (keys_of_event text_of_hex topic_maps f e)

  abbrev Succeeds : RawEvent → Type 0
  Succeeds e = (t : Tables) → succeeds (process text_of_hex topic_maps f e t) ≡ true

  step-Effect :
      (e : RawEvent) (t : Tables) (out : ProcessResult × Tables)
      → process text_of_hex topic_maps f e t ≡ some out
      → Effect (keys_of_event text_of_hex topic_maps f e) t out.1
  step-Effect e t (r, t') h =
      subst (Outcome (keys_of_event text_of_hex topic_maps f e) t) h
        (process-Outcome text_of_hex topic_maps f e t)

  step-Succeeds :
      (e : RawEvent) (t : Tables) (out : ProcessResult × Tables)
      → process text_of_hex topic_maps f e t ≡ some out
      → Succeeds e
  step-Succeeds e t out h u = process_raises e u t text_of_hex topic_maps f ∙ rw h refl

  -- After a run its events are stored, and none of them can raise; no key was lost.
  process_all-Stored :
      (es : List RawEvent) (t t1 : Tables)
      → process_all es t ≡ some t1
      → All (Stored t1) es × All Succeeds es × ((k : Key) → has t k ≡ true → has t1 k ≡ true)
  process_all-Stored [] t t1 h = (
    tt,
    tt,
    λ k there. let same : t ≡ t1 = ground arith in subst (λ u. has u k ≡ true) same there,
  )
  process_all-Stored (e ∷ es) t t1 h =
      let (out, one, rest) =
        >>=-eq-some (process text_of_hex topic_maps f e t)
          (λ (o : ProcessResult × Tables). process_all es o.1) h in
      let effect = step-Effect e t out one in
      let (stored, fine, grows) = process_all-Stored es out.1 t1 rest in
      (
        (
          All-map (λ k. has out.1 k ≡ true) (λ k. has t1 k ≡ true)
              (keys_of_event text_of_hex topic_maps f e) grows effect.stores,
          stored,
        ),
        (step-Succeeds e t out one, fine),
        λ k there. grows k (effect.grows k there),
      )

  some_of : {A : Type 0} (o : Option A) → succeeds o ≡ true → (a : A) × (o ≡ some a)
  some_of none h = absurd (ground arith)
  some_of (some a) h = (a, refl)

  -- Stored events change no row.
  stored_again :
      (ds : List RawEvent) (t : Tables)
      → All (Stored t) ds
      → All Succeeds ds
      → (t2 : Tables) × (process_all ds t ≡ some t2) × (rows_of t2 ≡ rows_of t)
  stored_again [] t h s = (t, refl, refl)
  stored_again (d ∷ ds) t (h, hs) (s, ss) =
      let (out, one) = some_of (process text_of_hex topic_maps f d t) (s t) in
      let effect = step-Effect d t out one in
      let hs' =
        All-map (Stored t) (Stored out.1) ds
          (λ e.
            All-map (λ k. has t k ≡ true) (λ k. has out.1 k ≡ true)
              (keys_of_event text_of_hex topic_maps f e) effect.grows)
          hs in
      let (t2, run, same) = stored_again ds out.1 hs' ss in (t2, rw one run, same ∙ effect.fixed h)

  -- Events that were all processed before, in whatever order and however often they come again, raise
  -- nothing and change no row of any table but those of wallets.
  pub process_all_again :
      (ds es : List RawEvent) (t t1 : Tables)
      → All (λ d. In d es) ds
      → process_all es t ≡ some t1
      → (t2 : Tables) × (process_all ds t1 ≡ some t2) × (rows_of t2 ≡ rows_of t1)
  process_all_again ds es t t1 known run =
      let (stored, fine, grows) = process_all-Stored es t t1 run in
      stored_again ds t1
        (All-map (λ d. In d es) (Stored t1) ds (λ d m. In-All (Stored t1) d es m stored) known)
        (All-map (λ d. In d es) Succeeds ds (λ d m. In-All Succeeds d es m fine) known)
