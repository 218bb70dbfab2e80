-- ===== src/Orders/Lookup.antt =====
-- What `get_preorder` reads after each UPDATE of the table `preorders`.
use mathlib.Core.Option
use arc_smart_orders.Prelude.{
  ℕ, ◌+◌, ◌≡◌, refl, Bool, true, some, String, if◌then◌else◌, ◌==◌, arith, lower, ==_refl,
}
use arc_smart_orders.Sql.{find-update_where, find-count_pos, find-holds}
use arc_smart_orders.Orders.{
  Preorder, Table, Status, signed, submitting, executed, cancelled, has_id, update, claimable,
  cancellable, coalesce, get_preorder, claim_order, mark_executed, bump_attempt,
  set_preorder_status, attach_signature, cancel_preorder,
}

module _ {Real : Type 0} where
  get-update :
      (k : ℕ) (p : Preorder Real → Bool) (f : Preorder Real → Preorder Real) (t : Table Real)
      → ((r : Preorder Real) → (f r).id ≡ r.id)
      → get_preorder k (update p f t) ≡ Option.map (λ r. if p r then f r else r) (get_preorder k t)
  unfolding get_preorder
  get-update k p f t keep = find-update_where (has_id k) p f t.rows (λ r. rw keep refl)

  pub get-claim :
      (k j : ℕ) (t : Table Real)
      → get_preorder k (claim_order j t).1
        ≡ Option.map
            (λ r. if claimable j r then record r { status = submitting } else r)
            (get_preorder k t)
  unfolding claim_order
  get-claim k j t = get-update k (claimable j) (λ r. record r { status = submitting }) t (λ r. refl)

  pub get-mark_executed :
      (k j : ℕ) (tx : String) (t : Table Real)
      → get_preorder k (mark_executed j tx t)
        ≡ Option.map
            (λ r. if r.id == j then record r { status = executed; tx_hash = some tx } else r)
            (get_preorder k t)
  unfolding mark_executed
  get-mark_executed k j tx t =
      get-update k (has_id j) (λ r. record r { status = executed; tx_hash = some tx }) t (λ r. refl)

  pub get-bump_attempt :
      (k j : ℕ) (t : Table Real)
      → get_preorder k (bump_attempt j t)
        ≡ Option.map
            (λ r. if r.id == j then record r { attempts = some (coalesce r.attempts 0 + 1) } else r)
            (get_preorder k t)
  unfolding bump_attempt
  get-bump_attempt k j t =
      get-update k (has_id j) (λ r. record r { attempts = some (coalesce r.attempts 0 + 1) }) t
        (λ r. refl)

  pub get-set_preorder_status :
      (k j : ℕ) (s : Status) (t : Table Real)
      → get_preorder k (set_preorder_status j s t)
        ≡ Option.map (λ r. if r.id == j then record r { status = s } else r) (get_preorder k t)
  unfolding set_preorder_status
  get-set_preorder_status k j s t =
      get-update k (has_id j) (λ r. record r { status = s }) t (λ r. refl)

  pub get-attach_signature :
      (k j : ℕ) (sig : String) (t : Table Real)
      → get_preorder k (attach_signature j sig t)
        ≡ Option.map
            (λ r. if r.id == j then record r { signature = some sig; status = signed } else r)
            (get_preorder k t)
  unfolding attach_signature
  get-attach_signature k j sig t =
      get-update k (has_id j) (λ r. record r { signature = some sig; status = signed }) t
        (λ r. refl)

  pub get-cancel_preorder :
      (k j : ℕ) (u : String) (t : Table Real)
      → get_preorder k (cancel_preorder j u t).1
        ≡ Option.map
            (λ r. if cancellable j (lower u) r then record r { status = cancelled } else r)
            (get_preorder k t)
  unfolding cancel_preorder
  get-cancel_preorder k j u t =
      get-update k (cancellable j (lower u)) (λ r. record r { status = cancelled }) t (λ r. refl)

  -- A row that is found has the number that was asked for.
  pub get_preorder-id :
      (k : ℕ) (t : Table Real) (r : Preorder Real) → get_preorder k t ≡ some r → r.id ≡ k
  unfolding get_preorder
  get_preorder-id k t r h = ground (arith, find-holds (has_id k) t.rows r h)

  -- An order that stands signed can be claimed.
  pub claim_signed :
      (t : Table Real) (r : Preorder Real)
      → get_preorder r.id t ≡ some r
      → r.status ≡ signed
      → (claim_order r.id t).0 ≡ true
  unfolding claim_order get_preorder
  claim_signed t r h e =
      ground (arith, find-count_pos (has_id r.id) (claimable r.id) t.rows r h, ==_refl r.id)

  -- An owner who asks for the cancellation of an order that is live is answered with success.
  pub cancel_live :
      (k : ℕ) (u : String) (t : Table Real) (r : Preorder Real)
      → get_preorder k t ≡ some r
      → cancellable k (lower u) r ≡ true
      → (cancel_preorder k u t).0 ≡ true
  unfolding cancel_preorder get_preorder
  cancel_live k u t r h e =
      ground (arith, find-count_pos (has_id k) (cancellable k (lower u)) t.rows r h)
