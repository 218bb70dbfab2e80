-- ===== src/Orders/Valid.antt =====
-- The primary key of `preorders` under every statement that writes the table.
use arc_smart_orders.Prelude.{
  ℕ, ◌+◌, ◌<◌, ◌≡◌, ◌≢◌, refl, Bool, String, List, [], ◌∷◌, ◌++◌, if◌then◌else◌, arith, All,
}
use arc_smart_orders.Sql.{update_where, Distinct}
use arc_smart_orders.Orders.{
  Preorder, Table, Status, create_preorder, save_sig_payload, attach_signature, set_preorder_status,
  claim_order, mark_executed, bump_attempt, cancel_preorder, update,
}

-- Every number that is in use is below the AUTOINCREMENT counter, and none is used twice.
pub record IsValid {Real : Type 0} (t : Table Real) : Type 0 where
  pub below : All (λ (r : Preorder Real). r.id < t.next_id) t.rows
  pub distinct : Distinct (λ (r : Preorder Real). r.id) t.rows

-- The statements that write the table, as the store's methods send them.
pub data Write (Real : Type 0) : Type 0 where
  create :
      String
      → String
      → String
      → String
      → Real
      → Real
      → Real
      → ℕ
      → ℕ
      → Status
      → ℕ
      → String
      → Write Real
  payload sign executed cancel : ℕ → String → Write Real
  status : ℕ → Status → Write Real
  claim bump : ℕ → Write Real

module _ {Real : Type 0} where
  unfoldable pub write : Write Real → Table Real → Table Real
  write (create st c u tk p f m d n s ts k) t = (create_preorder st c u tk p f m d n s ts k t).1
  write (payload k p) t = save_sig_payload k p t
  write (sign k sig) t = attach_signature k sig t
  write (executed k tx) t = mark_executed k tx t
  write (cancel k u) t = (cancel_preorder k u t).1
  write (status k s) t = set_preorder_status k s t
  write (claim k) t = (claim_order k t).1
  write (bump k) t = bump_attempt k t

  unfoldable pub write_all : List (Write Real) → Table Real → Table Real
  write_all [] t = t
  write_all (w ∷ ws) t = write_all ws (write w t)

  module _ (p : Preorder Real → Bool) (f : Preorder Real → Preorder Real)
      (keep : (r : Preorder Real) → (f r).id ≡ r.id) where
    All-update :
        (n : ℕ) (rs : List (Preorder Real))
        → All (λ (r : Preorder Real). r.id < n) rs
        → All (λ (r : Preorder Real). r.id < n) (update_where p f rs)
    All-update n [] h = tt
    All-update n (r ∷ rs) h = (ground (arith, keep r), All-update n rs h.1)

    update_keeps_ne :
        (n : ℕ) (rs : List (Preorder Real))
        → All (λ (r : Preorder Real). r.id ≢ n) rs
        → All (λ (r : Preorder Real). r.id ≢ n) (update_where p f rs)
    update_keeps_ne n [] h = tt
    update_keeps_ne n (r ∷ rs) h = (ground (arith, keep r), update_keeps_ne n rs h.1)

    Distinct-update :
        (rs : List (Preorder Real))
        → Distinct (λ (r : Preorder Real). r.id) rs
        → Distinct (λ (r : Preorder Real). r.id) (update_where p f rs)
    Distinct-update [] h = tt
    Distinct-update (r ∷ rs) h =
        let same : (if p r then f r else r).id ≡ r.id = ground (arith, keep r) in
        (rw same (update_keeps_ne r.id rs h.0), Distinct-update rs h.1)

    update-IsValid : (t : Table Real) → IsValid t → IsValid (update p f t)
    update-IsValid t v = record {
      below = All-update t.next_id t.rows v.below;
      distinct = Distinct-update t.rows v.distinct;
    }

  append_keeps_below :
      (n : ℕ) (x : Preorder Real) (rs : List (Preorder Real))
      → x.id ≡ n
      → All (λ (r : Preorder Real). r.id < n) rs
      → All (λ (r : Preorder Real). r.id < n + 1) (rs ++ x ∷ [])
  append_keeps_below n x [] e h = (omega arith, tt)
  append_keeps_below n x (r ∷ rs) e h = (omega arith, append_keeps_below n x rs e h.1)

  append_keeps_ne :
      (n : ℕ) (x : Preorder Real) (rs : List (Preorder Real))
      → x.id ≢ n
      → All (λ (r : Preorder Real). r.id ≢ n) rs
      → All (λ (r : Preorder Real). r.id ≢ n) (rs ++ x ∷ [])
  append_keeps_ne n x [] e h = (e, tt)
  append_keeps_ne n x (r ∷ rs) e h = (h.0, append_keeps_ne n x rs e h.1)

  Distinct-append :
      (n : ℕ) (x : Preorder Real) (rs : List (Preorder Real))
      → x.id ≡ n
      → All (λ (r : Preorder Real). r.id < n) rs
      → Distinct (λ (r : Preorder Real). r.id) rs
      → Distinct (λ (r : Preorder Real). r.id) (rs ++ x ∷ [])
  Distinct-append n x [] e b h = (tt, tt)
  Distinct-append n x (r ∷ rs) e b h =
      (append_keeps_ne r.id x rs (omega arith) h.0, Distinct-append n x rs e b.1 h.1)

  write-IsValid : (w : Write Real) (t : Table Real) → IsValid t → IsValid (write w t)
  unfolding write create_preorder save_sig_payload attach_signature mark_executed cancel_preorder
      set_preorder_status claim_order bump_attempt
  write-IsValid (create st c u tk p f m d n s ts k) t v = record {
    below = append_keeps_below t.next_id _ t.rows refl v.below;
    distinct = Distinct-append t.next_id _ t.rows refl v.below v.distinct;
  }
  write-IsValid (payload k p) t v = update-IsValid _ _ (λ r. refl) t v
  write-IsValid (sign k sig) t v = update-IsValid _ _ (λ r. refl) t v
  write-IsValid (executed k tx) t v = update-IsValid _ _ (λ r. refl) t v
  write-IsValid (cancel k u) t v = update-IsValid _ _ (λ r. refl) t v
  write-IsValid (status k s) t v = update-IsValid _ _ (λ r. refl) t v
  write-IsValid (claim k) t v = update-IsValid _ _ (λ r. refl) t v
  write-IsValid (bump k) t v = update-IsValid _ _ (λ r. refl) t v

  -- From a valid table on, whatever the program writes to `preorders`, in any order, no two orders share a number and the
  -- next number is a fresh one.
  pub write_all-IsValid :
      (ws : List (Write Real)) (t : Table Real) → IsValid t → IsValid (write_all ws t)
  unfolding write_all
  write_all-IsValid [] t v = v
  write_all-IsValid (w ∷ ws) t v = write_all-IsValid ws (write w t) (write-IsValid w t v)
