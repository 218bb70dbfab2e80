-- ===== src/Throttle/Pace.antt =====
-- Messages keep the two gaps.
use arc_smart_orders.Prelude.{
  ℕ, ◌+◌, ◌≤◌, ◌≡◌, refl, sym, subst, false, Bool-cases, inl, inr, Option, none, some, List, [],
  ◌∷◌, String, str_eq, eq_iff, eq_refl, All, arith, if◌then◌else◌,
}
use arc_smart_orders.Alerts.Spacing.{AreApart}
use arc_smart_orders.Throttle.{Throttle, lookup, assign, left, larger, wait}

pub record Call : Type 0 where
  pub chat_id : String
  pub now : ℕ
  pub woken : ℕ → ℕ

-- A sleep takes the time that was asked for, or longer.
abbrev pub SleepsEnough : Call → Type 0
SleepsEnough c = (w : ℕ) → c.now + w ≤ c.woken w

-- The times at which the calls return.
abbrev pub times : List Call → Throttle → List ℕ
times [] s = []
times (c ∷ calls) s = let (at, s') = wait c.chat_id c.now c.woken s in at ∷ times calls s'

-- The same, of the calls for one chat.
abbrev pub times_of : String → List Call → Throttle → List ℕ
times_of chat [] s = []
times_of chat (c ∷ calls) s =
    let (at, s') = wait c.chat_id c.now c.woken s in
    let rest = times_of chat calls s' in if str_eq c.chat_id chat then at ∷ rest else rest

Follows : ℕ → Option ℕ → List ℕ → Type 0
Follows gap none ts = AreApart gap ts
Follows gap (some t) ts = AreApart gap (t ∷ ts)

lookup-assign_self :
    (chat : String) (t : ℕ) (m : List (String × ℕ)) → lookup chat (assign chat t m) ≡ some t
lookup-assign_self chat t [] = rw (eq_refl chat) refl
lookup-assign_self chat t ((c, u) ∷ m) = elim (Bool-cases (str_eq c chat)) [
  | inl e ↦ rw (e, e) refl
  | inr e ↦ rw (e, e) (lookup-assign_self chat t m)
]

lookup-assign_other :
    (chat c : String) (t : ℕ) (m : List (String × ℕ))
    → str_eq c chat ≡ false
    → lookup chat (assign c t m) ≡ lookup chat m
lookup-assign_other chat c t [] e = rw e refl
lookup-assign_other chat c t ((d, u) ∷ m) e = elim (Bool-cases (str_eq d c)) [
  | inl f ↦ let same = (eq_iff d c).0 f in rw (f, same, e) refl
  | inr f ↦ elim (Bool-cases (str_eq d chat)) [
    | inl g ↦ rw (f, g) refl
    | inr g ↦ rw (f, g) (lookup-assign_other chat c t m e)
  ]
]

-- A call returns the gap after the last one, or later.
wait-global :
    (c : Call) (s : Throttle) (last : ℕ)
    → SleepsEnough c
    → s.last_global ≡ some last
    → last + s.gmin ≤ (wait c.chat_id c.now c.woken s).0
unfolding wait
wait-global c s last enough e =
    let w =
      larger (left s.last_global s.gmin c.now) (left (lookup c.chat_id s.last_chat) s.cmin c.now) in
    ground (arith, enough w)

wait-chat :
    (c : Call) (s : Throttle) (last : ℕ)
    → SleepsEnough c
    → lookup c.chat_id s.last_chat ≡ some last
    → last + s.cmin ≤ (wait c.chat_id c.now c.woken s).0
unfolding wait
wait-chat c s last enough e =
    let w =
      larger (left s.last_global s.gmin c.now) (left (lookup c.chat_id s.last_chat) s.cmin c.now) in
    ground (arith, enough w)

Follows-nil : (gap : ℕ) (o : Option ℕ) → Follows gap o []
unfolding Follows
Follows-nil gap none = tt
Follows-nil gap (some t) = tt

Follows-cons :
    (gap : ℕ) (o : Option ℕ) (at : ℕ) (ts : List ℕ)
    → ((last : ℕ) → o ≡ some last → last + gap ≤ at)
    → Follows gap (some at) ts
    → Follows gap o (at ∷ ts)
unfolding Follows
Follows-cons gap none at ts late h = h
Follows-cons gap (some last) at ts late h = (late last refl, h)

times-Follows :
    (calls : List Call) (s : Throttle)
    → All SleepsEnough calls
    → Follows s.gmin s.last_global (times calls s)
unfolding wait
times-Follows [] s h = Follows-nil s.gmin s.last_global
times-Follows (c ∷ calls) s (enough, h) =
    let (at, s') = wait c.chat_id c.now c.woken s in
    Follows-cons s.gmin s.last_global at (times calls s') (λ last e. wait-global c s last enough e)
      (times-Follows calls s' h)

-- What a call leaves for the chats.
last_chat-wait_self :
    (c : Call) (s : Throttle)
    → lookup c.chat_id (wait c.chat_id c.now c.woken s).1.last_chat
      ≡ some (wait c.chat_id c.now c.woken s).0
unfolding wait
last_chat-wait_self c s = lookup-assign_self c.chat_id _ s.last_chat

last_chat-wait_other :
    (chat : String) (c : Call) (s : Throttle)
    → str_eq c.chat_id chat ≡ false
    → lookup chat (wait c.chat_id c.now c.woken s).1.last_chat ≡ lookup chat s.last_chat
unfolding wait
last_chat-wait_other chat c s e = lookup-assign_other chat c.chat_id _ s.last_chat e

cmin-wait : (c : Call) (s : Throttle) → (wait c.chat_id c.now c.woken s).1.cmin ≡ s.cmin
unfolding wait
cmin-wait c s = refl

times_of-Follows :
    (chat : String) (calls : List Call) (s : Throttle)
    → All SleepsEnough calls
    → Follows s.cmin (lookup chat s.last_chat) (times_of chat calls s)
times_of-Follows chat [] s h = Follows-nil s.cmin (lookup chat s.last_chat)
times_of-Follows chat (c ∷ calls) s (enough, h) =
    let at = (wait c.chat_id c.now c.woken s).0 in
    let s' = (wait c.chat_id c.now c.woken s).1 in
    let ih =
      subst (λ gap. Follows gap (lookup chat s'.last_chat) (times_of chat calls s')) (cmin-wait c s)
        (times_of-Follows chat calls s' h) in
    elim (Bool-cases (str_eq c.chat_id chat)) [
      | inr e ↦ rw e (
          subst (λ o. Follows s.cmin o (times_of chat calls s')) (last_chat-wait_other chat c s e)
            ih)
      | inl e ↦
          let same : c.chat_id ≡ chat = (eq_iff c.chat_id chat).0 e in
          let now = subst (λ k. lookup k s'.last_chat ≡ some at) same (last_chat-wait_self c s) in
          rw e (
            Follows-cons s.cmin (lookup chat s.last_chat) at (times_of chat calls s')
              (λ last there.
                wait-chat c s last enough
                  (subst (λ k. lookup k s.last_chat ≡ some last) (sym same) there))
              (subst (λ o. Follows s.cmin o (times_of chat calls s')) now ih))
    ]

-- From the start, whatever is sent to whom and whenever, if no sleep is shorter than was asked for:
-- any two calls in a row return at times that are the gap for all chats apart, or more, and any two in
-- a row for one chat are its gap apart, or more.
pub wait-AreApart :
    (gmin cmin : ℕ) (chat : String) (calls : List Call)
    → All SleepsEnough calls
    → let s : Throttle = record { gmin = gmin; cmin = cmin; last_global = none; last_chat = [] } in
      AreApart gmin (times calls s) × AreApart cmin (times_of chat calls s)
unfolding Follows
wait-AreApart gmin cmin chat calls h =
    let s : Throttle = record { gmin = gmin; cmin = cmin; last_global = none; last_chat = [] } in
    (times-Follows calls s h, times_of-Follows chat calls s h)
