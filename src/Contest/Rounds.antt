-- ===== src/Contest/Rounds.antt =====
-- The rounds divide time.
use native.Mathlib.Nat.{div-mul-le_self, lt-div-mul-add, div-eq_of_lt-le, le-div_iff_mul-le}
use arc_smart_orders.Prelude.{ℕ, ◌+◌, ◌*◌, ◌-◌, ◌/◌, ◌<◌, ◌≤◌, ◌≡◌, refl, sym, ap, ◌∙◌, arith}
use arc_smart_orders.Prelude.Int.{pos, ◌-ℤ◌}
use arc_smart_orders.Contest.{round_window, previous_round, round_index}

succ_mul : (k n : ℕ) → (k + 1) * n ≡ k * n + n
succ_mul k n = grind arith

pos-sub : (a b : ℕ) → b ≤ a → pos a -ℤ pos b ≡ pos (a - b)
unfolding ◌-ℤ◌
pos-sub a b h = ground arith

-- With rounds of an hour or more, every moment lies in its round, which lasts the given hours and has the seconds left that it
-- says.
pub round_window_holds :
    (ts hours : ℕ)
    → 0 < hours
    → let w = round_window ts hours in
      (w.start ≤ ts)
      × (ts < w.end)
      × (w.end ≡ w.start + hours * 3600)
      × (ts + w.seconds_left ≡ w.end)
      × (w.start ≡ round_index ts hours * (hours * 3600))
unfolding round_window round_index
round_window_holds ts hours h =
    let low = div-mul-le_self ts (hours * 3600) in
    let secs_pos : 0 < hours * 3600 = omega (arith, h) in
    let high = lt-div-mul-add {a = ts} {b = hours * 3600} secs_pos in
    (low, high, refl, omega (arith, high, low), refl)

-- With rounds of an hour or more, two moments are in the same round if one of them lies in the round of the other: rounds do not
-- overlap.
pub round_window_unique :
    (ts s hours : ℕ)
    → 0 < hours
    → (round_window ts hours).start ≤ s
    → s < (round_window ts hours).end
    → (round_window s hours).id ≡ (round_window ts hours).id
unfolding round_window
round_window_unique ts s hours h low high =
    let secs = hours * 3600 in
    let k = ts / secs in
    let below : s < (k + 1) * secs = rw (succ_mul k secs) high in
    ap (λ n. n * secs) (div-eq_of_lt-le {k = k} secs {m = s} low below)

-- With rounds of an hour or more, and after the first of them, the round before the current one is the round of the moment one round
-- earlier, and ends where the current one begins.
pub previous_round-window :
    (now hours : ℕ)
    → 0 < hours
    → hours * 3600 ≤ now
    → let before = round_window (now - hours * 3600) hours in
      let last = previous_round now hours in
      (last.id ≡ pos before.id)
      × (last.end ≡ before.end)
      × (last.end ≡ (round_window now hours).start)
unfolding previous_round round_window ◌-ℤ◌
previous_round-window now hours h passed =
    let secs = hours * 3600 in
    let k = now / secs - 1 in
    let secs_pos : 0 < secs = omega (arith, h) in
    let some_round : 1 ≤ now / secs = (le-div_iff_mul-le secs_pos).1 (omega (arith, passed)) in
    let split : now / secs ≡ k + 1 = omega (arith, some_round) in
    let low = div-mul-le_self now secs in
    let high = lt-div-mul-add {a = now} {b = secs} secs_pos in
    let whole : now / secs * secs ≡ k * secs + secs = ap (λ n. n * secs) split ∙ succ_mul k secs in
    let earlier : (now - secs) / secs ≡ k =
      div-eq_of_lt-le {k = k} secs {m = now - secs} (omega (arith, whole, low))
        (rw (succ_mul k secs) (omega (arith, whole, high, passed))) in
    let start = now / secs * secs in
    let length = start + secs - start in
    let back : start - length ≡ (now - secs) / secs * secs =
      omega (arith, whole) ∙ ap (λ n. n * secs) (sym earlier) in
    (
      pos-sub start length (omega (arith, whole)) ∙ ap pos back,
      whole ∙ ap (λ n. n * secs + secs) (sym earlier),
      refl,
    )
