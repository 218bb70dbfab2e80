-- ===== src/Abi/Join.antt =====
-- Data that is a row of words is taken apart into those words.
use Prim.Native.String.{◌++◌ as ◌<>◌}
use Prim.Native.String.append
use arc_smart_orders.Prelude.{
  ℕ, zero, suc, ◌+◌, ◌*◌, ◌≤◌, ◌≡◌, refl, subst, ap, ◌∙◌, List, [], ◌∷◌, String, len, up_to, from,
  arith, length, All,
}
use arc_smart_orders.Abi.{chunks, words, join}

len-append : (s t : String) → len (s <> t) ≡ len s + len t
len-append String.[] t = rw append.nil (omega arith)
len-append (String.◌∷◌ c s) t = rw append.cons (omega (arith, len-append s t))

pub append-nil : (s : String) → s <> String.[] ≡ s
append-nil String.[] = rw append.nil refl
append-nil (String.◌∷◌ c s) = rw (append.cons, append-nil s) refl

up_to-append : (s t : String) → up_to (len s) (s <> t) ≡ s
up_to-append String.[] t = refl
up_to-append (String.◌∷◌ c s) t = rw (append.cons, up_to-append s t) refl

pub from-append : (s t : String) → from (len s) (s <> t) ≡ t
from-append String.[] t = rw append.nil refl
from-append (String.◌∷◌ c s) t = rw (append.cons, from-append s t) refl

chunks-cons :
    (fuel : ℕ) (w s : String) → len w ≡ 64 → chunks (suc fuel) (w <> s) ≡ w ∷ chunks fuel s
chunks-cons fuel String.[] s h = absurd (omega arith)
chunks-cons fuel (String.◌∷◌ c w) s h =
    let text : String.◌∷◌ c w <> s ≡ String.◌∷◌ c (w <> s) = append.cons c w s in
    let head =
      subst (λ n. up_to n (String.◌∷◌ c w <> s) ≡ String.◌∷◌ c w) h
        (up_to-append (String.◌∷◌ c w) s) in
    let tail = subst (λ n. from n (String.◌∷◌ c w <> s) ≡ s) h (from-append (String.◌∷◌ c w) s) in
    let head' = subst (λ t. up_to 64 t ≡ String.◌∷◌ c w) text head in
    let tail' = subst (λ t. from 64 t ≡ s) text tail in
    ap (chunks (suc fuel)) text ∙ (λ i. head' i ∷ chunks fuel (tail' i))

chunks-join :
    (fuel : ℕ) (ws : List String)
    → All (λ w. len w ≡ 64) ws
    → length ws ≤ fuel
    → chunks fuel (join ws) ≡ ws
chunks-join zero [] h k = refl
chunks-join zero (w ∷ ws) h k = absurd (omega arith)
chunks-join (suc fuel) [] h k = refl
chunks-join (suc fuel) (w ∷ ws) (e, h) k =
    rw (chunks-cons fuel w (join ws) e, chunks-join fuel ws h (omega arith)) refl

len-join : (ws : List String) → All (λ w. len w ≡ 64) ws → len (join ws) ≡ 64 * length ws
len-join [] h = refl
len-join (w ∷ ws) (e, h) = omega (arith, len-append w (join ws), len-join ws h)

pub words-join : (ws : List String) → All (λ w. len w ≡ 64) ws → words ("0x" <> join ws) ≡ ws
unfolding words
words-join ws h =
    rw (append.cons, append.cons, append.nil)
      (chunks-join (len (join ws)) ws h (omega (arith, len-join ws h)))
