-- ===== src/Base/TextOrder.antt =====
-- The order of texts is a strict linear order.
use Prim.Native.Nat.{ℕ, compare as compare_ℕ, Ordering}
use Prim.Native.Char.{code}
use Prim.Native.String
use Prim.Native.String.compare
use Prim.Native.String.{String, then}
use mathlib.Core.Path.{◌≡◌, refl, sym, ◌∙◌, ap}
use mathlib.Core.Bool.{true, false}
use mathlib.Core.Logic.{◌≢◌}
use native.Mathlib.Omega.{arith}
use text.Mathlib.TextEquality.{path_by_compare}
use text.Mathlib.TextPositions.{compare_refl}
use self_organizing_multi_ag.Base.Lists.{text_lt}

-- One step of the comparison, on the numbers of the first characters.
abbrev step : ℕ → ℕ → Ordering → Ordering
step m n o = then (compare_ℕ m n) o

flipped : Ordering → Ordering
flipped Ordering.lt = Ordering.gt
flipped Ordering.eq = Ordering.eq
flipped Ordering.gt = Ordering.lt

step-flipped : (m n : ℕ) (o : Ordering) → step m n (flipped o) ≡ flipped (step n m o)
unfolding flipped
step-flipped m n o = ground arith

-- A step answers `lt` through the numbers, or through the rest where they are equal.
step_trans :
    (l m n : ℕ) (o p q : Ordering)
    → (o ≡ Ordering.lt → p ≡ Ordering.lt → q ≡ Ordering.lt)
    → step l m o ≡ Ordering.lt
    → step m n p ≡ Ordering.lt
    → step l n q ≡ Ordering.lt
step_trans l m n o p q h a b = ground arith

compare-flipped : (s t : String) → String.compare s t ≡ flipped (String.compare t s)
unfolding flipped
compare-flipped String.[] String.[] = rw compare.nil-nil refl
compare-flipped String.[] (String.◌∷◌ d t) = rw (compare.nil-cons d t, compare.cons-nil d t) refl
compare-flipped (String.◌∷◌ c s) String.[] = rw (compare.nil-cons c s, compare.cons-nil c s) refl
compare-flipped (String.◌∷◌ c s) (String.◌∷◌ d t) =
    compare.cons-cons c d s t
    ∙ ap (step (code c) (code d)) (compare-flipped s t)
    ∙ step-flipped (code c) (code d) (String.compare t s)
    ∙ ap flipped (sym (compare.cons-cons d c t s))

nothing_before_nil : (s : String) → String.compare s "" ≢ Ordering.lt
nothing_before_nil String.[] h = cc (compare.nil-nil)
nothing_before_nil (String.◌∷◌ c s) h = cc (compare.cons-nil c s)

compare_trans :
    (s t u : String)
    → String.compare s t ≡ Ordering.lt
    → String.compare t u ≡ Ordering.lt
    → String.compare s u ≡ Ordering.lt
compare_trans s t String.[] h k = absurd (nothing_before_nil t k)
compare_trans s String.[] (String.◌∷◌ e u) h k = absurd (nothing_before_nil s h)
compare_trans String.[] (String.◌∷◌ d t) (String.◌∷◌ e u) h k = compare.nil-cons e u
compare_trans (String.◌∷◌ c s) (String.◌∷◌ d t) (String.◌∷◌ e u) h k =
    compare.cons-cons c e s u
    ∙ step_trans (code c) (code d) (code e) (String.compare s t) (String.compare t u)
        (String.compare s u) (compare_trans s t u) (sym (compare.cons-cons c d s t) ∙ h)
        (sym (compare.cons-cons d e t u) ∙ k)

pub text_lt_trans : (s t u : String) → text_lt s t ≡ true → text_lt t u ≡ true → text_lt s u ≡ true
text_lt_trans s t u h k = ground (arith, compare_trans s t u)

pub text_lt_irrefl : (s : String) → text_lt s s ≡ false
text_lt_irrefl s = ground (arith, compare_refl s)

-- Two texts that neither precedes are the same text.
pub text_lt-connex : (s t : String) → text_lt s t ≡ false → text_lt t s ≡ false → s ≡ t
unfolding flipped
text_lt-connex s t h k = path_by_compare s t (ground (arith, compare-flipped s t))
