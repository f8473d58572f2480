-- ===== src/Common/Text.antt =====
-- Texts are compared with Go's `==` and `<` on strings, which compare bytes. The native `compare`
-- orders texts the same way.
use Prim.Native.Nat.{ℕ, ◌<◌, Ordering, compare as compare_ℕ}
use Prim.Native.Char.{code}
use Prim.Native.String.compare
use Prim.Native.String.{String, compare, then}
use mathlib.Core.Path.{◌≡◌, refl, sym, ◌∙◌, ap, ap₂}
use mathlib.Core.Logic.{◌↔◌, ◌⊎◌, inl, inr}
use mathlib.Core.Bool.{Bool, true, false}
use native.Mathlib.Omega.{arith}
use text.Mathlib.Text.{is_lt, is_eq}
use text.Mathlib.Text.{◌==◌ as text_eq}
use text.Mathlib.TextEquality.{eq_iff}
use text.Mathlib.TextPositions.{compare_refl, eq_refl}

infix 50 ◌==◌
abbrev pub ◌==◌ : String → String → Bool
s == t = text_eq s t

pub ==_iff : (s t : String) → ((s == t) ≡ true) ↔ (s ≡ t)
==_iff s t = eq_iff s t

pub ==_refl : (s : String) → (s == s) ≡ true
==_refl s = eq_refl s

-- Go's `s < t`.
abbrev pub str_ltb : String → String → Bool
str_ltb s t = is_lt (compare s t)

abbrev swap : Ordering → Ordering
swap Ordering.lt = Ordering.gt
swap Ordering.eq = Ordering.eq
swap Ordering.gt = Ordering.lt

swap_ℕ : (m n : ℕ) → compare_ℕ n m ≡ swap (compare_ℕ m n)
swap_ℕ m n = ground arith

swap-then : (o p : Ordering) → then (swap o) (swap p) ≡ swap (then o p)
swap-then Ordering.lt p = refl
swap-then Ordering.eq p = refl
swap-then Ordering.gt p = refl

swap-compare : (s t : String) → compare t s ≡ swap (compare s t)
swap-compare String.[] String.[] = compare_refl String.[] ∙ sym (ap swap (compare_refl String.[]))
swap-compare String.[] (String.◌∷◌ d t) =
    compare.cons-nil d t ∙ sym (ap swap (compare.nil-cons d t))
swap-compare (String.◌∷◌ c s) String.[] =
    compare.nil-cons c s ∙ sym (ap swap (compare.cons-nil c s))
swap-compare (String.◌∷◌ c s) (String.◌∷◌ d t) =
    compare.cons-cons d c t s
    ∙ ap₂ then (swap_ℕ (code c) (code d)) (swap-compare s t)
    ∙ swap-then (compare_ℕ (code c) (code d)) (compare s t)
    ∙ sym (ap swap (compare.cons-cons c d s t))

pub str_ltb_irrefl : (s : String) → str_ltb s s ≡ false
str_ltb_irrefl s = ap is_lt (compare_refl s)

lt_of_is_lt : (o : Ordering) → is_lt o ≡ true → o ≡ Ordering.lt
lt_of_is_lt Ordering.lt h = refl
lt_of_is_lt Ordering.eq h = cc
lt_of_is_lt Ordering.gt h = cc

gt_not_lt : Ordering.gt ≡ Ordering.lt → ⊥
gt_not_lt h = cc

then-lt :
    (m n : ℕ) (p : Ordering)
    → then (compare_ℕ m n) p ≡ Ordering.lt
    → (m < n) ⊎ ((m ≡ n) × (p ≡ Ordering.lt))
then-lt m n p h = ground arith

then_of_lt :
    (m n : ℕ) (p : Ordering)
    → (m < n) ⊎ ((m ≡ n) × (p ≡ Ordering.lt))
    → then (compare_ℕ m n) p ≡ Ordering.lt
then_of_lt m n p h = ground arith

chain :
    {m n k : ℕ} {p q r : Ordering}
    → (p ≡ Ordering.lt → q ≡ Ordering.lt → r ≡ Ordering.lt)
    → (m < n) ⊎ ((m ≡ n) × (p ≡ Ordering.lt))
    → (n < k) ⊎ ((n ≡ k) × (q ≡ Ordering.lt))
    → (m < k) ⊎ ((m ≡ k) × (r ≡ Ordering.lt))
chain f (inl a) (inl b) = inl (omega arith)
chain f (inl a) (inr (b, _)) = inl (omega arith)
chain f (inr (a, _)) (inl b) = inl (omega arith)
chain f (inr (a, p)) (inr (b, q)) = inr (a ∙ b, f p q)

compare_trans :
    (s t u : String)
    → compare s t ≡ Ordering.lt
    → compare t u ≡ Ordering.lt
    → compare s u ≡ Ordering.lt
compare_trans s String.[] String.[] h k = h
compare_trans String.[] String.[] (String.◌∷◌ e u) h k = k
compare_trans (String.◌∷◌ c s) String.[] (String.◌∷◌ e u) h k =
    absurd (gt_not_lt (sym (compare.cons-nil c s) ∙ h))
compare_trans s (String.◌∷◌ d t) String.[] h k = absurd (gt_not_lt (sym (compare.cons-nil d t) ∙ k))
compare_trans String.[] (String.◌∷◌ d t) (String.◌∷◌ e u) h k = compare.nil-cons e u
compare_trans (String.◌∷◌ c s) (String.◌∷◌ d t) (String.◌∷◌ e u) h k =
    compare.cons-cons c e s u
    ∙ then_of_lt (code c) (code e) (compare s u) (
        chain (compare_trans s t u)
          (then-lt (code c) (code d) (compare s t) (sym (compare.cons-cons c d s t) ∙ h))
          (then-lt (code d) (code e) (compare t u) (sym (compare.cons-cons d e t u) ∙ k)))

pub str_ltb_trans : (s t u : String) → str_ltb s t ≡ true → str_ltb t u ≡ true → str_ltb s u ≡ true
str_ltb_trans s t u h k =
    ap is_lt (compare_trans s t u (lt_of_is_lt (compare s t) h) (lt_of_is_lt (compare t u) k))

eq_of_not-lt : (o : Ordering) → is_lt o ≡ false → is_lt (swap o) ≡ false → is_eq o ≡ true
eq_of_not-lt Ordering.lt h k = cc
eq_of_not-lt Ordering.eq h k = refl
eq_of_not-lt Ordering.gt h k = cc

-- Two texts of which neither is the smaller are equal.
pub str_ltb_total : (s t : String) → str_ltb s t ≡ false → str_ltb t s ≡ false → s ≡ t
str_ltb_total s t h k =
    (eq_iff s t).0 (eq_of_not-lt (compare s t) h (ap is_lt (sym (swap-compare s t)) ∙ k))

-- Of two different texts one is the smaller, and only one.
pub str_ltb_asymm : (s t : String) → str_ltb s t ≡ true → str_ltb t s ≡ false
str_ltb_asymm s t h = ap is_lt (swap-compare s t ∙ ap swap (lt_of_is_lt (compare s t) h))
