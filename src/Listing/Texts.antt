-- ===== src/Listing/Texts.antt =====
-- The order of texts is a strict total order.
use Prim.Native.Char.{code}
use Prim.Native.Nat.{Ordering, compare as compare_numbers}
use Prim.Native.String.compare.{nil-nil, nil-cons, cons-nil, cons-cons}
use Prim.Native.String.{compare, then as then_order}
use text.Mathlib.TextEquality.{Char-path}
use ai_agents.Listing.{text_lt}
use ai_agents.Prelude.{
  eq_iff, ◌==◌, String, Bool, true, false, ◌||◌, ◌&&◌, ltb, eqb, ◌≡◌, refl, sym, ap, ◌∙◌, arith,
  not,
}

-- the lexicographic order
abbrev lt : String → String → Bool
lt String.[] String.[] = false
lt String.[] (String.◌∷◌ d t) = true
lt (String.◌∷◌ c s) String.[] = false
lt (String.◌∷◌ c s) (String.◌∷◌ d t) = ltb (code c) (code d) || (eqb (code c) (code d) && lt s t)

abbrev is_lt : Ordering → Bool
is_lt o = elim o [ Ordering.lt ↦ true | _ ↦ false ]

abbrev is_eq : Ordering → Bool
is_eq o = elim o [ Ordering.eq ↦ true | _ ↦ false ]

is_lt-then : (o r : Ordering) → is_lt (then_order o r) ≡ (is_lt o || (is_eq o && is_lt r))
is_lt-then Ordering.lt r = refl
is_lt-then Ordering.eq r = refl
is_lt-then Ordering.gt r = refl

text_lt-lt : (s t : String) → text_lt s t ≡ lt s t
text_lt-lt String.[] String.[] = ap is_lt nil-nil
text_lt-lt String.[] (String.◌∷◌ d t) = ap is_lt (nil-cons d t)
text_lt-lt (String.◌∷◌ c s) String.[] = ap is_lt (cons-nil c s)
text_lt-lt (String.◌∷◌ c s) (String.◌∷◌ d t) =
    ap is_lt (cons-cons c d s t)
    ∙ is_lt-then (compare_numbers (code c) (code d)) (compare s t)
    ∙ ap (λ b. ltb (code c) (code d) || (eqb (code c) (code d) && b)) (text_lt-lt s t)

lt_asymm : (s t : String) → lt s t ≡ true → lt t s ≡ false
lt_asymm String.[] String.[] h = refl
lt_asymm String.[] (String.◌∷◌ d t) h = refl
lt_asymm (String.◌∷◌ c s) String.[] h = ground arith
lt_asymm (String.◌∷◌ c s) (String.◌∷◌ d t) h = ground (arith, lt_asymm s t)

lt_antisymm : (s t : String) → lt s t ≡ false → lt t s ≡ false → s ≡ t
lt_antisymm String.[] String.[] h k = refl
lt_antisymm String.[] (String.◌∷◌ d t) h k = ground arith
lt_antisymm (String.◌∷◌ c s) String.[] h k = ground arith
lt_antisymm (String.◌∷◌ c s) (String.◌∷◌ d t) h k = λ i.
    String.◌∷◌ (Char-path c d (ground (arith, h, k)) i)
      (lt_antisymm s t (ground (arith, h, k)) (ground (arith, h, k)) i)

lt_trans : (s t u : String) → lt s t ≡ true → lt t u ≡ true → lt s u ≡ true
lt_trans String.[] t String.[] h k = sym (lt_asymm String.[] t h) ∙ k
lt_trans String.[] t (String.◌∷◌ e u) h k = refl
lt_trans (String.◌∷◌ c s) String.[] u h k = ground arith
lt_trans (String.◌∷◌ c s) (String.◌∷◌ d t) String.[] h k = ground arith
lt_trans (String.◌∷◌ c s) (String.◌∷◌ d t) (String.◌∷◌ e u) h k = ground (arith, lt_trans s t u)

pub text_lt_flip : (s t : String) → (s == t) ≡ false → text_lt s t ≡ not (text_lt t s)
text_lt_flip s t e =
    text_lt-lt s t
    ∙ ground (arith, eq_iff s t, lt_asymm s t, lt_asymm t s, lt_antisymm s t)
    ∙ ap not (sym (text_lt-lt t s))

pub text_lt_trans : (s t u : String) → text_lt s t ≡ true → text_lt t u ≡ true → text_lt s u ≡ true
text_lt_trans s t u h k =
    text_lt-lt s u ∙ lt_trans s t u (sym (text_lt-lt s t) ∙ h) (sym (text_lt-lt t u) ∙ k)
