-- ===== src/Prelude/Text.antt =====
-- Walks over texts. A `Char` is read by its code, so a test is a test on numbers.
use Prim.Native.Nat.{ℕ}
use Prim.Native.Char.{code}
use Prim.Native.String.{String, ◌++◌ as append}
use Prim.Native.String.append.{nil as nil_text, cons as cons_text}
use mathlib.Core.Path.{◌≡◌, sym, ap, ◌∙◌}
use mathlib.Core.Bool.{Bool, false, ◌||◌}
use mathlib.Core.List.{List, [], ◌∷◌}
use ai_agents.Prelude.Tests.{eqb}

-- The code points of a text: its bytes, if it is ASCII.
abbrev pub codes : String → List ℕ
codes String.[] = []
codes (String.◌∷◌ c s) = code c ∷ codes s

abbrev pub mem_code : ℕ → List ℕ → Bool
mem_code c [] = false
mem_code c (d ∷ ds) = eqb c d || mem_code c ds

-- `strings.ContainsAny`, the characters given by their codes
abbrev pub contains_any : String → List ℕ → Bool
contains_any String.[] chars = false
contains_any (String.◌∷◌ c s) chars = mem_code (code c) chars || contains_any s chars

-- `+` on texts
infixr 65 ◌+s◌
abbrev pub ◌+s◌ : String → String → String
a +s b = append a b

pub text_assoc : (a b c : String) → (a +s b) +s c ≡ a +s (b +s c)
text_assoc String.[] b c = ap (λ t. t +s c) (nil_text b) ∙ sym (nil_text (b +s c))
text_assoc (String.◌∷◌ x a) b c =
    ap (λ t. t +s c) (cons_text x a b)
    ∙ cons_text x (a +s b) c
    ∙ ap (String.◌∷◌ x) (text_assoc a b c)
    ∙ sym (cons_text x a (b +s c))
