-- ===== src/Tokens/Bumps.antt =====
-- Fields of a hash after a row of HINCRBY commands.
use mathlib.Core.Path.{subst}
use ai_agents.Prelude.{
  [], ◌∷◌, ◌++◌, List, String, ℤ, pos, pos_part, neg_part, ◌+ℤ◌, ◌+◌, ◌^◌, ◌<◌, ◌≤◌, Option, none,
  some, Bool, true, false, not, ◌&&◌, ◌==◌, ◌≡◌, refl, ap, ◌∙◌, arith, eq_refl, eq_iff,
}
use ai_agents.Redis.Commands.{Fields, field, put_field}
use ai_agents.Tokens.Counters.{parsed_or_zero, parse_field_int}

field-put_field : (k v : String) (m : Fields) → field k (put_field k v m) ≡ some v
field-put_field k v [] = rw (eq_refl k) refl
field-put_field k v ((j, w) ∷ m) = ground (arith, eq_refl k, field-put_field k v m)

field-put_field_other :
    (f k v : String) (m : Fields) → (k == f) ≡ false → field f (put_field k v m) ≡ field f m
field-put_field_other f k v [] h = rw h refl
field-put_field_other f k v ((j, w) ∷ m) h =
    ground (arith, eq_iff j k, eq_iff j f, eq_iff k f, field-put_field_other f k v m h)

abbrev pub bumps : (ℤ → Option String → String) → List (String × ℤ) → Fields → Fields
bumps next_text [] m = m
bumps next_text ((f, n) ∷ l) m = bumps next_text l (put_field f (next_text n (field f m)) m)

abbrev pub lacks : String → List (String × ℤ) → Bool
lacks f [] = true
lacks f ((g, n) ∷ l) = not (g == f) && lacks f l

module _ (next_text : ℤ → Option String → String) where
  field-bumps_other :
      (f : String) (l : List (String × ℤ)) (m : Fields)
      → lacks f l ≡ true
      → field f (bumps next_text l m) ≡ field f m
  field-bumps_other f [] m h = refl
  field-bumps_other f ((g, n) ∷ l) m h =
      field-bumps_other f l (put_field g (next_text n (field g m)) m) (ground (arith, h))
      ∙ field-put_field_other f g (next_text n (field g m)) m (ground (arith, h))

  field-bumps :
      (f : String) (n : ℤ) (before after : List (String × ℤ)) (m : Fields)
      → lacks f before ≡ true
      → lacks f after ≡ true
      → field f (bumps next_text (before ++ (f, n) ∷ after) m) ≡ some (next_text n (field f m))
  field-bumps f n [] after m b a =
      field-bumps_other f after (put_field f (next_text n (field f m)) m) a
      ∙ field-put_field f (next_text n (field f m)) m
  field-bumps f n ((g, k) ∷ before) after m b a =
      field-bumps f n before after (put_field g (next_text k (field g m)) m) (ground (arith, b)) a
      ∙ ap (λ o. some (next_text n o))
          (field-put_field_other f g (next_text k (field g m)) m (ground (arith, b)))

-- `a + n` is an int64
abbrev pub Fits : ℤ → ℤ → Type 0
Fits a n =
    (pos_part a + pos_part n < 2 ^ 63 + (neg_part a + neg_part n))
    × (neg_part a + neg_part n ≤ 2 ^ 63 + (pos_part a + pos_part n))

-- HINCRBY and ParseInt read and write the same numbers; a missing field counts as 0.
pub record Numbers (next_text : ℤ → Option String → String) (parse_int : String → ℤ) : Type 0 where
  pub number : String → Option ℤ
  pub parsed : (v : String) (a : ℤ) → number v ≡ some a → parse_int v ≡ a
  pub first : (n : ℤ) → Fits (pos 0) n → number (next_text n none) ≡ some (pos 0 +ℤ n)
  pub next :
      (v : String) (a n : ℤ)
      → number v ≡ some a
      → Fits a n
      → number (next_text n (some v)) ≡ some (a +ℤ n)

module _ {next_text : ℤ → Option String → String} {parse_int : String → ℤ}
    (num : Numbers next_text parse_int) where
  abbrev value : Option String → Option ℤ
  value none = some (pos 0)
  value (some v) = num.number v

  abbrev or_zero : Option ℤ → ℤ
  or_zero none = pos 0
  or_zero (some n) = n

  number-next :
      (o : Option String) (a n : ℤ)
      → value o ≡ some a
      → Fits a n
      → num.number (next_text n o) ≡ some (a +ℤ n)
  number-next none a n e h =
      subst (λ b. Fits b n → num.number (next_text n none) ≡ some (b +ℤ n)) (ap or_zero e)
        (num.first n) h
  number-next (some v) a n e h = num.next v a n e h

  -- the field is missing or holds a number, and there is room for `n` more
  abbrev pub HasRoom : Fields → String → ℤ → Type 0
  HasRoom m f n =
      (value (field f m) ≡ some (parse_field_int parse_int m f))
      × Fits (parse_field_int parse_int m f) n

  pub parse_field_int-bumps :
      (f : String) (n : ℤ) (before after : List (String × ℤ)) (m : Fields)
      → lacks f before ≡ true
      → lacks f after ≡ true
      → HasRoom m f n
      → parse_field_int parse_int (bumps next_text (before ++ (f, n) ∷ after) m) f
        ≡ parse_field_int parse_int m f +ℤ n
  parse_field_int-bumps f n before after m b a room =
      ap (parsed_or_zero parse_int) (field-bumps next_text f n before after m b a)
      ∙ num.parsed (next_text n (field f m)) _ (number-next (field f m) _ n room.0 room.1)
