-- ===== src/Tokens/Normal.antt =====
-- Lines, joined and split again.
use Prim.Native.Char.{Char, code}
use Prim.Native.String.append.{nil as nil_text, cons as cons_text}
use ai_agents.Prelude.{
  ◌+s◌, text_assoc, ◌&&◌, [], ◌∷◌, ◌++◌, List, String, false, not, map, filter, eqb, ◌≡◌, refl, ap,
  ◌∙◌, Bool-cases, inl, inr, filter-append,
}
use mathlib.Core.List.{map-append}
use ai_agents.Tokens.Lines.{
  join_content_lines, is_empty, in_front, split_newline, trim_return, split_generic_lines,
  join_rest,
}

abbrev newline : Char
newline = Char.char 10 tt

in_front-append :
    (c : Char) (x : String) (xs ys : List String)
    → in_front c ((x ∷ xs) ++ ys) ≡ in_front c (x ∷ xs) ++ ys
in_front-append c x xs ys = refl

split_newline-cons : (s : String) → (x : String) × (xs : List String) × (split_newline s ≡ x ∷ xs)
split_newline-cons String.[] = (String.[], [], refl)
split_newline-cons (String.◌∷◌ c s) = elim (Bool-cases (eqb (code c) 10)) [
  | inl e ↦ (String.[], split_newline s, rw e refl)
  | inr e ↦ let (x, xs, p) = split_newline-cons s in (String.◌∷◌ c x, xs, rw (e, p) refl)
]

split_newline-append :
    (a b : String) → split_newline (a +s "\n" +s b) ≡ split_newline a ++ split_newline b
split_newline-append String.[] b =
    ap split_newline
      (nil_text ("\n" +s b) ∙ cons_text newline "" b ∙ ap (String.◌∷◌ newline) (nil_text b))
split_newline-append (String.◌∷◌ c a) b = elim (Bool-cases (eqb (code c) 10)) [
  | inl e ↦ rw (cons_text c a ("\n" +s b), e) (ap (◌∷◌ String.[]) (split_newline-append a b))
  | inr e ↦
      let (x, xs, p) = split_newline-cons a in
      rw (cons_text c a ("\n" +s b), e) (ap (in_front c) (split_newline-append a b) ∙ rw p refl)
]

-- two texts, one after the other, have the lines of both
pub split_generic_lines-append :
    (a b : String)
    → split_generic_lines (a +s "\n" +s b) ≡ split_generic_lines a ++ split_generic_lines b
unfolding split_generic_lines
split_generic_lines-append a b =
    ap (λ xs. filter (λ line. not (is_empty line)) (map trim_return xs)) (split_newline-append a b)
    ∙ ap (filter (λ line. not (is_empty line)))
        (map-append trim_return (split_newline a) (split_newline b))
    ∙ filter-append (λ line. not (is_empty line)) (map trim_return (split_newline a))
        (map trim_return (split_newline b))

-- no newline in it, and no return at its end
record IsLine (line : String) : Type 0 where
  one_line : split_newline line ≡ line ∷ []
  trimmed : trim_return line ≡ line

abbrev AllLines : List String → Type 0
AllLines [] = Unit
AllLines (line ∷ lines) = IsLine line × (is_empty line ≡ false) × AllLines lines

join_rest-append :
    (a b : String) (lines : List String) → join_rest (a +s b) lines ≡ a +s join_rest b lines
join_rest-append a b [] = refl
join_rest-append a b (line ∷ lines) =
    ap (λ t. join_rest t lines) (text_assoc a b ("\n" +s line))
    ∙ join_rest-append a (b +s "\n" +s line) lines

split-join_rest :
    (line : String) (lines : List String)
    → IsLine line
    → (is_empty line ≡ false)
    → AllLines lines
    → split_generic_lines (join_rest line lines) ≡ line ∷ lines
unfolding split_generic_lines
split-join_rest line [] l e _ = rw (l.one_line, l.trimmed, e) refl
split-join_rest line (next ∷ lines) l e (n, ne, rest) =
    ap split_generic_lines (
      join_rest-append line ("\n" +s next) lines
      ∙ ap (λ t. line +s t) (join_rest-append "\n" next lines))
    ∙ split_generic_lines-append line (join_rest next lines)
    ∙ rw (l.one_line, l.trimmed, e) (ap (◌∷◌ line) (split-join_rest next lines n ne rest))

abbrev OneLine : String → Type 0
OneLine String.[] = Unit
OneLine (String.◌∷◌ c s) = (eqb (code c) 10 ≡ false) × OneLine s

split-OneLine : (s : String) → OneLine s → split_newline s ≡ s ∷ []
split-OneLine String.[] _ = refl
split-OneLine (String.◌∷◌ c s) (e, l) = rw (e, split-OneLine s l) refl

abbrev AllOne : List String → Type 0
AllOne [] = Unit
AllOne (line ∷ lines) = OneLine line × AllOne lines

in_front-AllOne :
    (c : Char) (lines : List String)
    → eqb (code c) 10 ≡ false
    → AllOne lines
    → AllOne (in_front c lines)
in_front-AllOne c [] e _ = ((e, tt), tt)
in_front-AllOne c (line ∷ lines) e (l, rest) = ((e, l), rest)

split_newline-AllOne : (s : String) → AllOne (split_newline s)
split_newline-AllOne String.[] = (tt, tt)
split_newline-AllOne (String.◌∷◌ c s) = elim (Bool-cases (eqb (code c) 10)) [
  | inl e ↦ rw e (tt, split_newline-AllOne s)
  | inr e ↦ rw e (in_front-AllOne c (split_newline s) e (split_newline-AllOne s))
]

trim_return-OneLine : (s : String) → OneLine s → OneLine (trim_return s)
trim_return-OneLine String.[] _ = tt
trim_return-OneLine (String.◌∷◌ c s) (e, l) =
    elim (Bool-cases (eqb (code c) 13 && is_empty (trim_return s))) [
      | inl last ↦ rw last tt
      | inr more ↦ rw more (e, trim_return-OneLine s l)
    ]

trim_return_idem : (s : String) → trim_return (trim_return s) ≡ trim_return s
trim_return_idem String.[] = refl
trim_return_idem (String.◌∷◌ c s) =
    elim (Bool-cases (eqb (code c) 13 && is_empty (trim_return s))) [
      | inl last ↦ rw last refl
      | inr more ↦ rw (more, trim_return_idem s, more) refl
    ]

kept-AllLines :
    (lines : List String)
    → AllOne lines
    → AllLines (filter (λ line. not (is_empty line)) (map trim_return lines))
kept-AllLines [] _ = tt
kept-AllLines (line ∷ lines) (l, rest) = elim (Bool-cases (is_empty (trim_return line))) [
  | inl e ↦ rw e (kept-AllLines lines rest)
  | inr e ↦ rw e (
    record {
      one_line = split-OneLine (trim_return line) (trim_return-OneLine line l);
      trimmed = trim_return_idem line;
    },
    e,
    kept-AllLines lines rest,
  )
]

join-AllLines :
    (lines : List String) → AllLines lines → split_generic_lines (join_content_lines lines) ≡ lines
unfolding split_generic_lines join_content_lines
join-AllLines [] _ = refl
join-AllLines (line ∷ lines) (l, e, rest) = split-join_rest line lines l e rest

-- Joining the lines of any text and splitting the result again gives the same lines.
pub split-join-split :
    (s : String)
    → split_generic_lines (join_content_lines (split_generic_lines s)) ≡ split_generic_lines s
unfolding split_generic_lines
split-join-split s =
    join-AllLines (split_generic_lines s) (kept-AllLines (split_newline s) (split_newline-AllOne s))
