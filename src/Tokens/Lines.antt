-- ===== src/Tokens/Lines.antt =====
-- `splitGenericLines` and `joinContentLines` of tasklib/tokens.go.
use Prim.Native.Char.{Char, code}
use Prim.Native.String.{◌++◌ as append}
use ai_agents.Prelude.{
  [], ◌∷◌, List, String, Bool, true, false, not, map, filter, eqb, ◌&&◌, if◌then◌else◌,
}

abbrev pub is_empty : String → Bool
is_empty String.[] = true
is_empty (String.◌∷◌ c s) = false

-- a character in front of the first line
abbrev pub in_front : Char → List String → List String
in_front c [] = String.◌∷◌ c String.[] ∷ []
in_front c (line ∷ lines) = String.◌∷◌ c line ∷ lines

-- `strings.Split(s, "\n")`
abbrev pub split_newline : String → List String
split_newline String.[] = String.[] ∷ []
split_newline (String.◌∷◌ c s) =
    let rest = split_newline s in if eqb (code c) 10 then String.[] ∷ rest else in_front c rest

-- `strings.TrimRight(line, "\r")`
abbrev pub trim_return : String → String
trim_return String.[] = String.[]
trim_return (String.◌∷◌ c s) =
    let rest = trim_return s in
    if eqb (code c) 13 && is_empty rest then String.[] else String.◌∷◌ c rest

unfoldable pub split_generic_lines : String → List String
split_generic_lines s = filter (λ line. not (is_empty line)) (map trim_return (split_newline s))

-- the loop of joinContentLines, with `result` so far
abbrev pub join_rest : String → List String → String
join_rest result [] = result
join_rest result (line ∷ lines) = join_rest (append result (append "\n" line)) lines

unfoldable pub join_content_lines : List String → String
join_content_lines [] = ""
join_content_lines (line ∷ lines) = join_rest line lines
