-- ===== src/Tokens/Merged.antt =====
-- The tokens of two outputs, one after the other.
use Prim.Native.String.{◌++◌ as append}
use mathlib.Core.Path.{subst}
use ai_agents.Tokens.Totals.{turn_of, codex_step-stats, keep_text-stats}
use ai_agents.Prelude.{
  [], ◌∷◌, ◌++◌, List, String, ℤ, pos, ◌+ℤ◌, Option, none, some, ◌==◌, ◌≡◌, refl, ap, sym, ◌∙◌,
  Bool-cases, inl, inr, if◌then◌else◌,
}
use ai_agents.Tokens.Agents.{
  Decoder, Extract, no_extract, each_line, extract, add_codex, CodexUsage, OpencodeTokens,
  add_opencode, keep_output, codex_line, opencode_part, opencode_step, opencode_line, OpencodePart,
  OpencodeStreamEvent, extract_codex_tokens, extract_opencode_tokens,
}
use ai_agents.Tokens.Lines.{split_generic_lines}
use ai_agents.Tokens.Normal.{split_generic_lines-append}
use ai_agents.Tokens.Sums.{add_assoc, IsWord, add-IsWord, add_zero, zero_add}
use ai_agents.Types.{TokenStats, no_tokens}

abbrev pub add_stats : TokenStats → TokenStats → TokenStats
add_stats s t = record {
  input_tokens = s.input_tokens +ℤ t.input_tokens;
  output_tokens = s.output_tokens +ℤ t.output_tokens;
  cache_read_tokens = s.cache_read_tokens +ℤ t.cache_read_tokens;
  cache_write_tokens = s.cache_write_tokens +ℤ t.cache_write_tokens;
  reasoning_tokens = s.reasoning_tokens +ℤ t.reasoning_tokens;
}

-- each count is an int64
record AreWords (s : TokenStats) : Type 0 where
  input : IsWord s.input_tokens
  output : IsWord s.output_tokens
  cache_read : IsWord s.cache_read_tokens
  cache_write : IsWord s.cache_write_tokens
  reasoning : IsWord s.reasoning_tokens

pub TokenStats-ext :
    {s t : TokenStats}
    → s.input_tokens ≡ t.input_tokens
    → s.output_tokens ≡ t.output_tokens
    → s.cache_read_tokens ≡ t.cache_read_tokens
    → s.cache_write_tokens ≡ t.cache_write_tokens
    → s.reasoning_tokens ≡ t.reasoning_tokens
    → s ≡ t
TokenStats-ext a b c d e i = record {
  input_tokens = a i;
  output_tokens = b i;
  cache_read_tokens = c i;
  cache_write_tokens = d i;
  reasoning_tokens = e i;
}

add_stats_assoc : (s t u : TokenStats) → add_stats (add_stats s t) u ≡ add_stats s (add_stats t u)
add_stats_assoc s t u =
    TokenStats-ext (add_assoc _ _ _) (add_assoc _ _ _) (add_assoc _ _ _) (add_assoc _ _ _)
      (add_assoc _ _ _)

add_stats_none : (s : TokenStats) → AreWords s → add_stats s no_tokens ≡ s
add_stats_none s w =
    TokenStats-ext (add_zero _ w.input) (add_zero _ w.output) (add_zero _ w.cache_read)
      (add_zero _ w.cache_write) (add_zero _ w.reasoning)

none_add_stats : (s : TokenStats) → AreWords s → add_stats no_tokens s ≡ s
none_add_stats s w =
    TokenStats-ext (zero_add _ w.input) (zero_add _ w.output) (zero_add _ w.cache_read)
      (zero_add _ w.cache_write) (zero_add _ w.reasoning)

add_stats-AreWords : (s t : TokenStats) → AreWords (add_stats s t)
add_stats-AreWords s t = record {
  input = add-IsWord _ _;
  output = add-IsWord _ _;
  cache_read = add-IsWord _ _;
  cache_write = add-IsWord _ _;
  reasoning = add-IsWord _ _;
}

none-AreWords : AreWords no_tokens
none-AreWords = record {
  input = refl;
  output = refl;
  cache_read = refl;
  cache_write = refl;
  reasoning = refl;
}

-- what a line adds, wherever it stands
record Adds (f : String → Extract → Extract) : Type 0 where
  part : String → TokenStats
  same :
      (line : String) (x : Extract)
      → AreWords x.stats
      → (f line x).stats ≡ add_stats x.stats (part line)

abbrev lines_total : (String → TokenStats) → List String → TokenStats
lines_total part [] = no_tokens
lines_total part (line ∷ lines) = add_stats (part line) (lines_total part lines)

module _ {f : String → Extract → Extract} (a : Adds f) where
  each_line-total :
      (lines : List String) (x : Extract)
      → AreWords x.stats
      → (each_line f lines x).stats ≡ add_stats x.stats (lines_total a.part lines)
  each_line-total [] x w = sym (add_stats_none x.stats w)
  each_line-total (line ∷ lines) x w =
      each_line-total lines (f line x)
        (subst AreWords (sym (a.same line x w)) (add_stats-AreWords x.stats (a.part line)))
      ∙ ap (λ s. add_stats s (lines_total a.part lines)) (a.same line x w)
      ∙ add_stats_assoc x.stats (a.part line) (lines_total a.part lines)

  total-AreWords : (lines : List String) → AreWords (lines_total a.part lines)
  total-AreWords [] = none-AreWords
  total-AreWords (line ∷ lines) = add_stats-AreWords _ _

  total-append :
      (xs ys : List String)
      → lines_total a.part (xs ++ ys) ≡ add_stats (lines_total a.part xs) (lines_total a.part ys)
  total-append [] ys = sym (none_add_stats _ (total-AreWords ys))
  total-append (x ∷ xs) ys =
      ap (add_stats (a.part x)) (total-append xs ys)
      ∙ sym (add_stats_assoc (a.part x) (lines_total a.part xs) (lines_total a.part ys))

  extract-total :
      (stdout : String) → (extract f stdout).1 ≡ lines_total a.part (split_generic_lines stdout)
  extract-total stdout =
      each_line-total (split_generic_lines stdout) no_extract none-AreWords
      ∙ none_add_stats _ (total-AreWords (split_generic_lines stdout))

  extract-merged :
      (s t : String)
      → (extract f (append s (append "\n" t))).1 ≡ add_stats (extract f s).1 (extract f t).1
  extract-merged s t =
      extract-total (append s (append "\n" t))
      ∙ ap (lines_total a.part) (split_generic_lines-append s t)
      ∙ total-append (split_generic_lines s) (split_generic_lines t)
      ∙ sym (
          ap (λ u. add_stats u (extract f t).1) (extract-total s)
          ∙ ap (add_stats _) (extract-total t))

add_once : (a u : ℤ) → IsWord a → a +ℤ u ≡ a +ℤ (pos 0 +ℤ u)
add_once a u w = sym (ap (λ n. n +ℤ u) (add_zero a w)) ∙ add_assoc a (pos 0) u

add_codex_once :
    (t : Option CodexUsage) (s : TokenStats)
    → AreWords s
    → add_codex t s ≡ add_stats s (add_codex t no_tokens)
add_codex_once none s w = sym (add_stats_none s w)
add_codex_once (some u) s w =
    TokenStats-ext (add_once _ _ w.input) (add_once _ _ w.output) (add_once _ _ w.cache_read)
      (sym (add_zero _ w.cache_write)) (add_once _ _ w.reasoning)

add_opencode_once :
    (t : Option OpencodeTokens) (s : TokenStats)
    → AreWords s
    → add_opencode t s ≡ add_stats s (add_opencode t no_tokens)
add_opencode_once none s w = sym (add_stats_none s w)
add_opencode_once (some u) s w =
    TokenStats-ext (add_once _ _ w.input) (add_once _ _ w.output) (add_once _ _ w.cache_read)
      (add_once _ _ w.cache_write) (add_once _ _ w.reasoning)

module _ (j : Decoder) where
  codex-Adds : Adds (codex_line j)
  unfolding codex_line
  codex-Adds = record {
    part = λ line. add_codex (turn_of (j.codex_event line)) no_tokens;
    same = λ line x w.
        codex_step-stats j (j.codex_event line) line x
        ∙ add_codex_once (turn_of (j.codex_event line)) x.stats w;
  }

  -- the tokens of a finished step
  abbrev part_tokens : String → Option OpencodePart → Option OpencodeTokens
  part_tokens kind none = none
  part_tokens kind (some p) =
      if kind == "text"
      then none
      else if kind == "tool_use"
      then none
      else if kind == "step_finish"
      then p.tokens
      else none

  abbrev step_tokens : Option OpencodeStreamEvent → Option OpencodeTokens
  step_tokens none = none
  step_tokens (some ev) = part_tokens ev.kind ev.part

  output-stats : (o : Option String) (x : Extract) → (keep_output o x).stats ≡ x.stats
  output-stats none x = refl
  output-stats (some t) x = keep_text-stats t x

  opencode_part-stats :
      (kind : String) (p : Option OpencodePart) (x : Extract)
      → (opencode_part j kind p x).stats ≡ add_opencode (part_tokens kind p) x.stats
  opencode_part-stats kind none x = refl
  opencode_part-stats kind (some p) x = elim (Bool-cases (kind == "text")) [
    | inl e ↦ rw e (keep_text-stats p.text x)
    | inr e ↦ rw e (elim (Bool-cases (kind == "tool_use")) [
      | inl t ↦ rw t (output-stats p.output x)
      | inr t ↦
          rw t (elim (Bool-cases (kind == "step_finish")) [ inl f ↦ rw f refl | inr f ↦ rw f refl ])
    ])
  ]

  opencode_step-stats :
      (ev : Option OpencodeStreamEvent) (line : String) (x : Extract)
      → (opencode_step j ev line x).stats ≡ add_opencode (step_tokens ev) x.stats
  opencode_step-stats none line x = refl
  opencode_step-stats (some ev) line x = opencode_part-stats ev.kind ev.part x

  opencode-Adds : Adds (opencode_line j)
  unfolding opencode_line
  opencode-Adds = record {
    part = λ line. add_opencode (step_tokens (j.opencode_event line)) no_tokens;
    same = λ line x w.
        opencode_step-stats (j.opencode_event line) line x
        ∙ add_opencode_once (step_tokens (j.opencode_event line)) x.stats w;
  }

  -- The tokens that extractCodexTokens and extractOpenCodeTokens return for two outputs with a newline
  -- in between are, on int64, the sums of those of the two outputs.
  pub extract_merged :
      (s t : String)
      → ((extract_codex_tokens j (append s (append "\n" t))).1
          ≡ add_stats (extract_codex_tokens j s).1 (extract_codex_tokens j t).1)
        × ((extract_opencode_tokens j (append s (append "\n" t))).1
            ≡ add_stats (extract_opencode_tokens j s).1 (extract_opencode_tokens j t).1)
  unfolding extract_codex_tokens extract_opencode_tokens
  extract_merged s t = (extract-merged codex-Adds s t, extract-merged opencode-Adds s t)
