-- ===== src/Tokens/Totals.antt =====
-- The tokens of an output, as a function of the lines that report them.
use ai_agents.Prelude.{
  [], ◌∷◌, List, String, ℤ, pos, ◌+ℤ◌, Option, none, some, ◌==◌, ◌≡◌, refl, ap, ◌∙◌, Bool-cases,
  inl, inr, if◌then◌else◌, arith, ◌<◌, ◌^◌,
}
use ai_agents.Tokens.Agents.{
  CodexUsage, CodexStreamEvent, CodexItem, Decoder, Extract, no_extract, keep_text, each_line,
  add_codex, keep_item, codex_step, codex_line, extract_codex_tokens,
}
use ai_agents.Tokens.Lines.{split_generic_lines}
use ai_agents.Tokens.Sums.{sum_from, total, AllCounts, sum_exact}
use ai_agents.Types.{TokenStats, no_tokens}

pub keep_text-stats : (line : String) (x : Extract) → (keep_text line x).stats ≡ x.stats
keep_text-stats line x = elim (Bool-cases (line == "")) [ inl e ↦ rw e refl | inr e ↦ rw e refl ]

keep_item-stats : (i : Option CodexItem) (x : Extract) → (keep_item i x).stats ≡ x.stats
keep_item-stats none x = refl
keep_item-stats (some i) x = elim (Bool-cases (i.kind == "agent_message")) [
  | inl e ↦ rw e (keep_text-stats i.text x)
  | inr e ↦ rw e refl
]

-- the usage of a completed turn
abbrev pub turn_of : Option CodexStreamEvent → Option CodexUsage
turn_of none = none
turn_of (some ev) = if ev.kind == "turn.completed" then ev.usage else none

abbrev with_turn : Option CodexUsage → List CodexUsage → List CodexUsage
with_turn none us = us
with_turn (some u) us = u ∷ us

pub data Counter : Type 0 where
  input output cache_read reasoning : Counter

abbrev pub in_usage : Counter → CodexUsage → ℤ
in_usage input u = u.input_tokens
in_usage output u = u.output_tokens
in_usage cache_read u = u.cache_read_input_tokens
in_usage reasoning u = u.reasoning_output_tokens

abbrev pub in_stats : Counter → TokenStats → ℤ
in_stats input s = s.input_tokens
in_stats output s = s.output_tokens
in_stats cache_read s = s.cache_read_tokens
in_stats reasoning s = s.reasoning_tokens

abbrev pub counts : Counter → List CodexUsage → List ℤ
counts k [] = []
counts k (u ∷ us) = in_usage k u ∷ counts k us

in_stats-add_codex :
    (k : Counter) (u : CodexUsage) (s : TokenStats)
    → in_stats k (add_codex (some u) s) ≡ in_stats k s +ℤ in_usage k u
in_stats-add_codex input u s = refl
in_stats-add_codex output u s = refl
in_stats-add_codex cache_read u s = refl
in_stats-add_codex reasoning u s = refl

module _ (j : Decoder) where
  -- the usages of the completed turns, in the order of the lines
  abbrev pub turns : List String → List CodexUsage
  turns [] = []
  turns (line ∷ lines) = with_turn (turn_of (j.codex_event line)) (turns lines)

  kept-stats :
      (ev : CodexStreamEvent) (x : Extract)
      → (if ev.kind == "item.completed" then keep_item ev.item x else x).stats ≡ x.stats
  kept-stats ev x = elim (Bool-cases (ev.kind == "item.completed")) [
    | inl e ↦ rw e (keep_item-stats ev.item x)
    | inr e ↦ rw e refl
  ]

  pub codex_step-stats :
      (ev : Option CodexStreamEvent) (line : String) (x : Extract)
      → (codex_step j ev line x).stats ≡ add_codex (turn_of ev) x.stats
  codex_step-stats none line x = refl
  codex_step-stats (some ev) line x = elim (Bool-cases (ev.kind == "turn.completed")) [
    | inl t ↦ rw t (ap (add_codex ev.usage) (kept-stats ev x))
    | inr t ↦ rw t (kept-stats ev x)
  ]

  loop-counts :
      (k : Counter) (t : Option CodexUsage) (us : List CodexUsage) (s : TokenStats)
      → sum_from (in_stats k (add_codex t s)) (counts k us)
        ≡ sum_from (in_stats k s) (counts k (with_turn t us))
  loop-counts k none us s = refl
  loop-counts k (some u) us s = ap (λ n. sum_from n (counts k us)) (in_stats-add_codex k u s)

  codex_loop :
      (k : Counter) (lines : List String) (x : Extract)
      → in_stats k (each_line (codex_line j) lines x).stats
        ≡ sum_from (in_stats k x.stats) (counts k (turns lines))
  unfolding codex_line
  codex_loop k [] x = refl
  codex_loop k (line ∷ lines) x =
      codex_loop k lines (codex_line j line x)
      ∙ ap (λ s. sum_from (in_stats k s) (counts k (turns lines)))
          (codex_step-stats (j.codex_event line) line x)
      ∙ loop-counts k (turn_of (j.codex_event line)) (turns lines) x.stats

  in_stats-none : (k : Counter) → in_stats k no_tokens ≡ pos 0
  in_stats-none input = refl
  in_stats-none output = refl
  in_stats-none cache_read = refl
  in_stats-none reasoning = refl

  -- Where each completed turn reports counts that are not negative and their sum is below 2^63, a
  -- counter that extractCodexTokens returns is the sum.
  pub codex_exact :
      (k : Counter) (stdout : String)
      → AllCounts (counts k (turns (split_generic_lines stdout)))
      → total (counts k (turns (split_generic_lines stdout))) < 2 ^ 63
      → in_stats k (extract_codex_tokens j stdout).1
        ≡ pos (total (counts k (turns (split_generic_lines stdout))))
  unfolding extract_codex_tokens
  codex_exact k stdout c h =
      codex_loop k (split_generic_lines stdout) no_extract
      ∙ ap (λ n. sum_from n (counts k (turns (split_generic_lines stdout)))) (in_stats-none k)
      ∙ sum_exact 0 (counts k (turns (split_generic_lines stdout))) c (omega (arith, h))
      ∙ ap pos (omega arith)
