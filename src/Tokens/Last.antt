-- ===== src/Tokens/Last.antt =====
-- The last usage that claude reports is the one that counts.
use ai_agents.Prelude.{
  eq_iff, [], ◌∷◌, List, String, Option, none, some, ◌==◌, ◌≡◌, refl, ap, ◌∙◌, Bool-cases, inl, inr,
  if◌then◌else◌,
}
use ai_agents.Tokens.Agents.{
  ClaudeUsage, ClaudeStreamEvent, ClaudeResult, Block, Decoder, Extract, no_extract, keep_text,
  each_line, set_usage, keep_blocks, claude_message, claude_end, claude_switch, claude_step,
  claude_line, extract_claude_tokens,
}
use ai_agents.Tokens.Lines.{split_generic_lines}
use ai_agents.Tokens.Totals.{keep_text-stats}
use ai_agents.Types.{TokenStats, no_tokens}

block-stats :
    (b : Block) (x : Extract) → (if b.kind == "text" then keep_text b.text x else x).stats ≡ x.stats
block-stats b x = elim (Bool-cases (b.kind == "text")) [
  | inl e ↦ rw e (keep_text-stats b.text x)
  | inr e ↦ rw e refl
]

keep_blocks-stats : (bs : List Block) (x : Extract) → (keep_blocks bs x).stats ≡ x.stats
keep_blocks-stats [] x = refl
keep_blocks-stats (b ∷ bs) x = keep_blocks-stats bs _ ∙ block-stats b x

module _ (j : Decoder) where
  -- the usage that a line of claude reports
  abbrev pub result_usage : Option ClaudeResult → Option ClaudeUsage
  result_usage none = none
  result_usage (some res) = res.usage

  abbrev pub usage_of : String → Option ClaudeStreamEvent → Option ClaudeUsage
  usage_of line none = none
  usage_of line (some ev) =
      if ev.kind == "result"
      then result_usage (j.claude_result line)
      else if ev.kind == "usage"
      then ev.usage
      else none

  -- the first usage, counted from the last line
  abbrev pub or_else : Option ClaudeUsage → Option ClaudeUsage → Option ClaudeUsage
  or_else none u = u
  or_else (some v) u = some v

  -- the last usage that the lines report
  abbrev pub last_usage : List String → Option ClaudeUsage
  last_usage [] = none
  last_usage (line ∷ lines) = or_else (last_usage lines) (usage_of line (j.claude_event line))

  message-stats : (bs : Option (List Block)) (x : Extract) → (claude_message j bs x).stats ≡ x.stats
  message-stats none x = refl
  message-stats (some bs) x = keep_blocks-stats bs x

  end-stats :
      (res : Option ClaudeResult) (x : Extract)
      → (claude_end j res x).stats ≡ set_usage (result_usage res) x.stats
  end-stats none x = refl
  end-stats (some res) x = ap (set_usage res.usage) (keep_text-stats res.result x)

  switch-stats :
      (line : String) (ev : ClaudeStreamEvent) (x : Extract)
      → (claude_switch j line ev x).stats ≡ set_usage (usage_of line (some ev)) x.stats
  switch-stats line ev x = elim (Bool-cases (ev.kind == "assistant")) [
    | inl a ↦
        rw a (message-stats (j.claude_blocks line) x ∙ rw ((eq_iff ev.kind "assistant").0 a) refl)
    | inr a ↦ rw a (elim (Bool-cases (ev.kind == "result")) [
      | inl e ↦ rw e (end-stats (j.claude_result line) x)
      | inr e ↦
          rw e (elim (Bool-cases (ev.kind == "usage")) [ inl u ↦ rw u refl | inr u ↦ rw u refl ])
    ])
  ]

  step-stats :
      (ev : Option ClaudeStreamEvent) (line : String) (x : Extract)
      → (claude_step j ev line x).stats ≡ set_usage (usage_of line ev) x.stats
  step-stats none line x = refl
  step-stats (some ev) line x = switch-stats line ev x

  -- a usage overwrites what an earlier one set
  set_usage_last :
      (u v : Option ClaudeUsage) (s : TokenStats)
      → set_usage v (set_usage u s) ≡ set_usage (or_else v u) s
  set_usage_last u none s = refl
  set_usage_last none (some v) s = refl
  set_usage_last (some u) (some v) s = refl

  claude_loop :
      (lines : List String) (x : Extract)
      → (each_line (claude_line j) lines x).stats ≡ set_usage (last_usage lines) x.stats
  unfolding claude_line
  claude_loop [] x = refl
  claude_loop (line ∷ lines) x =
      claude_loop lines (claude_line j line x)
      ∙ ap (set_usage (last_usage lines)) (step-stats (j.claude_event line) line x)
      ∙ set_usage_last (usage_of line (j.claude_event line)) (last_usage lines) x.stats

  -- The tokens that extractClaudeTokens returns are those of the last line that reports a usage, in
  -- a usage event or in a result, and none where no line does.
  pub extract_claude_last :
      (stdout : String)
      → (extract_claude_tokens j stdout).1
        ≡ set_usage (last_usage (split_generic_lines stdout)) no_tokens
  unfolding extract_claude_tokens
  extract_claude_last stdout = claude_loop (split_generic_lines stdout) no_extract
