-- ===== src/Tests/Counting.antt =====
-- The tokens of an agent's output and their counters, at concrete inputs. Numbers are written in
-- unary, with a minus sign in front.
use Prim.Native.Char.{Char, code}
use Prim.Native.String.{◌++◌ as append}
use ai_agents.Prelude.{
  ◌∙◌, take-length, sym, ap, ℕ, zero, suc, ℤ, pos, negsuc, ◌+ℤ◌, ◌≡◌, refl, String, true, Option,
  none, some, [], ◌∷◌, length, eqb, ◌==◌, arith, if◌then◌else◌,
}
use ai_agents.Redis.Client.{ok, do_all}
use ai_agents.Redis.Commands.{Redis, Keyspace, run}
use ai_agents.Redis.Keys.{stats_total_key, stats_agent_key}
use ai_agents.Tests.Server.{nothing}
use ai_agents.Tokens.Agents.{
  Decoder, extract_codex_tokens, extract_claude_tokens, extract_opencode_tokens, set_usage,
}
use ai_agents.Tokens.Counters.{
  token_stats_of, master_stats_of, get_token_stats, get_master_token_stats,
  persist_master_token_stats,
}
use ai_agents.Tokens.Bumps.{Numbers}
use ai_agents.Tokens.Last.{extract_claude_last, last_usage}
use ai_agents.Tokens.Lines.{split_generic_lines, join_content_lines}
use ai_agents.Tokens.Merged.{add_stats, extract_merged}
use ai_agents.Tokens.Normal.{split-join-split}
use ai_agents.Tokens.Stored.{CountersHaveRoom, MasterHasRoom, persist-get_token_stats}
use ai_agents.Tokens.Totals.{Counter, codex_exact}
use ai_agents.Types.{TokenStats, no_tokens}

abbrev ones : ℕ → String
ones zero = ""
ones (suc n) = String.◌∷◌ (Char.char 49 tt) (ones n)

abbrev size : String → ℕ
size String.[] = 0
size (String.◌∷◌ c s) = suc (size s)

abbrev encode : ℤ → String
encode (pos n) = ones n
encode (negsuc n) = String.◌∷◌ (Char.char 45 tt) (ones n)

abbrev decode : String → ℤ
decode String.[] = pos 0
decode (String.◌∷◌ c s) = if eqb (code c) 45 then negsuc (size s) else pos (suc (size s))

size-ones : (n : ℕ) → size (ones n) ≡ n
size-ones zero = refl
size-ones (suc n) = ap suc (size-ones n)

decode-encode : (a : ℤ) → decode (encode a) ≡ a
decode-encode (pos zero) = refl
decode-encode (pos (suc n)) = ap (λ k. pos (suc k)) (size-ones n)
decode-encode (negsuc n) = ap negsuc (size-ones n)

abbrev held : Option String → ℤ
held none = pos 0
held (some v) = decode v

abbrev next_text : ℤ → Option String → String
next_text n o = encode (held o +ℤ n)

abbrev counting : Redis
counting = record {
  Db = Keyspace;
  view = λ d. d;
  next_text = next_text;
  send = λ cs d. (true, run next_text cs d);
  executed = λ cs d. length cs;
  view-send = λ cs d. ap (λ ys. run next_text ys d) (sym (take-length cs));
  answered = λ cs d e. refl;
}

some_inj : (a b : ℤ) → some a ≡ some b → a ≡ b
some_inj a b e = cc

abbrev numbers : Numbers next_text decode
numbers = record {
  number = λ v. some (decode v);
  parsed = λ v a e. some_inj (decode v) a e;
  first = λ n h. ap some (decode-encode (pos 0 +ℤ n));
  next = λ v a n e h.
      ap some (decode-encode (decode v +ℤ n)) ∙ ap (λ k. some (k +ℤ n)) (some_inj (decode v) a e);
}

abbrev spent : TokenStats
spent = record no_tokens { input_tokens = pos 3; output_tokens = pos 2 }

counters_empty : CountersHaveRoom counting decode numbers [] spent
counters_empty = record {
  input = (refl, ground arith);
  output = (refl, ground arith);
  cache_read = (refl, ground arith);
  cache_write = (refl, ground arith);
  reasoning = (refl, ground arith);
}

master_empty : MasterHasRoom counting decode numbers [] spent
master_empty = record {
  input = (refl, ground arith);
  output = (refl, ground arith);
  cache_read = (refl, ground arith);
  cache_write = (refl, ground arith);
  reasoning = (refl, ground arith);
}

abbrev persisted : Keyspace
persisted = (do_all counting (persist_master_token_stats "th" spent "master") nothing).1

persist-get_token_stats_example :
    ((get_token_stats counting decode stats_total_key persisted).0
      ≡ ok (add_stats (token_stats_of decode []) spent))
    × ((get_token_stats counting decode (stats_agent_key "master") persisted).0
        ≡ ok (add_stats (token_stats_of decode []) spent))
    × ((get_master_token_stats counting decode "th" persisted).0
        ≡ ok (add_stats (master_stats_of decode []) spent))
persist-get_token_stats_example =
    persist-get_token_stats counting decode numbers (λ cs d. refl) "th" "master" spent nothing
      counters_empty counters_empty master_empty

-- "turn" and "text" stand for events of codex, and "usage" for one of claude
abbrev decoder : Decoder
decoder = record {
  claude_event = λ line.
      if line == "usage"
      then some (record {
        kind = "usage";
        usage = some (record {
          input_tokens = pos 7;
          output_tokens = pos 5;
          cache_creation_tokens = pos 1;
          cache_read_tokens = pos 0;
        });
      })
      else none;
  claude_blocks = λ line. none;
  claude_result = λ line. none;
  codex_event = λ line.
      if line == "turn"
      then some (record {
        kind = "turn.completed";
        item = none;
        usage = some (record {
          input_tokens = pos 7;
          cache_read_input_tokens = pos 1;
          output_tokens = pos 5;
          reasoning_output_tokens = pos 2;
        });
      })
      else none;
  opencode_event = λ line. none;
}

split-join-split_example :
    split_generic_lines (join_content_lines (split_generic_lines "one\r\n\ntwo\n"))
    ≡ split_generic_lines "one\r\n\ntwo\n"
split-join-split_example = split-join-split "one\r\n\ntwo\n"

split_two : split_generic_lines "one\r\n\ntwo\n" ≡ "one" ∷ "two" ∷ []
unfolding split_generic_lines
split_two = refl

codex_exact_example : (extract_codex_tokens decoder "turn\nhello\nturn").1.input_tokens ≡ pos 14
unfolding split_generic_lines
codex_exact_example =
    codex_exact decoder Counter.input "turn\nhello\nturn" (refl, (refl, tt)) (ground arith)

extract_claude_last_example :
    (extract_claude_tokens decoder "hello\nusage").1
    ≡ set_usage (last_usage decoder (split_generic_lines "hello\nusage")) no_tokens
extract_claude_last_example = extract_claude_last decoder "hello\nusage"

extract_merged_example :
    ((extract_codex_tokens decoder (append "turn" (append "\n" "turn"))).1
      ≡ add_stats (extract_codex_tokens decoder "turn").1 (extract_codex_tokens decoder "turn").1)
    × ((extract_opencode_tokens decoder (append "turn" (append "\n" "turn"))).1
        ≡ add_stats
            (extract_opencode_tokens decoder "turn").1
            (extract_opencode_tokens decoder "turn").1)
extract_merged_example = extract_merged decoder "turn" "turn"
