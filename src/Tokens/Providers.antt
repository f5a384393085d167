-- ===== src/Tokens/Providers.antt =====
-- The providers of tasklib/tokens.go, the summary line of copilot, and the texts of counts. The
-- random source, `filepath.Join`, `strings.ReplaceAll` and `strings.TrimSpace`, regular expressions
-- and floats are parameters.
use Prim.Native.Char.{Char, code}
use Prim.Native.String.{◌++◌ as append}
use ai_agents.Prelude.{
  [], ◌∷◌, List, String, ℤ, pos, negsuc, ℕ, suc, ◌/◌, ◌%◌, ◌^◌, Option, none, some, Bool, true,
  false, ◌==◌, ◌||◌, any, leb, eqb, if◌then◌else◌,
}
use ai_agents.Redis.Client.{Result, ok, err, no_random, during}
use ai_agents.Tokens.Agents.{
  Decoder, extract_claude_tokens, extract_codex_tokens, extract_opencode_tokens,
}
use ai_agents.Types.{Task, TokenStats, no_tokens}
use ai_agents.Worker.{has_any}

pub data Provider : Type 0 where
  noop claude codex opencode : Provider
  -- with `sessionID`
  copilot : String → Provider

unfoldable pub new_stats_provider : String → Provider
new_stats_provider agent_type =
    if agent_type == "claude"
    then claude
    else if agent_type == "codex"
    then codex
    else if agent_type == "opencode"
    then opencode
    else if agent_type == "copilot"
    then copilot ""
    else noop

-- What Setup returns: the provider after it, `expandCmd` if any, and the directory that `cleanup`
-- removes, if any.
pub record Ready : Type 0 where
  pub provider : Provider
  pub expand_cmd : Option (String → String)
  pub cleaned : Option String

pub record Platform : Type 1 where
  pub decoder : Decoder
  pub copilot_session_dir : String
  pub join_path : String → String → String
  -- `strings.ReplaceAll(s, old, new)`
  pub replace_all : String → String → String → String
  pub trim_space : String → String
  -- the groups of the match of the summary line, the whole match first
  pub find_submatch : String → List String
  pub Float : Type 0
  pub parse_float : String → Option Float
  -- `int64(val * float64(multiplier))`
  pub scaled : Float → ℕ → ℤ
  -- `%.1f` of a count divided by a number
  pub one_decimal : ℕ → ℕ → String
  -- `%d`
  pub decimal : ℤ → String

module _ (pf : Platform) where
  abbrev copilot_ready : Option String → Result Ready
  copilot_ready none = err (during "generate copilot session id" no_random)
  copilot_ready (some id) = ok (record {
    provider = copilot id;
    expand_cmd = some (λ cmd. pf.replace_all cmd "__SESSION_ID__" id);
    cleaned = some (pf.join_path pf.copilot_session_dir id);
  })

  -- the second argument is what NewUUID returned
  unfoldable pub setup : Provider → Option String → Result Ready
  setup (copilot session) uuid = copilot_ready uuid
  setup noop uuid = ok (record { provider = noop; expand_cmd = none; cleaned = none })
  setup claude uuid = ok (record { provider = claude; expand_cmd = none; cleaned = none })
  setup codex uuid = ok (record { provider = codex; expand_cmd = none; cleaned = none })
  setup opencode uuid = ok (record { provider = opencode; expand_cmd = none; cleaned = none })

  unfoldable pub process_stdout : Provider → String → String × TokenStats
  process_stdout noop stdout = (stdout, no_tokens)
  process_stdout claude stdout = extract_claude_tokens pf.decoder stdout
  process_stdout codex stdout = extract_codex_tokens pf.decoder stdout
  process_stdout opencode stdout = extract_opencode_tokens pf.decoder stdout
  process_stdout (copilot session) stdout = (stdout, no_tokens)

  -- the text without its last character, and the code of that character
  abbrev split_last : Char → String → String × ℕ
  split_last c String.[] = (String.[], code c)
  split_last c (String.◌∷◌ d s) = let (front, last) = split_last d s in (String.◌∷◌ c front, last)

  -- the multiplier of a suffix, if it is one
  abbrev multiplier_of : ℕ → Option ℕ
  multiplier_of last =
      if eqb last b'k' || eqb last b'K'
      then some 1000
      else if eqb last b'm' || eqb last b'M'
      then some 1000000
      else if eqb last b'b' || eqb last b'B'
      then some 1000000000
      else none

  abbrev scaled_or_zero : ℕ → Option pf.Float → ℤ
  scaled_or_zero multiplier none = pos 0
  scaled_or_zero multiplier (some val) = pf.scaled val multiplier

  abbrev suffixed : String → String → Option ℕ → ℤ
  suffixed s front none = scaled_or_zero 1 (pf.parse_float s)
  suffixed s front (some multiplier) = scaled_or_zero multiplier (pf.parse_float front)

  abbrev parse_trimmed : String → ℤ
  parse_trimmed String.[] = pos 0
  parse_trimmed (String.◌∷◌ c s) =
      let (front, last) = split_last c s in suffixed (String.◌∷◌ c s) front (multiplier_of last)

  unfoldable pub parse_suffixed_number : String → ℤ
  parse_suffixed_number s = parse_trimmed (pf.trim_space s)

  abbrev copilot_counts : List String → TokenStats
  copilot_counts (whole ∷ input ∷ cached ∷ output ∷ []) = record no_tokens {
    input_tokens = parse_suffixed_number input;
    cache_read_tokens = parse_suffixed_number cached;
    output_tokens = parse_suffixed_number output;
  }
  copilot_counts _ = no_tokens

  unfoldable pub parse_copilot_stderr : String → TokenStats
  parse_copilot_stderr stderr = copilot_counts (pf.find_submatch stderr)

  -- `s[:len(s)-2]` where ".0" ends it, with something in front
  abbrev drop_zero_decimal : String → String
  drop_zero_decimal String.[] = String.[]
  drop_zero_decimal (String.◌∷◌ c s) =
      let rest = drop_zero_decimal s in
      if s == ".0" then String.◌∷◌ c String.[] else String.◌∷◌ c rest

  unfoldable pub format_float_str : ℕ → ℕ → String
  format_float_str n unit = drop_zero_decimal (pf.one_decimal n unit)

  -- `-n` on int64 where n < 0
  abbrev abs_64 : ℤ → ℤ
  abs_64 (pos n) = pos n
  abs_64 (negsuc n) = if eqb (suc n) (2 ^ 63) then negsuc n else pos (suc n)

  abbrev format_abs : ℤ → String
  format_abs (negsuc n) = pf.decimal (negsuc n)
  format_abs (pos n) =
      if leb 1000000 n
      then append (format_float_str n 1000000) "M"
      else if leb 1000 n
      then (if eqb (n % 1000) 0
          then append (pf.decimal (pos (n / 1000))) "K"
          else append (format_float_str n 1000) "K")
      else pf.decimal (pos n)

  abbrev is_zero_count : ℤ → Bool
  is_zero_count (pos n) = eqb n 0
  is_zero_count (negsuc n) = false

  abbrev format_nonzero : Bool → ℤ → String
  format_nonzero true n = "0"
  format_nonzero false n = format_abs (abs_64 n)

  unfoldable pub format_token_count : ℤ → String
  format_token_count n = format_nonzero (is_zero_count n) n

unfoldable pub has_any_task_tokens : List Task → Bool
has_any_task_tokens = any (λ t. has_any t.tokens)
