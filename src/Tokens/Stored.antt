-- ===== src/Tokens/Stored.antt =====
-- What the counters hold after the tokens of a request are persisted.
use ai_agents.Prelude.{take, drop, [], ◌∷◌, List, String, ℤ, pos, ◌≡◌, refl, ap, ◌∙◌, eq_refl}
use ai_agents.Redis.Client.{ok, do_all, request, hgetall}
use ai_agents.Redis.Commands.{Fields, Keyspace, Redis, run}
use ai_agents.Redis.Keys.{HashKey, stats_total_key, stats_agent_key, thread_state_key}
use ai_agents.Redis.Reads.{Up, write_up}
use ai_agents.Tokens.Counters.{
  stats_or_zero, persist_master_token_stats, token_stats_of, master_stats_of, get_token_stats,
  get_master_token_stats,
}
use ai_agents.Tokens.Merged.{add_stats, TokenStats-ext}
use ai_agents.Types.{TokenStats}
use ai_agents.Tokens.Bumps.{Numbers, HasRoom, bumps, parse_field_int-bumps}

abbrev counted : TokenStats → List (String × ℤ)
counted ts =
    ("input_tokens", ts.input_tokens)
    ∷ ("output_tokens", ts.output_tokens)
    ∷ ("cache_read", ts.cache_read_tokens)
    ∷ ("cache_write", ts.cache_write_tokens)
    ∷ ("reasoning", ts.reasoning_tokens)
    ∷ ("task_count", pos 1)
    ∷ []

abbrev master_counted : TokenStats → List (String × ℤ)
master_counted ts =
    ("master_input_tokens", ts.input_tokens)
    ∷ ("master_output_tokens", ts.output_tokens)
    ∷ ("master_cache_read_tokens", ts.cache_read_tokens)
    ∷ ("master_cache_write_tokens", ts.cache_write_tokens)
    ∷ ("master_reasoning_tokens", ts.reasoning_tokens)
    ∷ []

module _ (r : Redis) (parse_int : String → ℤ) (num : Numbers r.next_text parse_int) where
  -- the counters of a hash have room for the tokens
  pub record CountersHaveRoom (m : Fields) (ts : TokenStats) : Type 0 where
    pub input : HasRoom num m "input_tokens" ts.input_tokens
    pub output : HasRoom num m "output_tokens" ts.output_tokens
    pub cache_read : HasRoom num m "cache_read" ts.cache_read_tokens
    pub cache_write : HasRoom num m "cache_write" ts.cache_write_tokens
    pub reasoning : HasRoom num m "reasoning" ts.reasoning_tokens

  pub record MasterHasRoom (m : Fields) (ts : TokenStats) : Type 0 where
    pub input : HasRoom num m "master_input_tokens" ts.input_tokens
    pub output : HasRoom num m "master_output_tokens" ts.output_tokens
    pub cache_read : HasRoom num m "master_cache_read_tokens" ts.cache_read_tokens
    pub cache_write : HasRoom num m "master_cache_write_tokens" ts.cache_write_tokens
    pub reasoning : HasRoom num m "master_reasoning_tokens" ts.reasoning_tokens

  counted-stats :
      (m : Fields) (ts : TokenStats)
      → CountersHaveRoom m ts
      → token_stats_of parse_int (bumps r.next_text (counted ts) m)
        ≡ add_stats (token_stats_of parse_int m) ts
  counted-stats m ts room =
      let l = counted ts in
      TokenStats-ext (parse_field_int-bumps num _ _ [] (drop 1 l) m refl refl room.input)
        (parse_field_int-bumps num _ _ (take 1 l) (drop 2 l) m refl refl room.output)
        (parse_field_int-bumps num _ _ (take 2 l) (drop 3 l) m refl refl room.cache_read)
        (parse_field_int-bumps num _ _ (take 3 l) (drop 4 l) m refl refl room.cache_write)
        (parse_field_int-bumps num _ _ (take 4 l) (drop 5 l) m refl refl room.reasoning)

  master-stats :
      (m : Fields) (ts : TokenStats)
      → MasterHasRoom m ts
      → master_stats_of parse_int (bumps r.next_text (master_counted ts) m)
        ≡ add_stats (master_stats_of parse_int m) ts
  master-stats m ts room =
      let l = master_counted ts in
      TokenStats-ext (parse_field_int-bumps num _ _ [] (drop 1 l) m refl refl room.input)
        (parse_field_int-bumps num _ _ (take 1 l) (drop 2 l) m refl refl room.output)
        (parse_field_int-bumps num _ _ (take 2 l) (drop 3 l) m refl refl room.cache_read)
        (parse_field_int-bumps num _ _ (take 3 l) (drop 4 l) m refl refl room.cache_write)
        (parse_field_int-bumps num _ _ (take 4 l) (drop 5 l) m refl refl room.reasoning)

  persisted :
      (thread agent : String) (ts : TokenStats) (s : Keyspace)
      → ((run r.next_text (persist_master_token_stats thread ts agent) s).hashes stats_total_key
          ≡ bumps r.next_text (counted ts) (s.hashes stats_total_key))
        × ((run r.next_text (persist_master_token_stats thread ts agent) s).hashes
              (stats_agent_key agent)
            ≡ bumps r.next_text (counted ts) (s.hashes (stats_agent_key agent)))
        × ((run r.next_text (persist_master_token_stats thread ts agent) s).hashes
              (thread_state_key thread)
            ≡ bumps r.next_text (master_counted ts) (s.hashes (thread_state_key thread)))
  unfolding persist_master_token_stats
  persisted thread agent ts s = (refl, rw (eq_refl agent) refl, rw (eq_refl thread) refl)

  stats_or_zero-any : (m : Fields) → stats_or_zero parse_int m ≡ token_stats_of parse_int m
  stats_or_zero-any [] = refl
  stats_or_zero-any (f ∷ m) = refl

  module _ (up : Up r) where
    get_token_stats-up :
        (k : HashKey) (d : r.Db)
        → (get_token_stats r parse_int k d).0 ≡ ok (token_stats_of parse_int ((r.view d).hashes k))
    unfolding get_token_stats hgetall request
    get_token_stats-up k d = rw (up _ d) (ap ok (stats_or_zero-any ((r.view d).hashes k)))

    get_master_token_stats-up :
        (thread : String) (d : r.Db)
        → (get_master_token_stats r parse_int thread d).0
          ≡ ok (master_stats_of parse_int ((r.view d).hashes (thread_state_key thread)))
    unfolding get_master_token_stats hgetall request
    get_master_token_stats-up thread d = rw (up _ d) refl

    -- Where requests are answered, HINCRBY and ParseInt agree on numbers, and the counters of the total,
    -- of the agent and of the thread are missing or hold numbers with room for the tokens of a request,
    -- what GetTokenStats and GetMasterTokenStats return after the pipeline of PersistMasterTokenStats is
    -- what the counters held, plus the tokens.
    pub persist-get_token_stats :
        (thread agent : String) (ts : TokenStats) (d : r.Db)
        → CountersHaveRoom ((r.view d).hashes stats_total_key) ts
        → CountersHaveRoom ((r.view d).hashes (stats_agent_key agent)) ts
        → MasterHasRoom ((r.view d).hashes (thread_state_key thread)) ts
        → let d' = (do_all r (persist_master_token_stats thread ts agent) d).1 in
          ((get_token_stats r parse_int stats_total_key d').0
            ≡ ok (add_stats (token_stats_of parse_int ((r.view d).hashes stats_total_key)) ts))
          × ((get_token_stats r parse_int (stats_agent_key agent) d').0
              ≡ ok (
                  add_stats
                    (token_stats_of parse_int ((r.view d).hashes (stats_agent_key agent)))
                    ts))
          × ((get_master_token_stats r parse_int thread d').0
              ≡ ok (
                  add_stats
                    (master_stats_of parse_int ((r.view d).hashes (thread_state_key thread)))
                    ts))
    unfolding do_all
    persist-get_token_stats thread agent ts d total own master =
        let cs = persist_master_token_stats thread ts agent in
        let d' = (do_all r cs d).1 in
        let after = persisted thread agent ts (r.view d) in
        let seen : r.view d' ≡ run r.next_text cs (r.view d) = write_up r up cs (λ _. tt) d in
        (
          get_token_stats-up stats_total_key d'
              ∙ ap (λ s. ok (token_stats_of parse_int (s.hashes stats_total_key))) seen
              ∙ ap (λ m. ok (token_stats_of parse_int m)) after.0
              ∙ ap ok (counted-stats ((r.view d).hashes stats_total_key) ts total),
          get_token_stats-up (stats_agent_key agent) d'
              ∙ ap (λ s. ok (token_stats_of parse_int (s.hashes (stats_agent_key agent)))) seen
              ∙ ap (λ m. ok (token_stats_of parse_int m)) after.1
              ∙ ap ok (counted-stats ((r.view d).hashes (stats_agent_key agent)) ts own),
          get_master_token_stats-up thread d'
              ∙ ap (λ s. ok (master_stats_of parse_int (s.hashes (thread_state_key thread)))) seen
              ∙ ap (λ m. ok (master_stats_of parse_int m)) after.2
              ∙ ap ok (master-stats ((r.view d).hashes (thread_state_key thread)) ts master),
        )
