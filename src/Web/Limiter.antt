-- ===== src/Web/Limiter.antt =====
-- The rate limiter of cmd/webui/internal/api/middleware.go. Times are in nanoseconds; the map of
-- windows is a function, and an address without an entry has the empty window. `clean` is one tick
-- of `cleanup`.
pub mod Reference
use ai_agents.Prelude.{
  if◌then◌else◌, ℕ, ◌+◌, String, Bool, true, false, List, ◌∷◌, ◌++◌, ◌==◌, ltb, leb, length, filter,
}
use ai_agents.Prelude.{[]}

pub record Limiter : Type 0 where
  pub windows : String → List ℕ
  pub limit : ℕ
  pub interval : ℕ

abbrev pub put_window : String → List ℕ → (String → List ℕ) → String → List ℕ
put_window ip new windows j = if ip == j then new else windows j

-- `t.After(now.Add(-interval))`
abbrev pub recent : ℕ → ℕ → ℕ → Bool
recent interval now t = ltb now (t + interval)

unfoldable pub new_rate_limiter : ℕ → ℕ → Limiter
new_rate_limiter limit interval = record { windows = λ _. []; limit = limit; interval = interval }

unfoldable pub allow : String → ℕ → Limiter → Bool × Limiter
allow ip now rl =
    let valid = filter (recent rl.interval now) (rl.windows ip) in
    if leb rl.limit (length valid)
    then (false, record rl { windows = put_window ip valid rl.windows })
    else (true, record rl { windows = put_window ip (valid ++ now ∷ []) rl.windows })

unfoldable pub clean : ℕ → Limiter → Limiter
clean now rl = record rl { windows = λ ip. filter (recent rl.interval now) (rl.windows ip) }
