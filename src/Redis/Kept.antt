-- ===== src/Redis/Kept.antt =====
-- Requests whose commands leave a text as it is.
use ai_agents.Prelude.{
  none, some, Bool, true, false, ◌&&◌, arith, ℕ, zero, suc, ℤ, String, Option, List, [], ◌∷◌, take,
  refl, ◌≡◌, ◌∙◌,
}
use ai_agents.Redis.Client.{request}
use ai_agents.Redis.Commands.{
  blmove, move_last, last_of, read, scan, set, set_nx, acquire, incr, del, expire, rpush, lpush,
  lrem, keep_last, hset, hincrby, hdel, sadd, srem, Keyspace, Cmd, apply, run, Redis,
}
use ai_agents.Redis.Keys.{ListKey, StrKey}
use ai_agents.Redis.Triple.{Triple, Triple-request}

module _ (next_text : ℤ → Option String → String) (k : StrKey) where
  -- each of the commands leaves the text at `k`
  abbrev pub Leaves : List Cmd → Type 0
  Leaves [] = Unit
  Leaves (c ∷ cs) = ((s : Keyspace) → (apply next_text c s).strings k ≡ s.strings k) × Leaves cs

  pub Leaves-take :
      (n : ℕ) (cs : List Cmd) (s : Keyspace)
      → Leaves cs
      → (run next_text (take n cs) s).strings k ≡ s.strings k
  Leaves-take zero cs s l = refl
  Leaves-take (suc n) [] s l = refl
  Leaves-take (suc n) (c ∷ cs) s (l, ls) = Leaves-take n cs (apply next_text c s) ls ∙ l s

  pub Leaves-run :
      (cs : List Cmd) (s : Keyspace) → Leaves cs → (run next_text cs s).strings k ≡ s.strings k
  Leaves-run [] s l = refl
  Leaves-run (c ∷ cs) s (l, ls) = Leaves-run cs (apply next_text c s) ls ∙ l s

module _ (r : Redis) (k : StrKey) (v : Option String) where
  abbrev pub Stays : Keyspace → Type 0
  Stays s = s.strings k ≡ v

  -- whether it is answered or not
  pub Triple-Leaves :
      {A : Type 0} (cs : List Cmd) (reply : Keyspace → A)
      → Leaves r.next_text k cs
      → Triple r Stays (request r cs reply) (λ _. Stays) (λ _. Stays)
  Triple-Leaves cs reply l =
      Triple-request r cs reply (λ s p. Leaves-run r.next_text k cs s l ∙ p)
        (λ s p n. Leaves-take r.next_text k n cs s l ∙ p)

-- the command writes no text
abbrev pub is_silent : Cmd → Bool
is_silent (read k) = true
is_silent scan = true
is_silent (expire k ttl) = true
is_silent (rpush k v) = true
is_silent (lpush k v) = true
is_silent (lrem k v) = true
is_silent (keep_last k n) = true
is_silent (hset k fs) = true
is_silent (hincrby k f n) = true
is_silent (hdel k f) = true
is_silent (srem k v) = true
is_silent (blmove from_key to_key) = true
is_silent _ = false

abbrev pub are_silent : List Cmd → Bool
are_silent [] = true
are_silent (c ∷ cs) = is_silent c && are_silent cs

module _ (next_text : ℤ → Option String → String) (k : StrKey) where
  moved_lem :
      (j i : ListKey) (o : Option String) (s : Keyspace)
      → (move_last j i o s).strings k ≡ s.strings k
  moved_lem j i none s = refl
  moved_lem j i (some v) s = refl

  silent_lem :
      (c : Cmd) (s : Keyspace) → is_silent c ≡ true → (apply next_text c s).strings k ≡ s.strings k
  silent_lem (read j) s e = refl
  silent_lem scan s e = refl
  silent_lem (expire j ttl) s e = refl
  silent_lem (rpush j v) s e = refl
  silent_lem (lpush j v) s e = refl
  silent_lem (lrem j v) s e = refl
  silent_lem (keep_last j n) s e = refl
  silent_lem (hset j fs) s e = refl
  silent_lem (hincrby j f n) s e = refl
  silent_lem (hdel j f) s e = refl
  silent_lem (srem j v) s e = refl
  silent_lem (blmove j i) s e = moved_lem j i (last_of (s.lists j)) s
  silent_lem (set j v ttl) s e = absurd (ground (arith, e))
  silent_lem (set_nx j v ttl) s e = absurd (ground (arith, e))
  silent_lem (acquire j at id ttl now) s e = absurd (ground (arith, e))
  silent_lem (incr j) s e = absurd (ground (arith, e))
  silent_lem (del ks) s e = absurd (ground (arith, e))
  silent_lem (sadd j v) s e = absurd (ground (arith, e))

  pub silent-Leaves : (cs : List Cmd) → are_silent cs ≡ true → Leaves next_text k cs
  silent-Leaves [] e = tt
  silent-Leaves (c ∷ cs) e =
      (λ s. silent_lem c s (ground (arith, e)), silent-Leaves cs (ground (arith, e)))
