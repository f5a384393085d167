-- ===== src/Workers/Values.antt =====
-- The counts in the entries of the workers, and how they grow.
use ai_agents.Types.{Host, TaskInfo}
use ai_agents.Redis.Keys.{str_name, str_key, heartbeat_key}
use ai_agents.Redis.Commands.{Redis, Fields, Keyspace}
use ai_agents.Prelude.{
  eqb, not, Option, none, some, List, ◌+◌, ◌&&◌, ℕ, suc, String, Bool, true, false, any, ◌==◌,
  eq_iff, eq_refl, [], ◌∷◌, ◌++◌, ◌≡◌, refl, ap, arith, if◌then◌else◌, Bool-cases, inl, inr, ◌∙◌,
}
use ai_agents.Workers.{HeartbeatData, BeatCodec, parse_heartbeat_worker_name, is_alive, WorkerInfo}
use ai_agents.Workers.Stats.{
  described, described_by, one_thread, one_active, Pairs, count_threads, counted_entries,
  count_entry, Stats, change, with_entry, empty_info, one_more,
}

-- the name in the heartbeat key that has this text between "worker:" and ":heartbeat"
abbrev pub name_of : String → String
name_of x = parse_heartbeat_worker_name (str_name (heartbeat_key x))

-- there is time left
abbrev pub has_time : Option ℕ → Bool
has_time none = false
has_time (some ttl) = not (eqb ttl 0)

pub is_alive-has_time : (o : Option ℕ) → is_alive o ≡ has_time o
is_alive-has_time none = refl
is_alive-has_time (some ttl) = ground arith

abbrev pub has_ttl : Keyspace → String → Bool
has_ttl s x = has_time (s.ttls (str_key (heartbeat_key x)))

-- how many of the keys have a time to live and name the worker, and how many on all pages
abbrev pub alive_on : (String → Bool) → String → List String → ℕ
alive_on live worker [] = 0
alive_on live worker (x ∷ xs) =
    let rest = alive_on live worker xs in if live x && name_of x == worker then suc rest else rest

abbrev pub alive_keys : (String → Bool) → String → List (List String) → ℕ
alive_keys live worker [] = 0
alive_keys live worker (page ∷ pages) = alive_on live worker page + alive_keys live worker pages

module _ (g : WorkerInfo → ℕ) where
  -- a count of a worker, 0 if it has no entry
  abbrev pub value : Stats → String → ℕ
  value [] w = 0
  value ((v, i) ∷ stats) w = if v == w then g i else value stats w

  pub value-change :
      (f : WorkerInfo → WorkerInfo) (v w : String) (stats : Stats)
      → ((i : WorkerInfo) → g (f i) ≡ g i)
      → value (change f v stats) w ≡ value stats w
  value-change f v w [] keep = refl
  value-change f v w ((u, i) ∷ stats) keep = go (u == v) (value-change f v w stats keep)
    where
      go :
          (b : Bool)
          → value (change f v stats) w ≡ value stats w
          → value (if b then (u, f i) ∷ stats else (u, i) ∷ change f v stats) w
            ≡ value ((u, i) ∷ stats) w
      go true e = ap (λ n. if u == w then n else value stats w) (keep i)
      go false e = ap (λ n. if u == w then g i else n) e

  value-with_entry :
      (v w : String) (stats : Stats)
      → g empty_info ≡ 0
      → value (stats ++ (v, empty_info) ∷ []) w ≡ value stats w
  value-with_entry v w [] z = ground (arith, z)
  value-with_entry v w ((u, i) ∷ stats) z =
      ap (λ n. if u == w then g i else n) (value-with_entry v w stats z)

  any-with_entry :
      (v : String) (stats : Stats) → any (λ e. e.0 == v) (stats ++ (v, empty_info) ∷ []) ≡ true
  any-with_entry v [] = ground (arith, eq_refl v)
  any-with_entry v ((u, i) ∷ stats) = ground (arith, any-with_entry v stats)

  value-one_more :
      (v w : String) (stats : Stats)
      → ((i : WorkerInfo) → g (one_more i) ≡ suc (g i))
      → any (λ e. e.0 == v) stats ≡ true
      → value (change one_more v stats) w ≡ (if v == w then suc (value stats w) else value stats w)
  value-one_more v w [] more e = absurd (ground (arith, e))
  value-one_more v w ((u, i) ∷ stats) more e = elim (Bool-cases (u == v)) [
    | inl same ↦ rw (same) (ground (arith, more i, ap (λ z. z == w) ((eq_iff u v).0 same)))
    | inr other ↦ rw (other) (
        ground (
          arith,
          value-one_more v w stats more (ground (arith, e, other)),
          other,
          eq_iff u w,
          eq_iff v w,
          eq_iff u v,
        ))
  ]

  -- one more instance of a worker, whether it has an entry already or not
  pub value-entry :
      (v w : String) (stats : Stats)
      → g empty_info ≡ 0
      → ((i : WorkerInfo) → g (one_more i) ≡ suc (g i))
      → value (change one_more v (with_entry v stats)) w
        ≡ (if v == w then suc (value stats w) else value stats w)
  value-entry v w stats z more = elim (Bool-cases (any (λ e. e.0 == v) stats)) [
    | inl e ↦ rw (e) (value-one_more v w stats more e)
    | inr n ↦ rw (n) (
        value-one_more v w (stats ++ (v, empty_info) ∷ []) more (any-with_entry v stats)
        ∙ ap (λ n. if v == w then suc n else n) (value-with_entry v w stats z))
  ]

  pub described-value :
      ((hb : HeartbeatData) (i : WorkerInfo) → g (described hb i) ≡ g i)
      → (o : Option HeartbeatData) (v w : String) (stats : Stats)
      → value (described_by o v stats) w ≡ value stats w
  described-value keeps none v w stats = refl
  described-value keeps (some hb) v w stats = value-change (described hb) v w stats (keeps hb)

  pub threads-value :
      ((i : WorkerInfo) → g (one_thread i) ≡ g i)
      → (ps : Pairs) (w : String) (stats : Stats) → value (count_threads ps stats) w ≡ value stats w
  threads-value keeps [] w stats = refl
  threads-value keeps ((t, v) ∷ ps) w stats =
      threads-value keeps ps w (change one_thread v stats) ∙ value-change one_thread v w stats keeps

  pub entries-value :
      (r : Redis) (h : Host) (c : BeatCodec)
      → ((i : WorkerInfo) → g (one_active i) ≡ g i)
      → (w : String) (fields : Fields) (sp : Stats × Pairs)
      → value (counted_entries r h c fields sp).0 w ≡ value sp.0 w
  entries-value r h c keeps w [] sp = refl
  entries-value r h c keeps w ((id, raw) ∷ fields) sp =
      entries-value r h c keeps w fields (count_entry (h.codec.parse_info raw) sp)
      ∙ go (h.codec.parse_info raw)
    where
      go : (o : Option TaskInfo) → value (count_entry o sp).0 w ≡ value sp.0 w
      go none = refl
      go (some info) = value-change one_active info.worker w sp.0 keeps
