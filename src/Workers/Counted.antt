-- ===== src/Workers/Counted.antt =====
-- What `GetWorkerStats` counts, whatever requests fail.
use ai_agents.Events.{push_system_event}
use mathlib.Core.Path.{subst}
use ai_agents.Redis.Keys.{str_name, heartbeat_key}
use ai_agents.Types.{Host, TaskInfo}
use ai_agents.Redis.Triple.{
  Outcome, Triple, Triple-if, Triple-pure, Triple-bind, Triple-attempt, Triple-request,
  Triple-wrapped,
}
use ai_agents.Redis.Commands.{Redis, Keyspace, Fields, Cmd}
use ai_agents.Redis.Client.{attempt, M, Result, ok, err, Error, request, get_nil, hgetall}
use ai_agents.Prelude.{not, String, Bool, true, false, ◌==◌, Option, none, some, List, [], ◌∷◌, ◌≡◌}
use ai_agents.Workers.{parse_heartbeat_worker_name, BeatCodec}
use ai_agents.Workers.Stats.{
  lost, scan_pairs, is_unknown, info_in, Pairs, counted_entries, count_entry, describe, count_live,
  count_keys, count_key, count_workers, get_worker_stats, parsed_beat, Stats, one_active,
}
use ai_agents.Workers.Entries.{
  AreCounted, change-AreCounted, entry-AreCounted, count_threads-AreCounted,
  described_by-AreCounted,
}

module _ (r : Redis) (h : Host) (c : BeatCodec) where
  counted_entries-AreCounted :
      (fields : Fields) (sp : Stats × Pairs)
      → AreCounted sp.0
      → AreCounted (counted_entries r h c fields sp).0
  counted_entries-AreCounted [] sp k = k
  counted_entries-AreCounted ((id, raw) ∷ fields) sp k =
      counted_entries-AreCounted fields (count_entry (h.codec.parse_info raw) sp)
        (go (h.codec.parse_info raw))
    where
      go : (o : Option TaskInfo) → AreCounted (count_entry o sp).0
      go none = k
      go (some info) = change-AreCounted one_active info.worker sp.0 (λ i j. j) k

  abbrev Anything : Keyspace → Type 0
  Anything s = Unit

  abbrev Failed : Error → Keyspace → Type 0
  Failed e s = Unit

  abbrev Sound : Stats → Keyspace → Type 0
  Sound stats s = AreCounted stats

  -- a method of which nothing is said
  silent : {A : Type 0} (m : M r.Db A) → Triple r Anything m (λ _. Anything) Failed
  silent {A} m = record { at = λ d p. go (m d).0 (r.view (m d).1) }
    where
      go : (a : Result A) (s : Keyspace) → Outcome (λ _. Anything) Failed a s
      go (ok x) s = tt
      go (err e) s = tt

  silent_request :
      {A : Type 0} (cs : List Cmd) (reply : Keyspace → A)
      → Triple r Anything (request r cs reply) (λ _. Anything) Failed
  silent_request cs reply = Triple-request r cs reply (λ s p. tt) (λ s p n. tt)

  describe-Sound :
      (x worker : String) (stats : Stats)
      → AreCounted stats
      → Triple r Anything (describe r h c x worker stats) Sound Failed
  unfolding describe get_nil
  describe-Sound x worker stats k =
      Triple-if r (not (is_unknown (info_in stats worker))) _ _ (λ _. Triple-pure r _ (λ s p. k))
        (λ _.
          Triple-bind r (λ _. Anything) _ _ (silent (attempt none (get_nil r (heartbeat_key x))))
            (λ raw.
              Triple-pure r _ (λ s p. described_by-AreCounted (parsed_beat c raw) worker stats k)))

  count_live-Sound :
      (x worker : String) (stats : Stats) (live : Bool)
      → AreCounted stats
      → Triple r Anything (count_live r h c x worker stats live) Sound Failed
  count_live-Sound x worker stats false k =
      Triple-bind r (λ _. Anything) _ _ (silent (push_system_event r h (lost worker)))
        (λ _. Triple-pure r _ (λ s p. k))
  count_live-Sound x worker stats true k =
      describe-Sound x worker _ (entry-AreCounted worker stats k)

  from :
      {A : Type 0} {Q : A → Keyspace → Type 0} {m : M r.Db A} (stats : Stats)
      → (AreCounted stats → Triple r Anything m Q Failed)
      → Triple r (Sound stats) m Q Failed
  from stats f = record { at = λ d k. (f k).at d tt }

  count_keys-Sound :
      (xs : List String) (stats : Stats)
      → AreCounted stats
      → Triple r Anything (count_keys r h c xs stats) Sound Failed
  unfolding count_keys count_key
  count_keys-Sound [] stats k = Triple-pure r _ (λ s p. k)
  count_keys-Sound (x ∷ xs) stats k =
      Triple-bind r Sound _ _
        (Triple-if r (parse_heartbeat_worker_name (str_name (heartbeat_key x)) == "") _ _
          (λ _. Triple-pure r _ (λ s p. k))
          (λ _.
            Triple-bind r (λ _. Anything) _ _ (Triple-attempt r _ _ (silent_request _ _))
              (λ live.
                count_live-Sound x (parse_heartbeat_worker_name (str_name (heartbeat_key x))) stats
                  live k)))
        (λ counted. from counted (count_keys-Sound xs counted))

  count_workers-Sound :
      (pages : List (Keyspace → List String)) (stats : Stats)
      → AreCounted stats
      → Triple r Anything (count_workers r h c pages stats) Sound Failed
  unfolding count_workers
  count_workers-Sound [] stats k = Triple-pure r _ (λ s p. k)
  count_workers-Sound (page_of ∷ pages) stats k =
      Triple-bind r (λ _. Anything) _ _ (Triple-wrapped r _ _ (silent_request _ _))
        (λ keys.
          Triple-bind r Sound _ _ (count_keys-Sound keys stats k)
            (λ counted. from counted (count_workers-Sound pages counted)))

  get_worker_stats-Sound :
      (beat_pages task_pages : List (Keyspace → List String))
      → Triple r Anything (get_worker_stats r h c beat_pages task_pages) Sound Failed
  unfolding get_worker_stats hgetall
  get_worker_stats-Sound beat_pages task_pages =
      Triple-bind r Sound _ _ (count_workers-Sound beat_pages [] tt) (λ online. from online (λ k.
        Triple-bind r (λ _. Anything) _ _ (Triple-attempt r _ _ (silent_request _ _))
          (λ active.
            Triple-bind r (λ _. Anything) _ _
              (silent (scan_pairs r h c task_pages (counted_entries r h c active (online, [])).1))
              (λ pairs. Triple-pure r _ (λ s p.
                count_threads-AreCounted pairs (counted_entries r h c active (online, [])).0
                  (counted_entries-AreCounted active (online, []) k))))))

  -- In what GetWorkerStats returns, whatever requests failed on the way, each worker has one entry,
  -- and the entry counts at least one instance, and as many online as there are instances.
  pub get_worker_stats-AreCounted :
      (beat_pages task_pages : List (Keyspace → List String)) (d : r.Db) {stats : Stats}
      → (get_worker_stats r h c beat_pages task_pages d).0 ≡ ok stats
      → AreCounted stats
  get_worker_stats-AreCounted beat_pages task_pages d {stats} e =
      subst
        (λ a. Outcome Sound Failed a (r.view (get_worker_stats r h c beat_pages task_pages d).1)) e
        ((get_worker_stats-Sound beat_pages task_pages).at d tt)
