-- ===== src/Workers/Stats.antt =====
-- `GetWorkerStats` and `GetWorkerInfo`. The maps are lists of their entries, each once.
use ai_agents.Events.{push_system_event}
use ai_agents.Listing.{second_part}
use ai_agents.Prelude.{
  suc, String, Bool, true, false, not, any, or_empty, ◌&&◌, ◌||◌, Option, none, some, List, [], ◌∷◌,
  ◌++◌, ◌==◌, if◌then◌else◌,
}
use ai_agents.Redis.Client.{M, ◌>>=◌, ◌>>◌, pure, wrapped, attempt, request, get, get_nil, hgetall}
use ai_agents.Redis.Commands.{Fields, Keyspace, Redis, read, scan}
use ai_agents.Redis.Keys.{heartbeat_key, task_key, active_tasks, str_name, str_key}
use ai_agents.Types.{Host, Event, TaskInfo, worker_offline, no_detail}
use ai_agents.Workers.{HeartbeatData, WorkerInfo, BeatCodec, is_alive, parse_heartbeat_worker_name}

abbrev pub Stats : Type 0
Stats = List (String × WorkerInfo)

abbrev pub empty_info : WorkerInfo
empty_info = record {
  instances = 0;
  online = 0;
  total_active = 0;
  total_threads = 0;
  agent_type = "";
  role = "";
}

abbrev pub info_in : Stats → String → Option WorkerInfo
info_in [] worker = none
info_in ((w, i) ∷ stats) worker = if w == worker then some i else info_in stats worker

-- the entry of a worker, if there is one
abbrev pub change : (WorkerInfo → WorkerInfo) → String → Stats → Stats
change f worker [] = []
change f worker ((w, i) ∷ stats) =
    if w == worker then (w, f i) ∷ stats else (w, i) ∷ change f worker stats

abbrev pub with_entry : String → Stats → Stats
with_entry worker stats =
    if any (λ e. e.0 == worker) stats then stats else stats ++ (worker, empty_info) ∷ []

abbrev pub one_more : WorkerInfo → WorkerInfo
one_more i = record i { instances = suc i.instances; online = suc i.online }

-- a text that is still empty
abbrev or_new : String → String → String
or_new old new = if old == "" && not (new == "") then new else old

abbrev pub described : HeartbeatData → WorkerInfo → WorkerInfo
described hb i = record i {
  agent_type = or_new i.agent_type hb.agent_type;
  role = or_new i.role hb.role;
}

abbrev pub is_unknown : Option WorkerInfo → Bool
is_unknown none = false
is_unknown (some i) = i.agent_type == "" || i.role == ""

abbrev pub one_active : WorkerInfo → WorkerInfo
one_active i = record i { total_active = suc i.total_active }

abbrev pub one_thread : WorkerInfo → WorkerInfo
one_thread i = record i { total_threads = suc i.total_threads }

-- the pairs of a thread and a worker of it
abbrev pub Pairs : Type 0
Pairs = List (String × String)

abbrev pub add_pair : String → String → Pairs → Pairs
add_pair thread worker ps =
    if any (λ p. p.0 == thread && p.1 == worker) ps then ps else ps ++ (thread, worker) ∷ []

abbrev add_known : String → String → Pairs → Pairs
add_known thread worker ps =
    if not (thread == "") && not (worker == "") then add_pair thread worker ps else ps

abbrev pub count_entry : Option TaskInfo → Stats × Pairs → Stats × Pairs
count_entry none (stats, ps) = (stats, ps)
count_entry (some info) (stats, ps) =
    (change one_active info.worker stats, add_known info.thread_id info.worker ps)

abbrev pub count_threads : Pairs → Stats → Stats
count_threads [] stats = stats
count_threads ((thread, worker) ∷ ps) stats = count_threads ps (change one_thread worker stats)

abbrev pub lost : String → Event
lost worker = record {
  kind = worker_offline;
  task_id = "";
  worker_type = worker;
  agent_type = "";
  worker_hostname = "";
  correlation_id = "";
  detail = no_detail;
}

abbrev pub parsed_beat : BeatCodec → Option String → Option HeartbeatData
parsed_beat c none = none
parsed_beat c (some raw) = c.parse_beat raw

abbrev pub described_by : Option HeartbeatData → String → Stats → Stats
described_by none worker stats = stats
described_by (some hb) worker stats = change (described hb) worker stats

module _ (r : Redis) (h : Host) (c : BeatCodec) where
  abbrev pub counted_entries : Fields → Stats × Pairs → Stats × Pairs
  counted_entries [] sp = sp
  counted_entries ((id, raw) ∷ fields) sp =
      counted_entries fields (count_entry (h.codec.parse_info raw) sp)

  -- agent type and role, where one of them is not known yet
  unfoldable pub describe : String → String → Stats → M r.Db Stats
  describe x worker stats = if not (is_unknown (info_in stats worker)) then pure stats else do
    raw ← attempt none (get_nil r (heartbeat_key x))
    pure (described_by (parsed_beat c raw) worker stats)

  abbrev pub count_live : String → String → Stats → Bool → M r.Db Stats
  count_live x worker stats false = do push_system_event r h (lost worker); pure stats
  count_live x worker stats true =
      describe x worker (change one_more worker (with_entry worker stats))

  -- The key is given by what stands between "worker:" and ":heartbeat".
  unfoldable pub count_key : String → Stats → M r.Db Stats
  count_key x stats =
      let worker = parse_heartbeat_worker_name (str_name (heartbeat_key x)) in
      if worker == "" then pure stats else do
        live ← attempt false (
            request r (read (str_key (heartbeat_key x)) ∷ [])
              (λ s. is_alive (s.ttls (str_key (heartbeat_key x)))))
        count_live x worker stats live

  unfoldable pub count_keys : List String → Stats → M r.Db Stats
  count_keys [] stats = pure stats
  count_keys (x ∷ xs) stats = do counted ← count_key x stats; count_keys xs counted

  unfoldable pub count_workers : List (Keyspace → List String) → Stats → M r.Db Stats
  count_workers [] stats = pure stats
  count_workers (page_of ∷ pages) stats = do
    keys ← wrapped "scan workers" (request r (scan ∷ []) page_of)
    counted ← count_keys keys stats
    count_workers pages counted

  unfoldable pub pair_of : String → Pairs → M r.Db Pairs
  pair_of x ps = do
    thread ← get r (task_key x "thread_id")
    if thread == "" then pure ps else do
      worker ←
          get r (task_key (or_empty (second_part (str_name (task_key x "thread_id")))) "worker")
      pure (if worker == "" then ps else add_pair thread worker ps)

  unfoldable pub pairs_of : List String → Pairs → M r.Db Pairs
  pairs_of [] ps = pure ps
  pairs_of (x ∷ xs) ps = do more ← pair_of x ps; pairs_of xs more

  -- An error ends the scan, and what it found is kept.
  abbrev scan_on : Option (List String) → Pairs → (Pairs → M r.Db Pairs) → M r.Db Pairs
  scan_on none ps next = pure ps
  scan_on (some keys) ps next = do more ← pairs_of keys ps; next more

  unfoldable pub scan_pairs : List (Keyspace → List String) → Pairs → M r.Db Pairs
  scan_pairs [] ps = pure ps
  scan_pairs (page_of ∷ pages) ps = do
    keys ← attempt none (request r (scan ∷ []) (λ s. some (page_of s)))
    scan_on keys ps (scan_pairs pages)

  module _ (beat_pages task_pages : List (Keyspace → List String)) where
    -- what the two scans find, page by page
    unfoldable pub get_worker_stats : M r.Db Stats
    get_worker_stats = do
      online ← count_workers beat_pages []
      active ← attempt [] (hgetall r active_tasks)
      let (stats, pairs) = counted_entries active (online, [])
      all_pairs ← scan_pairs task_pages pairs
      pure (count_threads all_pairs stats)

    abbrev or_zero_info : Option WorkerInfo → WorkerInfo
    or_zero_info none = empty_info
    or_zero_info (some i) = i

    unfoldable pub get_worker_info : String → M r.Db WorkerInfo
    get_worker_info worker = do stats ← get_worker_stats; pure (or_zero_info (info_in stats worker))
