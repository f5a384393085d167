-- ===== src/Threads/State.antt =====
-- The state of a thread in tasklib/threads.go: `CreateThread`, `GetThread`, the deletion of a thread
-- with its descendants, and the entries of `active_tasks`.
pub mod Deleted
use ai_agents.Redis.Client.{◌>>=◌, ◌>>◌}
use ai_agents.Prelude.{
  if◌then◌else◌, ℕ, String, Option, none, some, List, ◌∷◌, ◌++◌, map, ◌==◌, or_empty,
}
use ai_agents.Redis.Client.{
  Error, Result, M, pure, raise, wrapped, do_all, best_effort, hgetall, not_encodable, no_random,
  during, not_found, ok, err,
}
use ai_agents.Redis.Commands.{Fields, field, Redis, del, expire, hset, hdel}
use ai_agents.Redis.Keys.{
  Key, thread_lock_key, thread_running_key, thread_complete_key, thread_session_id_key,
  thread_last_activity_key, thread_locked_at_key, thread_messages_key, thread_events_key,
  thread_state_key, active_tasks, str_key, list_key, hash_key,
}
use ai_agents.Types.{TaskInfo, Host, ttl_thread}
use ai_agents.Waiting.{check_parent}
use ai_agents.Prelude.{[]}

pub record Thread : Type 0 where
  pub thread_id : String
  pub status : String
  pub created_at : String
  pub updated_at : String
  pub gh_repo : String
  pub gh_pr_number : String
  pub last_design : String
  pub correlation_id : String
  pub parent_thread_id : String

-- `if v != "" { mapping[k] = v }`
abbrev optional_field : String → String → Fields
optional_field k v = if v == "" then [] else (k, v) ∷ []

abbrev value : String → Fields → String
value k fields = or_empty (field k fields)

abbrev thread_of : String → Fields → Thread
thread_of id fields = record {
  thread_id = id;
  status = value "status" fields;
  created_at = value "created_at" fields;
  updated_at = value "updated_at" fields;
  gh_repo = value "gh_repo" fields;
  gh_pr_number = value "gh_pr_number" fields;
  last_design = value "last_design" fields;
  correlation_id = value "correlation_id" fields;
  parent_thread_id = value "parent_thread_id" fields;
}

abbrev first_fields : Host → String → String → String → Fields
first_fields h correlation repo parent =
    ("status", "initiated")
    ∷ ("created_at", h.now)
    ∷ ("updated_at", h.now)
    ∷ ("correlation_id", correlation)
    ∷ (optional_field "gh_repo" repo ++ optional_field "parent_thread_id" parent)

abbrev pub deleted_keys : String → List Key
deleted_keys thread =
    hash_key (thread_state_key thread)
    ∷ list_key (thread_messages_key thread)
    ∷ list_key (thread_events_key thread)
    ∷ str_key (thread_complete_key thread)
    ∷ str_key (thread_running_key thread)
    ∷ str_key (thread_lock_key thread)
    ∷ str_key (thread_locked_at_key thread)
    ∷ str_key (thread_session_id_key thread)
    ∷ str_key (thread_last_activity_key thread)
    ∷ []

abbrev kept_keys : String → List Key
kept_keys thread =
    hash_key (thread_state_key thread)
    ∷ list_key (thread_messages_key thread)
    ∷ list_key (thread_events_key thread)
    ∷ str_key (thread_locked_at_key thread)
    ∷ str_key (thread_complete_key thread)
    ∷ str_key (thread_running_key thread)
    ∷ str_key (thread_session_id_key thread)
    ∷ str_key (thread_last_activity_key thread)
    ∷ []

module _ (r : Redis) where
  abbrev make_thread : Host → String → String → String → Option String → M r.Db Thread
  make_thread h thread repo parent none = raise (during "generate correlation_id" no_random)
  make_thread h thread repo parent (some correlation) = do
    if parent == "" then pure tt else check_parent r thread parent
    wrapped "thread create"
        (do_all r (hset (thread_state_key thread) (first_fields h correlation repo parent) ∷ []))
    best_effort r (expire (hash_key (thread_state_key thread)) ttl_thread ∷ [])
    pure (record {
      thread_id = thread;
      status = "initiated";
      created_at = h.now;
      updated_at = "";
      gh_repo = repo;
      gh_pr_number = "";
      last_design = "";
      correlation_id = correlation;
      parent_thread_id = parent;
    })

  unfoldable pub create_thread : Host → String → String → String → M r.Db Thread
  create_thread h thread repo parent = make_thread h thread repo parent h.uuid

  abbrev found_thread : String → Fields → M r.Db Thread
  found_thread thread [] = raise (not_found thread)
  found_thread thread (f ∷ fs) = pure (thread_of thread (f ∷ fs))

  unfoldable pub get_thread : String → M r.Db Thread
  get_thread thread = do fields ← hgetall r (thread_state_key thread); found_thread thread fields

  unfoldable pub delete_single_thread_keys : String → M r.Db (Unit {0})
  delete_single_thread_keys thread = do_all r (del (deleted_keys thread) ∷ [])

  abbrev pub failure : String → Result (Unit {0}) → List Error
  failure thread (ok _) = []
  failure thread (err e) = during thread e ∷ []

  abbrev pub report : List Error → Result (Unit {0})
  report [] = ok tt
  report (e ∷ es) = err (during "partial deletion" e)

  -- the errors of the deletions, each tried
  unfoldable pub delete_each : List String → r.Db → List Error × r.Db
  delete_each [] d = ([], d)
  delete_each (id ∷ ids) d =
      let (a, d') = delete_single_thread_keys id d in
      let (es, d'') = delete_each ids d' in (failure id a ++ es, d'')

  unfoldable pub delete_thread_known : String → List String → M r.Db (Unit {0})
  delete_thread_known thread descendants d =
      let (es, d') = delete_each (descendants ++ thread ∷ []) d in (report es, d')

  unfoldable pub set_thread_ttl : String → ℕ → M r.Db (Unit {0})
  set_thread_ttl thread ttl = do_all r (map (λ k. expire k ttl) (kept_keys thread))

  abbrev put_info : String → Option String → M r.Db (Unit {0})
  put_info id none = raise not_encodable
  put_info id (some text) = do_all r (hset active_tasks ((id, text) ∷ []) ∷ [])

  unfoldable pub set_active_task : Host → String → TaskInfo → M r.Db (Unit {0})
  set_active_task h id info = put_info id (h.codec.info_text info)

  unfoldable pub remove_active_task : String → M r.Db (Unit {0})
  remove_active_task id = do_all r (hdel active_tasks id ∷ [])
