-- ===== src/Web/Submit.antt =====
-- `Submit` of cmd/webui/internal/request/handler.go, up to the start of the background process: the
-- semaphore, the request lock and the registration for cancellation.
pub mod Slots
use ai_agents.History.{append_message}
use ai_agents.Locks.{is_thread_locked, acquire_request_lock, release_request_lock}
use ai_agents.Prelude.{
  if◌then◌else◌, ℕ, ◌+◌, ◌-◌, Bool, false, not, ◌&&◌, ◌||◌, some, List, ◌∷◌, ◌==◌, ltb, eqb,
  or_empty, codes, contains_any,
}
use ai_agents.Redis.Client.{
  M, ◌>>=◌, ◌>>◌, pure, raise, wrapped, attempt, on_error, request, do_all, get_nil, invalid,
  sentinel, ok, err,
}
use ai_agents.Redis.Commands.{Redis, set, del}
use ai_agents.Redis.Keys.{
  thread_complete_key, thread_session_id_key, thread_last_activity_key, str_key,
}
use ai_agents.Threads.State.{create_thread}
use ai_agents.Types.{Message, Host, ttl_thread}
use ai_agents.Waiting.{thread_exists, update_thread}
use ai_agents.Web.Access.{source}
use Prim.Native.String.{String}
use ai_agents.Prelude.{[]}

-- the client's state, the slots of `sem` that are taken, and the threads with a cancel function
pub record Service (D : Type 0) : Type 0 where
  pub db : D
  pub in_use : ℕ
  pub cancels : List String

abbrev starts_with_dot : List ℕ → Bool
starts_with_dot [] = false
starts_with_dot (c ∷ cs) = eqb c 46

abbrev has_two_dots : List ℕ → Bool
has_two_dots [] = false
has_two_dots (c ∷ cs) = let rest = has_two_dots cs in (eqb c 46 && starts_with_dot cs) || rest

unfoldable pub valid_thread_id : String → Bool
valid_thread_id id =
    if id == ""
    then false
    else not (has_two_dots (codes id)) && not (contains_any id (47 ∷ 92 ∷ 58 ∷ []))

module _ {D : Type 0} where
  unfoldable pub lift : {A : Type 0} → M D A → M (Service D) A
  lift m s = let (a, d) = m s.db in (a, record s { db = d })

  -- `select { case h.sem <- struct{}{}: default: return ErrConcurrencyLimit }`
  unfoldable pub take_slot : ℕ → M (Service D) (Unit {0})
  take_slot limit s =
      if ltb s.in_use limit
      then (ok tt, record s { in_use = s.in_use + 1 })
      else (err (sentinel "concurrency limit"), s)

  -- `<-h.sem`
  unfoldable pub free_slot : M (Service D) (Unit {0})
  free_slot s = (ok tt, record s { in_use = s.in_use - 1 })

  unfoldable pub register : String → M (Service D) (Unit {0})
  register thread s = (ok tt, record s { cancels = thread ∷ s.cancels })

module _ (r : Redis) (h : Host) where
  unfoldable pub get_thread_session_id : String → M r.Db String
  get_thread_session_id thread = do
    found ← get_nil r (thread_session_id_key thread)
    pure (or_empty found)

  unfoldable pub set_thread_session_id : String → String → M r.Db (Unit {0})
  set_thread_session_id thread session =
      do_all r (set (thread_session_id_key thread) session (some ttl_thread) ∷ [])

  unfoldable pub clear_thread_complete : String → M r.Db (Unit {0})
  clear_thread_complete thread = do_all r (del (str_key (thread_complete_key thread) ∷ []) ∷ [])

  unfoldable pub update_thread_last_activity : String → M r.Db (Unit {0})
  update_thread_last_activity thread =
      do_all r (set (thread_last_activity_key thread) h.now (some ttl_thread) ∷ [])

  abbrev user_message : String → Message
  user_message content = record {
    role = "user";
    kind = "request";
    content = content;
    timestamp = h.now;
    metadata = [];
    source = "";
  }

  unfoldable pub ensure_thread : String → String → M r.Db (Unit {0})
  ensure_thread thread repo = do
    found ← wrapped "check thread exists" (thread_exists r thread)
    if found
        then pure tt
        else do wrapped "create thread" (create_thread r h thread repo ""); pure tt

  -- the lock and the slot
  unfoldable pub give_back : String → M (Service r.Db) (Unit {0})
  give_back thread = do lift (attempt tt (release_request_lock r thread)); free_slot

  unfoldable pub mark_running : String → M r.Db (Unit {0})
  mark_running thread = do
    attempt tt (clear_thread_complete thread)
    is_locked ← attempt false (is_thread_locked r thread)
    if is_locked
        then pure tt
        else attempt tt (update_thread r h thread (("status", "running") ∷ []))

  -- a session whose file exists is resumed, another one is fresh
  unfoldable pub choose_session : (String → Bool) → String → String → String → M r.Db (Unit {0})
  choose_session session_file_exists fresh thread session =
      if not (session == "") && session_file_exists session
      then pure tt
      else wrapped "set session id" (set_thread_session_id thread fresh)

  -- with the request lock
  unfoldable pub start_request :
      (String → Bool) → String → String → String → String → M (Service r.Db) String
  start_request session_file_exists request_id fresh thread user_request = do
    on_error
        (lift (
          wrapped "append user message"
            (append_message r h.codec thread (user_message user_request))))
        (give_back thread)
    session ←
        on_error (lift (wrapped "get session id" (get_thread_session_id thread))) (give_back thread)
    on_error (lift (choose_session session_file_exists fresh thread session)) (give_back thread)
    lift (attempt tt (mark_running thread))
    register thread
    lift (attempt tt (update_thread_last_activity thread))
    pure request_id

  abbrev locked_or_busy :
      (String → Bool) → String → String → String → String → Bool → M (Service r.Db) String
  locked_or_busy session_file_exists request_id fresh thread user_request acquired =
      if acquired
      then start_request session_file_exists request_id fresh thread user_request
      else (do free_slot; raise (sentinel "thread busy"))

  -- the ID of the request
  unfoldable pub submit :
      (String → Bool) → ℕ → String → String → String → String → String → M (Service r.Db) String
  submit session_file_exists limit request_id fresh thread user_request repo =
      if not (valid_thread_id thread) then raise (invalid thread) else do
        take_slot limit
        on_error (lift (ensure_thread thread repo)) free_slot
        acquired ←
            on_error
              (lift (
                wrapped "acquire request lock"
                  (acquire_request_lock r thread request_id h.lock_ttl)))
              free_slot
        locked_or_busy session_file_exists request_id fresh thread user_request acquired
