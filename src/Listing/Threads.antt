-- ===== src/Listing/Threads.antt =====
-- `ListThreads` of tasklib/threads.go.
use ai_agents.Listing.{Lister, text_lt, directed, ascending, second_part}
use ai_agents.Listing.Tasks.{by_text, by_number}
use ai_agents.Prelude.{
  ◌||◌, ℤ, ℕ, String, Bool, not, ◌==◌, ltb_ℤ, Option, none, some, List, [], ◌∷◌, ◌++◌,
  if◌then◌else◌, pos,
}
use ai_agents.Redis.Client.{M, ◌>>=◌, pure, wrapped, attempt, request, hgetall}
use ai_agents.Redis.Commands.{Fields, field, Keyspace, Redis, scan}
use ai_agents.Redis.Keys.{hash_name, thread_state_key}
use ai_agents.Threads.State.{Thread}

abbrev value_or : String → Option String → String
value_or default none = default
value_or default (some v) = v

abbrev pub state_val : Fields → String → String → String
state_val m key default = value_or default (field key m)

abbrev thread_row : String → Fields → Thread
thread_row id state = record {
  thread_id = id;
  status = state_val state "status" "unknown";
  created_at = state_val state "created_at" "-";
  updated_at = state_val state "updated_at" "-";
  gh_repo = state_val state "gh_repo" "-";
  gh_pr_number = state_val state "gh_pr_number" "-";
  last_design = "";
  correlation_id = state_val state "correlation_id" "";
  parent_thread_id = state_val state "parent_thread_id" "";
}

abbrev pub thread_status_order : String → ℕ
thread_status_order status =
    if status == "error"
    then 0
    else if status == "running"
    then 1
    else if status == "cancelled"
    then 2
    else if status == "complete"
    then 3
    else if status == "initiated"
    then 4
    else if status == "reviewing"
    then 5
    else if status == "unknown"
    then 6
    else 0

-- `ParsePRNumber`, with none for its error
abbrev pub parse_pr_number : (String → Option ℤ) → String → Option ℤ
parse_pr_number atoi s = if s == "" then some (pos 0) else atoi s

abbrev pub by_pr : Bool → Option ℤ → Option ℤ → String → String → Bool → Bool
by_pr asc (some i) (some j) x y tie =
    if ltb_ℤ i j || ltb_ℤ j i then directed asc (ltb_ℤ i j) else tie
by_pr asc (some i) none x y tie = asc
by_pr asc none (some j) x y tie = not asc
by_pr asc none none x y tie = by_text asc x y tie

-- the comparison of ListThreads
unfoldable pub thread_less : (String → Option ℤ) → Bool → String → Thread → Thread → Bool
thread_less atoi asc sort_by a b =
    let by_id = directed asc (text_lt a.thread_id b.thread_id) in
    if sort_by == "status"
    then by_number asc (thread_status_order a.status) (thread_status_order b.status) by_id
    else if sort_by == "repo"
    then by_text asc a.gh_repo b.gh_repo by_id
    else if sort_by == "pr"
    then by_pr asc (parse_pr_number atoi a.gh_pr_number) (parse_pr_number atoi b.gh_pr_number)
        a.gh_pr_number b.gh_pr_number by_id
    else if sort_by == "updated_at"
    then by_text asc a.updated_at b.updated_at by_id
    else if sort_by == "thread_id"
    then by_id
    else by_number asc (thread_status_order a.status) (thread_status_order b.status) by_id

module _ (r : Redis) where
  abbrev row_of : String → Option String → M r.Db (List Thread)
  row_of x none = pure []
  row_of x (some id) = do
    state ← attempt [] (hgetall r (thread_state_key x))
    pure (thread_row id state ∷ [])

  -- the rows of the keys of a SCAN
  unfoldable pub rows_of : List String → M r.Db (List Thread)
  rows_of [] = pure []
  rows_of (x ∷ xs) = do
    row ← row_of x (second_part (hash_name (thread_state_key x)))
    rows ← rows_of xs
    pure (row ++ rows)

  unfoldable pub scan_threads : List (Keyspace → List String) → M r.Db (List Thread)
  scan_threads [] = pure []
  scan_threads (page_of ∷ pages) = do
    keys ← wrapped "scan threads" (request r (scan ∷ []) page_of)
    rows ← rows_of keys
    rest ← scan_threads pages
    pure (rows ++ rest)

  unfoldable pub list_threads : Lister → String → String → M r.Db (List Thread)
  list_threads l sort_by sort_dir = do
    threads ← scan_threads l.pages
    pure (l.sort (thread_less l.atoi (ascending l sort_dir) sort_by) threads)
