-- ===== src/Tests/Rows.antt =====
-- The lists of tasks and threads at concrete inputs.
use mathlib.Core.List.Perm as Permuted
use ai_agents.Listing.{page, Lister, second_part}
use ai_agents.Listing.Ids.{second_part-name}
use ai_agents.Listing.Ordered.{rows-IsStrict}
use ai_agents.Listing.Pages.{pages_up_to, pages_cover}
use ai_agents.Listing.Rows.{all, list_tasks-rows}
use ai_agents.Listing.Sorted.{IsStrict}
use ai_agents.Listing.Tasks.{
  read_active, scan_tasks, kept_rows, enrich, filled, key_or, enrich_tokens, keeps, task_less,
  list_tasks,
}
use ai_agents.Listing.Threads.{thread_less}
use ai_agents.Prelude.{
  String, true, false, pos, ◌≡◌, ◌≤◌, refl, none, some, List, [], ◌∷◌, length, take,
}
use ai_agents.Redis.Client.{hgetall, request, get, ok}
use ai_agents.Redis.Commands.{Keyspace, put_str}
use ai_agents.Redis.Keys.{task_key, thread_state_key, str_name, hash_name}
use ai_agents.Tests.Server.{nothing, host, reliable}
use ai_agents.Types.{Task, empty_task}

-- a sort that finds its list in order already
abbrev lister : Lister
lister = record {
  sort = λ less xs. xs;
  any_order = λ xs. xs;
  lower = λ s. s;
  atoi = λ s. none;
  pages = (λ s. "t1" ∷ "t2" ∷ []) ∷ [];
}

abbrev two_tasks : Keyspace
two_tasks =
    put_str (task_key "t1" "status") (some "failed")
      (put_str (task_key "t2" "status") (some "done") nothing)

abbrev row : Task
row = record empty_task {
  task_id = "t2";
  status = "done";
  worker = "-";
  thread_id = "-";
  started_at = "-";
  enqueued_at = "-";
  completed_at = "-";
}

list_done :
    (list_tasks reliable
      (host "t").codec
      lister
      (λ s. none)
      ""
      "done"
      ""
      (pos 10)
      (pos 0)
      ""
      ""
      two_tasks).0
    ≡ ok (row ∷ [])
unfolding list_tasks read_active hgetall request scan_tasks kept_rows second_part str_name enrich
    filled key_or get enrich_tokens page
list_done = refl

list_tasks-rows_example : (length (row ∷ []) ≤ 10) × (all (keeps "" "done" "") (row ∷ []) ≡ true)
list_tasks-rows_example =
    list_tasks-rows reliable (host "t").codec lister (λ s. none) "" "done" "" "" "" (pos 10) (pos 0)
      (λ less ts. Permuted.refl ts) two_tasks list_done

abbrev letters : List String
letters = "a" ∷ "b" ∷ "c" ∷ []

pages_cover_example : pages_up_to 2 (pos 2) letters ≡ take 4 letters
pages_cover_example = pages_cover 2 (pos 2) letters

rows-IsStrict_example :
    IsStrict (task_less false "worker") (λ t. t.task_id)
    × IsStrict (thread_less (λ s. none) false "worker") (λ t. t.thread_id)
rows-IsStrict_example = rows-IsStrict (λ s. none) false "worker"

second_part-name_example :
    (second_part (str_name (task_key "t1" "status")) ≡ some "t1")
    × (second_part (hash_name (thread_state_key "t1")) ≡ some "t1")
second_part-name_example = second_part-name "t1" refl

-- an ID with a colon is cut
second_part_cut : second_part (str_name (task_key "a:b" "status")) ≡ some "a"
unfolding second_part str_name
second_part_cut = refl
