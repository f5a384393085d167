-- ===== src/Tasks/RoundTrip.antt =====
-- What Enqueue writes, GetTask reads.
use ai_agents.Enqueue.{pending_task, enqueue}
use ai_agents.Enqueue.Holds.{Enqueued}
use ai_agents.Enqueue.Outcome.{enqueue_success}
use ai_agents.Enqueue.State.{Pending}
use ai_agents.Prelude.{ℤ, String, ◌≡◌, refl, sym, ap, ◌∙◌, false, Option, ◌==◌, or_empty}
use ai_agents.Redis.Client.{request, ok}
use ai_agents.Redis.Commands.{Keyspace, Redis}
use ai_agents.Redis.Keys.{task_key}
use ai_agents.Redis.Reads.{Up}
use ai_agents.Tasks.{or_text, task_of, get_task}
use ai_agents.Types.{Task, Host}
use mathlib.Core.Path.{subst}

module _ (r : Redis) (up : Up r) (parse_int : String → Option ℤ) where
  abbrev stored : String → Keyspace → Task
  stored id s = task_of parse_int id (λ n. or_empty (s.strings (task_key id n)))

  get_task-up : (id : String) (d : r.Db) → (get_task r parse_int id d).0 ≡ ok (stored id (r.view d))
  unfolding get_task request
  get_task-up id d = rw (up _ d) refl

  -- the fields that Enqueue sets
  abbrev pub SameFields : Task → Task → Type 0
  SameFields t task =
      (t.task_id ≡ task.task_id)
      × (t.status ≡ task.status)
      × (t.worker ≡ task.worker)
      × (t.thread_id ≡ task.thread_id)
      × (t.description ≡ task.description)
      × (t.enqueued_at ≡ task.enqueued_at)

  stored-Pending :
      (h : Host) (id worker thread instruction : String) (s : Keyspace)
      → (h.now == "") ≡ false
      → Pending h id worker thread instruction s
      → SameFields (stored id s) (pending_task h id worker thread instruction)
  stored-Pending h id worker thread instruction s clock p = (
    refl,
    ap or_empty p.0,
    ap or_empty p.1,
    ap or_empty p.2,
    ap or_empty p.3,
    ap (λ o. or_text (or_empty (s.strings (task_key id "created_at"))) (or_empty o)) p.4
        ∙ rw clock refl,
  )

  -- Where requests are answered and the clock gives a text, if Enqueue returns a task, whatever came
  -- before, then GetTask of its ID returns a task with the same ID, status, worker, thread,
  -- description and time of enqueueing.
  pub enqueue-get_task :
      (h : Host) (worker thread instruction : String) (d : r.Db) {task : Task}
      → (h.now == "") ≡ false
      → (enqueue r h worker thread instruction d).0 ≡ ok task
      → (t : Task) × ((get_task r parse_int task.task_id
            (enqueue r h worker thread instruction d).1).0
          ≡ ok t)
        × SameFields t task
  enqueue-get_task h worker thread instruction d {task} clock e =
      let done : Enqueued r h worker thread instruction task
          (r.view (enqueue r h worker thread instruction d).1) =
        enqueue_success r h worker thread instruction d e in
      let d' : r.Db = (enqueue r h worker thread instruction d).1 in
      subst (λ k. (t : Task) × ((get_task r parse_int k.task_id d').0 ≡ ok t) × SameFields t k)
        (sym done.2)
        (
          stored done.0 (r.view d'),
          get_task-up done.0 d',
          stored-Pending h done.0 worker thread instruction (r.view d') clock done.3.3,
        )
