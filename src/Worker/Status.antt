-- ===== src/Worker/Status.antt =====
-- What the end of a task leaves in its status.
use mathlib.Core.Path.{subst}
use ai_agents.Locks.{is_terminal}
use ai_agents.Prelude.{
  [], if◌then◌else◌, ℤ, negsuc, ℕ, String, ◌≡◌, refl, sym, ap, ◌∙◌, inl, inr, Bool, true, false,
  ◌&&◌, Option, none, some, List, ◌∷◌, ◌++◌, ◌==◌, eq_refl, or_empty, Bool-cases,
}
use ai_agents.Redis.Commands.{Keyspace, Cmd, put_ttl, has, run, Redis, set, set_nx, incr, expire}
use ai_agents.Redis.Keys.{name, task_key, counter_key, stats_total_key, stats_agent_key, str_key}
use ai_agents.Types.{TokenStats, Host, ttl_task, ttl_stats}
use ai_agents.Worker.{
  Job, Execution, World, positive, counters, optional, token_field, persist_token_stats, set_field,
  cancel_cmds,
}
use ai_agents.Worker.Process.{report, Report, is_zero, counted, store}

run-append :
    (next_text : ℤ → Option String → String) (xs ys : List Cmd) (s : Keyspace)
    → run next_text (xs ++ ys) s ≡ run next_text ys (run next_text xs s)
run-append next_text [] ys s = refl
run-append next_text (x ∷ xs) ys s = run-append next_text xs ys _

-- the commands leave the status of a task as it is
record KeepsStatus (next_text : ℤ → Option String → String) (id : String) (cs : List Cmd)
    : Type 0 where
  same :
      (s : Keyspace)
      → (run next_text cs s).strings (task_key id "status") ≡ s.strings (task_key id "status")

KeepsStatus-append :
    {next_text : ℤ → Option String → String} {id : String} {xs ys : List Cmd}
    → KeepsStatus next_text id xs
    → KeepsStatus next_text id ys
    → KeepsStatus next_text id (xs ++ ys)
KeepsStatus-append {next_text} {id} {xs} {ys} f g = record {
  same = λ s.
      ap (λ u. u.strings (task_key id "status")) (run-append next_text xs ys s)
      ∙ g.same _
      ∙ f.same s;
}

module _ (r : Redis) (h : Host) (w : World) (job : Job) where
  abbrev Ended : Keyspace → Type 0
  Ended s = is_terminal (or_empty (s.strings (task_key job.task_id "status"))) ≡ true

  set-KeepsStatus :
      (name value : String) (ttl : Option ℕ)
      → (name == "status") ≡ false
      → KeepsStatus r.next_text job.task_id (set (task_key job.task_id name) value ttl ∷ [])
  set-KeepsStatus name value ttl other = record { same = λ s. rw (eq_refl job.task_id, other) refl }

  set_nx-KeepsStatus :
      (name value : String) (ttl : Option ℕ)
      → (name == "status") ≡ false
      → KeepsStatus r.next_text job.task_id (set_nx (task_key job.task_id name) value ttl ∷ [])
  set_nx-KeepsStatus name value ttl other = record {
    same = λ s. elim (Bool-cases (has (str_key (task_key job.task_id name)) s)) [
      | inl there ↦ rw there refl
      | inr missing ↦ rw (missing, eq_refl job.task_id, other) refl
    ];
  }

  optional-KeepsStatus :
      (b : Bool) (c : Cmd)
      → KeepsStatus r.next_text job.task_id (c ∷ [])
      → KeepsStatus r.next_text job.task_id (optional b c)
  optional-KeepsStatus true c k = k
  optional-KeepsStatus false c k = record { same = λ s. refl }

  token_field-KeepsStatus :
      (name : String) (n : ℤ)
      → (name == "status") ≡ false
      → KeepsStatus r.next_text job.task_id (token_field r h w job.task_id name n)
  token_field-KeepsStatus name n other =
      optional-KeepsStatus (positive n) _ (set-KeepsStatus name (w.decimal n) (some ttl_task) other)

  persist-KeepsStatus :
      (ts : TokenStats)
      → KeepsStatus r.next_text job.task_id (persist_token_stats r h w job.task_id ts)
  unfolding persist_token_stats
  persist-KeepsStatus ts =
      KeepsStatus-append {xs = counters stats_total_key ts} (record { same = λ s. refl })
        (KeepsStatus-append {xs = counters (stats_agent_key w.agent_type) ts}
          (record { same = λ s. refl })
          (KeepsStatus-append (token_field-KeepsStatus "input_tokens" ts.input_tokens refl) (
            KeepsStatus-append (token_field-KeepsStatus "output_tokens" ts.output_tokens refl) (
              KeepsStatus-append
                (token_field-KeepsStatus "cache_read_tokens" ts.cache_read_tokens refl)
                (KeepsStatus-append
                  (token_field-KeepsStatus "cache_write_tokens" ts.cache_write_tokens refl)
                  (token_field-KeepsStatus "reasoning_tokens" ts.reasoning_tokens refl))))))

  counted-KeepsStatus :
      (status stderr : String)
      → KeepsStatus r.next_text job.task_id (counted r h w job status stderr)
  counted-KeepsStatus status stderr = record {
    same = λ s. elim (Bool-cases (status == "failed")) [
      | inl f ↦ rw (f, eq_refl job.task_id) refl
      | inr n ↦ rw n refl
    ];
  }

  pub store-Ended :
      (rep : Report) (stderr : String) (s : Keyspace)
      → is_terminal rep.status ≡ true
      → Ended (run r.next_text (store r h w job rep stderr) s)
  store-Ended rep stderr s t =
      let first : List Cmd =
        set_field r h w job "result" rep.result
        ∷ set_field r h w job "exit_code" (w.decimal rep.exit_code)
        ∷ set_field r h w job "completed_at" w.completed_at
        ∷ set_field r h w job "status" rep.status
        ∷ [] in
      subst (λ o. is_terminal (or_empty o) ≡ true)
        (sym (
          (KeepsStatus-append (counted-KeepsStatus rep.status stderr) (record {
            same = λ u.
                (persist-KeepsStatus rep.stats).same
                  (put_ttl (str_key (counter_key "task_total")) _ u);
          })).same
            (run r.next_text first s)))
        (rw (eq_refl job.task_id) t)

  pub report-terminal :
      (timeout : ℤ) (e : Execution) → is_terminal (report w timeout e).status ≡ true
  unfolding report
  report-terminal timeout e = elim (Bool-cases (e.failed && e.ended_late)) [
    | inl late ↦ rw late refl
    | inr other ↦ elim (Bool-cases (is_zero (if e.failed then negsuc 0 else e.exit_code))) [
      | inl zero_code ↦ rw (other, zero_code) refl
      | inr code ↦ rw (other, code) refl
    ]
  ]

  pub cancel-Ended :
      (previous : String) (s : Keyspace)
      → Ended (run r.next_text (cancel_cmds r h w job previous) s)
  cancel-Ended previous s =
      let sets : List Cmd =
        set_field r h w job "result" "Cancelled by orchestrator"
        ∷ set_field r h w job "exit_code" "-1"
        ∷ set_field r h w job "completed_at" w.completed_at
        ∷ set_field r h w job "cancelled_at" w.completed_at
        ∷ set_field r h w job "cancelled_previous_status" previous
        ∷ [] in
      let after_sets : List Cmd =
        expire (str_key (task_key job.task_id "cancelled_by")) ttl_task
        ∷ incr (counter_key "task_cancelled")
        ∷ expire (str_key (counter_key "task_cancelled")) ttl_stats
        ∷ expire (str_key (counter_key "task_total")) ttl_stats
        ∷ [] in
      subst (λ o. is_terminal (or_empty o) ≡ true)
        (sym (
          (KeepsStatus-append {xs = sets} (record { same = λ u. rw (eq_refl job.task_id) refl })
              (KeepsStatus-append {ys = after_sets}
                (set_nx-KeepsStatus "cancelled_by" "system" none refl)
                (record { same = λ u. refl }))).same
            (run r.next_text (set_field r h w job "status" "cancelled" ∷ []) s)))
        (rw (eq_refl job.task_id) refl)
