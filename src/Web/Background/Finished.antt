-- ===== src/Web/Background/Finished.antt =====
-- Every request that was not cancelled at its start ends with its thread marked complete.
use ai_agents.Locks.{release_request_lock}
use ai_agents.Waiting.Either.{from_either}
use ai_agents.Enqueue.State.{Anything}
use ai_agents.Prelude.{sym, ◌∙◌, String, ◌≡◌, refl, false, none, some, [], ◌∷◌, ◌==◌, Option}
use ai_agents.Redis.Client.{M, do_all}
use ai_agents.Redis.Commands.{set, del, Redis}
use ai_agents.Redis.Kept.{silent-Leaves, Triple-Leaves}
use ai_agents.Redis.Keys.{
  str_key, thread_running_key, thread_last_activity_key, thread_complete_key,
}
use ai_agents.Redis.Reads.{Up}
use ai_agents.Redis.Triple.{
  Triple-weaken, Triple, Triple-bind, Triple-attempt, Triple-pure, Triple-if,
}
use ai_agents.Tokens.Counters.{persist_master_token_stats}
use ai_agents.Types.{ttl_thread, Host, TokenStats}
use ai_agents.Web.Background.{
  unregister, Process, Settings, ContextEnd, live, deadline_exceeded, canceled, subprocess_body,
  run_subprocess, or_fail, read_output, read_stream, read_text, conclude_stream, conclude_text,
  conclude_live, conclude_exit, give_up_lock,
}
use ai_agents.Web.Background.Completed.{
  KeepsComplete, Marks, Marks-write_error_message, Marks-write_response_message,
}
use ai_agents.Web.Background.Marked.{
  never, StaysMarked-attempt, Done, Marked, anew, Marked-stream, Reads-plain,
}
use ai_agents.Web.Stream.{Stream, new_stream}
use ai_agents.Web.Submit.{update_thread_last_activity, Service, lift, free_slot}

module _ (r : Redis) (h : Host) (cfg : Settings) (thread : String) (up : Up r) (p : Process) where
  Ends-exit :
      (result : String) (e : Option String)
      → Marks r h thread up (conclude_exit r h cfg thread p result e)
  Ends-exit result (some e) = Marks-write_error_message r h thread up _
  Ends-exit result none =
      Triple-if r (result == "") _ _ (λ _. Marks-write_error_message r h thread up _)
        (λ _. Marks-write_response_message r h thread up result)

  Ends-live :
      (result : String) (c : ContextEnd)
      → Marks r h thread up (conclude_live r h cfg thread p result c)
  Ends-live result deadline_exceeded = Marks-write_error_message r h thread up _
  Ends-live result canceled = Marks-write_error_message r h thread up _
  Ends-live result live = Ends-exit result p.wait_error

  Ends-text : Marks r h thread up (read_text r h cfg thread p)
  unfolding read_text conclude_text
  Ends-text =
      Triple-bind r (λ _. Anything) _ _ (Reads-plain r h thread up p.reads "")
        (λ full. Ends-live (cfg.trim_space full) p.context_end)

  Keeps-persist :
      (ts : TokenStats)
      → KeepsComplete r h thread (do_all r (persist_master_token_stats thread ts h.agent_name))
  unfolding do_all persist_master_token_stats
  Keeps-persist ts =
      let cs = persist_master_token_stats thread ts h.agent_name in
      Triple-Leaves r (thread_complete_key thread) (some "1") cs _
        (silent-Leaves r.next_text (thread_complete_key thread) cs refl)

  Ends-conclude_stream :
      (st : Stream)
      → Triple r
          (Marked r h thread up st)
          (conclude_stream r h cfg thread p st.completed)
          (λ _. Done r h thread up)
          (λ _. Done r h thread up)
  unfolding conclude_stream
  Ends-conclude_stream st =
      Triple-if r st.completed _ _ (λ e. Triple-pure r _ (λ s q. q e))
        (λ _. anew r h thread up (Marks-write_error_message r h thread up _))

  Ends-stream : Marks r h thread up (read_stream r h cfg thread p)
  unfolding read_stream
  Ends-stream =
      Triple-bind r (Marked r h thread up) _ _
        (Triple-weaken r _ (Marked r h thread up new_stream) (Marked r h thread up)
          (λ _. Done r h thread up) (λ s _. never r h thread up) (λ st s q. q) (λ e s q. q)
          (Marked-stream r h thread up cfg.parse_stream p.reads new_stream))
        (λ st.
          Triple-bind r (λ _. Marked r h thread up st) _ _
            (StaysMarked-attempt r h thread up st.completed tt _ (Keeps-persist st.master_stats))
            (λ _. Ends-conclude_stream st))

  Ends-output : Marks r h thread up (read_output r h cfg thread p)
  unfolding read_output
  Ends-output =
      Triple-if r (cfg.output_format == "stream-json") _ _ (λ _. Ends-stream) (λ _. Ends-text)

  Ends-or_fail :
      (context : String) (e : Option String) (next : M r.Db (Unit {0}))
      → Marks r h thread up next
      → Marks r h thread up (or_fail r h cfg thread context e next)
  Ends-or_fail context none next t = t
  Ends-or_fail context (some e) next t = Marks-write_error_message r h thread up _

  Ends-body : p.cancelled_at_start ≡ false → Marks r h thread up (subprocess_body r h cfg thread p)
  unfolding subprocess_body
  Ends-body started = Ends-or_fail "failed to create workspace dir: " p.mkdir_error _ (
      Ends-or_fail "failed to create stdout pipe: " p.pipe_error _ (
        Ends-or_fail "failed to start claude: " p.start_error _ (
          Triple-if r p.cancelled_at_start _ _ (λ e. never r h thread up (sym started ∙ e))
            (λ _. Ends-output))))

  Keeps-give_up_lock : KeepsComplete r h thread (give_up_lock r h cfg thread)
  unfolding give_up_lock release_request_lock update_thread_last_activity do_all
  Keeps-give_up_lock =
      Triple-bind r (λ _. Done r h thread up) _ _
        (Triple-attempt r _ _ (
          Triple-Leaves r (thread_complete_key thread) (some "1")
            (del (str_key (thread_running_key thread) ∷ []) ∷ []) _ ((λ s. refl), tt)))
        (λ _. Triple-attempt r _ _ (
          Triple-Leaves r (thread_complete_key thread) (some "1")
            (set (thread_last_activity_key thread) h.now (some ttl_thread) ∷ []) _
            ((λ s. refl), tt)))

  -- Where requests are answered, a process that is not cancelled right after its start leaves its
  -- thread marked complete, however it ends: it could not be started, it is cancelled or timed out
  -- later, it fails, it is silent, or it gives a result, in either output format.
  pub run_subprocess-completes :
      (s : Service r.Db)
      → p.cancelled_at_start ≡ false
      → (r.view (run_subprocess r h cfg thread p s).1.db).strings (thread_complete_key thread)
        ≡ some "1"
  unfolding run_subprocess lift free_slot unregister give_up_lock
  run_subprocess-completes s started =
      let d = (subprocess_body r h cfg thread p s.db).1 in
      Keeps-give_up_lock.at d (
        from_either (Done r h thread up) (subprocess_body r h cfg thread p s.db).0 (r.view d)
          ((Ends-body started).at s.db tt))
