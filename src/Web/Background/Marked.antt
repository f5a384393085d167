-- ===== src/Web/Background/Marked.antt =====
-- The loops over the output of a process, and the mark of the thread.
use ai_agents.Enqueue.State.{Anything}
use ai_agents.History.{append_message}
use ai_agents.Prelude.{
  String, Bool, ◌≡◌, refl, ◌∙◌, sym, true, false, none, some, List, [], ◌∷◌, arith, ◌==◌, Option,
  if◌then◌else◌,
}
use ai_agents.Redis.Client.{M, attempt}
use ai_agents.Redis.Commands.{Redis, Keyspace}
use ai_agents.Redis.Reads.{Up}
use ai_agents.Redis.Triple.{
  Triple, Triple-bind, Triple-attempt, Triple-pure, Triple-if, Triple-weaken,
}
use ai_agents.Types.{Host}
use ai_agents.Web.Stream.{agent_message, Stream, write_message}
use ai_agents.Web.Background.Completed.{
  Complete, KeepsComplete, Keeps-append_text, Marks, Marks-write_error_message,
  Marks-write_response_message, Marks-complete_thread,
}
use ai_agents.Tokens.Agents.{Block}
use ai_agents.Web.Stream.{
  Read, StreamMessage, Stream, handle_assistant_message, extract_text, write_result, stream_message,
  stream_line, process_stream_json, process_plain_text,
}
use ai_agents.Waiting.Released.{Triple-Anything}

module _ (r : Redis) (h : Host) (thread : String) (up : Up r) where
  abbrev pub Done : Keyspace → Type 0
  Done = Complete r h thread

  -- after any start
  pub anew :
      {A : Type 0} {P : Keyspace → Type 0} {m : M r.Db A}
      → Marks r h thread up m
      → Triple r P m (λ _. Done) (λ _. Done)
  anew t = record { at = λ d p. t.at d tt }

  -- the mark is there once there was a result
  abbrev pub Marked : Stream → Keyspace → Type 0
  Marked st s = st.completed ≡ true → Done s

  abbrev pub StaysMarked : {A : Type 0} → Bool → M r.Db A → Type 0
  StaysMarked b m = Triple r (λ s. b ≡ true → Done s) m (λ _ s. b ≡ true → Done s) (λ _. Done)

  pub never : {X : Type 0} → false ≡ true → X
  never e = absurd (ground (arith, e))

  pub StaysMarked-attempt :
      {A : Type 0} (b : Bool) (a : A) (m : M r.Db A)
      → KeepsComplete r h thread m
      → StaysMarked b (attempt a m)
  StaysMarked-attempt true a m t =
      Triple-weaken r _ Done (λ _. Done) (λ _. Done) (λ s p. p refl) (λ a s q _. q) (λ e s q. q)
        (Triple-attempt r a m t)
  StaysMarked-attempt false a m t = Triple-attempt r a m (
      Triple-weaken r _ Anything (λ _. Anything) (λ _. Anything) (λ s p. tt) (λ a s q. never)
        (λ e s q. never) (Triple-Anything r m))

  StaysMarked-write_message :
      (b : Bool) (kind content : String) → StaysMarked b (write_message r h thread kind content)
  unfolding write_message append_message
  StaysMarked-write_message b kind content =
      StaysMarked-attempt b tt _ (Keeps-append_text r h thread _)

  StaysMarked-handle :
      (b : Bool) (message : Option (List Block))
      → StaysMarked b (handle_assistant_message r h thread message)
  unfolding handle_assistant_message
  StaysMarked-handle b message =
      Triple-if r (extract_text message == "") _ _ (λ _. Triple-pure r _ (λ s p. p))
        (λ _.
          Triple-bind r (λ _ s. b ≡ true → Done s) _ _ (StaysMarked-write_message b _ _)
            (λ _. Triple-pure r _ (λ s p. p)))

  Marks-write_result :
      (msg : StreamMessage) (last : String) → Marks r h thread up (write_result r h thread msg last)
  unfolding write_result
  Marks-write_result msg last =
      Triple-if r msg.is_error _ _ (λ _. Marks-write_error_message r h thread up _)
        (λ _.
          Triple-if r (msg.result == last) _ _ (λ _. Marks-complete_thread r h thread up)
            (λ _. Marks-write_response_message r h thread up msg.result))

  same_mark :
      (b : Bool) (st : Stream) (content : String)
      → (if b then st else record st { last_written = content }).completed ≡ st.completed
  same_mark true st content = refl
  same_mark false st content = refl

  abbrev pub MarkedAfter : Stream → M r.Db Stream → Type 0
  MarkedAfter st m = Triple r (Marked st) m Marked (λ _. Done)

  Marked-stream_message :
      (msg : StreamMessage) (st : Stream) → MarkedAfter st (stream_message r h thread msg st)
  unfolding stream_message
  Marked-stream_message msg st =
      Triple-if r (msg.kind == "assistant") _ _
        (λ _.
          Triple-bind r (λ _. Marked st) _ _ (StaysMarked-handle st.completed msg.message)
            (λ c. Triple-pure r _ (λ s p e. p (sym (same_mark (c == "") st c) ∙ e))))
        (λ _.
          Triple-if r (msg.kind == "result") _ _
            (λ _.
              Triple-bind r (λ _. Done) _ _ (anew (Marks-write_result msg st.last_written))
                (λ _. Triple-pure r _ (λ s p _. p)))
            (λ _.
              Triple-if r (msg.kind == "usage") _ _ (λ _. Triple-pure r _ (λ s p. p))
                (λ _. Triple-pure r _ (λ s p. p))))

  Marked-stream_line :
      (m : Option StreamMessage) (st : Stream) → MarkedAfter st (stream_line r h thread m st)
  Marked-stream_line none st = Triple-pure r _ (λ s p. p)
  Marked-stream_line (some msg) st = Marked-stream_message msg st

  pub Marked-stream :
      (parse : String → Option StreamMessage) (ls : List Read) (st : Stream)
      → MarkedAfter st (process_stream_json r h parse thread ls st)
  unfolding process_stream_json
  Marked-stream parse [] st = Triple-pure r _ (λ s p. p)
  Marked-stream parse (l ∷ ls) st =
      Triple-if r l.cancelled _ _ (λ _. Triple-pure r _ (λ s p. p))
        (λ _.
          Triple-if r (l.text == "") _ _
            (λ _.
              Triple-if r l.ended _ _ (λ _. Triple-pure r _ (λ s p. p))
                (λ _. Marked-stream parse ls st))
            (λ _.
              Triple-bind r Marked _ _ (Marked-stream_line (parse l.text) st)
                (λ next. Marked-stream parse ls next)))

  -- a plain text is read without an error
  abbrev pub Reads : {A : Type 0} → M r.Db A → Type 0
  Reads m = Triple r Anything m (λ _. Anything) (λ _. Done)

  Reads-write_message : (kind content : String) → Reads (write_message r h thread kind content)
  unfolding write_message
  Reads-write_message kind content =
      let m = append_message r h.codec thread (agent_message r h kind content) in
      Triple-attempt r tt m (Triple-Anything r m)

  pub Reads-plain : (ls : List Read) (full : String) → Reads (process_plain_text r h thread ls full)
  unfolding process_plain_text
  Reads-plain [] full = Triple-pure r _ (λ s p. p)
  Reads-plain (l ∷ ls) full =
      Triple-if r l.cancelled _ _ (λ _. Triple-pure r _ (λ s p. p))
        (λ _.
          Triple-bind r (λ _. Anything) _ _
            (Triple-if r (l.text == "") _ _ (λ _. Triple-pure r _ (λ s p. p))
              (λ _. Reads-write_message "plan" l.text))
            (λ _.
              Triple-if r l.ended _ _ (λ _. Triple-pure r _ (λ s p. p)) (λ _. Reads-plain ls _)))
