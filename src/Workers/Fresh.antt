-- ===== src/Workers/Fresh.antt =====
-- A heartbeat that was written can be read.
use ai_agents.Redis.Triple.{
  Outcome, Triple, Triple-bind, Triple-attempt, Triple-answered, Triple-pure, Triple-wrapped,
}
use mathlib.Core.Path.{subst}
use ai_agents.Prelude.{sym, String, Option, true, some, List, [], ◌∷◌, ◌≡◌, refl, ap, eq_refl}
use ai_agents.Redis.Client.{err, Result, Error, ok, request, do_all, get_nil}
use ai_agents.Redis.Commands.{Redis, Keyspace}
use ai_agents.Redis.Keys.{heartbeat_key, str_key}
use ai_agents.Redis.Reads.{Up, write_up}
use ai_agents.Workers.{HeartbeatData, BeatCodec, is_alive}
use ai_agents.Workers.Beats.{
  read_beat, instances_from, put_beat, update_worker_heartbeat, get_worker_instances, stamped,
  instance_of, alive,
}

module _ (r : Redis) (up : Up r) (c : BeatCodec) (old_keys : String → Keyspace → List String)
    (worker : String) where
  abbrev Beating : String → Keyspace → Type 0
  Beating text s =
      (s.strings (heartbeat_key worker) ≡ some text)
      × (is_alive (s.ttls (str_key (heartbeat_key worker))) ≡ true)

  abbrev Never : Error → Keyspace → Type 0
  Never e s = ⊥

  -- what a state with a heartbeat answers
  read_beat-Beating :
      (text : String) (hb : HeartbeatData)
      → Triple r
          (Beating text)
          (read_beat r c old_keys worker text (some hb))
          (λ a _. a ≡ instance_of hb text true ∷ [])
          Never
  unfolding alive
  read_beat-Beating text hb =
      Triple-bind r (λ online _. online ≡ true) _ _
        (Triple-attempt r _ _ (Triple-answered r _ _ (up _) (λ s p. p.1)))
        (λ online. Triple-pure r _ (λ s e. ap (λ b. instance_of hb text b ∷ []) e))

  get_worker_instances-Beating :
      (text : String) (hb : HeartbeatData)
      → c.parse_beat text ≡ some hb
      → Triple r
          (Beating text)
          (get_worker_instances r c old_keys worker)
          (λ a _. a ≡ instance_of hb text true ∷ [])
          Never
  unfolding get_worker_instances get_nil
  get_worker_instances-Beating text hb parsed =
      Triple-bind r (λ raw s. (raw ≡ some text) × Beating text s) _ _
        (Triple-wrapped r _ _ (Triple-answered r _ _ (up _) (λ s p. (p.0, p))))
        (λ raw. record { at = λ d p. (subst Reads (sym p.0) (some_read)).at d p.1 })
    where
      Reads : Option String → Type 0
      Reads o =
          Triple r (Beating text) (instances_from r c old_keys worker o)
            (λ a _. a ≡ instance_of hb text true ∷ []) Never

      some_read : Reads (some text)
      some_read = rw (parsed) (read_beat-Beating text hb)

  beaten_lem :
      (text : String) (d : r.Db) → Beating text (r.view (put_beat r c worker (some text) d).1)
  unfolding do_all
  beaten_lem text d = subst (Beating text) (sym (write_up r up _ _ d)) (simp eq_refl, simp eq_refl)

  put_lem : (text : String) (d : r.Db) → (put_beat r c worker (some text) d).0 ≡ ok tt
  unfolding do_all request
  put_lem text d = rw (up _ d) refl

  certain :
      {A : Type 0} (v : A) (a : Result A) (s : Keyspace)
      → Outcome (λ x _. x ≡ v) Never a s
      → a ≡ ok v
  certain v (ok x) s e = ap ok e
  certain v (err x) s e = absurd e

  -- Where requests are answered, and the JSON of the heartbeat is read as that heartbeat, what
  -- UpdateWorkerHeartbeat wrote is what GetWorkerInstances then returns: one instance with the data of
  -- the heartbeat, which is online.
  pub update_worker_heartbeat-get_worker_instances :
      (now : String) (hb : HeartbeatData) (d : r.Db) {text : String}
      → c.beat_text (stamped now hb) ≡ some text
      → c.parse_beat text ≡ some (stamped now hb)
      → ((update_worker_heartbeat r c now worker hb d).0 ≡ ok tt)
        × ((get_worker_instances r c old_keys worker
              (update_worker_heartbeat r c now worker hb d).1).0
            ≡ ok (instance_of (stamped now hb) text true ∷ []))
  unfolding update_worker_heartbeat
  update_worker_heartbeat-get_worker_instances now hb d {text} written parsed =
      subst Written (sym written) (
        put_lem text d,
        certain _ _ _
            ((get_worker_instances-Beating text (stamped now hb) parsed).at _ (beaten_lem text d)),
      )
    where
      Written : Option String → Type 0
      Written o =
          ((put_beat r c worker o d).0 ≡ ok tt)
          × ((get_worker_instances r c old_keys worker (put_beat r c worker o d).1).0
              ≡ ok (instance_of (stamped now hb) text true ∷ []))
