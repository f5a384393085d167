-- ===== src/Workers/Tally.antt =====
-- What the scan of `GetWorkerStats` adds to a count of a worker.
use ai_agents.Events.{push_text, push_system_event}
use ai_agents.Prelude.{
  ℕ, suc, not, ◌+◌, String, Bool, true, false, ◌&&◌, ◌==◌, eq_iff, Option, none, some, List, [],
  ◌∷◌, map, ◌≡◌, refl, ap, ◌∙◌, sym, arith, if◌then◌else◌,
}
use ai_agents.Redis.Client.{◌>>=◌, M, Result, ok, err, Error, get_nil, hgetall}
use ai_agents.Redis.Commands.{Redis, Keyspace}
use ai_agents.Redis.Keys.{str_key, heartbeat_key, system_events_key}
use ai_agents.Redis.Reads.{Up}
use ai_agents.Redis.Triple.{
  Outcome, Triple, Triple-if, Triple-pure, Triple-bind, Triple-attempt, Triple-request,
  Triple-wrapped, Triple-answered, Triple-one, Triple-weaken,
}
use ai_agents.Types.{Host}
use ai_agents.Workers.{WorkerInfo, HeartbeatData, BeatCodec}
use ai_agents.Workers.Stats.{
  Stats, described, parsed_beat, is_unknown, info_in, lost, change, with_entry, empty_info,
  one_more, one_active, one_thread, counted_entries, describe, count_live, count_key, count_keys,
  count_workers, scan_pairs, get_worker_stats,
}
use ai_agents.Workers.Values.{
  is_alive-has_time, described-value, threads-value, entries-value, name_of, has_ttl, alive_on,
  alive_keys, value, value-entry,
}
use mathlib.Core.Path.{subst}

-- a count that only `one_more` raises
module _ (g : WorkerInfo → ℕ) (none_yet : g empty_info ≡ 0)
    (more : (i : WorkerInfo) → g (one_more i) ≡ suc (g i))
    (keeps_described : (hb : HeartbeatData) (i : WorkerInfo) → g (described hb i) ≡ g i)
    (keeps_active : (i : WorkerInfo) → g (one_active i) ≡ g i)
    (keeps_thread : (i : WorkerInfo) → g (one_thread i) ≡ g i) where
  module _ (r : Redis) (up : Up r) (h : Host) (c : BeatCodec) (live : String → Bool) (w : String)
      (named : (w == "") ≡ false) where
    -- the keys that have a time to live stay the same
    abbrev Beating : Keyspace → Type 0
    Beating s = (x : String) → has_ttl s x ≡ live x

    abbrev Failed : Error → Keyspace → Type 0
    Failed e s = Unit

    abbrev Tally : ℕ → Stats → Keyspace → Type 0
    Tally n stats s = Beating s × (value g stats w ≡ n)

    push-Beating :
        (v : String) {E : Error → Keyspace → Type 0}
        → Triple r Beating (push_system_event r h (lost v)) (λ _. Beating) E
    unfolding push_system_event
    push-Beating v {E} =
        Triple-bind r (λ _. Beating) _ _ (go (h.codec.event_text (lost v)))
          (λ _.
            Triple-bind r (λ _. Beating) _ _ (Triple-one r _ (λ s p. p) (λ s p. p))
              (λ _. Triple-one r _ (λ s p. p) (λ s p. p)))
      where
        go :
            (o : Option String)
            → Triple r Beating (push_text r h system_events_key o) (λ _. Beating) E
        go none = Triple-pure r tt (λ s p. p)
        go (some text) = Triple-one r _ (λ s p. p) (λ s p. p)

    describe-Tally :
        (x v : String) (stats : Stats)
        → Triple r Beating (describe r h c x v stats) (Tally (value g stats w)) Failed
    unfolding describe get_nil
    describe-Tally x v stats =
        Triple-if r (not (is_unknown (info_in stats v))) _ _
          (λ _. Triple-pure r _ (λ s p. (p, refl)))
          (λ _.
            Triple-bind r (λ _. Beating) _ _
              (Triple-attempt r none _ (Triple-answered r _ _ (up _) (λ s p. p)))
              (λ raw.
                Triple-pure r _
                  (λ s p. (p, described-value g keeps_described (parsed_beat c raw) v w stats))))

    abbrev and_one : Bool → ℕ → ℕ
    and_one b n = if b then suc n else n

    count_live-Tally :
        (x v : String) (stats : Stats) (b : Bool)
        → Triple r Beating
            (count_live r h c x v stats b)
            (Tally (and_one (b && v == w) (value g stats w)))
            Failed
    count_live-Tally x v stats false =
        Triple-bind r (λ _. Beating) _ _ (push-Beating v) (λ _. Triple-pure r _ (λ s p. (p, refl)))
    count_live-Tally x v stats true =
        subst
          (λ n.
            Triple r Beating (describe r h c x v (change one_more v (with_entry v stats))) (Tally n)
              Failed)
          (value-entry g v w stats none_yet more)
          (describe-Tally x v (change one_more v (with_entry v stats)))

    not_counted :
        (x : String)
        → (name_of x == "") ≡ true
        → (b : Bool) (n : ℕ) → n ≡ and_one (b && name_of x == w) n
    not_counted x nameless b n =
        ground (arith, nameless, named, eq_iff (name_of x) "", eq_iff (name_of x) w, eq_iff w "")

    count_key-Tally :
        (x : String) (stats : Stats)
        → Triple r Beating
            (count_key r h c x stats)
            (Tally (and_one (live x && name_of x == w) (value g stats w)))
            Failed
    unfolding count_key
    count_key-Tally x stats =
        Triple-if r (name_of x == "") _ _
          (λ nameless.
            Triple-pure r _ (λ s p. (p, not_counted x nameless (live x) (value g stats w))))
          (λ _.
            Triple-bind r (λ b s. Beating s × (b ≡ live x)) _ _
              (Triple-attempt r false _ (
                Triple-answered r _ _ (up _)
                  (λ s p. (p, is_alive-has_time (s.ttls (str_key (heartbeat_key x))) ∙ p x))))
              (λ b. record {
                at = λ d p.
                    (subst
                        (λ b'.
                          Triple r Beating (count_live r h c x (name_of x) stats b)
                            (Tally (and_one (b' && name_of x == w) (value g stats w))) Failed)
                        p.1 (count_live-Tally x (name_of x) stats b)).at
                      d p.0;
              }))

    -- from the entries that were counted before
    counted_from :
        {A : Type 0} {m : M r.Db A} {Q : A → Keyspace → Type 0} (n : ℕ) (stats : Stats)
        → (value g stats w ≡ n → Triple r Beating m Q Failed)
        → Triple r (Tally n stats) m Q Failed
    counted_from n stats f = record { at = λ d p. (f p.1).at d p.0 }

    count_keys-Tally :
        (xs : List String) (stats : Stats)
        → Triple r Beating
            (count_keys r h c xs stats)
            (Tally (alive_on live w xs + value g stats w))
            Failed
    unfolding count_keys
    count_keys-Tally [] stats = Triple-pure r _ (λ s p. (p, omega arith))
    count_keys-Tally (x ∷ xs) stats =
        let n = and_one (live x && name_of x == w) (value g stats w) in
        Triple-bind r (Tally n) _ _ (count_key-Tally x stats) (λ counted.
          counted_from n counted (λ e.
            Triple-weaken r _ _ _ _ (λ s p. p)
              (λ a s q. (q.0, q.1 ∙ ap (λ m. alive_on live w xs + m) e ∙ ground arith)) (λ e s q. q)
              (count_keys-Tally xs counted)))

    count_workers-Tally :
        (found : List (List String)) (stats : Stats)
        → Triple r Beating
            (count_workers r h c (map (λ page s. page) found) stats)
            (Tally (alive_keys live w found + value g stats w))
            Failed
    unfolding count_workers
    count_workers-Tally [] stats = Triple-pure r _ (λ s p. (p, omega arith))
    count_workers-Tally (page ∷ pages) stats =
        Triple-bind r (λ keys s. Beating s × (keys ≡ page)) _ _
          (Triple-wrapped r _ _ (Triple-answered r _ _ (up _) (λ s p. (p, refl))))
          (λ keys. record {
            at = λ d p. (subst From (sym p.1) (from_page (count_workers-Tally pages))).at d p.0;
          })
      where
        From : List String → Type 0
        From keys =
            Triple r Beating
              (count_keys r h c keys stats >>= count_workers r h c (map (λ page s. page) pages))
              (Tally (alive_keys live w (page ∷ pages) + value g stats w)) Failed

        from_page :
            ((st : Stats)
              → Triple r Beating
                  (count_workers r h c (map (λ page s. page) pages) st)
                  (Tally (alive_keys live w pages + value g st w))
                  Failed)
            → From page
        from_page rest =
            let n = alive_on live w page + value g stats w in
            Triple-bind r (Tally n) _ _ (count_keys-Tally page stats) (λ counted.
              counted_from n counted (λ e.
                Triple-weaken r _ _ _ _ (λ s p. p)
                  (λ a s q. (q.0, q.1 ∙ ap (λ m. alive_keys live w pages + m) e ∙ omega arith))
                  (λ e s q. q) (rest counted)))

    -- what the scan of tasks leaves is not looked at
    anything :
        {A : Type 0} {P : Keyspace → Type 0} (m : M r.Db A) → Triple r P m (λ _ s. Unit {0}) Failed
    anything {A} m = record { at = λ d p. go (m d).0 (r.view (m d).1) }
      where
        go : (a : Result A) (s : Keyspace) → Outcome (λ _ s. Unit {0}) Failed a s
        go (ok x) s = tt
        go (err e) s = tt

    stats-value :
        (found : List (List String)) (task_pages : List (Keyspace → List String))
        → Triple r Beating
            (get_worker_stats r h c (map (λ page s. page) found) task_pages)
            (λ stats s. value g stats w ≡ alive_keys live w found)
            Failed
    unfolding get_worker_stats hgetall
    stats-value found task_pages =
        Triple-bind r (Tally (alive_keys live w found + 0)) _ _ (count_workers-Tally found [])
          (λ online. counted_from (alive_keys live w found + 0) online (λ e.
            Triple-bind r (λ _ s. Unit {0}) _ _
              (Triple-attempt r [] _ (Triple-request r _ _ (λ s p. tt) (λ s p n. tt)))
              (λ active.
                Triple-bind r (λ _ s. Unit {0}) _ _
                  (anything
                    (scan_pairs r h c task_pages (counted_entries r h c active (online, [])).1))
                  (λ pairs. Triple-pure r _ (λ s p.
                    threads-value g keeps_thread pairs w
                      (counted_entries r h c active (online, [])).0
                    ∙ entries-value g r h c keeps_active w active (online, [])
                    ∙ e
                    ∙ omega arith)))))

    pub worker_count :
        (found : List (List String)) (task_pages : List (Keyspace → List String)) (d : r.Db)
        {stats : Stats}
        → Beating (r.view d)
        → (get_worker_stats r h c (map (λ page s. page) found) task_pages d).0 ≡ ok stats
        → value g stats w ≡ alive_keys live w found
    worker_count found task_pages d {stats} p e =
        subst
          (λ a.
            Outcome (λ stats s. value g stats w ≡ alive_keys live w found) Failed a
              (r.view (get_worker_stats r h c (map (λ page s. page) found) task_pages d).1))
          e ((stats-value found task_pages).at d p)
