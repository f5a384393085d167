-- ===== src/Requeue/Kept.antt =====
-- No task is lost.
use ai_agents.Prelude.{ap}
use ai_agents.Redis.Client.{lrange_all}
use ai_agents.Redis.Commands.{incr, expire}
use ai_agents.Redis.Keys.{str_key}
use ai_agents.Redis.Reads.{Triple-read}
use ai_agents.Redis.Triple.{Outcome}
use ai_agents.Requeue.{requeue_stale}
use ai_agents.Prelude.{eq_refl}
use ai_agents.Redis.Commands.{apply, set, lpush, lrem}
use ai_agents.Types.{ttl_task}
use ai_agents.Prelude.{inl, inr, Bool-cases}
use ai_agents.Events.Pushed.{Triple-push_thread_event}
use ai_agents.Locks.{is_terminal}
use ai_agents.Prelude.{
  String, ◌≡◌, refl, ◌⊎◌, Bool, true, false, not, Option, none, some, List, ◌∷◌, arith, ◌==◌,
  eq_iff, or_empty, filter, any,
}
use ai_agents.Redis.Client.{Error, best_effort, get}
use ai_agents.Redis.Commands.{Keyspace, Cmd, run, Redis}
use ai_agents.Redis.Keys.{StrKey, task_key, queue_key, processing_key}
use ai_agents.Redis.Reads.{Triple-get, Up}
use ai_agents.Redis.Triple.{
  Triple, Triple-pure, Triple-attempt, Triple-weaken, Triple-bind, Triple-answered,
}
use ai_agents.Requeue.{
  Verdict, verdict, put_item_back, act, requeue_item, requeue_items, put_back, collect, leave,
}
use ai_agents.Types.{TaskPayload, Host}
use mathlib.Core.Path.{subst}
use ai_agents.Prelude.{[]}

abbrev holds : String → List String → Bool
holds x xs = any (λ y. y == x) xs

holds-other :
    (x y : String) (xs : List String)
    → (y == x) ≡ false
    → holds x xs ≡ true
    → holds x (filter (λ w. not (w == y)) xs) ≡ true
holds-other x y [] n m = m
holds-other x y (z ∷ xs) n m =
    ground (arith, n, m, holds-other x y xs n, eq_iff z x, eq_iff z y, eq_iff y x)

put_back-active :
    (older : String → Bool) (status last : String)
    → verdict older status last ≡ put_back
    → is_terminal status ≡ false
put_back-active older status last w = elim (Bool-cases (status == "done")) [
  | inl e ↦
      absurd
        (no_collect (subst (λ t. verdict older t last ≡ put_back) ((eq_iff status "done").0 e) w))
  | inr not_done ↦ elim (Bool-cases (status == "failed")) [
    | inl e ↦
        absurd (
          no_collect
            (subst (λ t. verdict older t last ≡ put_back) ((eq_iff status "failed").0 e) w))
    | inr not_failed ↦ elim (Bool-cases (status == "cancelled")) [
      | inl e ↦ absurd (
          no_collect
            (subst (λ t. verdict older t last ≡ put_back) ((eq_iff status "cancelled").0 e) w))
      | inr not_cancelled ↦ ground arith
    ]
  ]
]
  where
    no_collect : ¬ (collect ≡ put_back)
    no_collect e = cc

collect-ended :
    (older : String → Bool) (status last : String)
    → verdict older status last ≡ collect
    → is_terminal status ≡ true
collect-ended older status last w = ground (arith, w)

module _ (r : Redis) (up : Up r) (h : Host) (older : String → Bool) (worker : String) (x : String)
    (p : TaskPayload) (parses : h.codec.parse_payload x ≡ some p) where
  -- The entry is on the processing list or on the queue, or its task has ended.
  abbrev Safe : Keyspace → Type 0
  Safe s =
      (holds x (s.lists (processing_key worker)) ≡ true)
      ⊎ ((holds x (s.lists (queue_key worker)) ≡ true)
          ⊎ (is_terminal (or_empty (s.strings (task_key p.task_id "status"))) ≡ true))

  abbrev Elsewhere : Keyspace → Type 0
  Elsewhere s =
      (holds x (s.lists (queue_key worker)) ≡ true)
      ⊎ (is_terminal (or_empty (s.strings (task_key p.task_id "status"))) ≡ true)

  lrem-Safe :
      (item : String) (s : Keyspace)
      → Safe s
      → ((item == x) ≡ true → Elsewhere s)
      → Safe (apply r.next_text (lrem (processing_key worker) item) s)
  lrem-Safe item s (inr e) stays = inr e
  lrem-Safe item s (inl m) stays = elim (Bool-cases (item == x)) [
    | inl same ↦ inr (stays same)
    | inr other ↦ inl (rw (eq_refl worker) (holds-other x item _ other m))
  ]

  lpush-Safe :
      (item : String) (s : Keyspace)
      → Safe s
      → Safe (apply r.next_text (lpush (queue_key worker) item) s)
  lpush-Safe item s (inl m) = inl m
  lpush-Safe item s (inr (inr e)) = inr (inr e)
  lpush-Safe item s (inr (inl m)) = inr (inl (rw (eq_refl worker) (ground (arith, m))))

  pending-Safe :
      (q : TaskPayload) (s : Keyspace)
      → Safe s
      → is_terminal (or_empty (s.strings (task_key q.task_id "status"))) ≡ false
      → Safe (apply r.next_text (set (task_key q.task_id "status") "pending" (some ttl_task)) s)
  pending-Safe q s (inl m) n = inl m
  pending-Safe q s (inr (inl m)) n = inr (inl m)
  pending-Safe q s (inr (inr e)) n = inr (
      inr (elim (Bool-cases (q.task_id == p.task_id)) [
        | inl same ↦ absurd (
            ground (
              arith,
              n,
              e,
              ap (λ i. is_terminal (or_empty (s.strings (task_key i "status"))))
                  ((eq_iff q.task_id p.task_id).0 same),
            ))
        | inr other ↦ rw other e
      ]))

  retry-Safe :
      (q : TaskPayload) (s : Keyspace)
      → Safe s
      → Safe (
          run r.next_text
            (incr (task_key q.task_id "retry_count")
              ∷ expire (str_key (task_key q.task_id "retry_count")) ttl_task
              ∷ [])
            s)
  retry-Safe q s (inl m) = inl m
  retry-Safe q s (inr (inl m)) = inr (inl m)
  retry-Safe q s (inr (inr e)) = inr (
      inr (elim (Bool-cases (q.task_id == p.task_id)) [
        | inl same ↦ rw same e
        | inr other ↦ rw other e
      ]))

  -- an answered write
  Triple-do :
      (cs : List Cmd) (P Q : Keyspace → Type 0) {E : Error → Keyspace → Type 0}
      → ((s : Keyspace) → P s → Q (run r.next_text cs s))
      → Triple r P (best_effort r cs) (λ _. Q) E
  unfolding best_effort
  Triple-do cs P Q f = Triple-attempt r _ _ (Triple-answered r cs _ (up cs) f)

  -- and an answered read of a string
  Triple-see :
      (k : StrKey) (P : Keyspace → Type 0) {E : Error → Keyspace → Type 0}
      → Triple r P (get r k) (λ a s. P s × (a ≡ or_empty (s.strings k))) E
  unfolding get
  Triple-see k P = Triple-attempt r _ _ (Triple-answered r _ _ (up _) (λ s p. (p, refl)))

  -- what is known of the entry once another, or itself, is to be put back
  abbrev SafeFor : String → TaskPayload → Keyspace → Type 0
  SafeFor item q s =
      Safe s × (is_terminal (or_empty (s.strings (task_key q.task_id "status"))) ≡ false)

  put-Safe :
      (item : String) (q : TaskPayload) {E : Error → Keyspace → Type 0}
      → Triple r (SafeFor item q) (put_item_back r h older worker item q) (λ _. Safe) E
  unfolding put_item_back
  put-Safe item q =
      Triple-bind r (λ _ s. SafeFor item q s × (holds item (s.lists (queue_key worker)) ≡ true)) _ _
        (Triple-do _ _ _ (λ s p. ((lpush-Safe item s p.0, p.1), simp eq_refl)))
        (λ _.
          Triple-bind r (λ _. SafeFor item q) _ _
            (Triple-do _ _ _ (λ s p. (
              lrem-Safe item s p.0.0 (λ same. inl (
                  subst (λ y. holds y (s.lists (queue_key worker)) ≡ true) ((eq_iff item x).0 same)
                    p.1)),
              p.0.1,
            )))
            (λ _.
              Triple-bind r (λ _. Safe) _ _ (Triple-do _ _ _ (λ s p. pending-Safe q s p.0 p.1))
                (λ _.
                  Triple-bind r (λ _. Safe) _ _ (Triple-do _ _ _ (retry-Safe q))
                    (λ _.
                      Triple-push_thread_event r h q.thread_id _ (λ text s p. p) (λ s p. p)
                        (λ s p. p)))))

  item-Safe :
      (item : String) (o : Option TaskPayload)
      → h.codec.parse_payload item ≡ o
      → Triple r Safe (requeue_item r h older worker item o) (λ _. Safe) (λ _. Safe)
  unfolding requeue_item
  item-Safe item none e =
      Triple-bind r (λ _. Safe) _ _
        (Triple-do _ _ _ (λ s p.
          lrem-Safe item s p (λ same. absurd (let y : item ≡ x = (eq_iff item x).0 same in cc))))
        (λ _. Triple-pure r _ (λ s p. p))
  item-Safe item (some q) e =
      Triple-bind r
        (λ status s. Safe s × (status ≡ or_empty (s.strings (task_key q.task_id "status")))) _ _
        (Triple-see _ Safe)
        (λ status.
          Triple-bind r
            (λ last s. Safe s × (status ≡ or_empty (s.strings (task_key q.task_id "status")))) _ _
            (Triple-get r _) (λ last. act-Safe status last (verdict older status last) refl))
    where
      act-Safe :
          (status last : String) (v : Verdict)
          → verdict older status last ≡ v
          → Triple r
              (λ s. Safe s × (status ≡ or_empty (s.strings (task_key q.task_id "status"))))
              (act r h older worker item q v)
              (λ _. Safe)
              (λ _. Safe)
      act-Safe status last put_back w =
          Triple-bind r (λ _. Safe) _ _
            (Triple-weaken r _ (SafeFor item q) _ _
              (λ s p. (p.0, rw⁻¹ (p.1) (put_back-active older status last w))) (λ a s q. q)
              (λ e s q. q) (put-Safe item q))
            (λ _. Triple-pure r _ (λ s p. p))
      act-Safe status last collect w =
          Triple-bind r (λ _. Safe) _ _
            (Triple-do _ _ _ (λ s m. lrem-Safe item s m.0 (λ same.
              let y : item ≡ x = (eq_iff item x).0 same in
              let qp : q ≡ p = cc in
              inr (
                subst (λ t. is_terminal (or_empty (s.strings (task_key t.task_id "status"))) ≡ true)
                  qp (subst (λ z. is_terminal z ≡ true) m.1 (collect-ended older status last w))))))
            (λ _. Triple-pure r _ (λ s p. p))
      act-Safe status last leave w = Triple-pure r _ (λ s p. p.0)

  items-Safe :
      (items : List String)
      → Triple r Safe (requeue_items r h older worker items) (λ _. Safe) (λ _. Safe)
  unfolding requeue_items
  items-Safe [] = Triple-pure r _ (λ s p. p)
  items-Safe (item ∷ items) =
      Triple-bind r (λ _. Safe) _ _ (item-Safe item _ refl)
        (λ ids.
          Triple-bind r (λ _. Safe) _ _ (items-Safe items) (λ rest. Triple-pure r _ (λ s p. p)))

  -- Where requests are answered, an entry of the processing list with a payload is, when RequeueStale
  -- returns, on the processing list or on the worker's queue, or the status of its task is terminal.
  pub requeue_keeps :
      (d : r.Db)
      → holds x ((r.view d).lists (processing_key worker)) ≡ true
      → Outcome
          (λ _. Safe)
          (λ _. Safe)
          (requeue_stale r h older worker d).0
          (r.view (requeue_stale r h older worker d).1)
  unfolding requeue_stale lrange_all
  requeue_keeps d m = (Triple-bind r (λ _. Safe) _ _ (Triple-read r _ _) items-Safe).at d (inl m)
