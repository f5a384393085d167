-- ===== src/History/Tail.antt =====
-- `GetThreadHistoryTailForWorker` against its meaning.
use ai_agents.Prelude.{
  ℕ, zero, suc, ◌-◌, ◌≡◌, refl, String, List, [], ◌∷◌, ◌++◌, Bool, true, arith, length, take, drop,
  take_last, filter, filter-append, eqb, leb, Bool-cases, inl, inr, ap, sym, ◌∙◌, map,
  if◌then◌else◌,
}
use ai_agents.Redis.Keys.{thread_messages_key, list_key}
use ai_agents.Redis.Commands.{Redis}
use ai_agents.Redis.Client.{ok, M, ◌>>=◌, pure, llen}
use ai_agents.Redis.Reads.{Up, read_then}
use ai_agents.Types.{Codec, Message}
use ai_agents.History.{
  parse_one, parse_messages, addressed_to, lrange, scan_back, get_thread_history_tail_for_worker,
}
use ai_agents.History.Slices.{take-drop, take_last-append}
use ai_agents.History.Batches.{back, back-IsTailOf, IsTailOf}

module _ {A B : Type 0} (f : A → B) where
  map-take : (n : ℕ) (xs : List A) → map f (take n xs) ≡ take n (map f xs)
  map-take zero xs = refl
  map-take (suc n) [] = refl
  map-take (suc n) (x ∷ xs) = ap (λ ys. f x ∷ ys) (map-take n xs)

  map-drop : (n : ℕ) (xs : List A) → map f (drop n xs) ≡ drop n (map f xs)
  map-drop zero xs = refl
  map-drop (suc n) [] = refl
  map-drop (suc n) (x ∷ xs) = map-drop n xs

  length-map : (xs : List A) → length (map f xs) ≡ length xs
  length-map [] = refl
  length-map (x ∷ xs) = ap suc (length-map xs)

drop_all : {A : Type 0} (xs : List A) → drop (length xs) xs ≡ []
drop_all [] = refl
drop_all (x ∷ xs) = drop_all xs

-- A tail of the matches is a tail of `found`, if nothing but a front of enough others is missing.
IsTailOf-take_last :
    {A : Type 0} (p : A → Bool) (tail : ℕ) (xs found : List A)
    → IsTailOf p tail 100 xs found
    → take_last tail found ≡ take_last tail (filter p xs)
IsTailOf-take_last p tail xs found (stop, e, inl none_left) =
    ap (take_last tail) (e ∙ ap (λ n. filter p (drop n xs)) none_left)
IsTailOf-take_last p tail xs found (stop, e, inr enough) =
    ap (take_last tail) e
    ∙ sym (
        take_last-append tail (filter p (take stop xs)) (filter p (drop stop xs)) (rw (← e) enough))
    ∙ ap (take_last tail)
        (sym (filter-append p (take stop xs) (drop stop xs)) ∙ ap (filter p) (take-drop stop xs))

no_tail_lem : {A : Type 0} (tail : ℕ) (xs : List A) → eqb tail 0 ≡ true → [] ≡ take_last tail xs
no_tail_lem tail xs e =
    let full : length xs - tail ≡ length xs = ground arith in
    sym (ap (λ n. drop n xs) full ∙ drop_all xs)

drop_nil : {A : Type 0} (n : ℕ) → [] ≡ drop {A = A} n []
drop_nil zero = refl
drop_nil (suc n) = refl

empty_filter :
    {A : Type 0} (p : A → Bool) (tail : ℕ) (xs : List A)
    → eqb (length xs) 0 ≡ true
    → [] ≡ take_last tail (filter p xs)
empty_filter p tail [] e = drop_nil (0 - tail)
empty_filter p tail (x ∷ xs) e = absurd (ground arith)

pure_after :
    {D A B : Type 0} (m : M D A) (g : A → B) (d : D) {a : A}
    → (m d).0 ≡ ok a
    → ((m >>= λ x. pure (g x)) d).0 ≡ ok (g a)
pure_after m g d e = rw e refl

module _ (r : Redis) (up : Up r) (c : Codec) (thread worker : String) (tail : ℕ) where
  abbrev stored : r.Db → List Message
  stored d = parse_messages c ((r.view d).lists (thread_messages_key thread))

  -- a batch, parsed, is a window of the messages
  batch :
      (n m : ℕ) (d : r.Db) {xs : List Message}
      → stored d ≡ xs
      → parse_messages c (take n (drop m ((r.view d).lists (thread_messages_key thread))))
        ≡ take n (drop m xs)
  batch n m d e =
      map-take (parse_one c) n (drop m ((r.view d).lists (thread_messages_key thread)))
      ∙ ap (take n) (map-drop (parse_one c) m ((r.view d).lists (thread_messages_key thread)))
      ∙ ap (λ ys. take n (drop m ys)) e

  choice :
      (found found' : List Message) (rest : List Message → M r.Db (List Message))
      (rest' : List Message → List Message) (d : r.Db)
      → found ≡ found'
      → (rest found' d).0 ≡ ok (rest' found')
      → ((if leb tail (length found) then pure found else rest found) d).0
        ≡ ok (if leb tail (length found') then found' else rest' found')
  choice found found' rest rest' d e h = rw e (elim (Bool-cases (leb tail (length found'))) [
    | inl enough ↦ rw enough refl
    | inr more ↦ rw more h
  ])

  pub scan_back-back :
      (size fuel stop : ℕ) (collected : List Message) (d : r.Db) (xs : List Message)
      → stored d ≡ xs
      → (scan_back r c thread worker tail size fuel stop collected d).0
        ≡ ok (back (addressed_to worker) tail size xs fuel stop collected)
  unfolding scan_back back lrange
  scan_back-back size zero stop collected d xs e = refl
  scan_back-back size (suc fuel) stop collected d xs e = elim (Bool-cases (eqb stop 0)) [
    | inl done ↦ rw done refl
    | inr more ↦ rw more (
        let (d', same, run) =
          read_then r up (list_key (thread_messages_key thread))
            (λ s.
              take (stop - (stop - size))
                (drop (stop - size) (s.lists (thread_messages_key thread))))
            (λ raws.
              let found = filter (addressed_to worker) (parse_messages c raws) ++ collected in
              if leb tail (length found)
              then pure found
              else scan_back r c thread worker tail size fuel (stop - size) found)
            d in
        ap (λ q. q.0) run
        ∙ choice _ _ (scan_back r c thread worker tail size fuel (stop - size))
            (back (addressed_to worker) tail size xs fuel (stop - size)) d'
            (ap (λ ys. filter (addressed_to worker) ys ++ collected)
              (batch (stop - (stop - size)) (stop - size) d e))
            (scan_back-back size fuel (stop - size) _ d' xs
              (ap (λ s. parse_messages c (s.lists (thread_messages_key thread))) same ∙ e)))
  ]

  after_total :
      (d : r.Db)
      → let total = length ((r.view d).lists (thread_messages_key thread)) in
        ((if eqb total 0 then pure [] else do
          collected ← scan_back r c thread worker tail 100 total total []
          pure (take_last tail collected))
          d).0
        ≡ ok (take_last tail (filter (addressed_to worker) (stored d)))
  after_total d =
      let raws = (r.view d).lists (thread_messages_key thread) in
      let count : length (stored d) ≡ length raws = length-map (parse_one c) raws in
      elim (Bool-cases (eqb (length raws) 0)) [
        | inl none_stored ↦
            rw none_stored
              (ap ok (empty_filter (addressed_to worker) tail (stored d) (rw count none_stored)))
        | inr some_stored ↦ rw some_stored (
            pure_after (scan_back r c thread worker tail 100 (length raws) (length raws) [])
              (take_last tail) d
              (scan_back-back 100 (length raws) (length raws) [] d (stored d) refl)
            ∙ ap ok (
                IsTailOf-take_last (addressed_to worker) tail (stored d) _ (
                  back-IsTailOf (addressed_to worker) tail 100 (stored d) (length raws)
                    (length raws) [] (omega arith) (omega arith)
                    (sym (
                      ap (filter (addressed_to worker))
                        (ap (λ n. drop n (stored d)) (sym count) ∙ drop_all (stored d)))))))
      ]

  -- Where requests are answered, the scan over batches gives the last `tail` of all the messages
  -- of the thread that are addressed to the worker, in their order.
  pub tail_for_worker :
      (d : r.Db)
      → (get_thread_history_tail_for_worker r c thread tail worker d).0
        ≡ ok (take_last tail (filter (addressed_to worker) (stored d)))
  unfolding get_thread_history_tail_for_worker llen
  tail_for_worker d = elim (Bool-cases (eqb tail 0)) [
    | inl no_tail ↦ rw no_tail (ap ok (no_tail_lem tail _ no_tail))
    | inr some_tail ↦ rw some_tail (
        let (d', same, run) =
          read_then r up (list_key (thread_messages_key thread))
            (λ s. length (s.lists (thread_messages_key thread)))
            (λ total. if eqb total 0 then pure [] else do
              collected ← scan_back r c thread worker tail 100 total total []
              pure (take_last tail collected))
            d in
        ap (λ q. q.0) run
        ∙ rw (← ap (λ s. s.lists (thread_messages_key thread)) same) (after_total d'))
  ]
