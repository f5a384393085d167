-- ===== src/Workers/Names.antt =====
-- The name of the worker in the name of a heartbeat key.
use ai_agents.Listing.Ids.{colon_free, before_colon_lem, after_colon_lem}
use ai_agents.Prelude.{
  ℕ, suc, String, true, some, none, List, ◌∷◌, [], ◌≡◌, refl, ap, ◌∙◌, ◌+s◌, text_assoc,
}
use ai_agents.Redis.Keys.{str_name, heartbeat_key}
use ai_agents.Workers.{split_n, parse_heartbeat_worker_name, old_format, new_format}

split_first :
    (n : ℕ) (p x : String) → colon_free p ≡ true → split_n (suc n) (p +s ":" +s x) ≡ p ∷ split_n n x
split_first n p x h =
    rw (split_n, after_colon_lem p x h) (ap (λ t. t ∷ split_n n x) (before_colon_lem p x h))

-- what is read from the two ways to split a key
abbrev named : List String → List String → String
named four three = elim (old_format four) [ some name ↦ name | none ↦ new_format three ]

new_name :
    (worker : String)
    → colon_free worker ≡ true
    → parse_heartbeat_worker_name ("worker" +s ":" +s worker +s ":" +s "heartbeat") ≡ worker
unfolding parse_heartbeat_worker_name
new_name worker h =
    let rest : String = worker +s ":" +s "heartbeat" in
    let four : split_n 3 ("worker" +s ":" +s rest) ≡ "worker" ∷ worker ∷ "heartbeat" ∷ [] =
      split_first 2 "worker" rest refl ∙ ap (◌∷◌ "worker") (split_first 1 worker "heartbeat" h) in
    let three : split_n 2 ("worker" +s ":" +s rest) ≡ "worker" ∷ worker ∷ "heartbeat" ∷ [] =
      split_first 1 "worker" rest refl ∙ ap (◌∷◌ "worker") (split_first 0 worker "heartbeat" h) in
    λ i. named (four i) (three i)

old_name :
    (worker hostname : String)
    → colon_free worker ≡ true
    → colon_free hostname ≡ true
    → parse_heartbeat_worker_name
        ("worker" +s ":" +s worker +s ":" +s hostname +s ":" +s "heartbeat")
      ≡ worker
unfolding parse_heartbeat_worker_name
old_name worker hostname h k =
    let last : String = hostname +s ":" +s "heartbeat" in
    let key : String = "worker" +s ":" +s worker +s ":" +s last in
    let four : split_n 3 key ≡ "worker" ∷ worker ∷ hostname ∷ "heartbeat" ∷ [] =
      split_first 2 "worker" (worker +s ":" +s last) refl
      ∙ ap (◌∷◌ "worker")
          (split_first 1 worker last h ∙ ap (◌∷◌ worker) (split_first 0 hostname "heartbeat" k)) in
    ap (λ l. named l (split_n 2 key)) four

-- Where the name of a worker and a hostname have no colon, ParseHeartbeatWorkerName finds the name in
-- the heartbeat key of the worker, and in its key of the old format, which has the hostname too.
pub parse_heartbeat_worker_name-name :
    (worker hostname : String)
    → colon_free worker ≡ true
    → colon_free hostname ≡ true
    → (parse_heartbeat_worker_name (str_name (heartbeat_key worker)) ≡ worker)
      × (parse_heartbeat_worker_name (str_name (heartbeat_key (worker +s ":" +s hostname)))
          ≡ worker)
unfolding str_name
parse_heartbeat_worker_name-name worker hostname h k = (
  ap parse_heartbeat_worker_name (text_assoc "worker" ":" (worker +s ":heartbeat"))
      ∙ new_name worker h,
  ap parse_heartbeat_worker_name (
        text_assoc "worker" ":" ((worker +s ":" +s hostname) +s ":heartbeat")
        ∙ ap (λ t. "worker" +s ":" +s t)
            (text_assoc worker (":" +s hostname) ":heartbeat"
              ∙ ap (λ t. worker +s t) (text_assoc ":" hostname ":heartbeat")))
      ∙ old_name worker hostname h k,
)
