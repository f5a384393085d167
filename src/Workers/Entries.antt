-- ===== src/Workers/Entries.antt =====
-- The entries of the workers, as the counts change them.
use ai_agents.Prelude.{
  suc, String, Bool, true, false, ◌||◌, ltb, any, ◌==◌, eq_iff, eq_refl, Option, none, some, [],
  ◌∷◌, ◌++◌, ◌≡◌, refl, ap, arith, if◌then◌else◌, Bool-cases, inl, inr,
}
use ai_agents.Workers.{WorkerInfo, HeartbeatData}
use ai_agents.Workers.Stats.{
  Pairs, count_threads, described_by, Stats, change, with_entry, empty_info, one_more, one_thread,
  described,
}

-- an instance is counted if and only if it is online, and there is one
abbrev pub IsCounted : WorkerInfo → Type 0
IsCounted i = (i.online ≡ i.instances) × (ltb 0 i.instances ≡ true)

-- each worker has one entry, which is counted
abbrev pub AreCounted : Stats → Type 0
AreCounted [] = Unit
AreCounted ((w, i) ∷ stats) = IsCounted i × (any (λ e. e.0 == w) stats ≡ false) × AreCounted stats

any-change :
    (f : WorkerInfo → WorkerInfo) (worker w : String) (stats : Stats)
    → any (λ e. e.0 == w) (change f worker stats) ≡ any (λ e. e.0 == w) stats
any-change f worker w [] = refl
any-change f worker w ((v, i) ∷ stats) = go (v == worker) (any-change f worker w stats)
  where
    go :
        (b : Bool)
        → any (λ e. e.0 == w) (change f worker stats) ≡ any (λ e. e.0 == w) stats
        → any (λ e. e.0 == w) (if b then (v, f i) ∷ stats else (v, i) ∷ change f worker stats)
          ≡ any (λ e. e.0 == w) ((v, i) ∷ stats)
    go true e = refl
    go false e = ap (λ t. v == w || t) e

pub change-AreCounted :
    (f : WorkerInfo → WorkerInfo) (worker : String) (stats : Stats)
    → ((i : WorkerInfo) → IsCounted i → IsCounted (f i))
    → AreCounted stats
    → AreCounted (change f worker stats)
change-AreCounted f worker [] keep c = tt
change-AreCounted f worker ((v, i) ∷ stats) keep (c, n, cs) =
    go (v == worker) (change-AreCounted f worker stats keep cs)
  where
    go :
        (b : Bool)
        → AreCounted (change f worker stats)
        → AreCounted (if b then (v, f i) ∷ stats else (v, i) ∷ change f worker stats)
    go true d = (keep i c, n, cs)
    go false d = (c, rw (any-change f worker v stats) n, d)

any-append :
    (worker w : String) (stats : Stats)
    → any (λ e. e.0 == w) (stats ++ (worker, empty_info) ∷ [])
      ≡ (any (λ e. e.0 == w) stats || (worker == w))
any-append worker w [] = ground arith
any-append worker w ((v, i) ∷ stats) = ground (arith, any-append worker w stats)

-- the first instance of a worker
added_lem :
    (worker : String) (stats : Stats)
    → any (λ e. e.0 == worker) stats ≡ false
    → AreCounted stats
    → AreCounted (change one_more worker (stats ++ (worker, empty_info) ∷ []))
added_lem worker [] n c = rw (eq_refl worker) ((refl, refl), refl, tt)
added_lem worker ((v, i) ∷ stats) n (c, m, cs) = rw (other) (
  c,
  rw (any-change one_more worker v (stats ++ (worker, empty_info) ∷ []))
      (ground (arith, m, n, eq_iff v worker, eq_iff worker v, any-append worker v stats)),
  added_lem worker stats (ground (arith, n)) cs,
)
  where
    other : (v == worker) ≡ false
    other = ground (arith, n)

pub entry-AreCounted :
    (worker : String) (stats : Stats)
    → AreCounted stats
    → AreCounted (change one_more worker (with_entry worker stats))
entry-AreCounted worker stats c = elim (Bool-cases (any (λ e. e.0 == worker) stats)) [
  | inl e ↦ rw (e) (change-AreCounted one_more worker stats (λ i k. (ap suc k.0, ground arith)) c)
  | inr n ↦ rw (n) (added_lem worker stats n c)
]

pub count_threads-AreCounted :
    (ps : Pairs) (stats : Stats) → AreCounted stats → AreCounted (count_threads ps stats)
count_threads-AreCounted [] stats c = c
count_threads-AreCounted ((t, w) ∷ ps) stats c =
    count_threads-AreCounted ps (change one_thread w stats)
      (change-AreCounted one_thread w stats (λ i k. k) c)

pub described_by-AreCounted :
    (o : Option HeartbeatData) (worker : String) (stats : Stats)
    → AreCounted stats
    → AreCounted (described_by o worker stats)
described_by-AreCounted none worker stats k = k
described_by-AreCounted (some hb) worker stats k =
    change-AreCounted (described hb) worker stats (λ i j. j) k
