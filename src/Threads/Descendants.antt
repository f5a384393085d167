-- ===== src/Threads/Descendants.antt =====
-- `DiscoverDescendants`: a breadth-first walk over the threads that `ListThreads` returned, each
-- with its parent. Go's sets are lists here.
pub mod Sound
pub mod Complete
use ai_agents.Prelude.{
  ℕ, zero, suc, String, Bool, true, false, not, ◌||◌, ◌&&◌, List, [], ◌∷◌, ◌++◌, ◌==◌, ◌≡◌, length,
  if◌then◌else◌,
}

abbrev pub mem : String → List String → Bool
mem x [] = false
mem x (y ∷ ys) = y == x || mem x ys

-- a thread and its `ParentThreadID`
pub record Link : Type 0 where
  pub id : String
  pub parent : String

-- `children[parent]`; a thread with no parent is nobody's child.
unfoldable pub children : List Link → String → List String
children [] parent = []
children (t ∷ ts) parent =
    let rest = children ts parent in
    if not (t.parent == "") && t.parent == parent then t.id ∷ rest else rest

pub record Walk : Type 0 where
  pub visited : List String
  pub result : List String
  pub queue : List String

unfoldable pub visit : List String → Walk → Walk
visit [] w = w
visit (child ∷ rest) w = visit rest (
    if mem child w.visited then w else record {
      visited = child ∷ w.visited;
      result = child ∷ w.result;
      queue = w.queue ++ child ∷ [];
    })

abbrev pub pop_visit : List Link → Walk → List String → Walk
pop_visit ts w [] = w
pop_visit ts w (parent ∷ rest) = visit (children ts parent) (record w { queue = rest })

-- `for len(queue) > 0`
unfoldable pub walk : ℕ → List Link → Walk → Walk
walk zero ts w = w
walk (suc fuel) ts w = let next = walk fuel ts (pop_visit ts w w.queue) in next

abbrev pub start : String → Walk
start root = record { visited = root ∷ []; result = []; queue = root ∷ [] }

-- A pop takes a thread off the queue, and each is put there once: `length ts` pops and that of the
-- root are enough.
unfoldable pub discover_descendants : List Link → String → List String
discover_descendants ts root = (walk (suc (length ts)) ts (start root)).result

-- The meaning: reached from `root` by one or more steps from parent to child.
pub data Descends (ts : List Link) (root : String) : String → Type 0 where
  child : {x : String} → mem x (children ts root) ≡ true → Descends ts root x
  below : {y x : String} → Descends ts root y → mem x (children ts y) ≡ true → Descends ts root x
