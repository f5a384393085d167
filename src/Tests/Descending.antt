-- ===== src/Tests/Descending.antt =====
-- Runs of the walk over the children, on a tree with a cycle.
use ai_agents.Prelude.{String, true, false, List, [], ◌∷◌, ◌≡◌, refl}
use ai_agents.Threads.Descendants.{
  Link, Descends, child, below, children, walk, visit, mem, discover_descendants,
}
use ai_agents.Threads.Descendants.Sound.{discover_sound}
use ai_agents.Threads.Descendants.Complete.{discover_complete}

abbrev link : String → String → Link
link id parent = record { id = id; parent = parent }

-- `a` above `b` above `c`, and `a` below `c`
abbrev cycle : List Link
cycle = link "a" "c" ∷ link "b" "a" ∷ link "c" "b" ∷ []

c_below : Descends cycle "a" "c"
unfolding children
c_below = below (child {x = "b"} refl) refl

discover_sound_example : Descends cycle "a" "c" × (mem "c" ("a" ∷ []) ≡ false)
unfolding discover_descendants walk visit children
discover_sound_example = discover_sound cycle "a" "c" refl

discover_complete_example : mem "c" (discover_descendants cycle "a") ≡ true
discover_complete_example = discover_complete cycle "a" "c" c_below refl
