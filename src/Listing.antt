-- ===== src/Listing.antt =====
-- What `ListTasks` of tasklib/tasks.go and `ListThreads` of tasklib/threads.go share: the keys that
-- SCAN returns, the IDs in them, the direction of a sort and the page of a result.
pub mod Tasks
pub mod Threads
pub mod Texts
pub mod Sorted
pub mod Columns
pub mod Ordered
pub mod Pages
pub mod Rows
pub mod Ids
use Prim.Native.Char.{code}
use Prim.Native.String.{compare}
use Prim.Native.Nat.{Ordering}
use ai_agents.Prelude.{
  ◌&&◌, ℤ, pos, negsuc, ℕ, String, Bool, true, false, not, ◌==◌, eqb, ltb, leb, Option, none, some,
  List, [], ◌∷◌, length, take, drop, if◌then◌else◌,
}
use ai_agents.Redis.Commands.{Keyspace}

-- Go's `sort.Slice` with a comparison, `range` over a map of tasks, `strings.ToLower` and
-- `strconv.Atoi`. Each of `pages` is what a SCAN finds in the keyspace, up to the one with cursor 0:
-- the texts that match the star of its pattern.
pub record Lister : Type 1 where
  pub sort : {A : Type 0} → (A → A → Bool) → List A → List A
  pub any_order : {A : Type 0} → List A → List A
  pub lower : String → String
  pub atoi : String → Option ℤ
  pub pages : List (Keyspace → List String)

-- `a < b` on strings
abbrev pub text_lt : String → String → Bool
text_lt a b = elim (compare a b) [ Ordering.lt ↦ true | _ ↦ false ]

-- `asc == x`
abbrev pub directed : Bool → Bool → Bool
directed true x = x
directed false x = not x

abbrev pub ascending : Lister → String → Bool
ascending l sort_dir = not (l.lower sort_dir == "desc")

abbrev pub before_colon : String → String
before_colon String.[] = String.[]
before_colon (String.◌∷◌ c s) =
    let rest = before_colon s in if eqb (code c) b':' then String.[] else String.◌∷◌ c rest

-- none: there is no colon
abbrev pub after_colon : String → Option String
after_colon String.[] = none
after_colon (String.◌∷◌ c s) =
    let rest = after_colon s in if eqb (code c) b':' then some s else rest

abbrev before_colon_of : Option String → Option String
before_colon_of none = none
before_colon_of (some s) = some (before_colon s)

-- `strings.SplitN(key, ":", 3)[1]`, and none where there is no such part
unfoldable pub second_part : String → Option String
second_part key = before_colon_of (after_colon key)

-- `if limit <= 0 { limit = 50 }`
abbrev pub limit_of : ℤ → ℕ
limit_of (pos n) = if eqb n 0 then 50 else n
limit_of (negsuc n) = 50

module _ {A : Type 0} where
  abbrev pub skip : ℤ → List A → List A
  skip (negsuc n) rows = rows
  skip (pos n) rows =
      if ltb 0 n && ltb n (length rows)
      then drop n rows
      else if leb (length rows) n
      then []
      else rows

  abbrev pub trim : ℕ → List A → List A
  trim limit rows = if ltb limit (length rows) then take limit rows else rows

  -- the offset, then the limit
  unfoldable pub page : ℤ → ℤ → List A → List A
  page limit offset rows = trim (limit_of limit) (skip offset rows)
