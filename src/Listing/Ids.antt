-- ===== src/Listing/Ids.antt =====
-- The ID in a key, where the ID has no colon.
use Prim.Native.Char.{Char, code}
use Prim.Native.String.append.{nil as nil_text, cons as cons_text}
use ai_agents.Listing.{before_colon, after_colon, second_part}
use ai_agents.Prelude.{
  String, Bool, true, not, eqb, ◌&&◌, some, ◌≡◌, refl, ap, ◌∙◌, arith, ◌+s◌, text_assoc,
}
use ai_agents.Redis.Keys.{str_name, hash_name, task_key, thread_state_key}

abbrev pub colon_free : String → Bool
colon_free String.[] = true
colon_free (String.◌∷◌ c s) = not (eqb (code c) b':') && colon_free s

abbrev colon : Char
colon = Char.char 58 tt

colon_first : (x : String) → ":" +s x ≡ String.◌∷◌ colon x
colon_first x = cons_text colon "" x ∙ ap (String.◌∷◌ colon) (nil_text x)

pub before_colon_lem : (p x : String) → colon_free p ≡ true → before_colon (p +s ":" +s x) ≡ p
before_colon_lem String.[] x h = ap before_colon (nil_text (":" +s x) ∙ colon_first x)
before_colon_lem (String.◌∷◌ c p) x h =
    ap before_colon (cons_text c p (":" +s x)) ∙ ground (arith, h, before_colon_lem p x)

pub after_colon_lem : (p x : String) → colon_free p ≡ true → after_colon (p +s ":" +s x) ≡ some x
after_colon_lem String.[] x h = ap after_colon (nil_text (":" +s x) ∙ colon_first x)
after_colon_lem (String.◌∷◌ c p) x h =
    ap after_colon (cons_text c p (":" +s x)) ∙ ground (arith, h, after_colon_lem p x)

second_part_lem :
    (p id rest : String)
    → colon_free p ≡ true
    → colon_free id ≡ true
    → second_part (p +s ":" +s id +s ":" +s rest) ≡ some id
unfolding second_part
second_part_lem p id rest hp h =
    rw (after_colon_lem p (id +s ":" +s rest) hp) (ap some (before_colon_lem id rest h))

-- Where an ID has no colon, the second part of the name of its status key, and of the name of its
-- state key, is the ID: the scans of ListTasks and ListThreads find the IDs that the keys were made of.
pub second_part-name :
    (id : String)
    → colon_free id ≡ true
    → (second_part (str_name (task_key id "status")) ≡ some id)
      × (second_part (hash_name (thread_state_key id)) ≡ some id)
unfolding str_name hash_name
second_part-name id h = (
  ap second_part (text_assoc "task" ":" (id +s ":status"))
      ∙ second_part_lem "task" id "status" refl h,
  ap second_part (text_assoc "thread" ":" (id +s ":current_state"))
      ∙ second_part_lem "thread" id "current_state" refl h,
)
