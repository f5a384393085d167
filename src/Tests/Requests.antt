-- ===== src/Tests/Requests.antt =====
-- The limiter and the checks of requests at concrete inputs.
use ai_agents.Redis.Commands.{Keyspace}
use ai_agents.Tests.Server.{nothing, host, reliable}
use ai_agents.Web.Submit.{Service, submit}
use ai_agents.Web.Submit.Slots.{Counts, submit_slots}
use ai_agents.Web.Access.{content_type_middleware}
use ai_agents.Prelude.{String, ◌≡◌, refl, ◌⊎◌, true, false, none, some, List, ◌∷◌, arith}
use ai_agents.Web.Access.{Request, is_exempt, auth_middleware, csrf_middleware}
use ai_agents.Web.Access.Guarded.{Carries, auth_guards, mutation_guards}
use ai_agents.Web.Limiter.{new_rate_limiter}
use ai_agents.Web.Limiter.Reference.{Step, decisions, reference, limiter_reference, call, tick}
use ai_agents.Prelude.{[]}

abbrev steps : List Step
steps = call "a" 0 ∷ call "a" 5 ∷ call "a" 6 ∷ call "b" 7 ∷ tick 8 ∷ call "a" 11 ∷ call "a" 12 ∷ []

limiter_reference_example : decisions steps (new_rate_limiter 2 10) ≡ reference 2 10 steps (λ _. [])
limiter_reference_example = limiter_reference 2 10 0 steps (ground arith)

abbrev key : String
key = "secret"

abbrev query : Request
query = record {
  method = "POST";
  path = "/api/threads";
  from_loopback = false;
  bearer = none;
  context_key = some "secret";
  query_key = "";
  cookie = "";
  htmx = true;
  csrf_header = "token";
  json_content = false;
}

auth_guards_example : (is_exempt query ≡ true) ⊎ ((key ≡ "") ⊎ Carries key query)
unfolding auth_middleware is_exempt
auth_guards_example = auth_guards key query refl

mutation_guards_example :
    ((query.htmx ≡ true) × (query.csrf_header ≡ "token"))
    ⊎ ((query.htmx ≡ false) × (query.json_content ≡ true))
unfolding csrf_middleware content_type_middleware
mutation_guards_example = mutation_guards "token" query refl refl refl refl

abbrev one_running : Service Keyspace
one_running = record { db = nothing; in_use = 1; cancels = "other" ∷ [] }

submit_slots_example :
    Counts 2 1 (submit reliable (host "u1") (λ f. false) 5 "r1" "s1" "th" "hello" "" one_running)
submit_slots_example =
    submit_slots reliable (host "u1") (λ f. false) 5 "r1" "s1" "th" "hello" "" one_running
