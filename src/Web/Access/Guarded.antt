-- ===== src/Web/Access/Guarded.antt =====
-- What passes the checks.
use ai_agents.Web.Access.{content_type_middleware}
use ai_agents.Prelude.{
  if◌then◌else◌, refl, ap, inl, inr, false, not, Option, ◌==◌, eq_iff, Bool-cases,
}
use ai_agents.Web.Access.{is_given, source_of, source, is_read_only, csrf_middleware, refuse}
use ai_agents.Prelude.{if◌then◌else◌, String, ◌≡◌, ◌⊎◌, Bool, true, none, some}
use ai_agents.Web.Access.{Request, Source, token_of, check_token, is_exempt, auth_middleware, pass}

-- the request carries the key: the first of the places that is filled has it
abbrev CarriesIn : String → Option String → Option String → String → String → Type 0
CarriesIn key bearer context_key query_key cookie =
    (bearer ≡ some key)
    ⊎ ((bearer ≡ none)
        × ((context_key ≡ some key)
            ⊎ ((context_key ≡ none) × ((query_key ≡ key) ⊎ ((query_key ≡ "") × (cookie ≡ key))))))

abbrev pub Carries : String → Request → Type 0
Carries key q = CarriesIn key q.bearer q.context_key q.query_key q.cookie

check_token_sound :
    (key : String) (s : Source) (b : Bool) → check_token key s ≡ pass b → token_of s ≡ key
check_token_sound key s b e = elim (Bool-cases (token_of s == key)) [
  | inl same ↦ (eq_iff (token_of s) key).0 same
  | inr other ↦ absurd (refused (token_of s == "") (rw other at e))
]
  where
    refused :
        (c : Bool)
        → (if c then refuse 401 else if not false then refuse 401 else pass (is_given s)) ≡ pass b
        → ⊥
    refused true n = cc
    refused false n = cc

source-Carries :
    (key : String) (bearer context_key : Option String) (query_key cookie : String)
    → token_of (source_of bearer context_key query_key cookie) ≡ key
    → CarriesIn key bearer context_key query_key cookie
source-Carries key (some t) c q k e = inl (ap some e)
source-Carries key none (some t) q k e = inr (refl, inl (ap some e))
source-Carries key none none q k e = elim (Bool-cases (q == "")) [
  | inl none_given ↦ inr (refl, inr (refl, inr ((eq_iff q "").0 none_given, rw none_given at e)))
  | inr query ↦ inr (refl, inr (refl, inl (rw query at e)))
]

-- A request that authMiddleware lets through is on an exempt path, or there is no key, or the request
-- carries the key in the first of the places that it fills.
pub auth_guards :
    (key : String) (q : Request) {b : Bool}
    → auth_middleware key q ≡ pass b
    → (is_exempt q ≡ true) ⊎ ((key ≡ "") ⊎ Carries key q)
unfolding auth_middleware
auth_guards key q {b} e = elim (Bool-cases (is_exempt q)) [
  | inl yes_exempt ↦ inl yes_exempt
  | inr not_exempt ↦ elim (Bool-cases (key == "")) [
    | inl no_key ↦ inr (inl ((eq_iff key "").0 no_key))
    | inr has_key ↦ inr (
        inr (
          source-Carries key q.bearer q.context_key q.query_key q.cookie
            (check_token_sound key (source q) b (rw (not_exempt, has_key) at e))))
  ]
]

csrf_token :
    (token : String) (q : Request) {b : Bool}
    → is_read_only q.method ≡ false
    → q.htmx ≡ true
    → csrf_middleware token q ≡ pass b
    → q.csrf_header ≡ token
unfolding csrf_middleware
csrf_token token q {b} unsafe_method from_htmx e = elim (Bool-cases (q.csrf_header == token)) [
  | inl same ↦ (eq_iff q.csrf_header token).0 same
  | inr other ↦ absurd (
      let refused : refuse 403 ≡ pass b = rw (unsafe_method, from_htmx, other) at e in
      let different : ¬ (refuse 403 ≡ pass b) = (λ n. cc) in different refused)
]

json_typed :
    (q : Request) {b : Bool}
    → is_read_only q.method ≡ false
    → (q.method == "DELETE") ≡ false
    → q.htmx ≡ false
    → content_type_middleware q ≡ pass b
    → q.json_content ≡ true
unfolding content_type_middleware
json_typed q {b} unsafe_method not_delete no_htmx e = elim (Bool-cases q.json_content) [
  | inl json ↦ json
  | inr other ↦ absurd (
      let refused : refuse 415 ≡ pass b = rw (unsafe_method, not_delete, no_htmx, other) at e in
      let different : ¬ (refuse 415 ≡ pass b) = (λ n. cc) in different refused)
]

-- A request other than GET, HEAD, OPTIONS and DELETE that passes both csrfMiddleware and
-- contentTypeMiddleware comes from HTMX with the CSRF token in its header, or is not from HTMX and has
-- JSON content.
pub mutation_guards :
    (token : String) (q : Request) {b c : Bool}
    → is_read_only q.method ≡ false
    → (q.method == "DELETE") ≡ false
    → csrf_middleware token q ≡ pass b
    → content_type_middleware q ≡ pass c
    → ((q.htmx ≡ true) × (q.csrf_header ≡ token)) ⊎ ((q.htmx ≡ false) × (q.json_content ≡ true))
mutation_guards token q unsafe_method not_delete csrf_passed type_passed =
    elim (Bool-cases q.htmx) [
      | inl from_htmx ↦ inl (from_htmx, csrf_token token q unsafe_method from_htmx csrf_passed)
      | inr no_htmx ↦ inr (no_htmx, json_typed q unsafe_method not_delete no_htmx type_passed)
    ]
