-- ===== src/Listing/Ordered.antt =====
-- The comparisons of ListTasks and ListThreads.
use ai_agents.Listing.{text_lt, directed}
use ai_agents.Listing.Columns.{
  text_key, number_key, pr_key, unit_key, pr_key_of, text-same_refl, number-same_refl, pr-same_refl,
}
use ai_agents.Listing.Sorted.{lex, Sorts, IsStrict, Sorts-IsStrict}
use ai_agents.Listing.Tasks.{task_status_order, by_text, by_number, task_less}
use ai_agents.Listing.Threads.{thread_status_order, parse_pr_number, by_pr, thread_less}
use ai_agents.Prelude.{
  ℤ, ℕ, String, Bool, true, false, ◌==◌, ◌||◌, eqb, ltb_ℤ, Option, none, some, ◌≡◌, refl, ◌∙◌,
  Bool-cases, inl, inr,
}

text_law :
    (asc : Bool) (x y i j : String)
    → by_text asc x y (directed asc (text_lt i j)) ≡ directed asc (lex text_key x i y j)
text_law asc x y i j = elim (Bool-cases (x == y)) [ inl e ↦ rw e refl | inr e ↦ rw e refl ]

number_law :
    (asc : Bool) (x y : ℕ) (i j : String)
    → by_number asc x y (directed asc (text_lt i j)) ≡ directed asc (lex number_key x i y j)
number_law asc x y i j = elim (Bool-cases (eqb x y)) [ inl e ↦ rw e refl | inr e ↦ rw e refl ]

pr_law :
    (asc : Bool) (m n : Option ℤ) (x y i j : String)
    → by_pr asc m n x y (directed asc (text_lt i j))
      ≡ directed asc (lex pr_key (pr_key_of m x) i (pr_key_of n y) j)
pr_law asc (some m) (some n) x y i j = elim (Bool-cases (ltb_ℤ m n || ltb_ℤ n m)) [
  | inl e ↦ rw e refl
  | inr e ↦ rw e refl
]
pr_law true (some m) none x y i j = refl
pr_law false (some m) none x y i j = refl
pr_law true none (some n) x y i j = refl
pr_law false none (some n) x y i j = refl
pr_law asc none none x y i j = elim (Bool-cases (x == y)) [ inl e ↦ rw e refl | inr e ↦ rw e refl ]

-- where a column is a text or a number, its comparison is the order of the column
by_column-text :
    {A : Type 0} {less : Bool → A → A → Bool} {id : A → String} (column : A → String)
    → ((asc : Bool) (a b : A)
        → less asc a b ≡ by_text asc (column a) (column b) (directed asc (text_lt (id a) (id b))))
    → Sorts less id
by_column-text {A} {less} {id} column h = record {
  K = String;
  key = text_key;
  same_refl = text-same_refl;
  column = column;
  law = λ asc a b. h asc a b ∙ text_law asc (column a) (column b) (id a) (id b);
}

by_column-number :
    {A : Type 0} {less : Bool → A → A → Bool} {id : A → String} (column : A → ℕ)
    → ((asc : Bool) (a b : A)
        → less asc a b ≡ by_number asc (column a) (column b) (directed asc (text_lt (id a) (id b))))
    → Sorts less id
by_column-number {A} {less} {id} column h = record {
  K = ℕ;
  key = number_key;
  same_refl = number-same_refl;
  column = column;
  law = λ asc a b. h asc a b ∙ number_law asc (column a) (column b) (id a) (id b);
}

by_id :
    {A : Type 0} {less : Bool → A → A → Bool} {id : A → String}
    → ((asc : Bool) (a b : A) → less asc a b ≡ directed asc (text_lt (id a) (id b)))
    → Sorts less id
by_id h = record { K = Unit {0}; key = unit_key; same_refl = λ x. refl; column = λ a. tt; law = h }

task_Sorts : (by : String) → Sorts (λ asc. task_less asc by) (λ t. t.task_id)
unfolding task_less
task_Sorts by = elim (Bool-cases (by == "worker")) [
  | inl a ↦ by_column-text (λ t. t.worker) (λ asc x y. rw a refl)
  | inr a ↦ elim (Bool-cases (by == "thread_id")) [
    | inl b ↦ by_column-text (λ t. t.thread_id) (λ asc x y. rw (a, b) refl)
    | inr b ↦ elim (Bool-cases (by == "status")) [
      | inl c ↦ by_column-number (λ t. task_status_order t.status) (λ asc x y. rw (a, b, c) refl)
      | inr c ↦ elim (Bool-cases (by == "enqueued_at")) [
        | inl d ↦ by_column-text (λ t. t.enqueued_at) (λ asc x y. rw (a, b, c, d) refl)
        | inr d ↦ elim (Bool-cases (by == "task_id")) [
          | inl e ↦ by_id (λ asc x y. rw (a, b, c, d, e) refl)
          | inr e ↦
              by_column-number (λ t. task_status_order t.status)
                (λ asc x y. rw (a, b, c, d, e) refl)
        ]
      ]
    ]
  ]
]

thread_Sorts :
    (atoi : String → Option ℤ) (by : String)
    → Sorts (λ asc. thread_less atoi asc by) (λ t. t.thread_id)
unfolding thread_less
thread_Sorts atoi by = elim (Bool-cases (by == "status")) [
  | inl a ↦ by_column-number (λ t. thread_status_order t.status) (λ asc x y. rw a refl)
  | inr a ↦ elim (Bool-cases (by == "repo")) [
    | inl b ↦ by_column-text (λ t. t.gh_repo) (λ asc x y. rw (a, b) refl)
    | inr b ↦ elim (Bool-cases (by == "pr")) [
      | inl c ↦ record {
        K = _;
        key = pr_key;
        same_refl = pr-same_refl;
        column = λ t. pr_key_of (parse_pr_number atoi t.gh_pr_number) t.gh_pr_number;
        law = λ asc x y.
            rw (a, b, c)
              (pr_law asc (parse_pr_number atoi x.gh_pr_number)
                (parse_pr_number atoi y.gh_pr_number) x.gh_pr_number y.gh_pr_number x.thread_id
                y.thread_id);
      }
      | inr c ↦ elim (Bool-cases (by == "updated_at")) [
        | inl d ↦ by_column-text (λ t. t.updated_at) (λ asc x y. rw (a, b, c, d) refl)
        | inr d ↦ elim (Bool-cases (by == "thread_id")) [
          | inl e ↦ by_id (λ asc x y. rw (a, b, c, d, e) refl)
          | inr e ↦
              by_column-number (λ t. thread_status_order t.status)
                (λ asc x y. rw (a, b, c, d, e) refl)
        ]
      ]
    ]
  ]
]

-- In either direction and by any column, the comparisons that sort the tasks and the threads order
-- two rows with different IDs in exactly one way, and are transitive on rows with different IDs.
pub rows-IsStrict :
    (atoi : String → Option ℤ) (asc : Bool) (by : String)
    → IsStrict (task_less asc by) (λ t. t.task_id)
      × IsStrict (thread_less atoi asc by) (λ t. t.thread_id)
rows-IsStrict atoi asc by =
    (Sorts-IsStrict (task_Sorts by) asc, Sorts-IsStrict (thread_Sorts atoi by) asc)
