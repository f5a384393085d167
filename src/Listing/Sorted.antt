-- ===== src/Listing/Sorted.antt =====
-- The comparisons that sort the lists are strict total orders on rows with different IDs.
use mathlib.Core.Path.{subst}
use ai_agents.Listing.{directed, text_lt}
use ai_agents.Listing.Texts.{text_lt_trans, text_lt_flip}
use ai_agents.Prelude.{
  refl, arith, String, Bool, true, false, not, ◌==◌, ◌≡◌, sym, ap, ◌∙◌, Bool-cases, inl, inr,
  if◌then◌else◌,
}

-- a column: a test for equality and a test for the order
pub record Key (K : Type 0) : Type 0 where
  pub same : K → K → Bool
  pub less : K → K → Bool
  pub equal : {x y : K} → same x y ≡ true → x ≡ y
  pub flip : (x y : K) → same x y ≡ false → less x y ≡ not (less y x)
  pub trans : (x y z : K) → less x y ≡ true → less y z ≡ true → less x z ≡ true

-- by the column, and by the IDs in the same place of it
abbrev pub lex : {K : Type 0} → Key K → K → String → K → String → Bool
lex k x i y j = if not (k.same x y) then k.less x y else text_lt i j

module _ {K : Type 0} (k : Key K) (same_refl : (x : K) → k.same x x ≡ true) where
  same_sym : (x y : K) → k.same x y ≡ k.same y x
  same_sym x y = elim (Bool-cases (k.same x y)) [
    | inl e ↦ e ∙ sym (ap (λ z. k.same y z) (k.equal e) ∙ same_refl y)
    | inr e ↦ elim (Bool-cases (k.same y x)) [
      | inl f ↦ sym (ap (λ z. k.same z y) (k.equal f)) ∙ same_refl y ∙ sym f
      | inr f ↦ e ∙ sym f
    ]
  ]

  lex_flip : (x y : K) (i j : String) → (i == j) ≡ false → lex k x i y j ≡ not (lex k y j x i)
  lex_flip x y i j d = elim (Bool-cases (k.same x y)) [
    | inl e ↦ rw (e, sym (same_sym x y) ∙ e) (text_lt_flip i j d)
    | inr e ↦ rw (e, sym (same_sym x y) ∙ e) (k.flip x y e)
  ]

  lex_other : (x y : K) (i j : String) → k.same x y ≡ false → lex k x i y j ≡ k.less x y
  lex_other x y i j e = rw e refl

  lex_same : (x y : K) (i j : String) → k.same x y ≡ true → lex k x i y j ≡ text_lt i j
  lex_same x y i j e = rw e refl

  not_back : (x y : K) → k.same x y ≡ false → k.less x y ≡ true → k.less y x ≡ false
  not_back x y e h = ground (arith, k.flip x y e)

  lex_trans :
      (x y z : K) (i j m : String)
      → lex k x i y j ≡ true
      → lex k y j z m ≡ true
      → lex k x i z m ≡ true
  lex_trans x y z i j m h g = elim (Bool-cases (k.same x y)) [
    | inl e ↦
        subst (λ w. lex k w i z m ≡ true) (sym (k.equal e))
          (elim (Bool-cases (k.same y z)) [
            | inl f ↦
                lex_same y z i m f
                ∙ text_lt_trans i j m (sym (lex_same x y i j e) ∙ h) (sym (lex_same y z j m f) ∙ g)
            | inr f ↦ lex_other y z i m f ∙ sym (lex_other y z j m f) ∙ g
          ])
    | inr e ↦ elim (Bool-cases (k.same y z)) [
      | inl f ↦
          subst (λ w. lex k x i w m ≡ true) (k.equal f)
            (lex_other x y i m e ∙ sym (lex_other x y i j e) ∙ h)
      | inr f ↦
          let below : k.less x y ≡ true = sym (lex_other x y i j e) ∙ h in
          let above : k.less y z ≡ true = sym (lex_other y z j m f) ∙ g in
          elim (Bool-cases (k.same x z)) [
            | inl s ↦
                absurd
                  (ground (arith, not_back x y e below, ap (λ w. k.less y w) (k.equal s), above))
            | inr s ↦ lex_other x z i m s ∙ k.trans x y z below above
          ]
    ]
  ]

-- A comparison of rows with a direction is the order of a column, then of the IDs.
pub record Sorts {A : Type 0} (less : Bool → A → A → Bool) (id : A → String) : Type 1 where
  pub K : Type 0
  pub key : Key K
  pub same_refl : (x : K) → key.same x x ≡ true
  pub column : A → K
  pub law :
      (asc : Bool) (a b : A)
      → less asc a b ≡ directed asc (lex key (column a) (id a) (column b) (id b))

-- one of two rows comes first, and what comes before a later row comes first
abbrev pub IsStrict : {A : Type 0} → (A → A → Bool) → (A → String) → Type 0
IsStrict {A} less id =
    ((a b : A) → (id a == id b) ≡ false → less a b ≡ not (less b a))
    × ((a b c : A)
        → (id a == id b) ≡ false
        → (id b == id c) ≡ false
        → (id a == id c) ≡ false
        → less a b ≡ true
        → less b c ≡ true
        → less a c ≡ true)

module _ {A : Type 0} {less : Bool → A → A → Bool} {id : A → String} (s : Sorts less id) where
  abbrev before : A → A → Bool
  before a b = lex s.key (s.column a) (id a) (s.column b) (id b)

  before_flip : (a b : A) → (id a == id b) ≡ false → before a b ≡ not (before b a)
  before_flip a b d = lex_flip s.key s.same_refl (s.column a) (s.column b) (id a) (id b) d

  before_trans : (a b c : A) → before a b ≡ true → before b c ≡ true → before a c ≡ true
  before_trans a b c =
      lex_trans s.key s.same_refl (s.column a) (s.column b) (s.column c) (id a) (id b) (id c)

  turned : {x y : Bool} → x ≡ not y → not x ≡ true → y ≡ true
  turned h g = ground (arith, h, g)

  directed-IsStrict : (asc : Bool) → IsStrict (λ a b. directed asc (before a b)) id
  directed-IsStrict true = (before_flip, λ a b c _ _ _. before_trans a b c)
  directed-IsStrict false = (
    λ a b d. ap not (before_flip a b d),
    λ a b c d e f h g.
        ap not (before_flip a c f)
        ∙ ap (λ x. not (not x))
            (before_trans c b a (turned (before_flip b c e) g) (turned (before_flip a b d) h)),
  )

  pub Sorts-IsStrict : (asc : Bool) → IsStrict (less asc) id
  Sorts-IsStrict asc = (
    λ a b d. s.law asc a b ∙ (directed-IsStrict asc).0 a b d ∙ ap not (sym (s.law asc b a)),
    λ a b c d e f h g.
        s.law asc a c
        ∙ (directed-IsStrict asc).1 a b c d e f (sym (s.law asc a b) ∙ h) (sym (s.law asc b c) ∙ g),
  )
