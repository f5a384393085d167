-- ===== src/Listing/Columns.antt =====
-- Columns of the lists: texts, numbers and PR numbers.
use ai_agents.Listing.Sorted.{Key}
use ai_agents.Listing.{negsuc, pos, ltb, eqb, some, ℕ, Option, ℤ, text_lt}
use ai_agents.Listing.Texts.{text_lt_trans, text_lt_flip}
use ai_agents.Prelude.{
  eq_refl, refl, none, some, ◌||◌, arith, ltb_ℤ, eq_iff, String, Bool, true, false, not, ◌==◌, ◌≡◌,
  sym, ap,
}

abbrev pub text_key : Key String
text_key = record {
  same = λ x y. x == y;
  less = text_lt;
  equal = λ {x} {y} e. (eq_iff x y).0 e;
  flip = text_lt_flip;
  trans = text_lt_trans;
}

pub number_equal : (x y : ℕ) → eqb x y ≡ true → x ≡ y
number_equal x y e = ground (arith, e)

pub number_flip : (x y : ℕ) → eqb x y ≡ false → ltb x y ≡ not (ltb y x)
number_flip x y e = ground (arith, e)

pub number_trans : (x y z : ℕ) → ltb x y ≡ true → ltb y z ≡ true → ltb x z ≡ true
number_trans x y z h g = ground (arith, h, g)

abbrev pub number_key : Key ℕ
number_key = record {
  same = eqb;
  less = ltb;
  equal = λ {x} {y} e. number_equal x y e;
  flip = number_flip;
  trans = number_trans;
}

-- a PR number, or a text that is none, after the numbers
pub data PrKey : Type 0 where
  number : ℤ → PrKey
  text : String → PrKey

abbrev pub pr_key_of : Option ℤ → String → PrKey
pr_key_of (some n) s = number n
pr_key_of none s = text s

abbrev same_pr : PrKey → PrKey → Bool
same_pr (number m) (number n) = not (ltb_ℤ m n || ltb_ℤ n m)
same_pr (text s) (text t) = s == t
same_pr _ _ = false

abbrev less_pr : PrKey → PrKey → Bool
less_pr (number m) (number n) = ltb_ℤ m n
less_pr (number m) (text t) = true
less_pr (text s) (number n) = false
less_pr (text s) (text t) = text_lt s t

equal_ℤ : (m n : ℤ) → not (ltb_ℤ m n || ltb_ℤ n m) ≡ true → m ≡ n
equal_ℤ (pos m) (pos n) e = ap pos (ground (arith, e))
equal_ℤ (pos m) (negsuc n) e = ground (arith, e)
equal_ℤ (negsuc m) (pos n) e = ground (arith, e)
equal_ℤ (negsuc m) (negsuc n) e = ap negsuc (ground (arith, e))

pub same_pr-equal : (x y : PrKey) → same_pr x y ≡ true → x ≡ y
same_pr-equal (number m) (number n) e = ap number (equal_ℤ m n e)
same_pr-equal (number m) (text t) e = ground arith
same_pr-equal (text s) (number n) e = ground arith
same_pr-equal (text s) (text t) e = ap text ((eq_iff s t).0 e)

pub pr_flip : (x y : PrKey) → same_pr x y ≡ false → less_pr x y ≡ not (less_pr y x)
pr_flip (number m) (number n) e = ground (arith, e)
pr_flip (number m) (text t) e = refl
pr_flip (text s) (number n) e = refl
pr_flip (text s) (text t) e = text_lt_flip s t e

pub pr_trans : (x y z : PrKey) → less_pr x y ≡ true → less_pr y z ≡ true → less_pr x z ≡ true
pr_trans (number m) (number n) (number o) h g = ground (arith, h, g)
pr_trans (number m) (number n) (text u) h g = refl
pr_trans (number m) (text t) (number o) h g = ground (arith, g)
pr_trans (number m) (text t) (text u) h g = refl
pr_trans (text s) (number n) z h g = ground (arith, h)
pr_trans (text s) (text t) (number o) h g = ground (arith, g)
pr_trans (text s) (text t) (text u) h g = text_lt_trans s t u h g

abbrev pub pr_key : Key PrKey
pr_key = record {
  same = same_pr;
  less = less_pr;
  equal = λ {x} {y}. same_pr-equal x y;
  flip = pr_flip;
  trans = pr_trans;
}

-- every row in one place
abbrev pub unit_key : Key (Unit {0})
unit_key = record {
  same = λ x y. true;
  less = λ x y. false;
  equal = λ {x} {y} e. refl;
  flip = λ x y e. sym e;
  trans = λ x y z h g. h;
}

pub text-same_refl : (x : String) → text_key.same x x ≡ true
text-same_refl x = eq_refl x

pub number-same_refl : (x : ℕ) → number_key.same x x ≡ true
number-same_refl x = ground arith

pub pr-same_refl : (x : PrKey) → pr_key.same x x ≡ true
pr-same_refl (number (pos n)) = ground arith
pr-same_refl (number (negsuc n)) = ground arith
pr-same_refl (text s) = eq_refl s
