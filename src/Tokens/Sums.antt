-- ===== src/Tokens/Sums.antt =====
-- Sums on int64: they wrap around, and are exact where the true sum fits.
use ai_agents.Prelude.{
  [], ◌∷◌, List, ℤ, pos, negsuc, pos_part, bits_64, signed_64, ◌+ℤ◌, ℕ, ◌+◌, ◌^◌, ◌<◌, ◌%◌, ◌≡◌,
  refl, ap, ◌∙◌, sym, arith,
}

pub bits_64-lt : (a : ℤ) → bits_64 a < 2 ^ 64
bits_64-lt (pos n) = omega arith
bits_64-lt (negsuc n) = omega arith

bits_64-signed_64 : (b : ℕ) → b < 2 ^ 64 → bits_64 (signed_64 b) ≡ b
bits_64-signed_64 b h = ground arith

bits_64-add : (a b : ℤ) → bits_64 (a +ℤ b) ≡ (bits_64 a + bits_64 b) % 2 ^ 64
unfolding ◌+ℤ◌
bits_64-add a b = bits_64-signed_64 ((bits_64 a + bits_64 b) % 2 ^ 64) (omega arith)

add_bits : (a b : ℤ) → a +ℤ b ≡ signed_64 ((bits_64 a + bits_64 b) % 2 ^ 64)
unfolding ◌+ℤ◌
add_bits a b = refl

pub add_assoc : (a b c : ℤ) → (a +ℤ b) +ℤ c ≡ a +ℤ (b +ℤ c)
add_assoc a b c =
    let inner : (bits_64 (a +ℤ b) + bits_64 c) % 2 ^ 64 ≡ (bits_64 a + bits_64 (b +ℤ c)) % 2 ^ 64 =
      omega (arith, bits_64-add a b, bits_64-add b c) in
    add_bits (a +ℤ b) c ∙ ap signed_64 inner ∙ sym (add_bits a (b +ℤ c))

-- it is an int64
abbrev pub IsWord : ℤ → Type 0
IsWord a = signed_64 (bits_64 a) ≡ a

pub add-IsWord : (a b : ℤ) → IsWord (a +ℤ b)
unfolding ◌+ℤ◌
add-IsWord a b = ap signed_64 (bits_64-signed_64 ((bits_64 a + bits_64 b) % 2 ^ 64) (omega arith))

pub add_zero : (a : ℤ) → IsWord a → a +ℤ pos 0 ≡ a
unfolding ◌+ℤ◌
add_zero a w = ap signed_64 (omega (arith, bits_64-lt a)) ∙ w

pub zero_add : (a : ℤ) → IsWord a → pos 0 +ℤ a ≡ a
unfolding ◌+ℤ◌
zero_add a w = ap signed_64 (omega (arith, bits_64-lt a)) ∙ w

-- the loop `total += n`
abbrev pub sum_from : ℤ → List ℤ → ℤ
sum_from a [] = a
sum_from a (n ∷ ns) = sum_from (a +ℤ n) ns

abbrev pub total : List ℤ → ℕ
total [] = 0
total (n ∷ ns) = pos_part n + total ns

abbrev pub IsCount : ℤ → Type 0
IsCount n = n ≡ pos (pos_part n)

abbrev pub AllCounts : List ℤ → Type 0
AllCounts [] = Unit
AllCounts (n ∷ ns) = IsCount n × AllCounts ns

add_exact : (a b : ℕ) → a + b < 2 ^ 63 → pos a +ℤ pos b ≡ pos (a + b)
unfolding ◌+ℤ◌
add_exact a b h = ground arith

pub sum_exact :
    (a : ℕ) (ns : List ℤ)
    → AllCounts ns
    → a + total ns < 2 ^ 63
    → sum_from (pos a) ns ≡ pos (a + total ns)
sum_exact a [] _ h = ap pos (omega arith)
sum_exact a (n ∷ ns) (c, cs) h =
    ap (λ m. sum_from (pos a +ℤ m) ns) c
    ∙ ap (λ m. sum_from m ns) (add_exact a (pos_part n) (omega arith))
    ∙ sum_exact (a + pos_part n) ns cs (omega arith)
    ∙ ap pos (omega arith)
