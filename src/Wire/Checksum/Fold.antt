-- ===== src/Wire/Checksum/Fold.antt =====
-- The loops of `_calculate_checksum` against the ones' complement sum of the packet's words.
use reliable_udp.Prelude.{
  ℕ, ◌+◌, ◌-◌, ◌*◌, ◌/◌, ◌%◌, ◌^◌, ◌≤◌, ◌<◌, ◌≡◌, ◌↔◌, refl, [], ◌∷◌, arith, ◌==◌, if◌then◌else◌,
  length,
}
use reliable_udp.Wire.Checksum.{Bytes, add_words, fold_carries, fold_fuel, calculate_checksum}

-- Every element is a byte.
abbrev pub IsBytes : Bytes → Type 0
IsBytes [] = Unit {0}
IsBytes (a ∷ rest) = (a < 256) × IsBytes rest

-- The sum of the little-endian words, with no bound.
abbrev pub sum_words : Bytes → ℕ
sum_words [] = 0
sum_words (a ∷ []) = a
sum_words (a ∷ b ∷ rest) = a + 256 * b + sum_words rest

-- The representative of a sum in 16 bits: zero for zero alone, and else in 1 .. 65535, with the
-- remainder by 65535 of the sum.
pub ones_complement : ℕ → ℕ
ones_complement n = if n == 0 then 0 else 1 + (n - 1) % 65535

pub add_words-eq-sum :
    (acc : ℕ) (xs : Bytes) → acc < 2 ^ 32 → add_words acc xs ≡ (acc + sum_words xs) % 2 ^ 32
unfolding add_words
add_words-eq-sum acc [] h = omega arith
add_words-eq-sum acc (a ∷ []) h = refl
add_words-eq-sum acc (a ∷ b ∷ rest) h =
    omega (arith, add_words-eq-sum ((acc + (a + 256 * b)) % 2 ^ 32) rest (omega arith))

pub sum_words-le : (xs : Bytes) → IsBytes xs → 2 * sum_words xs ≤ 65535 * (length xs + 1)
sum_words-le [] h = omega arith
sum_words-le (a ∷ []) h = omega arith
sum_words-le (a ∷ b ∷ rest) h = omega (arith, sum_words-le rest h.1.1)

fold_twice : (c : ℕ) → c < 2 ^ 32 → fold_carries fold_fuel c ≡ ones_complement c
unfolding fold_carries ones_complement
fold_twice c h = ground arith

ones_complement-lt : (n : ℕ) → ones_complement n < 2 ^ 16
unfolding ones_complement
ones_complement-lt n = ground arith

-- The loop on the carries ends on any 32-bit number within the two rounds of fuel: its test fails at
-- the result.
pub fold_carries_ends : (c : ℕ) → c < 2 ^ 32 → fold_carries fold_fuel c / 2 ^ 16 ≡ 0
fold_carries_ends c h = omega (arith, fold_twice c h, ones_complement-lt c)

pub sum_words-lt : (xs : Bytes) → IsBytes xs → length xs < 2 ^ 16 → sum_words xs < 2 ^ 32
sum_words-lt xs b h = omega (arith, sum_words-le xs b)

pub add_words-zero : (xs : Bytes) → IsBytes xs → length xs < 2 ^ 16 → add_words 0 xs ≡ sum_words xs
add_words-zero xs b h = omega (arith, add_words-eq-sum 0 xs (omega arith), sum_words-lt xs b h)

-- The checksum of less than 2 ^ 16 bytes is the complement of the ones' complement sum of their
-- little-endian words.
pub calculate_checksum_lem :
    (xs : Bytes)
    → IsBytes xs
    → length xs < 2 ^ 16
    → calculate_checksum xs ≡ 65535 - ones_complement (sum_words xs)
unfolding calculate_checksum
calculate_checksum_lem xs b h =
    rw (add_words-zero xs b h, fold_twice (sum_words xs) (sum_words-lt xs b h))
      (omega (arith, ones_complement-lt (sum_words xs)))

pub checksum-lt : (xs : Bytes) → calculate_checksum xs < 2 ^ 16
unfolding calculate_checksum
checksum-lt xs = omega arith

-- Two sums with one remainder by 65535, of which both or none are zero.
abbrev pub SameSum : ℕ → ℕ → Type 0
SameSum a b = (a % 65535 ≡ b % 65535) × (a ≡ 0 → b ≡ 0) × (b ≡ 0 → a ≡ 0)

ones_complement_iff : (a b : ℕ) → (ones_complement a ≡ ones_complement b) ↔ SameSum a b
unfolding ones_complement
ones_complement_iff a b = ground arith

-- Two buffers of bytes, shorter than 2 ^ 16, have one checksum exactly when the sums of their
-- little-endian words leave one remainder by 65535 and are both zero or both not zero.
pub checksum_eq_iff :
    (xs ys : Bytes)
    → IsBytes xs
    → IsBytes ys
    → length xs < 2 ^ 16
    → length ys < 2 ^ 16
    → (calculate_checksum xs ≡ calculate_checksum ys) ↔ SameSum (sum_words xs) (sum_words ys)
checksum_eq_iff xs ys bx by hx hy =
    let ex = calculate_checksum_lem xs bx hx in
    let ey = calculate_checksum_lem ys by hy in
    let lx = ones_complement-lt (sum_words xs) in
    let ly = ones_complement-lt (sum_words ys) in
    let same = ones_complement_iff (sum_words xs) (sum_words ys) in
    (λ e. same.0 (omega arith), λ e. let e' = same.1 e in omega arith)
