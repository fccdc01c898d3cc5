-- ===== src/Examples/SenderC/Data.antt =====
-- The random data of the C sender.
use reliable_udp.Prelude.{
  ℕ, zero, suc, ◌+◌, ◌<◌, ◌≡◌, true, false, Option, none, some, arith, refl, length,
}
use reliable_udp.Run.Rules.{All}
use reliable_udp.Examples.SenderC.{random_bytes, util_generate_random_data}
use reliable_udp.Examples.SenderC.Freeing.{length-random_bytes}
use reliable_udp.Wire.Checksum.{Bytes}

-- So many bytes, each below 256.
abbrev pub HoldsBytes : ℕ → Option Bytes → Type 0
HoldsBytes size none = ⊥
HoldsBytes size (some file) = (length file ≡ size) × All (λ b. b < 256) file

random_bytes-Small : (rand : ℕ → ℕ) (i n : ℕ) → All (λ b. b < 256) (random_bytes rand i n)
unfolding random_bytes
random_bytes-Small rand i zero = tt
random_bytes-Small rand i (suc n) = (omega arith, random_bytes-Small rand (i + 1) n)

-- `util_generate_random_data` gives the number of bytes that it is asked for, each within a byte, where
-- that number is not zero and `calloc` has memory; it gives the null pointer where one of them fails.
pub util_generate_random_data_lem :
    (rand : ℕ → ℕ) (size : ℕ)
    → 0 < size
    → HoldsBytes size (util_generate_random_data true rand size)
      × (util_generate_random_data false rand size ≡ none)
      × (util_generate_random_data true rand 0 ≡ none)
unfolding util_generate_random_data
util_generate_random_data_lem rand size positive = (
  ground (arith, length-random_bytes rand 0 size, random_bytes-Small rand 0 size),
  ground arith,
  refl,
)
