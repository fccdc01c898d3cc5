-- ===== src/Wire/Checksum.antt =====
-- `RUDP_Socket_p::_calculate_checksum` of src/rudp_lib.cpp, on a little-endian host: the 16-bit word
-- at an even offset is its first byte plus 256 times its second. A buffer is the list of its bytes.
pub mod Fold
use reliable_udp.Prelude.{
  ℕ, zero, suc, ◌+◌, ◌-◌, ◌*◌, ◌/◌, ◌%◌, ◌^◌, List, [], ◌∷◌, ◌==◌, if◌then◌else◌,
}

abbrev pub Bytes : Type 0
Bytes = List ℕ

-- The additions of the `for` loop and of the odd last byte, into a `uint32_t`.
unfoldable pub add_words : ℕ → Bytes → ℕ
add_words checksum [] = checksum
add_words checksum (a ∷ []) = (checksum + a) % 2 ^ 32
add_words checksum (a ∷ b ∷ rest) = add_words ((checksum + (a + 256 * b)) % 2 ^ 32) rest

-- `while (checksum >> 16) checksum = (checksum & 0xFFFF) + (checksum >> 16);` on fuel.
unfoldable pub fold_carries : ℕ → ℕ → ℕ
fold_carries zero checksum = checksum
fold_carries (suc fuel) checksum =
    let next = fold_carries fuel (checksum % 2 ^ 16 + checksum / 2 ^ 16) in
    if checksum / 2 ^ 16 == 0 then checksum else next

-- Rounds of the loop above that any `uint32_t` ends within.
abbrev pub fold_fuel : ℕ
fold_fuel = 2

-- `return ~checksum;` keeps the low 16 bits of the complement.
unfoldable pub calculate_checksum : Bytes → ℕ
calculate_checksum packet = 65535 - fold_carries fold_fuel (add_words 0 packet) % 2 ^ 16
