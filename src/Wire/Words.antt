-- ===== src/Wire/Words.antt =====
-- Numbers in network byte order: what `htons` and `htonl` leave in memory, and what `ntohs` and
-- `ntohl` read back.
use reliable_udp.Prelude.{ℕ, ◌+◌, ◌*◌, ◌/◌, ◌%◌, ◌^◌, ◌<◌, ◌≡◌, ◌++◌, [], ◌∷◌, arith, get_or}
use reliable_udp.Wire.Checksum.{Bytes}

abbrev pub put16 : ℕ → Bytes
put16 n = n / 256 % 256 ∷ n % 256 ∷ []

abbrev pub put32 : ℕ → Bytes
put32 n = put16 (n / 2 ^ 16) ++ put16 (n % 2 ^ 16)

-- The byte at an offset; a zero behind the end, where the buffers are zeroed.
abbrev pub byte_at : Bytes → ℕ → ℕ
byte_at packet i = get_or packet i 0

abbrev pub u16_at : Bytes → ℕ → ℕ
u16_at packet i = byte_at packet i * 256 + byte_at packet (i + 1)

abbrev pub u32_at : Bytes → ℕ → ℕ
u32_at packet i = u16_at packet i * 2 ^ 16 + u16_at packet (i + 2)

pub u16_at-put16 : (n : ℕ) → n < 2 ^ 16 → u16_at (put16 n) 0 ≡ n
u16_at-put16 n h = omega arith

pub u32_at-put32 : (n : ℕ) → n < 2 ^ 32 → u32_at (put32 n) 0 ≡ n
u32_at-put32 n h = omega arith
