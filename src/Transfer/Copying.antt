-- ===== src/Transfer/Copying.antt =====
-- The copying of a packet's data into the caller's buffer, in `RUDP_Socket_p::recv` of src/rudp_lib.cpp.
use reliable_udp.Prelude.{
  ℕ, ◌+◌, ◌-◌, ◌*◌, ◌%◌, ◌^◌, Bool, Option, none, some, ◌++◌, ltb, if◌then◌else◌, ◌==◌, length,
  take, drop, replicate,
}
use reliable_udp.Wire.Checksum.{Bytes}
use reliable_udp.Wire.Header.{header_size}
use reliable_udp.Socket.{Socket, payload_room}

-- `a > b` on the `int`s with these 32-bit patterns.
unfoldable pub signed_gt : ℕ → ℕ → Bool
signed_gt a b = ltb ((b + 2 ^ 31) % 2 ^ 32) ((a + 2 ^ 31) % 2 ^ 32)

-- The bytes behind the header of a packet in a zeroed buffer of `mtu` bytes; `none` is a read behind
-- the buffer's end.
unfoldable pub read_payload : ℕ → Bytes → ℕ → Option Bytes
read_payload mtu packet size =
    if ltb mtu (header_size + size)
    then none
    else some (take size (drop header_size (packet ++ replicate (mtu - length packet) 0)))

-- `memcpy` into the caller's buffer; `none` is a write outside of it. Of no bytes it writes nowhere.
unfoldable pub store : Bytes → ℕ → Bytes → Option Bytes
store buffer offset payload =
    if length payload == 0
    then some buffer
    else if ltb (length buffer) (offset + length payload)
    then none
    else some (take offset buffer ++ payload ++ drop (offset + length payload) buffer)

-- Both sides of a `memcpy` from a packet into the caller's buffer.
unfoldable pub copy_payload : ℕ → Bytes → ℕ → Bytes → ℕ → Option Bytes
unfolding read_payload store
copy_payload mtu packet size buffer offset = elim (read_payload mtu packet size) [
  | none ↦ none
  | some payload ↦ store buffer offset payload
]

-- `offset`
unfoldable pub place : Socket → ℕ → ℕ
place s seq_num = seq_num * payload_room s % 2 ^ 32

-- `packet_size` once it is cut down to the buffer, as a `uint16_t`.
unfoldable pub fit : ℕ → ℕ → ℕ → ℕ
fit buffer_size offset size =
    if ltb buffer_size ((offset + size) % 2 ^ 32)
    then (buffer_size + 2 ^ 32 - offset) % 2 ^ 32 % 2 ^ 16
    else size
