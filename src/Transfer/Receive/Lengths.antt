-- ===== src/Transfer/Receive/Lengths.antt =====
-- The copying of data keeps the length of the caller's buffer.
use reliable_udp.Prelude.{
  ℕ, ◌+◌, ◌≤◌, ◌≡◌, ◌++◌, some, arith, take, drop, length, length-take, length-drop, length-append,
  Option-cases, inl, inr,
}
use reliable_udp.Wire.Checksum.{Bytes}
use reliable_udp.Transfer.Receive.{read_payload, store, copy_payload}

length-spliced :
    (buffer payload : Bytes) (offset : ℕ)
    → offset + length payload ≤ length buffer
    → length (take offset buffer ++ payload ++ drop (offset + length payload) buffer)
      ≡ length buffer
length-spliced buffer payload offset h = omega (
  arith,
  length-append (take offset buffer) payload,
  length-append (take offset buffer ++ payload) (drop (offset + length payload) buffer),
  length-take offset buffer,
  length-drop (offset + length payload) buffer,
)

length-store :
    (buffer payload after : Bytes) (offset : ℕ)
    → store buffer offset payload ≡ some after
    → length after ≡ length buffer
unfolding store
length-store buffer payload after offset e = ground (arith, length-spliced buffer payload offset)

pub length-copy_payload :
    (mtu size offset : ℕ) (packet buffer after : Bytes)
    → copy_payload mtu packet size buffer offset ≡ some after
    → length after ≡ length buffer
unfolding copy_payload
length-copy_payload mtu size offset packet buffer after e =
    elim (Option-cases (read_payload mtu packet size)) [
      | inl none' ↦ absurd (ground arith)
      | inr (payload, some') ↦ length-store buffer payload after offset (ground arith)
    ]
