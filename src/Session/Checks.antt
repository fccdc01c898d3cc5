-- ===== src/Session/Checks.antt =====
-- What a check of a packet, and the ends of a transfer, are on a connected socket.
use reliable_udp.Prelude.{
  ℕ, zero, suc, ◌≡◌, ◌≢◌, ◌⊎◌, inl, inr, refl, true, false, arith, ℤ, pos, negsuc,
}
use reliable_udp.Wire.Checksum.{Bytes}
use reliable_udp.Run.{returned}
use reliable_udp.Socket.{Socket}
use reliable_udp.Validity.{Check, closed, check_packet_validity}
use reliable_udp.Validity.Flags.{check_packet_validity-Leaves, check_packet_validity-open}
use reliable_udp.Session.Spec.{phase, TransferEnds}

-- The socket that a check leaves: the same, or without its connection where the verdict says so.
abbrev pub Stands : Socket → Check → Type 0
Stands s c =
    (c.verdict ≢ closed → c.socket ≡ s)
    × ((c.socket ≡ s) ⊎ (c.socket ≡ record s { is_connected = false }))

pub check_packet_validity-Stands :
    (s : Socket) (packet : Bytes) (expected : ℕ)
    → Stands s (check_packet_validity s packet expected)
check_packet_validity-Stands s packet expected = (
  check_packet_validity-open s packet expected,
  ground (arith, check_packet_validity-Leaves s packet expected),
)

-- What a call without an answer has to show, by any of the methods.
pub unchanged : (s s' : Socket) → s' ≡ s → (s'.is_server ≡ s.is_server) × (phase s' ≡ phase s)
unchanged s s' same = rw same (refl, refl)

-- The ends with a count and the connection left alone, and with no bytes and the connection closed.
module _ (s s' : Socket) (joined : s.is_connected ≡ true) where
  pub count-TransferEnds : (n : ℤ) → s' ≡ s → TransferEnds s (returned n) s'
  count-TransferEnds (pos zero) e = rw (e, joined) (refl, (tt, inl refl))
  count-TransferEnds (pos (suc n)) e = rw (e, joined) (refl, (tt, refl))
  count-TransferEnds (negsuc n) e = rw (e, joined) (refl, (tt, refl))

  pub closed-TransferEnds :
      (s' ≡ s) ⊎ (s' ≡ record s { is_connected = false }) → TransferEnds s (returned (pos 0)) s'
  closed-TransferEnds (inl e) = count-TransferEnds (pos 0) e
  closed-TransferEnds (inr e) = rw (e, joined) (refl, (tt, inr refl))
