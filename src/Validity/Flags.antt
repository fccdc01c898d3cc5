-- ===== src/Validity/Flags.antt =====
-- What `_check_packet_validity` answers to a packet, by its flags and the expected ones.
use reliable_udp.Prelude.{
  ℕ, ◌+◌, ◌<◌, ◌%◌, ◌≡◌, ◌≢◌, ◌⊎◌, ◌↔◌, Bool, true, false, arith, [], ◌∷◌, none, refl,
  if◌then◌else◌,
}
use reliable_udp.Wire.Checksum.{Bytes}
use reliable_udp.Wire.Header.{decode_header, flag_set, flag_syn, flag_ack, flag_psh, flag_fin}
use reliable_udp.Socket.{Socket, send_control_packet}
use reliable_udp.Validity.{
  Verdict, Check, valid, invalid, closed, fault, flags_str, check_flags, well_formed,
  check_packet_validity, mismatch, fin_request, conclude,
}

check_flags_valid_psh :
    (s : Socket) (flags : ℕ)
    → (flag_set flags flag_psh ≡ true) ↔ ((check_flags s flags flag_psh).verdict ≡ valid)
unfolding check_flags mismatch fin_request
check_flags_valid_psh s flags = ground arith

check_flags_valid_ack :
    (s : Socket) (flags : ℕ) → (flags ≡ flag_ack) ↔ ((check_flags s flags flag_ack).verdict ≡ valid)
unfolding check_flags mismatch fin_request
check_flags_valid_ack s flags = ground arith

check_flags_valid_syn :
    (s : Socket) (flags : ℕ) → (flags ≡ flag_syn) ↔ ((check_flags s flags flag_syn).verdict ≡ valid)
unfolding check_flags mismatch fin_request
check_flags_valid_syn s flags = ground arith

check_flags_valid_syn_ack :
    (s : Socket) (flags : ℕ)
    → (flags ≡ flag_syn + flag_ack) ↔ ((check_flags s flags (flag_syn + flag_ack)).verdict ≡ valid)
unfolding check_flags mismatch fin_request
check_flags_valid_syn_ack s flags = ground arith

check_flags_valid_fin_ack :
    (s : Socket) (flags : ℕ)
    → ((flags ≡ flag_fin) × (s.is_connected ≡ true))
      ↔ ((check_flags s flags (flag_fin + flag_ack)).verdict ≡ valid)
unfolding check_flags mismatch fin_request
check_flags_valid_fin_ack s flags = ground arith

-- A test around a check that gives `invalid` where it fails.
iff_if {ℓ} :
    {P : Type ℓ} (b : Bool) (c : Check) (s : Socket)
    → P ↔ (c.verdict ≡ valid)
    → ((if b then c else conclude s invalid).verdict ≡ valid) ↔ ((b ≡ true) × P)
iff_if true c s e = (λ h. (refl, e.1 h), λ h. e.0 h.1)
iff_if false c s e = (λ h. cc, λ h. cc)

-- Whether a packet has the right form and its flags a property.
abbrev pub Admits : Bytes → (ℕ → Type 0) → Type 0
Admits packet P = (well_formed packet ≡ true) × P (decode_header packet).flags

-- The verdict on a packet, under some expected flags.
abbrev pub verdict_on : Socket → Bytes → ℕ → Verdict
verdict_on s packet expected = (check_packet_validity s packet expected).verdict

module _ (s : Socket) (packet : Bytes) where
  -- A packet is valid exactly when it has the right form and the expected flags: for data the PSH flag,
  -- whatever else is set; for ACK, SYN and SYN-ACK just these flags; for FIN-ACK the flag FIN alone,
  -- while the socket is connected.
  pub check_packet_validity-valid_iff :
      ((verdict_on s packet flag_psh ≡ valid) ↔ Admits packet (λ f. flag_set f flag_psh ≡ true))
      × ((verdict_on s packet flag_ack ≡ valid) ↔ Admits packet (λ f. f ≡ flag_ack))
      × ((verdict_on s packet flag_syn ≡ valid) ↔ Admits packet (λ f. f ≡ flag_syn))
      × ((verdict_on s packet (flag_syn + flag_ack) ≡ valid)
          ↔ Admits packet (λ f. f ≡ flag_syn + flag_ack))
      × ((verdict_on s packet (flag_fin + flag_ack) ≡ valid)
          ↔ Admits packet (λ f. (f ≡ flag_fin) × (s.is_connected ≡ true)))
  unfolding check_packet_validity
  check_packet_validity-valid_iff =
      let f = (decode_header packet).flags in
      let w = well_formed packet in
      (
        iff_if w (check_flags s f flag_psh) s (check_flags_valid_psh s f),
        iff_if w (check_flags s f flag_ack) s (check_flags_valid_ack s f),
        iff_if w (check_flags s f flag_syn) s (check_flags_valid_syn s f),
        iff_if w (check_flags s f (flag_syn + flag_ack)) s (check_flags_valid_syn_ack s f),
        iff_if w (check_flags s f (flag_fin + flag_ack)) s (check_flags_valid_fin_ack s f),
      )

-- The socket and the packets that a check leaves: it changes nothing and sends nothing, or it closes
-- the connection, on a well-formed packet with the FIN flag, and then may answer it by a FIN-ACK.
abbrev pub Leaves : Socket → Bytes → Check → Type 0
Leaves s packet c =
    ((c.socket ≡ s) × (c.sent ≡ []))
    ⊎ ((c.verdict ≡ closed)
        × (c.socket ≡ record s { is_connected = false })
        × Admits packet (λ f. flag_set f flag_fin ≡ true)
        × ((c.sent ≡ []) ⊎ (c.sent ≡ send_control_packet s (flag_fin + flag_ack) 0 none ∷ [])))

mismatch-keeps :
    (s : Socket) (flags expected : ℕ)
    → ((mismatch s flags expected).socket ≡ s) × ((mismatch s flags expected).sent ≡ [])
unfolding mismatch
mismatch-keeps s flags expected = ground arith

-- What a check leaves, by the flags alone.
abbrev FlagsLeave : Socket → ℕ → Check → Type 0
FlagsLeave s flags c =
    ((c.socket ≡ s) × (c.sent ≡ []))
    ⊎ ((c.verdict ≡ closed)
        × (c.socket ≡ record s { is_connected = false })
        × (flag_set flags flag_fin ≡ true)
        × ((c.sent ≡ []) ⊎ (c.sent ≡ send_control_packet s (flag_fin + flag_ack) 0 none ∷ [])))

fin_request-leaves : (s : Socket) (expected : ℕ) → FlagsLeave s flag_fin (fin_request s expected)
unfolding fin_request
fin_request-leaves s expected = ground arith

check_flags-leaves :
    (s : Socket) (flags expected : ℕ) → FlagsLeave s flags (check_flags s flags expected)
unfolding check_flags
check_flags-leaves s flags expected =
    ground (arith, mismatch-keeps s flags expected, fin_request-leaves s expected)

-- A check leaves the socket alone and sends nothing; or its verdict is the closed connection, the socket
-- is then not connected, the packet has the right form and the FIN flag, and a FIN-ACK for the peer is
-- all that may have been sent.
pub check_packet_validity-Leaves :
    (s : Socket) (packet : Bytes) (expected : ℕ)
    → Leaves s packet (check_packet_validity s packet expected)
unfolding check_packet_validity
check_packet_validity-Leaves s packet expected =
    ground (arith, check_flags-leaves s (decode_header packet).flags expected)

flags_str-lt_two : (flags : ℕ) → (flags_str flags < 2) ↔ (flags % 32 ≡ 0)
unfolding flags_str
flags_str-lt_two flags = ground arith

mismatch-fault_iff :
    (s : Socket) (flags expected : ℕ)
    → 0 < expected
    → expected < 32
    → ((mismatch s flags expected).verdict ≡ fault) ↔ ((s.debug_mode ≡ true) × (flags % 32 ≡ 0))
unfolding mismatch
mismatch-fault_iff s flags expected lo hi =
    ground (arith, flags_str-lt_two expected, flags_str-lt_two flags)

fin_request-ne_fault : (s : Socket) (expected : ℕ) → (fin_request s expected).verdict ≢ fault
unfolding fin_request
fin_request-ne_fault s expected = ground arith

check_flags-fault_iff :
    (s : Socket) (flags expected : ℕ)
    → 0 < expected
    → expected < 32
    → ((check_flags s flags expected).verdict ≡ fault) ↔ ((s.debug_mode ≡ true) × (flags % 32 ≡ 0))
unfolding check_flags
check_flags-fault_iff s flags expected lo hi =
    ground (arith, mismatch-fault_iff s flags expected, fin_request-ne_fault s expected)

-- Under expected flags from 1 to 31, the check does what C++ leaves undefined exactly
-- when the debug mode is on and a well-formed packet has none of the five flags.
pub check_packet_validity-fault_iff :
    (s : Socket) (packet : Bytes) (expected : ℕ)
    → 0 < expected
    → expected < 32
    → (verdict_on s packet expected ≡ fault)
      ↔ ((s.debug_mode ≡ true) × Admits packet (λ f. f % 32 ≡ 0))
unfolding check_packet_validity
check_packet_validity-fault_iff s packet expected lo hi =
    ground (arith, check_flags-fault_iff s (decode_header packet).flags expected)

-- Only a closing packet changes the socket.
pub check_packet_validity-open :
    (s : Socket) (packet : Bytes) (expected : ℕ)
    → verdict_on s packet expected ≢ closed
    → (check_packet_validity s packet expected).socket ≡ s
check_packet_validity-open s packet expected h =
    ground (arith, check_packet_validity-Leaves s packet expected)

pub check_packet_validity-fault :
    (s : Socket) (packet : Bytes) (expected : ℕ)
    → 0 < expected
    → expected < 32
    → verdict_on s packet expected ≡ fault
    → (check_packet_validity s packet expected).socket.debug_mode ≡ true
check_packet_validity-fault s packet expected lo hi h = ground (
  arith,
  check_packet_validity-Leaves s packet expected,
  check_packet_validity-fault_iff s packet expected lo hi,
)

-- A valid packet changes nothing, and is not answered by the check.
pub check_packet_validity-valid :
    (s : Socket) (packet : Bytes) (expected : ℕ)
    → verdict_on s packet expected ≡ valid
    → check_packet_validity s packet expected ≡ record { verdict = valid; socket = s; sent = [] }
check_packet_validity-valid s packet expected h =
    ground (arith, check_packet_validity-Leaves s packet expected)

-- A packet of another form changes nothing, and is not answered.
pub check_packet_validity-malformed :
    (s : Socket) (packet : Bytes) (expected : ℕ)
    → well_formed packet ≡ false
    → check_packet_validity s packet expected ≡ record { verdict = invalid; socket = s; sent = [] }
unfolding check_packet_validity
check_packet_validity-malformed s packet expected h = rw h refl
