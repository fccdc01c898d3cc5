-- ===== src/Validity/Control.antt =====
-- The control packets that a valid socket sends have the right form, with the flags and the sequence
-- number that they were sent with.
use reliable_udp.Prelude.{
  [], false, ℕ, ◌+◌, ◌^◌, ◌<◌, ◌≡◌, true, Option, none, some, arith, refl, inl, inr, Bool-cases, ap,
  ◌∙◌, length,
}
use reliable_udp.Wire.Checksum.{Bytes}
use reliable_udp.Wire.Header.{
  Header, decode_header, decode_syn, encode_syn, seal, flag_set, flag_syn, flag_ack, flag_fin,
}
use reliable_udp.Wire.Header.Codec.{
  IsHeader, IsSyn, decode-seal, decode_syn-seal, length-seal, length-encode_syn,
}
use reliable_udp.Network.{Address, Sent}
use reliable_udp.Run.Rules.{All}
use reliable_udp.Socket.{
  Socket, syn_settings, control_packet, send_control_packet, check_packet_source,
}
use reliable_udp.Socket.Invariant.{IsValid}
use reliable_udp.Validity.{check_packet_validity, well_formed}
use reliable_udp.Validity.Form.{IsAcceptable, seal-well_formed, seal-well_formed_syn}
use reliable_udp.Validity.Flags.{check_packet_validity-Leaves}

-- The settings that a valid socket announces.
syn_settings-IsSyn : (s : Socket) → IsValid s → IsSyn (syn_settings s)
unfolding syn_settings
syn_settings-IsSyn s v = ground arith

syn_settings-IsAcceptable : (s : Socket) → IsValid s → IsAcceptable (syn_settings s)
unfolding syn_settings
syn_settings-IsAcceptable s v = ground arith

-- A packet of the right form that is read back with some flags and some sequence number.
abbrev pub Carries : Bytes → ℕ → ℕ → Type 0
Carries packet flags seq_num =
    (well_formed packet ≡ true)
    × ((decode_header packet).flags ≡ flags)
    × ((decode_header packet).seq_num ≡ seq_num)

seal-Carries :
    (h : Header) (body : Bytes)
    → IsHeader h
    → well_formed (seal h body) ≡ true
    → Carries (seal h body) h.flags h.seq_num
seal-Carries h body v w = rw (decode-seal h body v) (w, refl, refl)

-- A control packet of a valid socket, under any flags of 8 bits and any sequence number of 32 bits,
-- has the right form, and the flags and the number are read back from it.
pub control_packet-Carries :
    (s : Socket) (flags seq_num : ℕ)
    → IsValid s
    → flags < 2 ^ 8
    → seq_num < 2 ^ 32
    → Carries (control_packet s flags seq_num) flags seq_num
unfolding control_packet
control_packet-Carries s flags seq_num v hf hs = elim (Bool-cases (flag_set flags flag_syn)) [
  | inl syn ↦ rw syn (
      seal-Carries _ _ (ground arith) (
        seal-well_formed_syn _ _ (ground arith) refl (rw (length-encode_syn (syn_settings s)) refl)
          (syn_settings s) refl (syn_settings-IsSyn s v) (syn_settings-IsAcceptable s v)))
  | inr other ↦
      rw other
        (seal-Carries _ _ (ground arith) (seal-well_formed _ _ (ground arith) refl refl other))
]

-- What is handed to `sendto` has the right form.
abbrev pub WellSent : Sent → Type 0
WellSent d = well_formed d.packet ≡ true

pub send_control_packet-WellSent :
    (s : Socket) (flags seq_num : ℕ) (to : Option Address)
    → IsValid s
    → flags < 2 ^ 8
    → seq_num < 2 ^ 32
    → WellSent (send_control_packet s flags seq_num to)
unfolding send_control_packet
send_control_packet-WellSent s flags seq_num none v hf hs =
    (control_packet-Carries s flags seq_num v hf hs).0
send_control_packet-WellSent s flags seq_num (some a) v hf hs =
    (control_packet-Carries s flags seq_num v hf hs).0

pub check_packet_source-WellSent :
    (s : Socket) (source : Address) → IsValid s → All WellSent (check_packet_source s source).1
unfolding check_packet_source
check_packet_source-WellSent s source v =
    ground
      (arith, send_control_packet-WellSent s flag_fin 0 (some source) v (omega arith) (omega arith))

-- A check keeps the socket valid, and sends well-formed packets alone.
pub check_packet_validity-keeps :
    (s : Socket) (packet : Bytes) (expected : ℕ)
    → IsValid s
    → IsValid (check_packet_validity s packet expected).socket
      × All WellSent (check_packet_validity s packet expected).sent
check_packet_validity-keeps s packet expected v = ground (
  arith,
  check_packet_validity-Leaves s packet expected,
  send_control_packet-WellSent s (flag_fin + flag_ack) 0 none v (omega arith) (omega arith),
)

-- A SYN packet of a valid socket is twenty bytes long and carries the socket's settings.
pub control_packet-settings :
    (s : Socket) (flags seq_num : ℕ)
    → IsValid s
    → flag_set flags flag_syn ≡ true
    → (decode_syn (control_packet s flags seq_num) ≡ syn_settings s)
      × (length (control_packet s flags seq_num) ≡ 20)
unfolding control_packet
control_packet-settings s flags seq_num v syn =
    let size = length-encode_syn (syn_settings s) in
    rw syn (
      decode_syn-seal _ (syn_settings s) (syn_settings-IsSyn s v),
      length-seal _ (encode_syn (syn_settings s)) ∙ ap (λ (n : ℕ). 12 + n) size,
    )

-- The other control packets are the header alone.
pub length-control_packet :
    (s : Socket) (flags seq_num : ℕ)
    → flag_set flags flag_syn ≡ false
    → length (control_packet s flags seq_num) ≡ 12
unfolding control_packet
length-control_packet s flags seq_num other = rw (other, length-seal _ []) refl
