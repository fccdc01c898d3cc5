-- ===== src/Transfer/Receive/First.antt =====
-- The first loop of `recv` ends by the peer's packets, and keeps the number of retries.
use reliable_udp.Prelude.{
  ℕ, ◌≤◌, ◌<◌, ◌≡◌, ◌≢◌, Bool, true, false, List, arith, take, refl, if◌then◌else◌,
}
use reliable_udp.Wire.Checksum.{Bytes}
use reliable_udp.Wire.Header.{flag_psh}
use reliable_udp.Network.{Incoming, recv_error, datagram, address_eq}
use reliable_udp.Run.{Outcome, waiting}
use reliable_udp.Run.Rules.{
  Anything, All-Anything, HeadKeeps, RoundKeeps, run_loop_inv, HeadEnds, RoundEnds, total_cost,
  run_loop_ends,
}
use reliable_udp.Socket.{Socket, check_packet_source}
use reliable_udp.Validity.{Verdict, Check, invalid, check_packet_validity}
use reliable_udp.Validity.Flags.{
  verdict_on, check_packet_validity-open, check_packet_validity-Leaves,
}
use reliable_udp.Connection.{Tries}
use reliable_udp.Connection.Termination.{tries_left}
use reliable_udp.Transfer.Receive.{first_head, first_switch, first_round, first_loop}

abbrev is_invalid : Verdict → Bool
is_invalid invalid = true
is_invalid _ = false

-- What an answer does to the first loop: a failing `recvfrom`, and a packet of the peer that is valid or
-- closes the connection, end it; another packet of the peer is a try.
abbrev pub settles : Socket → Incoming → ℕ
settles s recv_error = s.protocol_max_retries
settles s (datagram bytes source) =
    if address_eq source s.destination
    then if is_invalid (verdict_on s (take s.protocol_mtu bytes) flag_psh)
      then 1
      else s.protocol_max_retries
    else 0

module _ (s : Socket) where
  abbrev IsTrying : Tries → Type 0
  IsTrying t = (t.socket ≡ s) × (t.num_of_tries ≤ s.protocol_max_retries)

  first_head-ends : (t : Tries) → IsTrying t → HeadEnds (0 < tries_left t) (first_head t)
  unfolding first_head
  first_head-ends t h = ground arith

  first_round-ends :
      (t : Tries) (w : Incoming)
      → IsTrying t
      → 0 < tries_left t
      → RoundEnds IsTrying tries_left (tries_left t) (settles s w) (first_round t w)
  unfolding first_round first_switch check_packet_source
  first_round-ends t recv_error h left = λ e. cc
  first_round-ends t (datagram bytes source) h left =
      let (same, few) = h in
      let kept = check_packet_validity-open s (take s.protocol_mtu bytes) flag_psh in
      rw same (ground (arith, kept, same, few, left))

  pub first_loop-ends :
      (ws : List Incoming)
      → s.protocol_max_retries ≤ total_cost (settles s) ws
      → (first_loop (record { socket = s; num_of_tries = 0 }) ws).outcome ≢ waiting
  unfolding first_loop
  first_loop-ends ws h =
      run_loop_ends _ _ _ IsTrying tries_left (settles s) first_head-ends first_round-ends ws _
        (refl, omega arith) (omega arith)

-- The first loop keeps the number of retries.
module _ (max : ℕ) where
  abbrev KeepsMax : {A : Type 0} → Outcome A → Socket → Type 0
  KeepsMax o s = s.protocol_max_retries ≡ max

  abbrev TriesMax : Tries → Type 0
  TriesMax t = t.socket.protocol_max_retries ≡ max

  first_head-max :
      (t : Tries) → TriesMax t → HeadKeeps TriesMax KeepsMax Anything t.socket (first_head t)
  unfolding first_head
  first_head-max t h = ground arith

  first_switch-max :
      (n : ℕ) (packet : Bytes) (c : Check)
      → c.socket.protocol_max_retries ≡ max
      → RoundKeeps TriesMax KeepsMax Anything (first_switch n packet c)
  unfolding first_switch
  first_switch-max n packet c h = ground (arith, All-Anything c.sent)

  first_round-max :
      (t : Tries) (w : Incoming)
      → TriesMax t
      → RoundKeeps TriesMax KeepsMax Anything (first_round t w)
  unfolding first_round
  first_round-max t recv_error h = (h, tt)
  first_round-max t (datagram bytes source) h =
      let packet = take t.socket.protocol_mtu bytes in
      let c = check_packet_validity t.socket packet flag_psh in
      let left = check_packet_validity-Leaves t.socket packet flag_psh in
      let same : c.socket.protocol_max_retries ≡ max = ground arith in
      ground (
        arith,
        All-Anything (check_packet_source t.socket source).1,
        first_switch-max t.num_of_tries packet c same,
      )

  pub first_loop-max :
      (t : Tries) (ws : List Incoming)
      → TriesMax t
      → (first_loop t ws).state.protocol_max_retries ≡ max
  unfolding first_loop
  first_loop-max t ws h =
      (run_loop_inv _ _ _ TriesMax KeepsMax Anything first_head-max first_round-max ws t h).0
