-- ===== src/Transfer/Receive/Termination.antt =====
-- `recv` ends: its first loop by the peer's packets, its second one by silence.
use reliable_udp.Prelude.{
  ℕ, ◌-◌, ◌≤◌, ◌<◌, ◌≡◌, ◌≢◌, Option, none, some, List, ◌++◌, arith, take, refl, sym, replicate, ℤ,
  length,
}
use reliable_udp.Wire.Checksum.{Bytes}
use reliable_udp.Wire.Header.{Header, decode_header, flag_psh, header_size}
use reliable_udp.Network.{Sent, Incoming, Wait, recv_error, datagram, poll_error, timed_out, ready}
use reliable_udp.Run.{Round, done, again, Outcome, returned, threw, waiting, undefined}
use reliable_udp.Run.Rules.{HeadEnds, RoundEnds, total_cost}
use reliable_udp.Run.Windows.{run_loop_ends_after}
use reliable_udp.Socket.{Socket}
use reliable_udp.Validity.{Check, check_packet_validity}
use reliable_udp.Validity.Flags.{check_packet_validity-Leaves}
use reliable_udp.Connection.{Tries}
use reliable_udp.Transfer.Receive.{
  Receiving, Memory, recv_head, place, fit, copy_payload, deliver, recv_packet, resend, recv_switch,
  recv_incoming, recv_round, recv_loop, after_first, recv_first, continue_recv, recv_buffer, recv,
}
use reliable_udp.Transfer.Receive.First.{settles, first_loop-ends, first_loop-max}

module _ (max : ℕ) where
  abbrev IsAwaiting : Receiving → Type 0
  IsAwaiting st = (st.socket.protocol_max_retries ≡ max) × (st.num_of_tries ≤ max)

  abbrev HasTries : Receiving → Type 0
  HasTries st = st.num_of_tries < max

  abbrev tries : Receiving → ℕ
  tries st = max - st.num_of_tries

  abbrev RoundStays : Round Receiving Memory ℤ → Type 0
  RoundStays = RoundEnds IsAwaiting (λ st. 0) 0 0

  recv_head-ends :
      (st : Receiving) → IsAwaiting st → HeadEnds (HasTries st × (0 < tries st)) (recv_head st)
  unfolding recv_head
  recv_head-ends st h = ground arith

  deliver-stays :
      (size : ℕ) (st : Receiving) (header : Header) (copied : Option Bytes)
      → IsAwaiting st
      → RoundStays (deliver size st header copied)
  unfolding deliver
  deliver-stays size st header none h = λ e. cc
  deliver-stays size st header (some b) h = ground arith

  recv_packet-stays :
      (size : ℕ) (st : Receiving) (packet : Bytes)
      → IsAwaiting st
      → RoundStays (recv_packet size st packet)
  unfolding recv_packet
  recv_packet-stays size st packet h =
      let header = decode_header packet in
      let offset = place st.socket header.seq_num in
      let copied =
        copy_payload st.socket.protocol_mtu packet (fit size offset header.length) st.buffer
          offset in
      ground (arith, deliver-stays size st header copied h)

  resend-stays :
      (out : List Sent) (r : Round Receiving Memory ℤ) → RoundStays r → RoundStays (resend out r)
  resend-stays out (done r) h = h
  resend-stays out (again more st) h = h

  recv_switch-stays :
      (size : ℕ) (st : Receiving) (packet : Bytes) (c : Check)
      → c.socket.protocol_max_retries ≡ max
      → HasTries st
      → RoundStays (recv_switch size st packet c)
  unfolding recv_switch
  recv_switch-stays size st packet c same few =
      let st' : Receiving = record st { socket = c.socket } in
      ground (arith, resend-stays c.sent _ (recv_packet-stays size st' packet (same, omega arith)))

  recv_round-stays :
      (st : Receiving) (size : ℕ) (w : Wait)
      → IsAwaiting st
      → HasTries st
      → RoundStays (recv_round size st w)
  unfolding recv_round recv_incoming
  recv_round-stays st size poll_error h few = λ e. cc
  recv_round-stays st size timed_out h few = ground arith
  recv_round-stays st size (ready recv_error) h few = λ e. cc
  recv_round-stays st size (ready (datagram bytes source)) h few =
      let packet = take st.socket.protocol_mtu bytes in
      let c = check_packet_validity st.socket packet flag_psh in
      let left = check_packet_validity-Leaves st.socket packet flag_psh in
      let same : c.socket.protocol_max_retries ≡ max = ground arith in
      ground (arith, recv_switch-stays size st packet c same few)

  recv_round-falls :
      (size : ℕ) (st : Receiving)
      → IsAwaiting st
      → HasTries st × (0 < tries st)
      → RoundEnds IsAwaiting tries (tries st) 1 (recv_round size st timed_out)
  unfolding recv_round
  recv_round-falls size st h g = ground arith

  recv_loop-ends :
      (size : ℕ) (st : Receiving) (ws rest : List Wait)
      → IsAwaiting st
      → (recv_loop size st (ws ++ replicate max timed_out ++ rest)).outcome ≢ waiting
  unfolding recv_loop
  recv_loop-ends size st ws rest h =
      run_loop_ends_after _ _ _ IsAwaiting HasTries tries recv_head-ends timed_out max
        (λ l p. omega arith) (λ l w p g. recv_round-stays l size w p g) (recv_round-falls size) ws
        rest st h

module _ (size : ℕ) (ws rest : List Wait) where
  abbrev silenced : ℕ → List Wait
  silenced max = ws ++ replicate max timed_out ++ rest

  after_first-ends :
      (s : Socket) (packet buffer : Bytes) (copied : Option Bytes)
      → (after_first size s packet buffer copied (silenced s.protocol_max_retries)).outcome
        ≢ waiting
  unfolding after_first
  after_first-ends s packet buffer none = λ e. cc
  after_first-ends s packet buffer (some b) =
      let st : Receiving = record {
        socket = s;
        buffer = b;
        num_of_tries = 0;
        total_bytes = length packet - header_size;
        prev_seq_num = (decode_header packet).seq_num;
      } in
      ground (arith, recv_loop-ends s.protocol_max_retries size st ws rest (refl, omega arith))

  recv_first-ends :
      (s : Socket) (packet buffer : Bytes)
      → (recv_first size s packet buffer (silenced s.protocol_max_retries)).outcome ≢ waiting
  unfolding recv_first
  recv_first-ends s packet buffer = after_first-ends s packet buffer _

  continue_recv-ends :
      (max : ℕ) (buffer : Bytes) (o : Outcome (Option Bytes)) (s : Socket) (out : List Sent)
      → s.protocol_max_retries ≡ max
      → o ≢ waiting
      → (continue_recv size buffer
          (silenced max)
          (record { outcome = o; state = s; sent = out })).outcome
        ≢ waiting
  unfolding continue_recv
  continue_recv-ends max buffer (returned (some p)) s out same h =
      rw (sym same) (recv_first-ends s p buffer)
  continue_recv-ends max buffer (returned none) s out same h = λ e. cc
  continue_recv-ends max buffer (threw x) s out same h = λ e. cc
  continue_recv-ends max buffer waiting s out same h = absurd (h refl)
  continue_recv-ends max buffer undefined s out same h = λ e. cc

recv_buffer-ends :
    (s : Socket) (buffer : Option Bytes) (size : ℕ) (incoming : List Incoming) (ws rest : List Wait)
    → s.protocol_max_retries ≤ total_cost (settles s) incoming
    → (recv_buffer s buffer size incoming
        (ws ++ replicate s.protocol_max_retries timed_out ++ rest)).outcome
      ≢ waiting
unfolding recv_buffer
recv_buffer-ends s none size incoming ws rest h = λ e. cc
recv_buffer-ends s (some buffer) size incoming ws rest h =
    let t : Tries = record { socket = s; num_of_tries = 0 } in
    continue_recv-ends size ws rest s.protocol_max_retries buffer _ _ _
      (first_loop-max s.protocol_max_retries t incoming refl) (first_loop-ends s incoming h)

-- `recv` ends, once its first loop has got what settles it, and silence has met the second one, whatever
-- came before and after: the answers to the first loop hold a failure, a packet of the peer that is
-- valid or closes the connection, or as many others of the peer as the maximal number of retries; the
-- answers to the second loop hold as many timeouts in a row.
pub recv-ends :
    (s : Socket) (buffer : Option Bytes) (size : ℕ) (incoming : List Incoming) (ws rest : List Wait)
    → s.protocol_max_retries ≤ total_cost (settles s) incoming
    → (recv s buffer size incoming
        (ws ++ replicate s.protocol_max_retries timed_out ++ rest)).outcome
      ≢ waiting
unfolding recv
recv-ends s buffer size incoming ws rest h =
    ground (arith, recv_buffer-ends s buffer size incoming ws rest h)
