-- ===== src/Transfer/Send/Termination.antt =====
-- `send` ends: each packet takes as many tries at most as the socket allows.
use reliable_udp.Prelude.{
  ℕ, ◌+◌, ◌-◌, ◌*◌, ◌/◌, ◌%◌, ◌^◌, ◌≤◌, ◌<◌, ◌≡◌, ◌≢◌, Option, none, some, List, arith, take, refl,
  ap,
}
use reliable_udp.Wire.Checksum.{Bytes}
use reliable_udp.Wire.Header.{flag_ack}
use reliable_udp.Network.{
  Address, Attempt, recv_error, datagram, poll_error, timed_out, ready, send_error, accepted,
}
use reliable_udp.Run.{waiting}
use reliable_udp.Run.Rules.{HeadEnds, RoundEnds, total_cost, run_loop_ends_when}
use reliable_udp.Socket.{Socket, payload_room, check_packet_source}
use reliable_udp.Connection.Termination.{counts, Same, check-Same}
use reliable_udp.Transfer.Send.{
  Message, Sending, send_head, acknowledge, send_round, send_loop, start_sending, message,
  send_buffer, send,
}

-- The tries that are left for the current packet and all that follow.
abbrev tries_left : Message → Sending → ℕ
tries_left m st = (m.expected_packets - st.i) * st.socket.protocol_max_retries - st.num_of_tries

-- A failing `sendto` counts too.
abbrev pub attempt_counts : Address → Attempt → ℕ
attempt_counts peer send_error = 1
attempt_counts peer (accepted wait) = counts peer wait

first_left : (e i max n : ℕ) → i < e → n < max → 0 < (e - i) * max - n
first_left e i max n h k = grind arith

next_left : (e i max n : ℕ) → i < e → n < max → (e - (i + 1)) * max - 0 + 1 ≤ (e - i) * max - n
next_left e i max n h k =
    let one_less : e - i ≡ (e - (i + 1)) + 1 = omega arith in
    omega (arith, ap (λ (k : ℕ). k * max) one_less)

module _ (m : Message) (peer : Address) (max : ℕ) where
  record Bounded (st : Sending) : Type 0 where
    same : Same peer max st.socket
    few : st.num_of_tries ≤ max

  -- What the loops' tests let through.
  record Open (st : Sending) : Type 0 where
    more : st.i < m.expected_packets
    left : st.num_of_tries < max

  send_head-ends :
      (st : Sending) → Bounded st → HeadEnds (Open st × (0 < tries_left m st)) (send_head m st)
  unfolding send_head
  send_head-ends st b = ground (arith, first_left m.expected_packets st.i max st.num_of_tries)

  send_round-ends :
      (st : Sending) (w : Attempt)
      → Bounded st
      → Open st × (0 < tries_left m st)
      → RoundEnds Bounded
          (tries_left m)
          (tries_left m st)
          (attempt_counts peer w)
          (send_round m st w)
  unfolding send_round check_packet_source acknowledge
  send_round-ends st send_error b g = λ e. cc
  send_round-ends st (accepted poll_error) b g = λ e. cc
  send_round-ends st (accepted timed_out) b g = ground arith
  send_round-ends st (accepted (ready recv_error)) b g = λ e. cc
  send_round-ends st (accepted (ready (datagram bytes source))) b g = ground (
    arith,
    check-Same peer max st.socket (take st.socket.protocol_mtu bytes) flag_ack b.same,
    next_left m.expected_packets st.i max st.num_of_tries,
  )

  send_loop-ends :
      (st : Sending) (ws : List Attempt)
      → Bounded st
      → tries_left m st ≤ total_cost (attempt_counts peer) ws
      → (send_loop m st ws).outcome ≢ waiting
  unfolding send_loop
  send_loop-ends st ws b h =
      run_loop_ends_when _ _ _ Bounded Open (tries_left m) (attempt_counts peer) send_head-ends
        send_round-ends ws st b h

-- The tries that `send` can make at most: the maximal number of retries for each packet.
unfoldable pub most_tries : Socket → ℕ → ℕ
most_tries s size = (size / payload_room s + 1) % 2 ^ 32 * s.protocol_max_retries

send_buffer-ends :
    (s : Socket) (buffer : Option Bytes) (size : ℕ) (ws : List Attempt)
    → most_tries s size ≤ total_cost (attempt_counts s.destination) ws
    → (send_buffer s buffer size ws).outcome ≢ waiting
unfolding send_buffer most_tries message start_sending
send_buffer-ends s none size ws h = λ e. cc
send_buffer-ends s (some buffer) size ws h = ground (
  arith,
  send_loop-ends (message s buffer size) s.destination s.protocol_max_retries (start_sending s) ws
      (record { same = (refl, refl); few = omega arith }),
)

-- `send` ends, once as many answers as the maximal number of retries for each packet count as a try:
-- all but datagrams from other addresses than the peer's.
pub send-ends :
    (s : Socket) (buffer : Option Bytes) (size : ℕ) (ws : List Attempt)
    → most_tries s size ≤ total_cost (attempt_counts s.destination) ws
    → (send s buffer size ws).outcome ≢ waiting
unfolding send
send-ends s buffer size ws h = ground (arith, send_buffer-ends s buffer size ws h)
