-- ===== src/Transfer/Receive/Invariant.antt =====
-- `recv` keeps the socket valid and the buffer's length, and sends well-formed packets alone.
use reliable_udp.Prelude.{ℕ, ◌-◌, ◌≡◌, Option, none, some, List, arith, take, refl, length, ℤ}
use reliable_udp.Wire.Checksum.{Bytes}
use reliable_udp.Wire.Header.{Header, decode_header, flag_psh, header_size}
use reliable_udp.Network.{Sent, Incoming, Wait, recv_error, datagram, poll_error, timed_out, ready}
use reliable_udp.Run.{Outcome, Round, undefined, threw, returned, waiting, done, again}
use reliable_udp.Run.Rules.{All, All-append, Ends, HeadKeeps, RoundKeeps, run_loop_inv}
use reliable_udp.Socket.{Socket}
use reliable_udp.Socket.Invariant.{IsValid}
use reliable_udp.Validity.{Check, check_packet_validity}
use reliable_udp.Validity.Control.{
  WellSent, check_packet_source-WellSent, check_packet_validity-keeps,
}
use reliable_udp.Connection.{Tries}
use reliable_udp.Transfer.Receive.Acks.{ack-WellSent}
use reliable_udp.Transfer.Receive.Lengths.{length-copy_payload}
use reliable_udp.Transfer.Receive.{
  Memory, Receiving, memory, copy_payload, first_head, first_switch, first_round, first_loop,
  recv_head, deliver, place, fit, recv_packet, recv_switch, recv_incoming, recv_round, recv_loop,
  after_first, recv_first, continue_recv, recv_buffer, or_empty, recv, resend,
}

-- A call's end: a valid socket, and a buffer of the length it had.
abbrev pub Kept : ℕ → {A : Type 0} → Outcome A → Memory → Type 0
Kept n o m = IsValid m.socket × (length m.buffer ≡ n)

record IsReceiving (n : ℕ) (st : Receiving) : Type 0 where
  socket_valid : IsValid st.socket
  sized : length st.buffer ≡ n

module _ (n : ℕ) where
  abbrev KeepsRound : Round Receiving Memory ℤ → Type 0
  KeepsRound = RoundKeeps (IsReceiving n) (Kept n) WellSent

  deliver-keeps :
      (size : ℕ) (st : Receiving) (header : Header) (copied : Option Bytes)
      → IsReceiving n st
      → ((b : Bytes) → copied ≡ some b → length b ≡ length st.buffer)
      → KeepsRound (deliver size st header copied)
  unfolding deliver
  deliver-keeps size st header none v h = ground arith
  deliver-keeps size st header (some b) v h =
      let kept = h b refl in ground (arith, ack-WellSent st.socket header.seq_num v.socket_valid)

  recv_packet-keeps :
      (size : ℕ) (st : Receiving) (packet : Bytes)
      → IsReceiving n st
      → KeepsRound (recv_packet size st packet)
  unfolding recv_packet
  recv_packet-keeps size st packet v =
      let header = decode_header packet in
      let offset = place st.socket header.seq_num in
      let fitting = fit size offset header.length in
      let copied = copy_payload st.socket.protocol_mtu packet fitting st.buffer offset in
      ground (
        arith,
        ack-WellSent st.socket st.prev_seq_num v.socket_valid,
        deliver-keeps size st header copied v
            (λ b e. length-copy_payload st.socket.protocol_mtu fitting offset packet st.buffer b e),
      )

  resend-keeps :
      (out : List Sent) (r : Round Receiving Memory ℤ)
      → All WellSent out
      → KeepsRound r
      → KeepsRound (resend out r)
  resend-keeps out (done r) a k = (k.0, All-append WellSent out r.sent a k.1)
  resend-keeps out (again more st) a k = (k.0, All-append WellSent out more a k.1)

  recv_switch-keeps :
      (size : ℕ) (st : Receiving) (packet : Bytes) (c : Check)
      → IsReceiving n st
      → IsValid c.socket
      → All WellSent c.sent
      → KeepsRound (recv_switch size st packet c)
  unfolding recv_switch
  recv_switch-keeps size st packet c v w a =
      let st' = record st { socket = c.socket } in
      let r = recv_packet-keeps size st' packet (record { socket_valid = w; sized = v.sized }) in
      ground (arith, resend-keeps c.sent (recv_packet size st' packet) a r)

  recv_round-keeps :
      (size : ℕ) (st : Receiving) (w : Wait) → IsReceiving n st → KeepsRound (recv_round size st w)
  unfolding recv_round recv_incoming
  recv_round-keeps size st poll_error v = ((v.socket_valid, v.sized), tt)
  recv_round-keeps size st timed_out v = ground arith
  recv_round-keeps size st (ready recv_error) v = ((v.socket_valid, v.sized), tt)
  recv_round-keeps size st (ready (datagram bytes source)) v =
      let s = st.socket in
      let packet = take s.protocol_mtu bytes in
      let kept = check_packet_validity-keeps s packet flag_psh v.socket_valid in
      let on_packet =
        recv_switch-keeps size st packet (check_packet_validity s packet flag_psh) v kept.0
          kept.1 in
      ground (arith, check_packet_source-WellSent s source v.socket_valid, on_packet)

  recv_head-keeps :
      (st : Receiving)
      → IsReceiving n st
      → HeadKeeps (IsReceiving n) (Kept n) WellSent (memory st) (recv_head st)
  unfolding recv_head
  recv_head-keeps st v = ground arith

  recv_loop-keeps :
      (size : ℕ) (st : Receiving) (ws : List Wait)
      → IsReceiving n st
      → Ends (Kept n) WellSent (recv_loop size st ws)
  unfolding recv_loop
  recv_loop-keeps size st ws v =
      run_loop_inv _ _ _ (IsReceiving n) (Kept n) WellSent recv_head-keeps (recv_round-keeps size)
        ws st v

abbrev FirstKept : Outcome (Option Bytes) → Socket → Type 0
FirstKept o s = IsValid s

first_round-keeps :
    (t : Tries) (w : Incoming)
    → IsValid t.socket
    → RoundKeeps (λ (t : Tries). IsValid t.socket) FirstKept WellSent (first_round t w)
unfolding first_round first_switch
first_round-keeps t recv_error v = (v, tt)
first_round-keeps t (datagram bytes source) v =
    let packet = take t.socket.protocol_mtu bytes in
    ground (
      arith,
      check_packet_validity-keeps t.socket packet flag_psh v,
      check_packet_source-WellSent t.socket source v,
    )

first_head-keeps :
    (t : Tries)
    → IsValid t.socket
    → HeadKeeps (λ (t : Tries). IsValid t.socket) FirstKept WellSent t.socket (first_head t)
unfolding first_head
first_head-keeps t v = ground arith

first_loop-keeps :
    (t : Tries) (ws : List Incoming) → IsValid t.socket → Ends FirstKept WellSent (first_loop t ws)
unfolding first_loop
first_loop-keeps t ws v =
    run_loop_inv _ _ _ (λ (t : Tries). IsValid t.socket) FirstKept WellSent first_head-keeps
      first_round-keeps ws t v

module _ (n size : ℕ) where
  after_first-keeps :
      (s : Socket) (packet buffer : Bytes) (copied : Option Bytes) (ws : List Wait)
      → IsValid s
      → length buffer ≡ n
      → ((b : Bytes) → copied ≡ some b → length b ≡ length buffer)
      → Ends (Kept n) WellSent (after_first size s packet buffer copied ws)
  unfolding after_first
  after_first-keeps s packet buffer none ws v e h = ground arith
  after_first-keeps s packet buffer (some b) ws v e h =
      let kept = h b refl in
      let header = decode_header packet in
      let st : Receiving = record {
        socket = s;
        buffer = b;
        num_of_tries = 0;
        total_bytes = length packet - header_size;
        prev_seq_num = header.seq_num;
      } in
      ground (
        arith,
        ack-WellSent s header.seq_num v,
        recv_loop-keeps n size st ws (record { socket_valid = v; sized = omega arith }),
      )

  recv_first-keeps :
      (s : Socket) (packet buffer : Bytes) (ws : List Wait)
      → IsValid s
      → length buffer ≡ n
      → Ends (Kept n) WellSent (recv_first size s packet buffer ws)
  unfolding recv_first
  recv_first-keeps s packet buffer ws v e =
      after_first-keeps s packet buffer _ ws v e
        (λ b. length-copy_payload s.protocol_mtu _ 0 packet buffer b)

  continue_recv-keeps :
      (buffer : Bytes) (ws : List Wait) (o : Outcome (Option Bytes)) (s : Socket) (out : List Sent)
      → IsValid s
      → All WellSent out
      → length buffer ≡ n
      → Ends
          (Kept n)
          WellSent
          (continue_recv size buffer ws (record { outcome = o; state = s; sent = out }))
  unfolding continue_recv
  continue_recv-keeps buffer ws (returned (some p)) s out v a e =
      let later = recv_first-keeps s p buffer ws v e in
      (later.0, All-append WellSent out _ a later.1)
  continue_recv-keeps buffer ws (returned none) s out v a e = ((v, e), a)
  continue_recv-keeps buffer ws (threw x) s out v a e = ((v, e), a)
  continue_recv-keeps buffer ws waiting s out v a e = ((v, e), a)
  continue_recv-keeps buffer ws undefined s out v a e = ((v, e), a)

recv_buffer-keeps :
    (s : Socket) (buffer : Option Bytes) (size : ℕ) (incoming : List Incoming) (waits : List Wait)
    → IsValid s
    → Ends (Kept (length (or_empty buffer))) WellSent (recv_buffer s buffer size incoming waits)
unfolding recv_buffer
recv_buffer-keeps s none size incoming waits v = ((v, refl), tt)
recv_buffer-keeps s (some buffer) size incoming waits v =
    let first = first_loop-keeps (record { socket = s; num_of_tries = 0 }) incoming v in
    continue_recv-keeps (length buffer) size buffer waits _ _ _ first.0 first.1 refl

-- However `recv` ends, on a valid socket and any answers of the operating system, it leaves a valid
-- socket and a buffer as long as it was, and each packet that it sent has the right form.
pub recv-Kept :
    (s : Socket) (buffer : Option Bytes) (size : ℕ) (incoming : List Incoming) (waits : List Wait)
    → IsValid s
    → Ends (Kept (length (or_empty buffer))) WellSent (recv s buffer size incoming waits)
unfolding recv
recv-Kept s buffer size incoming waits v =
    ground (arith, recv_buffer-keeps s buffer size incoming waits v)
