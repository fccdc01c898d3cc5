-- ===== src/Transfer/Send/Silence.antt =====
-- What `send` does while nobody answers.
use reliable_udp.Prelude.{
  ℕ, zero, suc, ◌+◌, ◌≤◌, ◌≡◌, some, List, [], ◌∷◌, ◌++◌, arith, ap, ◌∙◌, replicate, length,
}
use reliable_udp.Wire.Checksum.{Bytes}
use reliable_udp.Network.{Attempt, timed_out, accepted}
use reliable_udp.Run.{threw, retries_exhausted, prepend, stop}
use reliable_udp.Run.Rules.{run_loop-stop, run_loop-again}
use reliable_udp.Socket.{Socket}
use reliable_udp.Transfer.Send.{send_head, send_loop, send_buffer, send}
use reliable_udp.Transfer.Packets.{
  IsReady, before, last, room_bounds, expected_packets_lem, length-slice, chunk_size-before,
}
use reliable_udp.Transfer.Send.Script.{packet_at}
use reliable_udp.Transfer.Send.Delivery.{m, send_head-before, send_round-lost, start_sending-before}

module _ (s : Socket) (buffer : Bytes) (r : IsReady s buffer) where
  send_head-spent :
      (k t : ℕ)
      → k ≤ last s buffer
      → t ≡ s.protocol_max_retries
      → send_head (m s buffer r) (before s k t)
        ≡ stop (record { outcome = threw retries_exhausted; state = s; sent = [] })
  unfolding send_head before
  send_head-spent k t h spent =
      let count = expected_packets_lem s buffer r in
      let b = room_bounds s buffer r in
      let l = length-slice s buffer r k in rw (chunk_size-before s buffer r k t) (ground arith)

  send_loop-silent :
      (k left t : ℕ) (rest : List Attempt)
      → k ≤ last s buffer
      → t + left ≡ s.protocol_max_retries
      → send_loop (m s buffer r) (before s k t) (replicate left (accepted timed_out) ++ rest)
        ≡ record {
          outcome = threw retries_exhausted;
          state = s;
          sent = replicate left (packet_at s buffer k);
        }
  unfolding send_loop
  send_loop-silent k zero t rest h spent =
      run_loop-stop _ _ _ _ rest (send_head-spent k t h (omega arith))
  send_loop-silent k (suc left) t rest h spent =
      run_loop-again _ _ _ _ _ _ _ (send_head-before s buffer r k t h (omega arith))
        (send_round-lost s buffer r k t)
      ∙ ap (prepend (packet_at s buffer k ∷ []))
          (send_loop-silent k left (t + 1) rest h (omega arith))

  -- `send` on a connected, valid socket throws where as many waits as the maximal number of retries run
  -- into the timeout first; it has sent the first packet as many times, and nothing else.
  pub send-silent :
      (rest : List Attempt)
      → send s
          (some buffer)
          (length buffer)
          (replicate s.protocol_max_retries (accepted timed_out) ++ rest)
        ≡ record {
          outcome = threw retries_exhausted;
          state = s;
          sent = replicate s.protocol_max_retries (packet_at s buffer 0);
        }
  unfolding send send_buffer
  send-silent rest =
      let b = room_bounds s buffer r in
      let started =
        ap
          (λ st.
            send_loop (m s buffer r) st
              (replicate s.protocol_max_retries (accepted timed_out) ++ rest))
          (start_sending-before s buffer r) in
      ground (
        arith,
        r.connected,
        started,
        send_loop-silent 0 s.protocol_max_retries 0 rest (omega arith) (omega arith),
      )
