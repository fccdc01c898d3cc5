-- ===== src/Connection/Silence.antt =====
-- What `connect` and `disconnect` do while nobody answers.
use Prim.Native.String.{String}
use reliable_udp.Prelude.{
  ℕ, zero, suc, ◌+◌, ◌<◌, ◌≡◌, true, false, Option, some, none, List, [], ◌∷◌, ◌++◌, arith, refl,
  ap, ◌∙◌, replicate,
}
use reliable_udp.Wire.Header.{flag_syn, flag_fin}
use reliable_udp.Network.{Wait, timed_out}
use reliable_udp.Run.{returned, prepend, again, proceed, stop}
use reliable_udp.Run.Rules.{run_loop-stop, run_loop-again}
use reliable_udp.Socket.{Socket, send_control_packet}
use reliable_udp.Connection.{
  aim, connect_head, connect_round, connect_loop, connect_to, connect, forget, disconnect_head,
  disconnect_round, disconnect_loop, disconnect,
}

module _ (s : Socket) where
  pub connect_head-open :
      (t : ℕ)
      → t < s.protocol_max_retries
      → connect_head (record { socket = s; num_of_tries = t })
        ≡ proceed (send_control_packet s flag_syn 0 none ∷ [])
  unfolding connect_head
  connect_head-open t few = ground arith

  connect_head-spent :
      (t : ℕ)
      → t ≡ s.protocol_max_retries
      → connect_head (record { socket = s; num_of_tries = t })
        ≡ stop (record { outcome = returned false; state = s; sent = [] })
  unfolding connect_head
  connect_head-spent t spent = ground arith

  pub connect_round-timed_out :
      (t : ℕ)
      → connect_round (record { socket = s; num_of_tries = t }) timed_out
        ≡ again [] (record { socket = s; num_of_tries = t + 1 })
  unfolding connect_round
  connect_round-timed_out t = refl

  connect_loop-silent :
      (left t : ℕ) (rest : List Wait)
      → t + left ≡ s.protocol_max_retries
      → connect_loop (record { socket = s; num_of_tries = t }) (replicate left timed_out ++ rest)
        ≡ record {
          outcome = returned false;
          state = s;
          sent = replicate left (send_control_packet s flag_syn 0 none);
        }
  unfolding connect_loop
  connect_loop-silent zero t rest spent =
      run_loop-stop _ _ _ (record { socket = s; num_of_tries = t }) rest
        (connect_head-spent t (omega arith))
  connect_loop-silent (suc left) t rest spent =
      run_loop-again _ _ _ _ _ _ _ (connect_head-open t (omega arith)) (connect_round-timed_out t)
      ∙ ap (prepend (send_control_packet s flag_syn 0 none ∷ []))
          (connect_loop-silent left (t + 1) rest (omega arith))

  pub disconnect_head-open :
      (t : ℕ)
      → t < s.protocol_max_retries
      → disconnect_head (record { socket = s; num_of_tries = t })
        ≡ proceed (send_control_packet s flag_fin 0 none ∷ [])
  unfolding disconnect_head
  disconnect_head-open t few = ground arith

  disconnect_head-spent :
      (t : ℕ)
      → t ≡ s.protocol_max_retries
      → disconnect_head (record { socket = s; num_of_tries = t })
        ≡ stop (record { outcome = returned true; state = forget s; sent = [] })
  unfolding disconnect_head
  disconnect_head-spent t spent = ground arith

  pub disconnect_round-timed_out :
      (t : ℕ)
      → disconnect_round (record { socket = s; num_of_tries = t }) timed_out
        ≡ again [] (record { socket = s; num_of_tries = t + 1 })
  unfolding disconnect_round
  disconnect_round-timed_out t = refl

  disconnect_loop-silent :
      (left t : ℕ) (rest : List Wait)
      → t + left ≡ s.protocol_max_retries
      → disconnect_loop (record { socket = s; num_of_tries = t }) (replicate left timed_out ++ rest)
        ≡ record {
          outcome = returned true;
          state = forget s;
          sent = replicate left (send_control_packet s flag_fin 0 none);
        }
  unfolding disconnect_loop
  disconnect_loop-silent zero t rest spent =
      run_loop-stop _ _ _ (record { socket = s; num_of_tries = t }) rest
        (disconnect_head-spent t (omega arith))
  disconnect_loop-silent (suc left) t rest spent =
      run_loop-again _ _ _ _ _ _ _ (disconnect_head-open t (omega arith))
        (disconnect_round-timed_out t)
      ∙ ap (prepend (send_control_packet s flag_fin 0 none ∷ []))
          (disconnect_loop-silent left (t + 1) rest (omega arith))

-- `connect` of a client that is not connected, to an address that can be read, returns false where as
-- many waits as the maximal number of retries run into the timeout first; it has sent as many SYN
-- packets to the new destination, and stays not connected.
pub connect-silent :
    (inet_pton : String → Option ℕ) (s : Socket) (ip : String) (port address : ℕ) (rest : List Wait)
    → s.is_server ≡ false
    → s.is_connected ≡ false
    → inet_pton ip ≡ some address
    → connect inet_pton s ip port (replicate s.protocol_max_retries timed_out ++ rest) ≡ record {
      outcome = returned false;
      state = aim s port (some address);
      sent =
          replicate s.protocol_max_retries
            (send_control_packet (aim s port (some address)) flag_syn 0 none);
    }
unfolding connect connect_to aim
connect-silent inet_pton s ip port address rest client idle known = ground (
  arith,
  known,
  connect_loop-silent (aim s port (some address)) s.protocol_max_retries 0 rest (omega arith),
)

-- `disconnect` of a connected socket returns true where as many waits as the maximal number of retries
-- run into the timeout first; it has sent as many FIN packets to the peer, and has forgotten the peer.
pub disconnect-silent :
    (s : Socket) (rest : List Wait)
    → s.is_connected ≡ true
    → disconnect s (replicate s.protocol_max_retries timed_out ++ rest) ≡ record {
      outcome = returned true;
      state = forget s;
      sent = replicate s.protocol_max_retries (send_control_packet s flag_fin 0 none);
    }
unfolding disconnect
disconnect-silent s rest connected =
    ground (arith, connected, disconnect_loop-silent s s.protocol_max_retries 0 rest (omega arith))
