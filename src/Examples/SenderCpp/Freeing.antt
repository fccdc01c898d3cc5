-- ===== src/Examples/SenderCpp/Freeing.antt =====
-- The C++ sender frees what it allocates, closes its socket, and sends well-formed packets.
use Prim.Native.String.{String}
use reliable_udp.Prelude.{
  ℕ, ◌≡◌, Bool, true, false, Option, none, some, List, [], ◌∷◌, arith, refl, ◌==◌, ℤ, if_holds,
}
use reliable_udp.Wire.Checksum.{Bytes}
use reliable_udp.Network.{Attempt}
use reliable_udp.Run.Rules.{All}
use reliable_udp.Validity.Control.{WellSent}
use reliable_udp.Run.{Outcome, returned, threw, waiting, undefined}
use reliable_udp.Socket.{Socket}
use reliable_udp.Socket.Invariant.{IsValid, construct-IsValid}
use reliable_udp.Connection.{connect, disconnect}
use reliable_udp.Connection.Invariant.{connect-Keeps, disconnect-Keeps}
use reliable_udp.Transfer.Send.{send}
use reliable_udp.Transfer.Send.Invariant.{Holds, send-keeps}
use reliable_udp.RudpSocket as RudpSocket
use reliable_udp.Examples.{file_size}
use reliable_udp.Examples.Rules.{Proper, constructed, follow-Proper, attempt-Proper, leave-Proper}
use reliable_udp.Examples.SenderC.{
  Turn, World, in_use, positive, ready_text, arguments, ask, util_generate_random_data, config,
}
use reliable_udp.Examples.SenderC.Freeing.{util_generate_random_data-Holds}
use reliable_udp.Examples.SenderCpp.{
  socket_only, after_loop, on_error, sending_loop, with_data, with_socket, with_arguments, main,
}

sent-Valid :
    (s : Socket) (buffer : Bytes) (size : ℕ) (ws : List Attempt)
    → Holds (some buffer) size
    → IsValid s
    → IsValid (send s (some buffer) size ws).state
      × All WellSent (send s (some buffer) size ws).sent
sent-Valid s buffer size ws fits v =
    let k = send-keeps s (some buffer) size ws v fits in (k.0.0, k.1)

module _ (w : World) where
  on_error-Proper : (s : Socket) → IsValid s → Proper 1 (on_error w s)
  unfolding on_error
  on_error-Proper s v = leave-Proper 1 socket_only s w.freeing v refl

  after_loop-Proper : (is_ok : Bool) (s : Socket) → IsValid s → Proper 1 (after_loop w is_ok s)
  unfolding after_loop
  after_loop-Proper is_ok s v =
      let k = disconnect-Keeps s w.disconnecting v in
      if_holds (Proper 1) is_ok _ _
        (λ e.
          follow-Proper 1 in_use IsValid (disconnect s w.disconnecting) _ (k.0.0, k.1)
            (λ ret s' v'. leave-Proper 0 socket_only s' w.freeing v' refl))
        (λ e. leave-Proper 0 socket_only s w.freeing v refl)

  sending_loop-Proper :
      (file : Bytes) (s : Socket) (ts : List Turn)
      → Holds (some file) file_size
      → IsValid s
      → Proper 1 (sending_loop w file s ts)
  unfolding sending_loop
  sending_loop-Proper file s [] fits v = (tt, tt)
  sending_loop-Proper file s (t ∷ ts) fits v =
      attempt-Proper 1 in_use IsValid (send s (some ready_text) 5 t.ready) _ (on_error w)
        (sent-Valid s ready_text 5 t.ready (refl, omega arith) v)
        (λ sent s1 v1.
          if_holds (Proper 1) (positive sent) _ _
            (λ e.
              attempt-Proper 1 in_use IsValid (send s1 (some file) file_size t.file) _ (on_error w)
                (sent-Valid s1 file file_size t.file fits v1)
                (λ sent s2 v2.
                  if_holds (Proper 1) (positive sent) _ _
                    (λ e.
                      follow-Proper 1 in_use IsValid
                        (record { outcome = ask 0 t.choices; state = s2; sent = [] }) _ (v2, tt)
                        (λ choice s3 v3.
                          if_holds (Proper 1) (choice == 110) _ _
                            (λ e. after_loop-Proper true s3 v3)
                            (λ e. sending_loop-Proper file s3 ts fits v3)))
                    (λ e. after_loop-Proper false s2 v2))
                on_error-Proper)
            (λ e. after_loop-Proper false s1 v1))
        on_error-Proper

module _ (inet_pton : String → Option ℕ) (w : World) (ip : String) (port : ℕ) where
  with_data-Proper :
      (s : Socket) (file : Option Bytes)
      → Holds file file_size
      → IsValid s
      → Proper 1 (with_data inet_pton w ip port s file)
  unfolding with_data
  with_data-Proper s none fits v = leave-Proper 1 socket_only s w.freeing v refl
  with_data-Proper s (some file) fits v =
      let k = connect-Keeps inet_pton s ip port w.connecting v in
      attempt-Proper 1 in_use IsValid (connect inet_pton s ip port w.connecting) _ (on_error w)
        (k.0.0, k.1)
        (λ ret s' v'.
          if_holds (Proper 1) ret _ _ (λ e. sending_loop-Proper w file s' w.turns fits v')
            (λ e. on_error-Proper w s' v'))
        (on_error-Proper w)

  with_socket-Proper :
      (o : Outcome Socket)
      → ((s : Socket) → o ≡ returned s → IsValid s)
      → Proper (constructed o) (with_socket inet_pton w ip port o)
  unfolding with_socket
  with_socket-Proper (returned s) v =
      with_data-Proper s (util_generate_random_data w.calloc w.rand file_size)
        (util_generate_random_data-Holds w.calloc w.rand file_size (omega arith)) (v s refl)
  with_socket-Proper (threw e) v = (tt, tt)
  with_socket-Proper waiting v = (tt, tt)
  with_socket-Proper undefined v = (tt, tt)

-- The sockets that the program creates: one, where its arguments are right and the constructor returns.
abbrev pub created : (String → ℤ) → World → List String → ℕ
created atoi w argv = elim (arguments atoi argv) [
  | none ↦ 0
  | some a ↦ constructed (RudpSocket.construct config w.setup w.memory)
]

with_arguments-Proper :
    (inet_pton : String → Option ℕ) (w : World) (a : Option (String × ℕ))
    → Proper
        (elim a [ none ↦ 0 | some a ↦ constructed (RudpSocket.construct config w.setup w.memory) ])
        (with_arguments inet_pton w a)
unfolding with_arguments
with_arguments-Proper inet_pton w none = ((refl, refl), tt)
with_arguments-Proper inet_pton w (some (ip, port)) =
    with_socket-Proper inet_pton w ip port (RudpSocket.construct config w.setup w.memory)
      (λ s e. (construct-IsValid config w.setup w.memory s (omega arith) e).0)

pub sender_cpp-Proper :
    (inet_pton : String → Option ℕ) (atoi : String → ℤ) (w : World) (argv : List String)
    → Proper (created atoi w argv) (main inet_pton atoi w argv)
unfolding main
sender_cpp-Proper inet_pton atoi w argv = with_arguments-Proper inet_pton w (arguments atoi argv)
