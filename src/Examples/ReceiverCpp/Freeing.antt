-- ===== src/Examples/ReceiverCpp/Freeing.antt =====
-- The C++ receiver frees what it allocates, closes its socket, and sends well-formed packets.
use Prim.Native.String.{String}
use reliable_udp.Prelude.{
  ℕ, ◌≡◌, ◌≢◌, Bool, true, Option, none, some, List, [], ◌∷◌, arith, refl, ◌==◌, ℤ, pos, negsuc,
  if_holds,
}
use reliable_udp.Wire.Checksum.{Bytes}
use reliable_udp.Network.{Incoming, Wait}
use reliable_udp.Run.{Outcome, returned, threw, waiting, undefined}
use reliable_udp.Run.Rules.{All}
use reliable_udp.Validity.Control.{WellSent}
use reliable_udp.Socket.{Socket}
use reliable_udp.Socket.Invariant.{IsValid, construct-IsValid}
use reliable_udp.Connection.{accept}
use reliable_udp.Connection.Invariant.{accept-Keeps}
use reliable_udp.Transfer.Receive.{Memory, recv}
use reliable_udp.Transfer.Receive.Invariant.{recv-Kept}
use reliable_udp.RudpSocket as RudpSocket
use reliable_udp.Examples.{Exit, file_size}
use reliable_udp.Examples.Rules.{Proper, constructed, attempt-Proper, leave-Proper}
use reliable_udp.Examples.ReceiverC.{
  Turn, World, Samples, Stored, stored, no_memory, overrun, arguments, store_sample, in_use, config,
}
use reliable_udp.Examples.ReceiverC.Freeing.{AllGranted, HasMemory, store_sample-granted}
use reliable_udp.Examples.ReceiverCpp.{
  socket_only, clean_up, on_error, after_sample, after_file, is_zero, receive_loop, with_socket,
  with_buffer, with_arguments, main,
}

abbrev ValidMemory : Memory → Type 0
ValidMemory m = IsValid m.socket

recv-Valid :
    (m : Memory) (size : ℕ) (incoming : List Incoming) (ws : List Wait)
    → ValidMemory m
    → (let r = recv m.socket (some m.buffer) size incoming ws in
        ValidMemory r.state × All WellSent r.sent)
recv-Valid m size incoming ws v =
    let k = recv-Kept m.socket (some m.buffer) size incoming ws v in (k.0.0, k.1)

module _ (w : World) where
  clean_up-Proper : (s : Socket) → IsValid s → Proper 1 (clean_up w s)
  unfolding clean_up
  clean_up-Proper s v = leave-Proper 0 socket_only s w.freeing v refl

  on_error-Proper : (s : Socket) → IsValid s → Proper 1 (on_error w s)
  unfolding on_error
  on_error-Proper s v = leave-Proper 1 socket_only s w.freeing v refl

  after_sample-Proper :
      (s : Socket) (a : Stored) (rest : Samples → Exit)
      → a ≢ no_memory
      → ((a' : Samples) → Proper 1 (rest a'))
      → Proper 1 (after_sample w s a rest)
  unfolding after_sample
  after_sample-Proper s (stored a) rest g k = k a
  after_sample-Proper s no_memory rest g k = absurd (g refl)
  after_sample-Proper s overrun rest g k = (tt, tt)

  after_file-Proper :
      (s : Socket) (realloc : Bool) (a : Samples) (got : ℤ) (rest : Samples → Exit)
      → realloc ≡ true
      → IsValid s
      → ((a' : Samples) → Proper 1 (rest a'))
      → Proper 1 (after_file w s realloc a got rest)
  unfolding after_file
  after_file-Proper s realloc a (negsuc n) rest g v k = on_error-Proper s v
  after_file-Proper s realloc a (pos n) rest g v k =
      if_holds (Proper 1) (n == 0) _ _ (λ e. clean_up-Proper s v)
        (λ e. rw g (after_sample-Proper s (store_sample true a) rest (store_sample-granted a) k))

  receive_loop-Proper :
      (m : Memory) (a : Samples) (ts : List Turn)
      → AllGranted ts
      → ValidMemory m
      → Proper 1 (receive_loop w m a ts)
  unfolding receive_loop
  receive_loop-Proper m a [] g v = (tt, tt)
  receive_loop-Proper m a (t ∷ ts) g v =
      attempt-Proper 1 in_use ValidMemory (recv m.socket (some m.buffer) 5 t.ready_first t.ready) _
        (λ m1. on_error w m1.socket) (recv-Valid m 5 t.ready_first t.ready v)
        (λ got m1 v1.
          if_holds (Proper 1) (is_zero got) _ _ (λ e. clean_up-Proper m1.socket v1)
            (λ e.
              attempt-Proper 1 in_use ValidMemory
                (recv m1.socket (some m1.buffer) file_size t.file_first t.file) _
                (λ m2. on_error w m2.socket) (recv-Valid m1 file_size t.file_first t.file v1)
                (λ got m2 v2.
                  after_file-Proper m2.socket t.realloc a got (λ a'. receive_loop w m2 a' ts) g.0 v2
                    (λ a'. receive_loop-Proper m2 a' ts g.1 v2))
                (λ m2. on_error-Proper m2.socket)))
        (λ m1. on_error-Proper m1.socket)

  with_socket-Proper :
      (buffer : Bytes) (o : Outcome Socket)
      → AllGranted w.turns
      → ((s : Socket) → o ≡ returned s → IsValid s)
      → Proper (constructed o) (with_socket w buffer o)
  unfolding with_socket
  with_socket-Proper buffer (returned s) g v =
      let k = accept-Keeps s w.accepting (v s refl) in
      attempt-Proper 1 in_use IsValid (accept s w.accepting) _ (on_error w) (k.0.0, k.1)
        (λ ret s' v'.
          receive_loop-Proper (record { socket = s'; buffer = buffer })
            (record { times = 0; arrsize = 1 }) w.turns g v')
        on_error-Proper
  with_socket-Proper buffer (threw e) g v = (tt, tt)
  with_socket-Proper buffer waiting g v = (tt, tt)
  with_socket-Proper buffer undefined g v = (tt, tt)

-- The sockets that the program creates: one, where its arguments are right and the constructor returns.
abbrev pub created : (String → ℤ) → World → List String → ℕ
created atoi w argv = elim (arguments atoi argv) [
  | none ↦ 0
  | some port ↦ constructed (RudpSocket.construct (config port) w.setup w.memory)
]

with_buffer-Proper :
    (w : World) (port : ℕ) (buffer : Option Bytes)
    → buffer ≢ none
    → w.samples ≡ true
    → AllGranted w.turns
    → Proper
        (constructed (RudpSocket.construct (config port) w.setup w.memory))
        (with_buffer w port buffer)
unfolding with_buffer
with_buffer-Proper w port none h e g = absurd (h refl)
with_buffer-Proper w port (some buffer) h e g = rw e (
    with_socket-Proper w buffer (RudpSocket.construct (config port) w.setup w.memory) g
      (λ s e. (construct-IsValid (config port) w.setup w.memory s (omega arith) e).0))

with_arguments-Proper :
    (w : World) (port : Option ℕ)
    → HasMemory w
    → Proper
        (elim port [
          | none ↦ 0
          | some port ↦ constructed (RudpSocket.construct (config port) w.setup w.memory)
        ])
        (with_arguments w port)
unfolding with_arguments
with_arguments-Proper w none h = ((refl, refl), tt)
with_arguments-Proper w (some port) h = with_buffer-Proper w port w.buffer h.0 h.1 h.2

pub receiver_cpp-Proper :
    (atoi : String → ℤ) (w : World) (argv : List String)
    → HasMemory w
    → Proper (created atoi w argv) (main atoi w argv)
unfolding main
receiver_cpp-Proper atoi w argv h = with_arguments-Proper w (arguments atoi argv) h
