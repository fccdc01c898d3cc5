-- ===== src/Examples/SenderCpp.antt =====
-- src/examples/RUDP_Sender_CPP.cpp. The data and the question are those of the C sender.
pub mod Freeing
use Prim.Native.String.{String}
use reliable_udp.Prelude.{
  ℕ, Bool, true, false, Option, none, some, List, [], ◌∷◌, ◌==◌, ℤ, if◌then◌else◌,
}
use reliable_udp.Wire.Checksum.{Bytes}
use reliable_udp.Run.{returned, threw, waiting, undefined, Outcome}
use reliable_udp.Socket.{Socket}
use reliable_udp.RudpSocket as RudpSocket
use reliable_udp.Examples.{Heap, Exit, no_blocks, exit, stuck, follow, attempt, leave, file_size}
use reliable_udp.Examples.SenderC.{
  Turn, World, in_use, positive, ready_text, arguments, ask, util_generate_random_data, config,
}

-- Only the socket is allocated.
abbrev pub socket_only : Heap
socket_only = record no_blocks { socket_block = true }

-- What follows the loop, by `isOK`. Nothing catches what `disconnect` throws.
unfoldable pub after_loop : World → Bool → Socket → Exit
after_loop w is_ok s =
    if is_ok
    then follow in_use (RudpSocket.disconnect s w.disconnecting)
        (λ ret s'. leave 0 socket_only s' w.freeing)
    else leave 0 socket_only s w.freeing

-- `catch`, and the other ends with an error.
unfoldable pub on_error : World → Socket → Exit
on_error w s = leave 1 socket_only s w.freeing

-- The loop of `main`. It waits where no turn is left.
unfoldable pub sending_loop : World → Bytes → Socket → List Turn → Exit
unfolding after_loop on_error
sending_loop w file s [] = stuck waiting in_use
sending_loop w file s (t ∷ ts) =
    attempt in_use (RudpSocket.send s (some ready_text) 5 t.ready)
      (λ sent s1.
        if positive sent
        then attempt in_use (RudpSocket.send s1 (some file) file_size t.file)
            (λ sent s2.
              if positive sent
              then follow in_use (record { outcome = ask 0 t.choices; state = s2; sent = [] })
                  (λ choice s3.
                    if choice == 110 then after_loop w true s3 else sending_loop w file s3 ts)
              else after_loop w false s2)
            (on_error w)
        else after_loop w false s1)
      (on_error w)

-- What follows the generation of the data.
unfoldable pub with_data : (String → Option ℕ) → World → String → ℕ → Socket → Option Bytes → Exit
unfolding sending_loop on_error
with_data inet_pton w ip port s none = leave 1 socket_only s w.freeing
with_data inet_pton w ip port s (some file) =
    attempt in_use (RudpSocket.connect inet_pton s ip port w.connecting)
      (λ ret s'. if ret then sending_loop w file s' w.turns else on_error w s') (on_error w)

-- What follows the constructor. Nothing catches what it throws.
unfoldable pub with_socket : (String → Option ℕ) → World → String → ℕ → Outcome Socket → Exit
unfolding with_data util_generate_random_data
with_socket inet_pton w ip port (returned s) =
    with_data inet_pton w ip port s (util_generate_random_data w.calloc w.rand file_size)
with_socket inet_pton w ip port (threw e) = stuck (threw e) no_blocks
with_socket inet_pton w ip port waiting = stuck waiting no_blocks
with_socket inet_pton w ip port undefined = stuck undefined no_blocks

-- What follows the check of the arguments.
unfoldable pub with_arguments : (String → Option ℕ) → World → Option (String × ℕ) → Exit
unfolding with_socket
with_arguments inet_pton w none = exit 1 no_blocks
with_arguments inet_pton w (some (ip, port)) =
    with_socket inet_pton w ip port (RudpSocket.construct config w.setup w.memory)

-- `main`, on its arguments.
unfoldable pub main : (String → Option ℕ) → (String → ℤ) → World → List String → Exit
unfolding with_arguments arguments
main inet_pton atoi w argv = with_arguments inet_pton w (arguments atoi argv)
