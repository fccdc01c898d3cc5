-- ===== src/Examples/ReceiverCpp.antt =====
-- src/examples/RUDP_Receiver_CPP.cpp, with the answers, the arguments and the samples of the C receiver.
pub mod Freeing
use Prim.Native.String.{String}
use reliable_udp.Prelude.{
  ℕ, Bool, true, false, Option, none, some, List, [], ◌∷◌, ◌==◌, ℤ, pos, negsuc, if◌then◌else◌,
}
use reliable_udp.Wire.Checksum.{Bytes}
use reliable_udp.Run.{Outcome, returned, threw, waiting, undefined}
use reliable_udp.Socket.{Socket}
use reliable_udp.RudpSocket as RudpSocket
use reliable_udp.Transfer.Receive.{Memory}
use reliable_udp.Examples.{Heap, Exit, no_blocks, exit, stuck, attempt, leave, file_size}
use reliable_udp.Examples.ReceiverC.{
  Turn, World, Samples, Stored, stored, no_memory, overrun, arguments, store_sample, in_use, config,
}

abbrev pub socket_only : Heap
socket_only = record no_blocks { socket_block = true }

-- The end of `main`, behind the loop.
unfoldable pub clean_up : World → Socket → Exit
clean_up w s = leave 0 socket_only s w.freeing

-- The ends of `main` with both blocks freed: in each `catch`, and on a negative count.
unfoldable pub on_error : World → Socket → Exit
on_error w s = leave 1 socket_only s w.freeing

-- The end of a round, by how its sample was stored. Where `realloc` fails, the buffer alone is freed.
after_sample : World → Socket → Stored → (Samples → Exit) → Exit
after_sample w s (stored a) rest = rest a
after_sample w s no_memory rest = leave 1 (record socket_only { samples_block = true }) s w.freeing
after_sample w s overrun rest = stuck undefined in_use

-- What follows the second call of `recv` in a round, by what it returned.
after_file : World → Socket → Bool → Samples → ℤ → (Samples → Exit) → Exit
unfolding clean_up on_error store_sample after_sample
after_file w s realloc a (negsuc n) rest = on_error w s
after_file w s realloc a (pos n) rest =
    if n == 0 then clean_up w s else after_sample w s (store_sample realloc a) rest

abbrev pub is_zero : ℤ → Bool
is_zero (pos n) = n == 0
is_zero (negsuc n) = false

-- The loop of `main`, on the socket and the buffer. It waits where no turn is left.
unfoldable pub receive_loop : World → Memory → Samples → List Turn → Exit
unfolding clean_up on_error after_file
receive_loop w m a [] = stuck waiting in_use
receive_loop w m a (t ∷ ts) =
    attempt in_use (RudpSocket.recv m.socket (some m.buffer) 5 t.ready_first t.ready)
      (λ got m1.
        if is_zero got
        then clean_up w m1.socket
        else attempt in_use
            (RudpSocket.recv m1.socket (some m1.buffer) file_size t.file_first t.file)
            (λ got m2. after_file w m2.socket t.realloc a got (λ a'. receive_loop w m2 a' ts))
            (λ m2. on_error w m2.socket))
      (λ m1. on_error w m1.socket)

-- What follows the constructor. Nothing catches what it throws; what `accept` returns is not looked at.
unfoldable pub with_socket : World → Bytes → Outcome Socket → Exit
unfolding receive_loop on_error
with_socket w buffer (returned s) =
    attempt in_use (RudpSocket.accept s w.accepting)
      (λ ret s'.
        receive_loop w (record { socket = s'; buffer = buffer }) (record { times = 0; arrsize = 1 })
          w.turns)
      (on_error w)
with_socket w buffer (threw e) = stuck (threw e) (record in_use { socket_block = false })
with_socket w buffer waiting = stuck waiting (record in_use { socket_block = false })
with_socket w buffer undefined = stuck undefined (record in_use { socket_block = false })

-- The two calls of `malloc`, and the test on both.
with_buffer : World → ℕ → Option Bytes → Exit
unfolding with_socket
with_buffer w port none = exit 1 (record no_blocks { samples_block = w.samples })
with_buffer w port (some buffer) =
    if w.samples
    then with_socket w buffer (RudpSocket.construct (config port) w.setup w.memory)
    else exit 1 (record no_blocks { data_block = true })

-- What follows the check of the arguments.
with_arguments : World → Option ℕ → Exit
unfolding with_buffer
with_arguments w none = exit 1 no_blocks
with_arguments w (some port) = with_buffer w port w.buffer

-- `main`, on its arguments.
unfoldable pub main : (String → ℤ) → World → List String → Exit
unfolding with_arguments arguments
main atoi w argv = with_arguments w (arguments atoi argv)
