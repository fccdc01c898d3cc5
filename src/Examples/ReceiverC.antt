-- ===== src/Examples/ReceiverC.antt =====
-- src/examples/RUDP_Receiver_C.c. A sample is left out, since it is only printed; its place is kept.
pub mod Freeing
pub mod Bounds
use Prim.Native.String.{String}
use reliable_udp.Prelude.{
  ℕ, zero, suc, ◌+◌, ◌*◌, ◌^◌, Bool, true, false, ◌&&◌, Option, none, some, List, [], ◌∷◌, ltb,
  ◌==◌, ℤ, pos, negsuc, if◌then◌else◌,
}
use reliable_udp.Wire.Checksum.{Bytes}
use reliable_udp.Network.{Address, Incoming, Wait}
use reliable_udp.Run.{Run, waiting, undefined}
use reliable_udp.Socket.{Config, Setup}
use reliable_udp.Api.{Handle, HandleMemory, rudp_socket, rudp_accept, rudp_recv}
use reliable_udp.Examples.{
  Heap, Exit, no_blocks, exit, stuck, resume, follow, free_socket, port_argument, mtu_default,
  timeout_default, max_retries_default, file_size,
}

-- `-p <port>` behind the program's name: the port.
unfoldable pub arguments : (String → ℤ) → List String → Option ℕ
arguments atoi (name ∷ flag ∷ port ∷ []) = port_argument atoi flag port
arguments atoi _ = none

-- The array at `rtt`: the samples in it, and its length.
pub record Samples : Type 0 where
  pub times : ℕ
  pub arrsize : ℕ

pub data Stored : Type 0 where
  stored : Samples → Stored
  no_memory : Stored
  overrun : Stored

-- The storing of a sample, and the doubling of a full array; `realloc` is whether C's `realloc` has
-- memory. `overrun`: a write behind the array's end, or an `int` that overflows.
unfoldable pub store_sample : Bool → Samples → Stored
store_sample realloc a =
    if ltb a.times a.arrsize
    then if a.times + 1 == a.arrsize
      then if ltb (a.arrsize * 2) (2 ^ 31)
        then if realloc
          then stored (record { times = a.times + 1; arrsize = a.arrsize * 2 })
          else no_memory
        else overrun
      else stored (record a { times = a.times + 1 })
    else overrun

-- What one round of the program's loop is answered.
pub record Turn : Type 0 where
  pub ready_first : List Incoming
  pub ready : List Wait
  pub file_first : List Incoming
  pub file : List Wait
  pub realloc : Bool

-- The answers to the whole program, in the order of its calls: `malloc` gives the buffer, with what it
-- holds, and the samples.
pub record World : Type 0 where
  pub buffer : Option Bytes
  pub samples : Bool
  pub setup : Setup
  pub memory : Address
  pub accepting : List Incoming
  pub turns : List Turn
  pub freeing : List Wait

abbrev pub in_use : Heap
in_use = record { data_block = true; samples_block = true; socket_block = true }

abbrev positive : ℤ → Bool
positive (pos n) = ltb 0 n
positive (negsuc n) = false

-- The end of `main`, behind the loop.
unfoldable pub clean_up : World → Handle → Exit
clean_up w handle =
    free_socket (record in_use { data_block = false }) handle w.freeing
      (λ heap. exit 0 (record heap { samples_block = false }))

-- The ends of `main` inside the loop: on a negative count, and where `realloc` fails.
unfoldable pub on_error : World → Handle → Exit
on_error w handle =
    free_socket in_use handle w.freeing
      (λ heap. exit 1 (record heap { data_block = false; samples_block = false }))

unfoldable pub on_no_memory : World → Handle → Exit
on_no_memory w handle =
    free_socket in_use handle w.freeing (λ heap. exit 1 (record heap { data_block = false }))

-- The end of a round, by how its sample was stored.
after_sample : World → Handle → Stored → (Samples → Exit) → Exit
unfolding on_no_memory
after_sample w handle (stored a) rest = rest a
after_sample w handle no_memory rest = on_no_memory w handle
after_sample w handle overrun rest = stuck undefined in_use

-- What follows the second call of `rudp_recv` in a round, by what it returned.
after_file : World → Handle → Bool → Samples → ℤ → (Samples → Exit) → Exit
unfolding clean_up on_error store_sample after_sample
after_file w handle realloc a (negsuc n) rest = on_error w handle
after_file w handle realloc a (pos n) rest =
    if n == 0 then clean_up w handle else after_sample w handle (store_sample realloc a) rest

-- The loop of `main`, on the handle and the buffer. It waits where no turn is left.
unfoldable pub receive_loop : World → HandleMemory → Samples → List Turn → Exit
unfolding clean_up after_file
receive_loop w m a [] = stuck waiting in_use
receive_loop w m a (t ∷ ts) =
    follow in_use (rudp_recv m.handle (some m.buffer) 5 t.ready_first t.ready) (λ got m'.
      if positive got
      then follow in_use (rudp_recv m'.handle (some m'.buffer) file_size t.file_first t.file)
          (λ got m''. after_file w m''.handle t.realloc a got (λ a'. receive_loop w m'' a' ts))
      else clean_up w m'.handle)

-- What follows `rudp_accept`, by what it returned.
unfoldable pub after_accept : World → Bytes → Bool → Handle → Exit
unfolding receive_loop
after_accept w buffer ret handle =
    if ret
    then receive_loop w (record { handle = handle; buffer = buffer })
        (record { times = 0; arrsize = 1 }) w.turns
    else on_error w handle

-- What follows `rudp_socket`.
unfoldable pub with_socket : World → Bytes → Handle → Exit
unfolding after_accept
with_socket w buffer none = exit 1 no_blocks
with_socket w buffer (some s) =
    follow in_use (rudp_accept (some s) w.accepting) (after_accept w buffer)

-- The socket that the program asks for.
abbrev pub config : ℕ → Config
config port = record {
  is_server = true;
  listen_port = port;
  mtu = mtu_default;
  timeout = timeout_default;
  max_retries = max_retries_default;
  debug_mode = true;
}

abbrev buffers : Heap
buffers = record no_blocks { data_block = true; samples_block = true }

-- The two calls of `malloc`, and the test on both.
with_buffer : World → ℕ → Option Bytes → Exit
unfolding with_socket resume
with_buffer w port none = exit 1 (record no_blocks { samples_block = w.samples })
with_buffer w port (some buffer) =
    if w.samples
    then resume buffers (rudp_socket (config port) w.setup w.memory) (with_socket w buffer)
    else exit 1 (record no_blocks { data_block = true })

-- What follows the check of the arguments.
with_arguments : World → Option ℕ → Exit
unfolding with_buffer
with_arguments w none = exit 1 no_blocks
with_arguments w (some port) = with_buffer w port w.buffer

-- `main`, on its arguments.
unfoldable pub main : (String → ℤ) → World → List String → Exit
unfolding with_arguments arguments
main atoi w argv = with_arguments w (arguments atoi argv)
