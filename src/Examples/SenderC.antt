-- ===== src/Examples/SenderC.antt =====
-- src/examples/RUDP_Sender_C.c
pub mod Freeing
pub mod Choice
pub mod Data
use Prim.Native.String.{String}
use reliable_udp.Prelude.{
  ℕ, zero, suc, ◌+◌, ◌%◌, Bool, true, false, ◌||◌, Option, none, some, List, [], ◌∷◌, ltb, ◌==◌, ℤ,
  pos, negsuc, if◌then◌else◌,
}
use reliable_udp.Wire.Checksum.{Bytes}
use reliable_udp.Network.{Address, Wait, Attempt}
use reliable_udp.Run.{Run, Outcome, returned, waiting}
use reliable_udp.Socket.{Config, Setup}
use reliable_udp.Api.{Handle, rudp_socket, rudp_connect, rudp_send, rudp_disconnect}
use reliable_udp.Examples.{
  Heap, Exit, no_blocks, exit, stuck, resume, follow, free_socket, port_argument, mtu_default,
  timeout_default, max_retries_default, file_size,
}

-- The filling of the buffer: `rand` is what the calls of C's `rand` return, one after the other.
pub random_bytes : (ℕ → ℕ) → ℕ → ℕ → Bytes
random_bytes rand i zero = []
random_bytes rand i (suc n) = rand i % 256 ∷ random_bytes rand (i + 1) n

-- `util_generate_random_data`; `calloc` is whether C's `calloc` has memory.
unfoldable pub util_generate_random_data : Bool → (ℕ → ℕ) → ℕ → Option Bytes
unfolding random_bytes
util_generate_random_data calloc rand size =
    if size == 0 then none else if calloc then some (random_bytes rand 0 size) else none

-- `-ip <IP> -p <PORT>` behind the program's name: the address and the port.
unfoldable pub arguments : (String → ℤ) → List String → Option (String × ℕ)
arguments atoi (name ∷ ip_flag ∷ ip ∷ flag ∷ port ∷ []) = elim (port_argument atoi flag port) [
  | none ↦ none
  | some n ↦ some (ip, n)
]
arguments atoi _ = none

abbrev settled : ℕ → Bool
settled choice = choice == 121 || choice == 110

-- What `scanf` leaves in `choice`, by what it reads: nothing at the end of the input.
abbrev scanned : ℕ → Option ℕ → ℕ
scanned choice none = choice
scanned choice (some c) = c

-- The loop that asks for 'y' or 'n', on what `scanf` reads.
unfoldable pub ask : ℕ → List (Option ℕ) → Outcome ℕ
ask choice [] = if settled choice then returned choice else waiting
ask choice (answer ∷ answers) =
    let rest = ask (scanned choice answer) answers in
    if settled choice then returned choice else rest

-- What one round of the program's loop is answered.
pub record Turn : Type 0 where
  pub ready : List Attempt
  pub file : List Attempt
  pub choices : List (Option ℕ)

-- The answers to the whole program, in the order of its calls.
pub record World : Type 0 where
  pub setup : Setup
  pub memory : Address
  pub calloc : Bool
  pub rand : ℕ → ℕ
  pub connecting : List Wait
  pub turns : List Turn
  pub disconnecting : List Wait
  pub freeing : List Wait

abbrev pub positive : ℤ → Bool
positive (pos n) = ltb 0 n
positive (negsuc n) = false

-- Both blocks are allocated.
abbrev pub in_use : Heap
in_use = record { data_block = true; samples_block = false; socket_block = true }

-- The end of `main`.
clean_up : World → Handle → Exit
clean_up w handle =
    free_socket in_use handle w.freeing (λ heap. exit 0 (record heap { data_block = false }))

-- What follows the loop, by `isOK`.
unfoldable pub after_loop : World → Bool → Handle → Exit
unfolding clean_up
after_loop w is_ok handle =
    if is_ok
    then follow in_use (rudp_disconnect handle w.disconnecting) (λ ret handle'. clean_up w handle')
    else clean_up w handle

-- "READY", without the zero behind it, which is not sent
abbrev pub ready_text : Bytes
ready_text = 82 ∷ 69 ∷ 65 ∷ 68 ∷ 89 ∷ []

-- The loop of `main`. It waits where no turn is left.
unfoldable pub sending_loop : World → Bytes → Handle → List Turn → Exit
unfolding after_loop
sending_loop w file handle [] = stuck waiting in_use
sending_loop w file handle (t ∷ ts) =
    follow in_use (rudp_send handle (some ready_text) 5 t.ready) (λ sent handle'.
      if positive sent
      then follow in_use (rudp_send handle' (some file) file_size t.file) (λ sent handle''.
        if positive sent
        then follow in_use (record { outcome = ask 0 t.choices; state = handle''; sent = [] })
            (λ choice handle'''.
              if choice == 110
              then after_loop w true handle'''
              else sending_loop w file handle''' ts)
        else after_loop w false handle'')
      else after_loop w false handle')

-- What follows `rudp_connect`, by what it returned.
unfoldable pub after_connect : World → Bytes → Bool → Handle → Exit
unfolding sending_loop
after_connect w file ret handle =
    if ret
    then sending_loop w file handle w.turns
    else free_socket in_use handle w.freeing (λ heap. exit 1 (record heap { data_block = false }))

-- What follows the generation of the data.
unfoldable pub with_data : (String → Option ℕ) → World → String → ℕ → Handle → Option Bytes → Exit
unfolding after_connect
with_data inet_pton w ip port handle none =
    free_socket (record no_blocks { socket_block = true }) handle w.freeing (exit 1)
with_data inet_pton w ip port handle (some file) =
    follow in_use (rudp_connect inet_pton handle ip port w.connecting) (after_connect w file)

-- What follows `rudp_socket`.
unfoldable pub with_socket : (String → Option ℕ) → World → String → ℕ → Handle → Exit
unfolding with_data util_generate_random_data
with_socket inet_pton w ip port none = exit 1 no_blocks
with_socket inet_pton w ip port (some s) =
    with_data inet_pton w ip port (some s) (util_generate_random_data w.calloc w.rand file_size)

-- The socket that the program asks for.
abbrev pub config : Config
config = record {
  is_server = false;
  listen_port = 0;
  mtu = mtu_default;
  timeout = timeout_default;
  max_retries = max_retries_default;
  debug_mode = true;
}

-- What follows the check of the arguments.
unfoldable pub with_arguments : (String → Option ℕ) → World → Option (String × ℕ) → Exit
unfolding with_socket resume
with_arguments inet_pton w none = exit 1 no_blocks
with_arguments inet_pton w (some (ip, port)) =
    resume no_blocks (rudp_socket config w.setup w.memory) (with_socket inet_pton w ip port)

-- `main`, on its arguments. `inet_pton` and `atoi` are the operating system's and the C library's.
unfoldable pub main : (String → Option ℕ) → (String → ℤ) → World → List String → Exit
unfolding with_arguments arguments
main inet_pton atoi w argv = with_arguments inet_pton w (arguments atoi argv)
