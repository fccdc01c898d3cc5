-- ===== src/Examples.antt =====
-- What the example programs of src/examples share: their memory, their exits, their arguments, and the
-- defaults of src/include/RUDP_API_wrap.hpp that they pass. Output is left out, and so is the clock, whose
-- readings are only printed.
pub mod SenderC
pub mod ReceiverC
pub mod SenderCpp
pub mod ReceiverCpp
pub mod Rules
pub mod Freeing
pub mod Silence
use Prim.Native.String.{String}
use text.Mathlib.Text as Text
use reliable_udp.Prelude.{
  ℕ, Bool, true, false, not, ◌||◌, Option, none, some, List, [], ◌∷◌, ◌++◌, ltb, ℤ, pos, negsuc,
  if◌then◌else◌,
}
use reliable_udp.Network.{Address, Sent, Wait}
use reliable_udp.Run.{Run, Outcome, returned, threw, waiting, undefined}
use reliable_udp.Socket.{Socket}
use reliable_udp.Api.{Handle, rudp_socket_free}
use reliable_udp.RudpSocket as RudpSocket

abbrev pub mtu_default : ℕ
mtu_default = 1458

abbrev pub timeout_default : ℕ
timeout_default = 100

abbrev pub max_retries_default : ℕ
max_retries_default = 50

-- `RUDP_FILE_SIZE`
abbrev pub file_size : ℕ
file_size = 10485760

-- The blocks that a program has allocated and not freed: its data, its samples and its socket.
pub record Heap : Type 0 where
  pub data_block : Bool
  pub samples_block : Bool
  pub socket_block : Bool

abbrev pub no_blocks : Heap
no_blocks = record { data_block = false; samples_block = false; socket_block = false }

-- How a program ends: the value that `main` returns, what is allocated then, the descriptors that it
-- closed, and what it sent.
pub record Exit : Type 0 where
  pub status : Outcome ℕ
  pub heap : Heap
  pub closed : List ℕ
  pub sent : List Sent

abbrev pub exit : ℕ → Heap → Exit
exit n heap = record { status = returned n; heap = heap; closed = []; sent = [] }

abbrev pub stuck : Outcome ℕ → Heap → Exit
stuck o heap = record { status = o; heap = heap; closed = []; sent = [] }

abbrev pub emit : List Sent → List ℕ → Exit → Exit
emit out closed e = record e { sent = out ++ e.sent; closed = closed ++ e.closed }

-- The rest of a program, where it is reached.
pub resume : {A : Type 0} → Heap → Outcome A → (A → Exit) → Exit
resume heap (returned a) rest = rest a
resume heap (threw e) rest = stuck (threw e) heap
resume heap waiting rest = stuck waiting heap
resume heap undefined rest = stuck undefined heap

-- A call, and the rest of the program; what the call throws nothing catches.
unfoldable pub follow : {A S : Type 0} → Heap → Run S A → (A → S → Exit) → Exit
unfolding resume
follow heap r rest = emit r.sent [] (resume heap r.outcome (λ a. rest a r.state))

-- `rudp_socket_free` on the program's handle.
unfoldable pub free_socket : Heap → Handle → List Wait → (Heap → Exit) → Exit
unfolding resume
free_socket heap handle waits rest =
    let f = rudp_socket_free (some handle) waits in
    emit f.sent f.closed (resume heap f.outcome (λ u. rest (record heap { socket_block = false })))

-- The rest of a program behind a call under `try`, and what `catch` does.
pub try_resume : {A : Type 0} → Heap → Outcome A → (A → Exit) → Exit → Exit
try_resume heap (returned a) rest handler = rest a
try_resume heap (threw e) rest handler = handler
try_resume heap waiting rest handler = stuck waiting heap
try_resume heap undefined rest handler = stuck undefined heap

unfoldable pub attempt : {A S : Type 0} → Heap → Run S A → (A → S → Exit) → (S → Exit) → Exit
unfolding try_resume
attempt heap r rest handler =
    emit r.sent [] (try_resume heap r.outcome (λ a. rest a r.state) (handler r.state))

-- A `return` of C++'s `main`, with the destructor of the socket.
unfoldable pub leave : ℕ → Heap → Socket → List Wait → Exit
unfolding resume
leave n heap s waits =
    let f = RudpSocket.destroy s waits in
    emit f.sent f.closed
      (resume heap f.outcome (λ u. exit n (record heap { socket_block = false })))

-- `port < 1 || port > 65535`
abbrev pub in_range : ℤ → Option ℕ
in_range (pos n) = if ltb n 1 || ltb 65535 n then none else some n
in_range (negsuc n) = none

-- The port behind "-p", by C's `strcmp` and its `atoi`.
abbrev pub port_argument : (String → ℤ) → String → String → Option ℕ
port_argument atoi flag text = if Text.◌==◌ flag "-p" then in_range (atoi text) else none
