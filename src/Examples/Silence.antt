-- ===== src/Examples/Silence.antt =====
-- The senders where no server answers.
use Prim.Native.String.{String}
use reliable_udp.Prelude.{
  ℕ, ◌≤◌, ◌≡◌, ◌==◌, ◌∙◌, ap, Bool, true, false, Option, none, some, List, [], ◌∷◌, ◌++◌, arith,
  refl, ℤ, pos, replicate,
}
use reliable_udp.Wire.Checksum.{Bytes}
use reliable_udp.Wire.Header.{flag_syn}
use reliable_udp.Network.{Address, Wait, timed_out}
use reliable_udp.Run.{Outcome, returned}
use reliable_udp.Socket.{Socket, Setup, construct, send_control_packet}
use reliable_udp.Connection.{aim}
use reliable_udp.Connection.Silence.{connect-silent}
use reliable_udp.Api.{Handle, rudp_socket, rudp_connect, rudp_socket_free, destroy}
use reliable_udp.RudpSocket as RudpSocket
use reliable_udp.Examples.SenderCpp as SenderCpp
use reliable_udp.Examples.{Exit, resume, attempt, leave, no_blocks, follow, free_socket, file_size}
use reliable_udp.Examples.SenderC.{
  World, random_bytes, arguments, util_generate_random_data, after_connect, with_data, with_socket,
  with_arguments, config, main,
}

-- The socket that the program creates on a descriptor.
abbrev pub created_on : ℕ → Address → Socket
created_on handle memory = record {
  socket_handle = handle;
  is_server = false;
  is_connected = false;
  debug_mode = true;
  destination = memory;
  protocol_mtu = 1458;
  protocol_timeout = 100;
  protocol_max_retries = 50;
  peers_mtu = 0;
}

arguments-right :
    (atoi : String → ℤ) (name flag ip port : String) (n : ℕ)
    → atoi port ≡ pos n
    → 1 ≤ n
    → n ≤ 65535
    → arguments atoi (name ∷ flag ∷ ip ∷ "-p" ∷ port ∷ []) ≡ some (ip, n)
unfolding arguments
arguments-right atoi name flag ip port n e lo hi = rw (arguments, e) (ground arith)

rudp_socket-created :
    (os : Setup) (memory : Address) (handle : ℕ)
    → os.socket ≡ some handle
    → rudp_socket config os memory ≡ returned (some (created_on handle memory))
unfolding rudp_socket construct
rudp_socket-created os memory handle e = rw e refl

util_generate_random_data-some :
    (calloc : Bool) (rand : ℕ → ℕ) (size : ℕ)
    → size == 0 ≡ false
    → calloc ≡ true
    → util_generate_random_data calloc rand size ≡ some (random_bytes rand 0 size)
unfolding util_generate_random_data
util_generate_random_data-some calloc rand size some' memory = rw (some', memory) refl

construct-created :
    (os : Setup) (memory : Address) (handle : ℕ)
    → os.socket ≡ some handle
    → RudpSocket.construct config os memory ≡ returned (created_on handle memory)
unfolding construct
construct-created os memory handle e = rw e refl

-- How both programs end: they return 1, have closed the descriptor, and have sent 50 SYN packets.
abbrev pub unanswered : Address → ℕ → ℕ → ℕ → Exit
unanswered memory port address handle = record {
  status = returned 1;
  heap = no_blocks;
  closed = handle ∷ [];
  sent =
      replicate 50
        (send_control_packet (aim (created_on handle memory) port (some address)) flag_syn 0 none);
}

module _ (inet_pton : String → Option ℕ) (w : World) (ip : String) (n address handle : ℕ)
    (rest : List Wait) (known : inet_pton ip ≡ some address)
    (silent : w.connecting ≡ replicate 50 timed_out ++ rest) where
  abbrev end : Exit
  end = unanswered w.memory n address handle

  with_data-silent :
      (file : Bytes)
      → with_data inet_pton w ip n (some (created_on handle w.memory)) (some file) ≡ end
  unfolding with_data follow after_connect rudp_connect free_socket rudp_socket_free destroy aim
  with_data-silent file =
      rw
        (
          silent,
          connect-silent inet_pton (created_on handle w.memory) ip n address rest refl refl known,
        )
        refl

  with_data_cpp-silent :
      (file : Bytes)
      → SenderCpp.with_data inet_pton w ip n (created_on handle w.memory) (some file) ≡ end
  unfolding SenderCpp.with_data attempt SenderCpp.on_error leave destroy aim
  with_data_cpp-silent file =
      rw
        (
          silent,
          connect-silent inet_pton (created_on handle w.memory) ip n address rest refl refl known,
        )
        refl

  with_generated-silent :
      (file : Option Bytes) (bytes : Bytes)
      → file ≡ some bytes
      → (with_data inet_pton w ip n (some (created_on handle w.memory)) file ≡ end)
        × (SenderCpp.with_data inet_pton w ip n (created_on handle w.memory) file ≡ end)
  with_generated-silent file bytes e = rw e (with_data-silent bytes, with_data_cpp-silent bytes)

  with_socket-silent :
      w.calloc ≡ true
      → (with_socket inet_pton w ip n (some (created_on handle w.memory)) ≡ end)
        × (SenderCpp.with_socket inet_pton w ip n (returned (created_on handle w.memory)) ≡ end)
  unfolding with_socket SenderCpp.with_socket
  with_socket-silent memory =
      with_generated-silent (util_generate_random_data w.calloc w.rand file_size)
        (random_bytes w.rand 0 file_size)
        (util_generate_random_data-some w.calloc w.rand file_size refl memory)

  with_arguments-silent :
      w.calloc ≡ true
      → w.setup.socket ≡ some handle
      → (with_arguments inet_pton w (some (ip, n)) ≡ end)
        × (SenderCpp.with_arguments inet_pton w (some (ip, n)) ≡ end)
  unfolding with_arguments SenderCpp.with_arguments
  with_arguments-silent memory e =
      let both = with_socket-silent memory in
      (
        ap (λ (o : Outcome Handle). resume no_blocks o (with_socket inet_pton w ip n))
              (rudp_socket-created w.setup w.memory handle e)
            ∙ both.0,
        ap (SenderCpp.with_socket inet_pton w ip n) (construct-created w.setup w.memory handle e)
            ∙ both.1,
      )

-- Where the arguments name an address and a port, there is memory and a descriptor, and the first 50
-- waits run into the timeout, the C sender and the C++ sender both return 1: they have sent 50 SYN packets
-- to that address, freed all their blocks and closed the descriptor.
pub senders-silent :
    (inet_pton : String → Option ℕ) (atoi : String → ℤ) (w : World) (name flag ip port : String)
    (n address handle : ℕ) (rest : List Wait)
    → atoi port ≡ pos n
    → 1 ≤ n
    → n ≤ 65535
    → inet_pton ip ≡ some address
    → w.calloc ≡ true
    → w.setup.socket ≡ some handle
    → w.connecting ≡ replicate 50 timed_out ++ rest
    → let argv = name ∷ flag ∷ ip ∷ "-p" ∷ port ∷ [] in
      let end = unanswered w.memory n address handle in
      (main inet_pton atoi w argv ≡ end) × (SenderCpp.main inet_pton atoi w argv ≡ end)
unfolding main SenderCpp.main
senders-silent inet_pton atoi w name flag ip port n address handle rest e lo hi known memory opened
      silent =
    let right = arguments-right atoi name flag ip port n e lo hi in
    let both =
      with_arguments-silent inet_pton w ip n address handle rest known silent memory opened in
    (
      ap (with_arguments inet_pton w) right ∙ both.0,
      ap (SenderCpp.with_arguments inet_pton w) right ∙ both.1,
    )
