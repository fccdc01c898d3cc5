-- ===== src/Tests/ExampleTests.antt =====
-- Tests of the example programs.
use Prim.Native.String.{String}
use reliable_udp.Prelude.{
  ℕ, Bool, leb, replicate, ◌≡◌, ◌++◌, true, false, Option, none, some, List, [], ◌∷◌, arith, refl,
  ℤ, pos,
}
use reliable_udp.Wire.Checksum.{Bytes}
use reliable_udp.Network.{timed_out, poll_error, recv_error}
use reliable_udp.Run.{run_loop, returned, threw, waiting, bind_failed}
use reliable_udp.Socket.{Setup, construct}
use reliable_udp.Connection.{connect, connect_head, connect_round}
use reliable_udp.Api.{rudp_socket, rudp_connect, rudp_socket_free}
use reliable_udp.Examples.{follow, free_socket, no_blocks}
use reliable_udp.Examples.Rules.{Proper}
use reliable_udp.Examples.Freeing.{senders-Proper, receivers-Proper}
use reliable_udp.Examples.Silence.{unanswered, senders-silent}
use reliable_udp.Examples.SenderC as SenderC
use reliable_udp.Examples.SenderC.Freeing as SenderFreeing
use reliable_udp.Examples.SenderC.Choice.{ask_lem}
use reliable_udp.Examples.SenderCpp as SenderCpp
use reliable_udp.Examples.SenderCpp.Freeing as SenderCppFreeing
use reliable_udp.Examples.ReceiverC as ReceiverC
use reliable_udp.Examples.ReceiverC.Freeing as ReceiverFreeing
use reliable_udp.Examples.ReceiverC.Bounds.{HoldsSamples, store_samples, store_samples-HoldsSamples}
use reliable_udp.Examples.ReceiverCpp as ReceiverCpp
use reliable_udp.Examples.ReceiverCpp.Freeing as ReceiverCppFreeing
use reliable_udp.Tests.Samples.{blank, client_address, local_host, setup}

abbrev atoi : String → ℤ
atoi text = pos 8080

abbrev sender_arguments : List String
sender_arguments = "sender" ∷ "-ip" ∷ "127.0.0.1" ∷ "-p" ∷ "8080" ∷ []

abbrev receiver_arguments : List String
receiver_arguments = "receiver" ∷ "-p" ∷ "8080" ∷ []

-- The operating system does not let the sender poll.
abbrev sender_world : SenderC.World
sender_world = record {
  setup = setup;
  memory = client_address;
  calloc = true;
  rand = λ i. i;
  connecting = poll_error ∷ [];
  turns = [];
  disconnecting = [];
  freeing = [];
}

-- It does not let the receiver read.
abbrev receiver_world : Option Bytes → ReceiverC.World
receiver_world buffer = record {
  buffer = buffer;
  samples = true;
  setup = setup;
  memory = client_address;
  accepting = recv_error ∷ [];
  turns = [];
  freeing = [];
}

senders-Proper_example :
    Proper
      (SenderFreeing.created atoi sender_world sender_arguments)
      (SenderC.main local_host atoi sender_world sender_arguments)
    × Proper
        (SenderCppFreeing.created atoi sender_world sender_arguments)
        (SenderCpp.main local_host atoi sender_world sender_arguments)
senders-Proper_example = senders-Proper local_host atoi sender_world sender_arguments

receivers-Proper_example :
    let w = receiver_world (some blank) in
    Proper
      (ReceiverFreeing.created atoi w receiver_arguments)
      (ReceiverC.main atoi w receiver_arguments)
    × Proper
        (ReceiverCppFreeing.created atoi w receiver_arguments)
        (ReceiverCpp.main atoi w receiver_arguments)
receivers-Proper_example =
    receivers-Proper atoi (receiver_world (some blank)) receiver_arguments ((λ e. cc), refl, tt)

-- Nobody answers the sender.
abbrev unheard : SenderC.World
unheard = record sender_world { connecting = replicate 50 timed_out ++ [] }

senders-silent_example :
    let end = unanswered client_address 8080 0x7f00_0001 3 in
    (SenderC.main local_host atoi unheard sender_arguments ≡ end)
    × (SenderCpp.main local_host atoi unheard sender_arguments ≡ end)
senders-silent_example =
    senders-silent local_host atoi unheard "sender" "-ip" "127.0.0.1" "8080" 8080 0x7f00_0001 3 []
      refl (omega arith) (omega arith) refl refl refl refl

-- There is memory for 4 samples, and not for 8.
abbrev memory_for_four : ℕ → Bool
memory_for_four n = leb n 2

store_samples-HoldsSamples_example :
    HoldsSamples memory_for_four 5 (store_samples memory_for_four 5)
store_samples-HoldsSamples_example = store_samples-HoldsSamples memory_for_four 5 (omega arith)

ask_lem_example :
    (SenderC.ask 0 ((some 120 ∷ none ∷ []) ++ some 121 ∷ none ∷ []) ≡ returned 121)
    × (SenderC.ask 0 (some 120 ∷ none ∷ []) ≡ waiting)
ask_lem_example = ask_lem (some 120 ∷ none ∷ []) (none ∷ []) 121 (refl, (tt, tt)) refl

-- The C sender returns 1, the socket is closed, and nothing is left allocated.
sender_ends :
    let e = SenderC.main local_host atoi sender_world sender_arguments in
    (e.status ≡ returned 1) × (e.heap ≡ no_blocks) × (e.closed ≡ 3 ∷ [])
unfolding SenderC.main rudp_socket construct follow rudp_connect connect run_loop connect_head
    connect_round free_socket rudp_socket_free
sender_ends = (refl, refl, refl)

-- Where the first `malloc` fails and the second does not, the receivers leave the samples allocated.
receiver_leaves :
    (ReceiverC.main atoi (receiver_world none) receiver_arguments).heap
    ≡ record no_blocks { samples_block = true }
unfolding ReceiverC.main
receiver_leaves = refl

-- Where the port is taken, the constructor throws, and nothing in the C++ receiver catches it.
abbrev taken : Setup
taken = record setup { bind = λ port. false }

receiver_cpp_throws :
    let w : ReceiverC.World = record (receiver_world (some blank)) { setup = taken } in
    (ReceiverCpp.main atoi w receiver_arguments).status ≡ threw bind_failed
unfolding ReceiverCpp.main construct
receiver_cpp_throws = refl
