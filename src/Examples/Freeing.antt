-- ===== src/Examples/Freeing.antt =====
-- What the C program and the C++ program of each kind leave behind.
use Prim.Native.String.{String}
use reliable_udp.Prelude.{ℕ, Option, List, ℤ}
use reliable_udp.Examples.Rules.{Proper}
use reliable_udp.Examples.SenderC as SenderC
use reliable_udp.Examples.SenderC.Freeing as SenderFreeing
use reliable_udp.Examples.SenderCpp as SenderCpp
use reliable_udp.Examples.SenderCpp.Freeing as SenderCppFreeing
use reliable_udp.Examples.ReceiverC as ReceiverC
use reliable_udp.Examples.ReceiverC.Freeing as ReceiverFreeing
use reliable_udp.Examples.ReceiverCpp as ReceiverCpp
use reliable_udp.Examples.ReceiverCpp.Freeing as ReceiverCppFreeing

-- Under any arguments, any answers of the operating system and any answers of the user, and wherever its
-- `main` returns, the C sender, and so the C++ sender, has freed all its blocks and closed one descriptor
-- if it created a socket, none otherwise. Whether `main` returns or not, all packets that it sends are
-- well-formed.
pub senders-Proper :
    (inet_pton : String → Option ℕ) (atoi : String → ℤ) (w : SenderC.World) (argv : List String)
    → Proper (SenderFreeing.created atoi w argv) (SenderC.main inet_pton atoi w argv)
      × Proper (SenderCppFreeing.created atoi w argv) (SenderCpp.main inet_pton atoi w argv)
senders-Proper inet_pton atoi w argv = (
  SenderFreeing.sender_c-Proper inet_pton atoi w argv,
  SenderCppFreeing.sender_cpp-Proper inet_pton atoi w argv,
)

-- Under any arguments and any answers of the operating system, where no `malloc` and no `realloc` fails,
-- and wherever its `main` returns, the C receiver, and so the C++ receiver, has freed all its blocks and
-- closed one descriptor if it created a socket, none otherwise. Whether `main` returns or not, all packets
-- that it sends are well-formed.
pub receivers-Proper :
    (atoi : String → ℤ) (w : ReceiverC.World) (argv : List String)
    → ReceiverFreeing.HasMemory w
    → Proper (ReceiverFreeing.created atoi w argv) (ReceiverC.main atoi w argv)
      × Proper (ReceiverCppFreeing.created atoi w argv) (ReceiverCpp.main atoi w argv)
receivers-Proper atoi w argv h = (
  ReceiverFreeing.receiver_c-Proper atoi w argv h,
  ReceiverCppFreeing.receiver_cpp-Proper atoi w argv h,
)
