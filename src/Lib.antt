-- ===== src/Lib.antt =====
-- Reliable UDP: a library that opens connections over UDP, and sends messages over them.
--
-- The program. `RUDP_Socket_p` (src/include/RUDP_API_wrap.hpp, src/rudp_lib.cpp) is a socket with the
-- methods `connect`, `accept`, `send`, `recv` and `disconnect`. A packet has a header of 12 bytes: its
-- sequence number, the length of the data, a checksum and flags. `connect` sends SYN packets with its
-- settings until a SYN-ACK comes back from `accept`. `send` cuts a message into packets that both MTUs
-- have room for, and sends each until its acknowledgement comes; `recv` puts them together, and
-- acknowledges each. `disconnect` sends FIN packets until the peer answers, or the retries are spent.
--
-- The model.
--   Prelude          names and lemmas that the modules share; Boolean tests on the native numbers
--   Wire.Checksum    `_calculate_checksum`, and in Fold what it computes
--   Wire.Header      `RUDP_header`, `RUDP_SYN_packet` and the constants; in Codec their round trips
--   Network          addresses, what is handed to `sendto`, the answers of the operating system
--   Run              how a call ends, and loops over the answers; in Rules their invariants and ends,
--                    in Windows their ends by a window of the answers, in Counts how
--                    much they send
--   Socket           the members, the constructor, the getters and setters, `_send_control_packet`,
--                    `_check_packet_source`; in Invariant the bounds of the members
--   Validity         `_check_packet_validity`; in Form, Flags, Control and Closing its tests and answers
--   Connection       `connect`, `accept`, `disconnect`; in Invariant, Descriptor,
--                    Termination, Answers, Handshake and Silence what they keep, that they end,
--                    what they return, how two sockets meet, and what happens without an answer, in
--                    Closing what happens with one; in Session what they do to the connection, as
--                    steps of a state machine
--   Transfer.Send    `send`; in Script what a network lets it see, in Invariant, Bounds, Volume,
--                    Termination, Delivery, Silence and Repeated what it keeps and achieves, and
--                    what a repeated acknowledgement costs; in Session its steps of the state
--                    machine
--   Transfer.Packets the packets of a message
--   Transfer.Copying the copying of a packet's data into the caller's buffer, in `recv`
--   Transfer.Receive `recv`; in Script what a network lets it see, in Storing, Rounds and Delivery
--                    how it puts a message together, in Invariant, Acks and Lengths what it keeps, in
--                    Opening, Single, Cut and Overrun what it makes of packets out of place or too long, in First and
--                    Termination how it ends, in Closing what a FIN does; in Session its steps of
--                    the state machine
--   Transfer.Link    a network that loses and damages packets between two sockets; Transfer.Exchange
--                    puts `send` and `recv` on it
--   Api              the C interface of src/rudp_lib_c_wrap.cpp and the destructor; in Safety and Errors
--                    what it keeps in any order of calls, what it catches and closes; in Handles
--                    what it does to an open handle
--   Session          the state machine of a connection, and any sequence of calls against it: Spec
--                    says what each method may do, Checks is on single packets, Runs and Guards are
--                    about whole sequences; Farewell and Whole put two sockets together, from the
--                    handshake to the end of the connection
--   RudpSocket       the C++ class of src/rudp_lib_cpp_wrap.cpp, which passes each call on
--   Examples         the programs of src/examples: SenderC, SenderCpp, ReceiverC and ReceiverCpp from
--                    the arguments to what `main` returns; in Freeing what they leave allocated and
--                    open, in Silence what the senders do without an answer, in Bounds, Choice and Data the receivers' array, the senders' question and
--                    their data
--   Tests            runs and instances at concrete sockets, packets and messages
--
-- How it corresponds. A method is a function of the socket, its arguments and the list of the answers
-- that the operating system gives: each answer is one return of `recvfrom`, of `poll` with the
-- `recvfrom` behind it, or of `sendto` with these behind it. A run has an outcome, the socket behind
-- it, and what was handed to `sendto`, in order. An outcome is a returned value, a thrown exception, a
-- call that still waits because the list has run out, or undefined behaviour of C++. A loop of a method
-- is a head, which tests and sends, and a round, which takes an answer. `run_loop` puts them together.
-- The names of the functions are those of the methods and variables, in lower case; `recv_round` is
-- the body of the loop in `recv`, `recv_switch` its branches on the packet's validity.
--
-- A program of src/examples is a function of its arguments and of a `World`, which holds the answers to
-- all its calls, in order, those of C's allocation, `rand` and `scanf` among them; `inet_pton` and `atoi`
-- are parameters. An exit says which of the program's blocks are allocated at the end. Where `main` lets
-- an exception out, the exit's status is that exception, and no destructor runs.
--
-- Numbers. Numbers are natural, with wrap written out where the code may wrap. A buffer is a list of
-- bytes. `recvfrom` cuts a datagram to the socket's MTU. The `int` totals of bytes wrap at 32 bits,
-- as the machine's do; C++ leaves an overflow of them undefined, and only a message of 2 ^ 31 bytes or
-- more meets it; a run that is `undefined` in the model is not one with such an overflow. `sizeof`
-- values are those of 64-bit hosts; words in memory are little-endian. The only fuel is that of the
-- checksum's loop on carries, two rounds: the first leaves a carry of one bit at most, the second none.
--
-- Not modelled. That a caller's size may be more than its buffer holds: `send` of the model then reads
-- what is there. What is printed, and the counters that are only printed, with their
-- overflow: `total_actual_bytes` of `send` and `recv` is one, an `int` that overflows where 2 ^ 31 bytes
-- are sent, headers and repeated packets included. The texts of exceptions: each `throw` is a constructor of `Error`. A failing `sendto` of a control packet is only printed by the
-- code, and has no effect here. WSAStartup and WSACleanup. The allocation of a socket does not fail. Of the
-- example programs, what they print, the clock, and the arithmetic on its readings.
pub mod Prelude
pub mod Wire
pub mod Network
pub mod Run
pub mod Socket
pub mod Validity
pub mod Connection
pub mod Transfer
pub mod Api
pub mod Session
pub mod RudpSocket
pub mod Examples
mod Tests
