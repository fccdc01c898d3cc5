-- ===== src/Session/Runs.antt =====
-- Sequences of method calls on one socket, against the state machine of its connection.
use Prim.Native.String.{String}
use reliable_udp.Prelude.{ℕ, ◌≡◌, Bool, Option, List, [], ◌∷◌, sym}
use reliable_udp.Wire.Checksum.{Bytes}
use reliable_udp.Network.{Incoming, Wait, Attempt}
use reliable_udp.Socket.{Socket}
use reliable_udp.Connection.{connect, accept, disconnect}
use reliable_udp.Connection.Session.{connect-Follows, accept-Follows, disconnect-Follows}
use reliable_udp.Transfer.Send.{send}
use reliable_udp.Transfer.Send.Session.{send-Follows}
use reliable_udp.Transfer.Receive.{recv}
use reliable_udp.Transfer.Receive.Session.{recv-Follows}
use reliable_udp.Session.Spec.{
  Phase, Method, Reply, connecting, accepting, sending, receiving, disconnecting, phase, bool_reply,
  count_reply, Allowed, Follows,
}

-- The calls that a program may make, each with its arguments and the operating system's answers to it.
pub data Request : Type 0 where
  connects : String → ℕ → List Wait → Request
  accepts : List Incoming → Request
  sends : Option Bytes → ℕ → List Attempt → Request
  receives : Option Bytes → ℕ → List Incoming → List Wait → Request
  disconnects : List Wait → Request

-- A call as an observer sees it.
pub record Observed : Type 0 where
  pub method : Method
  pub reply : Reply

pub record Performed : Type 0 where
  pub seen : Observed
  pub socket : Socket

module _ (inet_pton : String → Option ℕ) where
  abbrev pub perform : Socket → Request → Performed
  perform s (connects ip port ws) =
      let r = connect inet_pton s ip port ws in
      record {
        seen = record { method = connecting; reply = bool_reply r.outcome };
        socket = r.state;
      }
  perform s (accepts ws) =
      let r = accept s ws in
      record {
        seen = record { method = accepting; reply = bool_reply r.outcome };
        socket = r.state;
      }
  perform s (sends buffer size ws) =
      let r = send s buffer size ws in
      record { seen = record { method = sending; reply = count_reply r.outcome }; socket = r.state }
  perform s (receives buffer size incoming ws) =
      let r = recv s buffer size incoming ws in
      record {
        seen = record { method = receiving; reply = count_reply r.outcome };
        socket = r.state.socket;
      }
  perform s (disconnects ws) =
      let r = disconnect s ws in
      record {
        seen = record { method = disconnecting; reply = bool_reply r.outcome };
        socket = r.state;
      }

  -- The calls of a program, one after the other, as they are observed, and the socket behind them.
  abbrev pub transcript : Socket → List Request → List Observed
  transcript s [] = []
  transcript s (r ∷ rs) = (perform s r).seen ∷ transcript (perform s r).socket rs

  abbrev pub final : Socket → List Request → Socket
  final s [] = s
  final s (r ∷ rs) = final (perform s r).socket rs

-- The transcripts that the machine allows from one state to another.
pub data Trace (server : Bool) : Phase → List Observed → Phase → Type 0 where
  finished : {p : Phase} → Trace server p [] p
  step :
      {p q t : Phase} {o : Observed} {os : List Observed}
      → Allowed server o.method o.reply p q
      → Trace server q os t
      → Trace server p (o ∷ os) t

relabel : {a b : Bool} {p q : Phase} {os : List Observed} → a ≡ b → Trace a p os q → Trace b p os q
relabel e t = rw (sym e) t

module _ (inet_pton : String → Option ℕ) where
  perform-Follows :
      (s : Socket) (r : Request)
      → Follows
          (perform inet_pton s r).seen.method
          (perform inet_pton s r).seen.reply
          s
          (perform inet_pton s r).socket
  perform-Follows s (connects ip port ws) = connect-Follows inet_pton s ip port ws
  perform-Follows s (accepts ws) = accept-Follows s ws
  perform-Follows s (sends buffer size ws) = send-Follows s buffer size ws
  perform-Follows s (receives buffer size incoming ws) = recv-Follows s buffer size incoming ws
  perform-Follows s (disconnects ws) = disconnect-Follows s ws

  -- Any sequence of calls of `connect`, `accept`, `send`, `recv` and `disconnect` on any socket, with any
  -- arguments and any answers of the operating system, gives a transcript that the state machine of a
  -- connection allows for the socket's role, from how the socket stands to how it is left.
  pub transcript-Trace :
      (s : Socket) (rs : List Request)
      → Trace s.is_server (phase s) (transcript inet_pton s rs) (phase (final inet_pton s rs))
  transcript-Trace s [] = finished
  transcript-Trace s (r ∷ rs) =
      let next = perform inet_pton s r in
      let role : next.socket.is_server ≡ s.is_server = (perform-Follows s r).0 in
      step (perform-Follows s r).1 (relabel role (transcript-Trace next.socket rs))
