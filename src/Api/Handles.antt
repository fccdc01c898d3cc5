-- ===== src/Api/Handles.antt =====
-- The functions of the C interface on a handle that is not null.
use Prim.Native.String.{String}
use reliable_udp.Prelude.{ℕ, ◌≡◌, Bool, true, Option, none, some, List, [], refl, length, if_holds}
use reliable_udp.Wire.Checksum.{Bytes}
use reliable_udp.Network.{Sent, Incoming, Wait, Attempt}
use reliable_udp.Run.{Run, Outcome, returned, threw, waiting, undefined}
use reliable_udp.Run.Rules.{All}
use reliable_udp.Socket.{Socket}
use reliable_udp.Socket.Invariant.{IsValid}
use reliable_udp.Validity.Control.{WellSent}
use reliable_udp.Connection.{disconnect}
use reliable_udp.Connection.Invariant.{connect-Keeps, accept-Keeps, disconnect-Keeps}
use reliable_udp.Transfer.Send.Invariant.{Holds, send-keeps}
use reliable_udp.Transfer.Receive.Invariant.{recv-Kept}
use reliable_udp.Api.{
  Handle, Freed, guarded, closing, destroy, rudp_connect, rudp_accept, rudp_recv, rudp_send,
  rudp_disconnect, rudp_socket_free,
}

-- A handle on a valid socket.
abbrev pub IsOpen : Handle → Type 0
IsOpen none = ⊥
IsOpen (some s) = IsValid s

-- A call leaves such a handle, and sends well-formed packets alone.
abbrev pub StaysOpen : Handle → List Sent → Type 0
StaysOpen h out = IsOpen h × All WellSent out

guarded-StaysOpen :
    {A : Type 0} (other : A) (h : Handle) (method : Socket → Run Socket A)
    → ((s : Socket) → IsValid s → IsValid (method s).state × All WellSent (method s).sent)
    → IsOpen h
    → StaysOpen (guarded other h method).state (guarded other h method).sent
unfolding guarded
guarded-StaysOpen other none method keeps v = absurd v
guarded-StaysOpen other (some s) method keeps v = keeps s v

pub rudp_connect-StaysOpen :
    (inet_pton : String → Option ℕ) (h : Handle) (ip : String) (port : ℕ) (ws : List Wait)
    → IsOpen h
    → StaysOpen
        (rudp_connect inet_pton h ip port ws).state
        (rudp_connect inet_pton h ip port ws).sent
unfolding rudp_connect
rudp_connect-StaysOpen inet_pton h ip port ws v =
    guarded-StaysOpen _ h _ (λ s v. let k = connect-Keeps inet_pton s ip port ws v in (k.0.0, k.1))
      v

pub rudp_accept-StaysOpen :
    (h : Handle) (ws : List Incoming)
    → IsOpen h
    → StaysOpen (rudp_accept h ws).state (rudp_accept h ws).sent
unfolding rudp_accept
rudp_accept-StaysOpen h ws v =
    guarded-StaysOpen _ h _ (λ s v. let k = accept-Keeps s ws v in (k.0.0, k.1)) v

pub rudp_send-StaysOpen :
    (h : Handle) (buffer : Option Bytes) (size : ℕ) (ws : List Attempt)
    → Holds buffer size
    → IsOpen h
    → StaysOpen (rudp_send h buffer size ws).state (rudp_send h buffer size ws).sent
unfolding rudp_send
rudp_send-StaysOpen h buffer size ws fits v =
    guarded-StaysOpen _ h _ (λ s v. let k = send-keeps s buffer size ws v fits in (k.0.0, k.1)) v

pub rudp_recv-StaysOpen :
    (h : Handle) (buffer : Option Bytes) (size : ℕ) (incoming : List Incoming) (ws : List Wait)
    → IsOpen h
    → StaysOpen
        (rudp_recv h buffer size incoming ws).state.handle
        (rudp_recv h buffer size incoming ws).sent
unfolding rudp_recv
rudp_recv-StaysOpen none buffer size incoming ws v = absurd v
rudp_recv-StaysOpen (some s) buffer size incoming ws v =
    let k = recv-Kept s buffer size incoming ws v in (k.0.0, k.1)

pub rudp_disconnect-StaysOpen :
    (h : Handle) (ws : List Wait)
    → IsOpen h
    → StaysOpen (rudp_disconnect h ws).state (rudp_disconnect h ws).sent
unfolding rudp_disconnect
rudp_disconnect-StaysOpen h ws v =
    guarded-StaysOpen _ h _ (λ s v. let k = disconnect-Keeps s ws v in (k.0.0, k.1)) v

-- How the freeing of a socket ends: where it returns, with one descriptor closed.
abbrev pub ClosesOne : {A : Type 0} → Outcome A → List ℕ → Type 0
ClosesOne (returned a) closed = length closed ≡ 1
ClosesOne (threw e) closed = Unit {0}
ClosesOne waiting closed = Unit {0}
ClosesOne undefined closed = Unit {0}

abbrev Frees : Freed → Type 0
Frees f = ClosesOne f.outcome f.closed × All WellSent f.sent

closing-Frees :
    (s : Socket) (o : Outcome Bool) (out : List Sent) → All WellSent out → Frees (closing s o out)
unfolding closing
closing-Frees s (returned b) out h = (refl, h)
closing-Frees s (threw e) out h = (refl, h)
closing-Frees s waiting out h = (tt, h)
closing-Frees s undefined out h = (tt, h)

pub destroy-Frees :
    (s : Socket) (ws : List Wait)
    → IsValid s
    → ClosesOne (destroy s ws).outcome (destroy s ws).closed × All WellSent (destroy s ws).sent
unfolding destroy
destroy-Frees s ws v =
    let r = disconnect s ws in
    if_holds Frees s.is_connected _ _
      (λ c. closing-Frees r.state r.outcome r.sent (disconnect-Keeps s ws v).1)
      (λ c. closing-Frees s (returned true) [] tt)

pub rudp_socket_free-Frees :
    (h : Handle) (ws : List Wait)
    → IsOpen h
    → ClosesOne (rudp_socket_free (some h) ws).outcome (rudp_socket_free (some h) ws).closed
      × All WellSent (rudp_socket_free (some h) ws).sent
unfolding rudp_socket_free
rudp_socket_free-Frees none ws v = absurd v
rudp_socket_free-Frees (some s) ws v = destroy-Frees s ws v
