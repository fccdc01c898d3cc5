-- ===== src/Api/Errors.antt =====
-- The functions of the C interface throw nothing, and `rudp_socket_free` closes the socket.
use Prim.Native.String.{String}
use reliable_udp.Prelude.{
  ℕ, ◌≤◌, ◌≡◌, ◌≢◌, if◌then◌else◌, Bool, true, false, Option, none, some, List, [], ◌∷◌, arith,
  refl, negsuc,
}
use reliable_udp.Wire.Checksum.{Bytes}
use reliable_udp.Network.{Address, Sent, Incoming, Wait, Attempt}
use reliable_udp.Run.{Run, Outcome, Error, returned, threw, waiting, undefined}
use reliable_udp.Run.Rules.{total_cost}
use reliable_udp.Socket.{Socket, Config, Setup, set_debug_mode}
use reliable_udp.Socket.Invariant.{IsValid}
use reliable_udp.Connection.{disconnect}
use reliable_udp.Connection.Descriptor.{disconnect-handle}
use reliable_udp.Connection.Invariant.{disconnect-Keeps}
use reliable_udp.Connection.Termination.{counts, disconnect-ends}
use reliable_udp.Api.{
  Handle, caught, guarded, closing, destroy, rudp_connect, rudp_accept, rudp_recv, rudp_send,
  rudp_disconnect, rudp_get_peers_mtu, rudp_socket_free, rudp_socket, rudp_set_debug_mode,
  rudp_set_mtu, rudp_set_timeout, rudp_set_max_retries, rudp_force_use_own_mtu,
}

caught-no_throw : {A : Type 0} (other : A) (o : Outcome A) (e : Error) → caught other o ≢ threw e
unfolding caught
caught-no_throw other (returned a) e h = cc
caught-no_throw other (threw x) e h = cc
caught-no_throw other waiting e h = cc
caught-no_throw other undefined e h = cc

guarded-no_throw :
    {A : Type 0} (other : A) (h : Handle) (method : Socket → Run Socket A) (e : Error)
    → (guarded other h method).outcome ≢ threw e
unfolding guarded
guarded-no_throw other none method e h = cc
guarded-no_throw other (some s) method e h = caught-no_throw other _ e h

rudp_recv-no_throw :
    (h : Handle) (buffer : Option Bytes) (size : ℕ) (incoming : List Incoming) (ws : List Wait)
    (e : Error)
    → (rudp_recv h buffer size incoming ws).outcome ≢ threw e
unfolding rudp_recv
rudp_recv-no_throw none buffer size incoming ws e h = cc
rudp_recv-no_throw (some s) buffer size incoming ws e h = caught-no_throw (negsuc 0) _ e h

rudp_get_peers_mtu-no_throw : (h : Handle) (e : Error) → rudp_get_peers_mtu h ≢ threw e
unfolding rudp_get_peers_mtu
rudp_get_peers_mtu-no_throw none e h = cc
rudp_get_peers_mtu-no_throw (some s) e h = caught-no_throw 0 _ e h

rudp_set_debug_mode-no_throw :
    (h : Handle) (on : Bool) (e : Error) → (rudp_set_debug_mode h on).outcome ≢ threw e
unfolding rudp_set_debug_mode set_debug_mode
rudp_set_debug_mode-no_throw none on e h = cc
rudp_set_debug_mode-no_throw (some s) on e h = cc

-- Under any answers of the operating system, `rudp_socket`, and on a null handle and on any other the
-- functions of the C interface that call a method which may throw, let no exception out; nor does
-- `rudp_set_debug_mode`, which calls its method without a `try`.
pub api-no_throw :
    (inet_pton : String → Option ℕ) (c : Config) (os : Setup) (memory : Address) (h : Handle)
    (ip : String) (port : ℕ) (buffer : Option Bytes) (size : ℕ) (incoming : List Incoming)
    (waits : List Wait) (attempts : List Attempt) (on : Bool) (setting : ℕ) (e : Error)
    → (rudp_socket c os memory ≢ threw e)
      × ((rudp_connect inet_pton h ip port waits).outcome ≢ threw e)
      × ((rudp_accept h incoming).outcome ≢ threw e)
      × ((rudp_recv h buffer size incoming waits).outcome ≢ threw e)
      × ((rudp_send h buffer size attempts).outcome ≢ threw e)
      × ((rudp_disconnect h waits).outcome ≢ threw e)
      × (rudp_get_peers_mtu h ≢ threw e)
      × ((rudp_set_debug_mode h on).outcome ≢ threw e)
      × ((rudp_set_mtu h setting).outcome ≢ threw e)
      × ((rudp_set_timeout h setting).outcome ≢ threw e)
      × ((rudp_set_max_retries h setting).outcome ≢ threw e)
      × ((rudp_force_use_own_mtu h).outcome ≢ threw e)
unfolding rudp_socket rudp_connect rudp_accept rudp_send rudp_disconnect rudp_set_mtu
    rudp_set_timeout rudp_set_max_retries rudp_force_use_own_mtu
api-no_throw inet_pton c os memory h ip port buffer size incoming waits attempts on setting e = (
  caught-no_throw none _ e,
  guarded-no_throw false h _ e,
  guarded-no_throw false h _ e,
  rudp_recv-no_throw h buffer size incoming waits e,
  guarded-no_throw (negsuc 0) h _ e,
  guarded-no_throw false h _ e,
  rudp_get_peers_mtu-no_throw h e,
  rudp_set_debug_mode-no_throw h on e,
  guarded-no_throw tt h _ e,
  guarded-no_throw tt h _ e,
  guarded-no_throw tt h _ e,
  guarded-no_throw tt h _ e,
)

closing-frees :
    (s : Socket) (o : Outcome Bool) (out : List Sent)
    → o ≢ waiting
    → o ≢ undefined
    → closing s o out ≡ record {
      outcome = returned tt;
      pointer = some none;
      closed = s.socket_handle ∷ [];
      sent = out;
    }
unfolding closing
closing-frees s (returned b) out h k = refl
closing-frees s (threw e) out h k = refl
closing-frees s waiting out h k = absurd (h refl)
closing-frees s undefined out h k = absurd (k refl)

-- `rudp_socket_free` on a pointer to a valid socket that is not in the debug mode ends, once the answers
-- hold as many as the maximal number of retries that count as a try: it closes the socket's descriptor
-- and no other, sets the pointer to null, and has sent what `disconnect` sends where the socket is
-- connected, nothing otherwise.
pub rudp_socket_free-frees :
    (s : Socket) (ws : List Wait)
    → IsValid s
    → s.debug_mode ≡ false
    → s.protocol_max_retries ≤ total_cost (counts s.destination) ws
    → rudp_socket_free (some (some s)) ws ≡ record {
      outcome = returned tt;
      pointer = some none;
      closed = s.socket_handle ∷ [];
      sent = if s.is_connected then (disconnect s ws).sent else [];
    }
unfolding rudp_socket_free destroy
rudp_socket_free-frees s ws v quiet enough =
    let r = disconnect s ws in
    let safe : r.outcome ≢ undefined =
      ground (arith, (disconnect-Keeps s ws v).0.1, disconnect-handle s ws) in
    let last = closing-frees r.state r.outcome r.sent (disconnect-ends s ws enough) safe in
    let idle = closing-frees s (returned true) [] (λ e. cc) (λ e. cc) in
    ground (arith, last, idle, disconnect-handle s ws)
