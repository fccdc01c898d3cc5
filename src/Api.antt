-- ===== src/Api.antt =====
-- The C interface of src/rudp_lib_c_wrap.cpp, and the destructor of src/rudp_lib.cpp that it calls. A
-- handle is a socket, or null.
pub mod Safety
pub mod Errors
pub mod Handles
use Prim.Native.String.{String}
use reliable_udp.Prelude.{
  ℕ, Bool, true, false, Option, none, some, List, [], ◌∷◌, ◌++◌, ℤ, pos, negsuc, if◌then◌else◌,
}
use reliable_udp.Wire.Checksum.{Bytes}
use reliable_udp.Network.{Address, Sent, Incoming, Wait, Attempt}
use reliable_udp.Run.{Run, Outcome, returned, threw, waiting, undefined}
use reliable_udp.Socket.{
  Socket, Config, Setup, construct, get_mtu, get_timeout, get_max_retries, get_peers_mtu, Setting,
  set_debug_mode, set_mtu, set_timeout, set_max_retries, force_use_own_mtu,
}
use reliable_udp.Connection.{connect, accept, disconnect}
use reliable_udp.Transfer.Send.{send}
use reliable_udp.Transfer.Receive.{Memory, or_empty, recv}

abbrev pub Handle : Type 0
Handle = Option Socket

-- A handle, and the caller's buffer.
pub record HandleMemory : Type 0 where
  pub handle : Handle
  pub buffer : Bytes

-- A destructor's or a `free`'s end: the pointer behind it, the descriptors that it closed, and what it
-- sent.
pub record Freed : Type 0 where
  pub outcome : Outcome (Unit {0})
  pub pointer : Option Handle
  pub closed : List ℕ
  pub sent : List Sent

-- `try { … } catch (const std::exception &e) { … return other; }`
unfoldable pub caught : {A : Type 0} → A → Outcome A → Outcome A
caught other (returned a) = returned a
caught other (threw e) = returned other
caught other waiting = waiting
caught other undefined = undefined

-- The test for a null handle, and the call of a method under `try`.
guarded : {A : Type 0} → A → Handle → (Socket → Run Socket A) → Run Handle A
unfolding caught
guarded other none method = record { outcome = returned other; state = none; sent = [] }
guarded other (some s) method =
    let r = method s in
    record { outcome = caught other r.outcome; state = some r.state; sent = r.sent }

-- A handle to what the constructor made.
made : Outcome Socket → Outcome Handle
made (returned s) = returned (some s)
made (threw e) = threw e
made waiting = waiting
made undefined = undefined

-- The constructor under `try`; null where it threw.
unfoldable pub rudp_socket : Config → Setup → Address → Outcome Handle
unfolding made caught
rudp_socket c os memory = caught none (made (construct c os memory).outcome)

unfoldable pub rudp_connect :
    (String → Option ℕ) → Handle → String → ℕ → List Wait → Run Handle Bool
unfolding guarded
rudp_connect inet_pton handle dest_ip dest_port waits =
    guarded false handle (λ s. connect inet_pton s dest_ip dest_port waits)

unfoldable pub rudp_accept : Handle → List Incoming → Run Handle Bool
unfolding guarded
rudp_accept handle incoming = guarded false handle (λ s. accept s incoming)

unfoldable pub rudp_recv :
    Handle → Option Bytes → ℕ → List Incoming → List Wait → Run HandleMemory ℤ
unfolding caught
rudp_recv none buffer buffer_size incoming waits = record {
  outcome = returned (negsuc 0);
  state = record { handle = none; buffer = or_empty buffer };
  sent = [];
}
rudp_recv (some s) buffer buffer_size incoming waits =
    let r = recv s buffer buffer_size incoming waits in
    record {
      outcome = caught (negsuc 0) r.outcome;
      state = record { handle = some r.state.socket; buffer = r.state.buffer };
      sent = r.sent;
    }

unfoldable pub rudp_send : Handle → Option Bytes → ℕ → List Attempt → Run Handle ℤ
unfolding guarded
rudp_send handle buffer buffer_size attempts =
    guarded (negsuc 0) handle (λ s. send s buffer buffer_size attempts)

unfoldable pub rudp_disconnect : Handle → List Wait → Run Handle Bool
unfolding guarded
rudp_disconnect handle waits = guarded false handle (λ s. disconnect s waits)

-- The end of the destructor, and `*socket = nullptr` behind it, by how the call of `disconnect` ended,
-- with the socket that it left. What it threw is caught and printed.
closing : Socket → Outcome Bool → List Sent → Freed
closing s outcome sent =
    let closed : Freed = record {
      outcome = returned tt;
      pointer = some none;
      closed = s.socket_handle ∷ [];
      sent = sent;
    } in
    elim outcome [
      | returned b ↦ closed
      | threw e ↦ closed
      | waiting ↦ record { outcome = waiting; pointer = some (some s); closed = []; sent = sent }
      | undefined ↦ record {
        outcome = undefined;
        pointer = some (some s);
        closed = [];
        sent = sent;
      }
    ]

-- `delete sock`: the destructor.
unfoldable pub destroy : Socket → List Wait → Freed
unfolding closing
destroy s waits =
    let r = disconnect s waits in
    if s.is_connected then closing r.state r.outcome r.sent else closing s (returned true) []

-- `rudp_socket_free`, on a pointer to a handle, which may be null too.
unfoldable pub rudp_socket_free : Option Handle → List Wait → Freed
unfolding destroy
rudp_socket_free none waits = record {
  outcome = returned tt;
  pointer = none;
  closed = [];
  sent = [];
}
rudp_socket_free (some none) waits = record {
  outcome = returned tt;
  pointer = some none;
  closed = [];
  sent = [];
}
rudp_socket_free (some (some s)) waits = destroy s waits

unfoldable pub rudp_get_mtu : Handle → ℕ
rudp_get_mtu none = 0
rudp_get_mtu (some s) = get_mtu s

unfoldable pub rudp_get_timeout : Handle → ℕ
rudp_get_timeout none = 0
rudp_get_timeout (some s) = get_timeout s

unfoldable pub rudp_get_maxretries : Handle → ℕ
rudp_get_maxretries none = 0
rudp_get_maxretries (some s) = get_max_retries s

unfoldable pub rudp_get_peers_mtu : Handle → Outcome ℕ
unfolding caught
rudp_get_peers_mtu none = returned 0
rudp_get_peers_mtu (some s) = caught 0 (get_peers_mtu s)

unfoldable pub rudp_is_debug_mode : Handle → Bool
rudp_is_debug_mode none = false
rudp_is_debug_mode (some s) = s.debug_mode

unfoldable pub rudp_is_connected : Handle → Bool
rudp_is_connected none = false
rudp_is_connected (some s) = s.is_connected

unfoldable pub rudp_is_server : Handle → Bool
rudp_is_server none = false
rudp_is_server (some s) = s.is_server

-- A call of a setter.
run_setter : Setting → Run Socket (Unit {0})
run_setter (outcome, s) = record { outcome = outcome; state = s; sent = [] }

-- The test for a null handle, and the call of a setter that throws nothing, without `try`.
unfoldable pub rudp_set_debug_mode : Handle → Bool → Run Handle (Unit {0})
rudp_set_debug_mode none debug_mode = record { outcome = returned tt; state = none; sent = [] }
rudp_set_debug_mode (some s) debug_mode =
    let (outcome, s') = set_debug_mode debug_mode s in
    record { outcome = outcome; state = some s'; sent = [] }

unfoldable pub rudp_set_mtu : Handle → ℕ → Run Handle (Unit {0})
unfolding guarded run_setter
rudp_set_mtu handle mtu = guarded tt handle (λ s. run_setter (set_mtu mtu s))

unfoldable pub rudp_set_timeout : Handle → ℕ → Run Handle (Unit {0})
unfolding guarded run_setter
rudp_set_timeout handle timeout = guarded tt handle (λ s. run_setter (set_timeout timeout s))

unfoldable pub rudp_set_max_retries : Handle → ℕ → Run Handle (Unit {0})
unfolding guarded run_setter
rudp_set_max_retries handle max_retries =
    guarded tt handle (λ s. run_setter (set_max_retries max_retries s))

unfoldable pub rudp_force_use_own_mtu : Handle → Run Handle (Unit {0})
unfolding guarded run_setter
rudp_force_use_own_mtu handle = guarded tt handle (λ s. run_setter (force_use_own_mtu s))
