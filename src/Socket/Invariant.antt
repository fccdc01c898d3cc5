-- ===== src/Socket/Invariant.antt =====
-- The members of a socket stay within their bounds under the constructor and the setters.
use reliable_udp.Prelude.{
  ℕ, ◌+◌, ◌^◌, ◌≤◌, ◌<◌, ◌≡◌, ◌≢◌, ◌⊎◌, Bool, true, false, some, none, arith, min,
}
use reliable_udp.Network.{Address}
use reliable_udp.Run.{Outcome, Error, returned, threw, undefined, bind_failed}
use reliable_udp.Socket.{
  Socket, Config, Setup, construct, set_debug_mode, set_mtu, set_timeout, set_max_retries,
  force_use_own_mtu, payload_room,
}

-- The settings have the minimal values that the library checks for, and the widths of their types.
-- A connected socket knows an MTU of its peer that leaves room for data.
pub record IsValid (s : Socket) : Type 0 where
  pub mtu_min : 20 ≤ s.protocol_mtu
  pub mtu_fits : s.protocol_mtu < 2 ^ 16
  pub timeout_min : 10 ≤ s.protocol_timeout
  pub timeout_fits : s.protocol_timeout < 2 ^ 16
  pub max_retries_min : 1 ≤ s.protocol_max_retries
  pub max_retries_fits : s.protocol_max_retries < 2 ^ 16
  pub peers_mtu_min : s.is_connected ≡ true → 20 ≤ s.peers_mtu

-- How a call may end: with a valid socket, and not in undefined behaviour but in the debug mode.
abbrev pub Safe : {A : Type 0} → Outcome A → Socket → Type 0
Safe o s = IsValid s × ((o ≢ undefined) ⊎ (s.debug_mode ≡ true))

-- The arguments fit their types.
pub record IsConfig (c : Config) : Type 0 where
  pub mtu_fits : c.mtu < 2 ^ 16
  pub timeout_fits : c.timeout < 2 ^ 16
  pub max_retries_fits : c.max_retries < 2 ^ 16

-- A socket that the constructor returns on arguments that fit their types is valid and not connected,
-- and its descriptor is the open one.
pub construct-IsValid :
    (c : Config) (os : Setup) (memory : Address) (s : Socket)
    → IsConfig c
    → (construct c os memory).outcome ≡ returned s
    → IsValid s
      × (s.is_connected ≡ false)
      × ((construct c os memory).open_handle ≡ some s.socket_handle)
unfolding construct
construct-IsValid c os memory s v e = ground arith

-- Where the constructor throws as `bind` or `setsockopt` failed, the socket is a server's and the
-- descriptor that `socket` gave is left open; where it throws anything else, none is.
pub construct-leaks :
    (c : Config) (os : Setup) (memory : Address) (e : Error)
    → (construct c os memory).outcome ≡ threw e
    → ((e ≡ bind_failed)
        × (c.is_server ≡ true)
        × ((construct c os memory).open_handle ≡ os.socket)
        × (os.socket ≢ none))
      ⊎ ((e ≢ bind_failed) × ((construct c os memory).open_handle ≡ none))
unfolding construct
construct-leaks c os memory e h = ground arith

pub set_debug_mode-IsValid : (on : Bool) (s : Socket) → IsValid s → IsValid (set_debug_mode on s).1
unfolding set_debug_mode
set_debug_mode-IsValid on s v = ground arith

pub set_mtu-IsValid : (mtu : ℕ) (s : Socket) → mtu < 2 ^ 16 → IsValid s → IsValid (set_mtu mtu s).1
unfolding set_mtu
set_mtu-IsValid mtu s h v = ground arith

pub set_timeout-IsValid :
    (timeout : ℕ) (s : Socket) → timeout < 2 ^ 16 → IsValid s → IsValid (set_timeout timeout s).1
unfolding set_timeout
set_timeout-IsValid timeout s h v = ground arith

pub set_max_retries-IsValid :
    (n : ℕ) (s : Socket) → n < 2 ^ 16 → IsValid s → IsValid (set_max_retries n s).1
unfolding set_max_retries
set_max_retries-IsValid n s h v = ground arith

pub force_use_own_mtu-IsValid : (s : Socket) → IsValid s → IsValid (force_use_own_mtu s).1
unfolding force_use_own_mtu
force_use_own_mtu-IsValid s v = ground arith

-- The room for data in a packet, without the 64-bit wrap.
pub payload_room_lem :
    (s : Socket)
    → IsValid s
    → s.is_connected ≡ true
    → payload_room s + 12 ≡ min s.protocol_mtu s.peers_mtu
unfolding payload_room
payload_room_lem s v c = omega (arith, v.peers_mtu_min c)
