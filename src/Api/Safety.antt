-- ===== src/Api/Safety.antt =====
-- What the functions of the C interface keep in any order of calls, and that they throw nothing.
use Prim.Native.String.{String}
use mathlib.Core.Path.{subst}
use reliable_udp.Prelude.{
  ℕ, ◌^◌, ◌<◌, ◌≡◌, ◌≢◌, arith, if◌then◌else◌, Bool, true, false, Option, none, some, List, [],
  refl,
}
use reliable_udp.Wire.Checksum.{Bytes}
use reliable_udp.Network.{Sent, Address, Incoming, Wait, Attempt}
use reliable_udp.Run.{Run, Outcome, returned, threw, waiting, undefined}
use reliable_udp.Socket.{Socket, Config, Setup, construct}
use reliable_udp.Socket.Invariant.{
  IsValid, IsConfig, construct-IsValid, set_debug_mode-IsValid, set_mtu-IsValid,
  set_timeout-IsValid, set_max_retries-IsValid, force_use_own_mtu-IsValid,
}
use reliable_udp.Connection.{disconnect}
use reliable_udp.Connection.Invariant.{connect-Keeps, accept-Keeps, disconnect-Keeps}
use reliable_udp.Transfer.Send.Invariant.{Holds, send-keeps}
use reliable_udp.Transfer.Receive.Invariant.{recv-Kept}
use reliable_udp.Api.{
  Handle, guarded, closing, destroy, caught, made, run_setter, rudp_socket, rudp_connect,
  rudp_accept, rudp_recv, rudp_send, rudp_disconnect, rudp_socket_free, rudp_set_debug_mode,
  rudp_set_mtu, rudp_set_timeout, rudp_set_max_retries, rudp_force_use_own_mtu,
}

-- A handle is null, or a valid socket.
abbrev pub IsSound : Handle → Type 0
IsSound none = Unit {0}
IsSound (some s) = IsValid s

guarded-IsSound :
    {A : Type 0} (other : A) (h : Handle) (method : Socket → Run Socket A)
    → ((s : Socket) → IsValid s → IsValid (method s).state)
    → IsSound h
    → IsSound (guarded other h method).state
unfolding guarded
guarded-IsSound other none method keeps v = tt
guarded-IsSound other (some s) method keeps v = keeps s v

-- What a pointer to a handle points to.
abbrev pub pointed : Option Handle → Handle
pointed none = none
pointed (some h) = h

-- One call of the C interface on a handle, with arguments that fit their types, and the handle behind it.
pub data Step (inet_pton : String → Option ℕ) : Handle → Handle → Type 0 where
  connects :
      {h : Handle} (ip : String) (port : ℕ) (ws : List Wait)
      → Step inet_pton h (rudp_connect inet_pton h ip port ws).state
  accepts : {h : Handle} (ws : List Incoming) → Step inet_pton h (rudp_accept h ws).state
  receives :
      {h : Handle} (buffer : Option Bytes) (size : ℕ) (incoming : List Incoming) (ws : List Wait)
      → Step inet_pton h (rudp_recv h buffer size incoming ws).state.handle
  sends :
      {h : Handle} (buffer : Option Bytes) (size : ℕ) (ws : List Attempt)
      → Holds buffer size
      → Step inet_pton h (rudp_send h buffer size ws).state
  disconnects : {h : Handle} (ws : List Wait) → Step inet_pton h (rudp_disconnect h ws).state
  sets_debug_mode : {h : Handle} (on : Bool) → Step inet_pton h (rudp_set_debug_mode h on).state
  sets_mtu : {h : Handle} (n : ℕ) → n < 2 ^ 16 → Step inet_pton h (rudp_set_mtu h n).state
  sets_timeout : {h : Handle} (n : ℕ) → n < 2 ^ 16 → Step inet_pton h (rudp_set_timeout h n).state
  sets_max_retries :
      {h : Handle} (n : ℕ) → n < 2 ^ 16 → Step inet_pton h (rudp_set_max_retries h n).state
  forces_own_mtu : {h : Handle} → Step inet_pton h (rudp_force_use_own_mtu h).state
  frees :
      {h : Handle} (ws : List Wait)
      → Step inet_pton h (pointed (rudp_socket_free (some h) ws).pointer)

-- Any number of calls, the first one first.
pub data Reaches (inet_pton : String → Option ℕ) : Handle → Handle → Type 0 where
  here : {h : Handle} → Reaches inet_pton h h
  after :
      {h h' h'' : Handle} → Step inet_pton h h' → Reaches inet_pton h' h'' → Reaches inet_pton h h''

rudp_recv-IsSound :
    (h : Handle) (buffer : Option Bytes) (size : ℕ) (incoming : List Incoming) (ws : List Wait)
    → IsSound h
    → IsSound (rudp_recv h buffer size incoming ws).state.handle
unfolding rudp_recv
rudp_recv-IsSound none buffer size incoming ws v = tt
rudp_recv-IsSound (some s) buffer size incoming ws v = (recv-Kept s buffer size incoming ws v).0.0

closing-IsSound :
    (s : Socket) (o : Outcome Bool) (out : List Sent)
    → IsValid s
    → IsSound (pointed (closing s o out).pointer)
unfolding closing
closing-IsSound s (returned b) out v = tt
closing-IsSound s (threw e) out v = tt
closing-IsSound s waiting out v = v
closing-IsSound s undefined out v = v

destroy-IsSound :
    (s : Socket) (ws : List Wait) → IsValid s → IsSound (pointed (destroy s ws).pointer)
unfolding destroy
destroy-IsSound s ws v =
    elim s.is_connected
      as (λ b. IsSound (
        pointed
          (if b
            then closing (disconnect s ws).state (disconnect s ws).outcome (disconnect s ws).sent
            else closing s (returned true) []).pointer)) [
              | true ↦
                  closing-IsSound _ (disconnect s ws).outcome (disconnect s ws).sent
                    (disconnect-Keeps s ws v).0.0
              | false ↦ closing-IsSound s (returned true) [] v
            ]

rudp_socket_free-IsSound :
    (h : Handle) (ws : List Wait)
    → IsSound h
    → IsSound (pointed (rudp_socket_free (some h) ws).pointer)
unfolding rudp_socket_free
rudp_socket_free-IsSound none ws v = tt
rudp_socket_free-IsSound (some s) ws v = destroy-IsSound s ws v

rudp_set_debug_mode-IsSound :
    (h : Handle) (on : Bool) → IsSound h → IsSound (rudp_set_debug_mode h on).state
unfolding rudp_set_debug_mode
rudp_set_debug_mode-IsSound none on v = tt
rudp_set_debug_mode-IsSound (some s) on v = set_debug_mode-IsValid on s v

module _ (inet_pton : String → Option ℕ) where
  Step-IsSound : {h h' : Handle} → Step inet_pton h h' → IsSound h → IsSound h'
  unfolding rudp_connect rudp_accept rudp_send rudp_disconnect rudp_set_mtu run_setter
      rudp_set_timeout rudp_set_max_retries rudp_force_use_own_mtu
  Step-IsSound {h} (connects ip port ws) v =
      guarded-IsSound _ h _ (λ s w. (connect-Keeps inet_pton s ip port ws w).0.0) v
  Step-IsSound {h} (accepts ws) v = guarded-IsSound _ h _ (λ s w. (accept-Keeps s ws w).0.0) v
  Step-IsSound {h} (receives buffer size incoming ws) v =
      rudp_recv-IsSound h buffer size incoming ws v
  Step-IsSound {h} (sends buffer size ws fits) v =
      guarded-IsSound _ h _ (λ s w. (send-keeps s buffer size ws w fits).0.0) v
  Step-IsSound {h} (disconnects ws) v =
      guarded-IsSound _ h _ (λ s w. (disconnect-Keeps s ws w).0.0) v
  Step-IsSound {h} (sets_debug_mode on) v = rudp_set_debug_mode-IsSound h on v
  Step-IsSound {h} (sets_mtu n fits) v = guarded-IsSound _ h _ (λ s w. set_mtu-IsValid n s fits w) v
  Step-IsSound {h} (sets_timeout n fits) v =
      guarded-IsSound _ h _ (λ s w. set_timeout-IsValid n s fits w) v
  Step-IsSound {h} (sets_max_retries n fits) v =
      guarded-IsSound _ h _ (λ s w. set_max_retries-IsValid n s fits w) v
  Step-IsSound {h} forces_own_mtu v = guarded-IsSound _ h _ (λ s w. force_use_own_mtu-IsValid s w) v
  Step-IsSound {h} (frees ws) v = rudp_socket_free-IsSound h ws v

  Reaches-IsSound : {h h' : Handle} → Reaches inet_pton h h' → IsSound h → IsSound h'
  Reaches-IsSound here v = v
  Reaches-IsSound (after a r) v = Reaches-IsSound r (Step-IsSound a v)

-- An outcome is a handle that is null or a valid socket.
abbrev pub IsCreated : Outcome Handle → Type 0
IsCreated (returned h) = IsSound h
IsCreated (threw e) = ⊥
IsCreated waiting = ⊥
IsCreated undefined = ⊥

made-IsCreated :
    (o : Outcome Socket)
    → o ≢ waiting
    → o ≢ undefined
    → ((s : Socket) → o ≡ returned s → IsValid s)
    → IsCreated (caught none (made o))
unfolding made caught
made-IsCreated (returned s) h k v = v s refl
made-IsCreated (threw e) h k v = tt
made-IsCreated waiting h k v = absurd (h refl)
made-IsCreated undefined h k v = absurd (k refl)

construct-ends :
    (c : Config) (os : Setup) (memory : Address)
    → ((construct c os memory).outcome ≢ waiting) × ((construct c os memory).outcome ≢ undefined)
unfolding construct
construct-ends c os memory = (ground arith, ground arith)

pub rudp_socket-IsCreated :
    (c : Config) (os : Setup) (memory : Address) → IsConfig c → IsCreated (rudp_socket c os memory)
unfolding rudp_socket
rudp_socket-IsCreated c os memory v =
    let ends = construct-ends c os memory in
    made-IsCreated (construct c os memory).outcome ends.0 ends.1
      (λ s e. (construct-IsValid c os memory s v e).0)

created-IsSound : (o : Outcome Handle) (h : Handle) → IsCreated o → o ≡ returned h → IsSound h
created-IsSound o h v e = subst IsCreated e v

-- A handle that `rudp_socket` returned, on arguments that fit their types, is null or a valid socket
-- after any calls of the C interface, in any order and under any answers of the operating system, whose
-- arguments fit their types and whose buffers have the sizes given.
pub history-IsSound :
    (inet_pton : String → Option ℕ) (c : Config) (os : Setup) (memory : Address) (h h' : Handle)
    → IsConfig c
    → rudp_socket c os memory ≡ returned h
    → Reaches inet_pton h h'
    → IsSound h'
history-IsSound inet_pton c os memory h h' v made' r =
    Reaches-IsSound inet_pton r
      (created-IsSound (rudp_socket c os memory) h (rudp_socket-IsCreated c os memory v) made')
