-- ===== src/Session/Spec.antt =====
-- What a socket promises of its connection, by the method that is called and how it answers.
use reliable_udp.Prelude.{zero, suc, ◌≡◌, ◌⊎◌, Bool, true, false, ℤ, pos, negsuc, if◌then◌else◌}
use reliable_udp.Network.{Address}
use reliable_udp.Run.{Outcome, returned, threw, waiting, undefined}
use reliable_udp.Socket.{Socket}

pub data Phase : Type 0 where
  idle : Phase
  linked : Address → Phase

pub data Method : Type 0 where
  connecting accepting sending receiving disconnecting : Method

-- True and false, no bytes, some bytes, and no answer.
pub data Reply : Type 0 where
  yes no nothing counted fails : Reply

-- Whether a socket is connected, and with whom.
abbrev pub phase : Socket → Phase
phase s = if s.is_connected then linked s.destination else idle

abbrev pub bool_reply : Outcome Bool → Reply
bool_reply (returned true) = yes
bool_reply (returned false) = no
bool_reply (threw e) = fails
bool_reply waiting = fails
bool_reply undefined = fails

abbrev pub count_reply : Outcome ℤ → Reply
count_reply (returned (pos zero)) = nothing
count_reply (returned (pos (suc n))) = counted
count_reply (returned (negsuc n)) = counted
count_reply (threw e) = fails
count_reply waiting = fails
count_reply undefined = fails

abbrev pub IsLinked : Phase → Type 0
IsLinked idle = ⊥
IsLinked (linked a) = Unit

-- What a transfer needs and leaves: an open connection, which it leaves closed only where it returned
-- 0. A call without an answer leaves the connection alone.
abbrev pub Transfers : Reply → Phase → Phase → Type 0
Transfers yes p q = ⊥
Transfers no p q = ⊥
Transfers nothing p q = IsLinked p × ((q ≡ p) ⊎ (q ≡ idle))
Transfers counted p q = IsLinked p × (q ≡ p)
Transfers fails p q = q ≡ p

-- The steps that the connection of a server, or of a client, may take. Only `connect` of a client and
-- `accept` of a server open it, and they say so. `disconnect` closes it.
abbrev pub Allowed : Bool → Method → Reply → Phase → Phase → Type 0
Allowed server sending r p q = Transfers r p q
Allowed server receiving r p q = Transfers r p q
Allowed server m fails p q = q ≡ p
Allowed server connecting yes p q = (server ≡ false) × (p ≡ idle) × IsLinked q
Allowed server connecting no p q = (server ≡ false) × (p ≡ idle) × (q ≡ idle)
Allowed server accepting yes p q = (server ≡ true) × (p ≡ idle) × IsLinked q
Allowed server disconnecting yes p q = IsLinked p × (q ≡ idle)
Allowed server m r p q = ⊥

-- A call of a method that answers so takes the socket from one state to another along the machine, and
-- leaves its role.
abbrev pub Follows : Method → Reply → Socket → Socket → Type 0
Follows m r s s' = (s'.is_server ≡ s.is_server) × Allowed s.is_server m r (phase s) (phase s')

-- The same of the end of a transfer.
abbrev pub TransferEnds : Socket → Outcome ℤ → Socket → Type 0
TransferEnds s o s' = (s'.is_server ≡ s.is_server) × Transfers (count_reply o) (phase s) (phase s')
