-- ===== src/Transfer/Send/Volume.antt =====
-- How much `send` hands to `sendto` at most, which bounds its counter `total_actual_bytes`.
use reliable_udp.Prelude.{ℕ, ◌+◌, List, [], ◌∷◌, length}
use reliable_udp.Network.{Sent}
use reliable_udp.Socket.{Socket}

-- The bytes of some datagrams.
abbrev pub volume : List Sent → ℕ
volume [] = 0
volume (d ∷ out) = length d.packet + volume out
