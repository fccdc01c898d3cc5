-- ===== src/Network.antt =====
-- What the operating system stands for in the model: addresses, the datagrams that the library hands
-- to `sendto`, and the answers of `poll`, `recvfrom` and `sendto`, which a run takes from a list.
use reliable_udp.Prelude.{ℕ, Bool, ◌&&◌, ◌==◌}
use reliable_udp.Wire.Checksum.{Bytes}

-- `struct sockaddr_in`, its numbers in host order.
pub record Address : Type 0 where
  pub sin_family : ℕ
  pub sin_port : ℕ
  pub sin_addr : ℕ
  pub sin_zero : ℕ

abbrev pub af_inet : ℕ
af_inet = 2

abbrev pub zero_address : Address
zero_address = record { sin_family = 0; sin_port = 0; sin_addr = 0; sin_zero = 0 }

-- `memcmp` over the 16 bytes of two addresses finds no difference.
unfoldable pub address_eq : Address → Address → Bool
address_eq a b =
    a.sin_family == b.sin_family
    && a.sin_port == b.sin_port
    && a.sin_addr == b.sin_addr
    && a.sin_zero == b.sin_zero

-- A call of `sendto`.
pub record Sent : Type 0 where
  pub packet : Bytes
  pub to : Address

-- A return of `recvfrom`.
pub data Incoming : Type 0 where
  recv_error : Incoming
  datagram : Bytes → Address → Incoming

-- A return of `poll`, and where it says that data is there, that of the `recvfrom` which follows.
pub data Wait : Type 0 where
  poll_error : Wait
  timed_out : Wait
  ready : Incoming → Wait

-- A return of `sendto` for a data packet, and where it succeeds, what follows it.
pub data Attempt : Type 0 where
  send_error : Attempt
  accepted : Wait → Attempt
