-- ===== src/Tests/ApiTests.antt =====
-- Tests of the C interface.
use reliable_udp.Prelude.{◌≡◌, ◌≢◌, [], ◌∷◌, arith, refl, true, false, none, some, List}
use reliable_udp.Network.{Wait, timed_out}
use reliable_udp.Run.{threw, returned, invalid_mtu}
use reliable_udp.Socket.{construct}
use reliable_udp.Connection.{disconnect}
use reliable_udp.Api.{
  Handle, rudp_socket, rudp_connect, rudp_accept, rudp_recv, rudp_send, rudp_disconnect,
  rudp_get_peers_mtu, rudp_socket_free, rudp_set_mtu, rudp_set_debug_mode, rudp_set_timeout,
  rudp_set_max_retries, rudp_force_use_own_mtu,
}
use reliable_udp.Api.Safety.{IsSound, Step, Reaches, history-IsSound}
use reliable_udp.Api.Errors.{api-no_throw, rudp_socket_free-frees}
use reliable_udp.Tests.Samples.{
  client, client_address, blank, peer_socket-IsValid, local_host, config, setup,
}

-- What `rudp_socket` makes of the settings.
abbrev new_server : Handle
new_server = some (record {
  socket_handle = 3;
  is_server = true;
  is_connected = false;
  debug_mode = false;
  destination = client_address;
  protocol_mtu = 1458;
  protocol_timeout = 100;
  protocol_max_retries = 50;
  peers_mtu = 0;
})

abbrev changed_server : Handle
changed_server = (rudp_disconnect (rudp_set_mtu new_server 500).state []).state

abbrev history : Reaches local_host new_server changed_server
history =
    Reaches.after (Step.sets_mtu 500 (omega arith))
      (Reaches.after (Step.disconnects []) Reaches.here)

history-IsSound_example : IsSound changed_server
unfolding rudp_socket construct
history-IsSound_example =
    history-IsSound local_host config setup client_address new_server changed_server (omega arith)
      refl history

api-no_throw_example :
    (rudp_socket (record config { mtu = 19 }) setup client_address ≢ threw invalid_mtu)
    × ((rudp_connect local_host (some client) "127.0.0.1" 8080 []).outcome ≢ threw invalid_mtu)
    × ((rudp_accept (some client) []).outcome ≢ threw invalid_mtu)
    × ((rudp_recv (some client) (some blank) 12 [] []).outcome ≢ threw invalid_mtu)
    × ((rudp_send (some client) (some blank) 12 []).outcome ≢ threw invalid_mtu)
    × ((rudp_disconnect (some client) []).outcome ≢ threw invalid_mtu)
    × (rudp_get_peers_mtu (some client) ≢ threw invalid_mtu)
    × ((rudp_set_debug_mode (some client) true).outcome ≢ threw invalid_mtu)
    × ((rudp_set_mtu (some client) 19).outcome ≢ threw invalid_mtu)
    × ((rudp_set_timeout (some client) 19).outcome ≢ threw invalid_mtu)
    × ((rudp_set_max_retries (some client) 19).outcome ≢ threw invalid_mtu)
    × ((rudp_force_use_own_mtu (some client)).outcome ≢ threw invalid_mtu)
api-no_throw_example =
    api-no_throw local_host (record config { mtu = 19 }) setup client_address (some client)
      "127.0.0.1" 8080 (some blank) 12 [] [] [] true 19 invalid_mtu

abbrev silence : List Wait
silence = timed_out ∷ timed_out ∷ timed_out ∷ []

rudp_socket_free-frees_example : rudp_socket_free (some (some client)) silence ≡ record {
  outcome = returned tt;
  pointer = some none;
  closed = 3 ∷ [];
  sent = (disconnect client silence).sent;
}
rudp_socket_free-frees_example =
    rudp_socket_free-frees client silence (peer_socket-IsValid _ _ _) refl (omega arith)
