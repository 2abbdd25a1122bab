-- ===== src/Endpoint/Client.antt =====
-- src/client/client_core.h and client_core.c: the client's stream connection. A result of 1 is
-- `none`; the connection and the world are as they are at the point of the return.
use sencd.Base.{
  ℕ, zero, suc, ◌+◌, ◌%◌, ◌^◌, Bool, true, false, Option, none, some, List, [], if◌then◌else◌, ℤ,
  pos, negsuc, nonneg, no_fd, take,
}
use sencd.Base.Control.{M, ◌>>◌, modify}
use sencd.Platform.Os.{Os, SockAddr}
use sencd.Tunnel.Udp.{close_open}

pub data ConnectionState : Type 0 where
  connecting : ConnectionState
  handshaking : ConnectionState
  authenticating : ConnectionState
  connected : ConnectionState
  disconnecting : ConnectionState
  disconnected : ConnectionState

pub record Connection : Type 0 where
  pub ip : List ℕ
  pub packets_sent : ℕ
  pub packets_received : ℕ
  pub bytes_sent : ℕ
  pub bytes_received : ℕ
  pub session_id : ℕ
  pub socket : ℤ
  pub state : ConnectionState
  pub port : ℕ

unfoldable pub connection_init : Connection
connection_init = record {
  ip = [];
  packets_sent = 0;
  packets_received = 0;
  bytes_sent = 0;
  bytes_received = 0;
  session_id = 0;
  socket = no_fd;
  state = disconnected;
  port = 0;
}

unfoldable pub is_connected : ConnectionState → Bool
is_connected connected = true
is_connected _ = false

unfoldable pub is_disconnected : ConnectionState → Bool
is_disconnected disconnected = true
is_disconnected _ = false

-- The counters, which are 64 bits wide, after `send` returned a count.
unfoldable pub count_sent_bytes : ℤ → Connection → Connection
count_sent_bytes (pos zero) c = c
count_sent_bytes (pos (suc n)) c = record c {
  bytes_sent = (c.bytes_sent + suc n) % 2 ^ 64;
  packets_sent = (c.packets_sent + 1) % 2 ^ 64;
}
count_sent_bytes (negsuc n) c = c

unfoldable pub count_received_bytes : ℤ → Connection → Connection
count_received_bytes (pos zero) c = c
count_received_bytes (pos (suc n)) c = record c {
  bytes_received = (c.bytes_received + suc n) % 2 ^ 64;
  packets_received = (c.packets_received + 1) % 2 ^ 64;
}
count_received_bytes (negsuc n) c = c

module _ {W : Type 0} ⦃os : Os W⦄ where
  unfoldable pub connection_cleanup : Connection → W → Connection × W
  connection_cleanup c w =
      (record c { socket = no_fd; state = disconnected }, close_open c.socket w)

  unfoldable pub connection_create_socket : M (Connection × W) (Unit {0})
  unfolding connection_cleanup
  connection_create_socket (c, w) =
      let (fd, w') = os.socket w true in
      let opened = record c { socket = fd } in
      if nonneg fd then (some tt, (opened, w')) else (none, connection_cleanup opened w')

  -- `connect` to the address that `inet_pton` read, `none` where it read none.
  unfoldable pub connect_to : Option ℕ → M (Connection × W) (Unit {0})
  unfolding connection_cleanup
  connect_to none (c, w) = (none, connection_cleanup c w)
  connect_to (some addr) (c, w) =
      let server : SockAddr = record { addr = addr; port = c.port } in
      let (result, w') = os.connect w c.socket server in
      if nonneg result then (some tt, (c, w')) else (none, connection_cleanup c w')

  unfoldable pub connection_open : M (Connection × W) (Unit {0})
  unfolding connect_to
  connection_open (c, w) = connect_to (os.inet_pton c.ip) (c, w)

  -- The steps after the test of the state.
  unfoldable pub open_connection : M (Connection × W) (Unit {0})
  open_connection = do
    connection_create_socket
    connection_open
    modify (λ p. (record p.0 { state = connected }, p.1))

  -- `strncpy` keeps 63 characters of the address.
  unfoldable pub connection_connect : List ℕ → ℕ → M (Connection × W) (Unit {0})
  unfolding open_connection is_connected
  connection_connect ip port (c, w) =
      if is_connected c.state
      then (none, (c, w))
      else open_connection (record c { ip = take 63 ip; port = port; state = connecting }, w)

  unfoldable pub connection_disconnect : M (Connection × W) (Unit {0})
  unfolding connection_cleanup is_disconnected
  connection_disconnect (c, w) =
      if is_disconnected c.state
      then (none, (c, w))
      else (some tt, connection_cleanup (record c { state = disconnecting }) w)

  unfoldable pub connection_send : List ℕ → Connection × W → ℤ × Connection × W
  unfolding count_sent_bytes
  connection_send buffer (c, w) =
      let (sent, w') = os.send w c.socket buffer in (sent, count_sent_bytes sent c, w')

  unfoldable pub connection_receive : ℕ → Connection × W → ℤ × List ℕ × Connection × W
  unfolding count_received_bytes
  connection_receive length (c, w) =
      let (rec, bytes, w') = os.recv w c.socket length in
      (rec, bytes, count_received_bytes rec c, w')
