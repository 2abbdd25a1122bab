-- ===== src/Endpoint/Server.antt =====
-- src/server/server_core.h and server_core.c: the listening socket. A result of 1 is `none`; the
-- server and the world are as they are at the point of the return.
use sencd.Base.{
  ℕ, ◌-◌, true, Option, none, some, List, [], ◌∷◌, ◌==◌, if◌then◌else◌, ℤ, nonneg, no_fd, take,
}
use sencd.Base.Control.{M, ◌>>◌, modify}
use sencd.Platform.Os.{Os}
use sencd.Tunnel.Udp.{close_open}

pub record Server : Type 0 where
  pub socket : ℤ
  pub running : ℕ
  pub port : ℕ

unfoldable pub server_init : Server
server_init = record { socket = no_fd; running = 0; port = 0 }

-- "<unknown>", where `inet_ntop` fails.
abbrev pub unknown_address : List ℕ
unknown_address = b'<' ∷ b'u' ∷ b'n' ∷ b'k' ∷ b'n' ∷ b'o' ∷ b'w' ∷ b'n' ∷ b'>' ∷ []

abbrev pub address_text : Option (List ℕ) → ℕ → List ℕ
address_text none size = take (size - 1) unknown_address
address_text (some text) size = text

module _ {W : Type 0} ⦃os : Os W⦄ where
  unfoldable pub server_cleanup : Server → W → Server × W
  server_cleanup s w = (record s { socket = no_fd; running = 0 }, close_open s.socket w)

  -- `if (result < 0) { server_cleanup(server); return 1; }`.
  unfoldable pub or_cleanup : ℤ → Server × W → Option (Unit {0}) × (Server × W)
  unfolding server_cleanup
  or_cleanup result (s, w) = if nonneg result then (some tt, (s, w)) else (none, server_cleanup s w)

  unfoldable pub server_create_socket : M (Server × W) (Unit {0})
  unfolding or_cleanup
  server_create_socket (s, w) =
      let (fd, w₁) = os.socket w true in
      let (result, w₂) = os.set_reuse_addr w₁ fd in
      let opened = record s { socket = fd } in
      if nonneg fd then or_cleanup result (opened, w₂) else (none, server_cleanup opened w₁)

  unfoldable pub server_bind : M (Server × W) (Unit {0})
  unfolding or_cleanup
  server_bind (s, w) = let (result, w') = os.bind w s.socket s.port in or_cleanup result (s, w')

  unfoldable pub server_listen : M (Server × W) (Unit {0})
  unfolding or_cleanup
  server_listen (s, w) = let (result, w') = os.listen w s.socket in or_cleanup result (s, w')

  -- The three steps of a start, after the test of `running`.
  unfoldable pub open_server : M (Server × W) (Unit {0})
  open_server = do
    server_create_socket
    server_bind
    server_listen
    modify (λ p. (record p.0 { running = 1 }, p.1))

  unfoldable pub server_start : ℕ → M (Server × W) (Unit {0})
  unfolding open_server
  server_start port (s, w) =
      if s.running == 0 then open_server (record s { port = port }, w) else (none, (s, w))

  -- The client's socket and its address as text; `none` is the result -1.
  unfoldable pub server_accept : ℕ → Server → W → Option (ℤ × List ℕ) × W
  server_accept size s w =
      let (client, from, w') = os.accept w s.socket in
      if nonneg client
      then (some (client, address_text (os.inet_ntop from.addr size) size), w')
      else (none, w')

  unfoldable pub server_shutdown : M (Server × W) (Unit {0})
  unfolding server_cleanup
  server_shutdown (s, w) = if s.running == 0 then (none, (s, w)) else (some tt, server_cleanup s w)
