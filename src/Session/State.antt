-- ===== src/Session/State.antt =====
-- The session of src/sessions/session.h, and what makes and unmakes one in session.c.
use sencd.Base.{
  ℕ, Bool, true, false, Option, none, some, List, [], ◌∷◌, take, replicate, ℤ, pos, no_fd,
}
use sencd.Base.Bytes.{le_value}
use sencd.Platform.Os.{Os}
use sencd.Platform.Sodium.{Random}
use sencd.Packet.{current_protocol_version}
use sencd.Crypto.{CryptoContext, crypto_context_init}
use sencd.Tunnel.Udp.{UdpTunnel, zero_addr, udp_tunnel_init, udp_tunnel_close, close_open}

pub data SessionState : Type 0 where
  connecting : SessionState
  wait_auth : SessionState
  authenticated : SessionState
  established : SessionState
  disconnected : SessionState

pub data SessionRole : Type 0 where
  server : SessionRole
  client : SessionRole

pub record Session : Type 0 where
  pub crypto : CryptoContext
  pub udp : UdpTunnel
  pub session_id : ℕ
  pub trusted_peer_key : List ℕ
  pub session_nonce : List ℕ
  pub auth_nonce : List ℕ
  pub ip : List ℕ
  pub has_trusted_peer_key : Bool
  pub protocol_version : ℕ
  pub tunnel_ip_octet : ℕ
  pub state : SessionState
  pub role : SessionRole
  pub socket : ℤ

-- The session that `memset` and the two assignments after it leave; all zero bytes are the role
-- SESSION_SERVER and a tunnel whose socket is 0.
unfoldable pub cleared_session : SessionRole → Session
unfolding crypto_context_init
cleared_session role = record {
  crypto = crypto_context_init;
  udp = record { peer_addr = zero_addr; session_id = 0; socket = pos 0; peer_known = 0 };
  session_id = 0;
  trusted_peer_key = replicate 32 0;
  session_nonce = replicate 32 0;
  auth_nonce = replicate 16 0;
  ip = [];
  has_trusted_peer_key = false;
  protocol_version = 0;
  tunnel_ip_octet = 0;
  state = disconnected;
  role = role;
  socket = no_fd;
}

unfoldable pub session_init : SessionRole → Session
unfolding cleared_session
session_init role = cleared_session role

-- The name under which the client keeps the server's key: "server_trusted.key".
abbrev pub trusted_key_name : List ℕ
trusted_key_name =
    b's' ∷ b'e' ∷ b'r' ∷ b'v' ∷ b'e' ∷ b'r' ∷ b'_' ∷ b't' ∷ b'r' ∷ b'u' ∷ b's' ∷ b't' ∷ b'e' ∷ b'd'
    ∷ b'.' ∷ b'k' ∷ b'e' ∷ b'y' ∷ []

-- The peer's key that the session is told to trust, if any.
unfoldable pub with_trusted_key : Option (List ℕ) → Session → Session
with_trusted_key none s = s
with_trusted_key (some key) s = record s { trusted_peer_key = key; has_trusted_peer_key = true }

module _ {W : Type 0} ⦃rnd : Random W⦄ where
  unfoldable pub generate_session_id : W → ℕ × W
  generate_session_id w = let (bytes, w') = rnd.randombytes w 8 in (le_value bytes, w')

  -- The result is always 0. `strncpy` keeps 15 characters of the address.
  unfoldable pub session_create :
      SessionRole → ℤ → List ℕ → CryptoContext → Option (List ℕ) → W → Session × W
  unfolding session_init generate_session_id udp_tunnel_init with_trusted_key
  session_create role socket ip identity trusted_peer_key w =
      let fresh = session_init role in
      let (session_id, w') = generate_session_id w in
      (
        record (with_trusted_key trusted_peer_key fresh) {
          crypto = record fresh.crypto {
            public_key = identity.public_key;
            private_key = identity.private_key;
          };
          socket = socket;
          session_id = session_id;
          udp = udp_tunnel_init session_id;
          protocol_version = current_protocol_version;
          ip = take 15 ip;
          state = connecting;
        },
        w',
      )

module _ {W : Type 0} ⦃os : Os W⦄ where
  unfoldable pub session_destroy : Session → W → Session × W
  unfolding udp_tunnel_close cleared_session
  session_destroy s w =
      let w' = close_open s.socket w in (cleared_session server, (udp_tunnel_close s.udp w').1)
