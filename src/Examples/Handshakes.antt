-- ===== src/Examples/Handshakes.antt =====
-- Handshakes of a server and of a client with peers whose messages are in the inbox.
use sencd.Base.{ℕ, ◌≡◌, refl, true, false, none, some, List, [], ◌∷◌, ◌++◌, replicate, pos}
use sencd.Base.Tests.{bytes_eq}
use sencd.Base.Bytes.{be_value}
use sencd.Sim.{sim_files, World, sim_os, sim_random, sim_sodium}
use sencd.Packet.{
  Packet, auth_request, recv_all, recv_loop, recv_round, parse_header, packet_receive,
  receive_payload,
}
use sencd.Crypto.{
  config_dirname, home_dir, join_path, crypto_config_path, crypto_verify_message, path_max,
}
use sencd.Session.{
  Session, server, client, session_init, cleared_session, session_server_connect,
  session_client_connect, session_authenticate_client, receive_message, trusted_key_name,
}
use sencd.Session.Auth.{parse_challenge}
use sencd.Session.Server.{Admitted, session_server_connect-Admitted}
use sencd.Session.Client.{
  Settled, session_client_connect-Settled, session_authenticate_client_poisoned,
}

-- A client's hello, and its answer: the signature begins with the public key that it verifies under.
abbrev client_speaks : World
client_speaks = record {
  inbox =
      0 ∷ 0 ∷ 0 ∷ 0 ∷ 1 ∷ 0 ∷ 0 ∷ 0 ∷ 0 ∷ 0 ∷ 0 ∷ 128 ∷ 1 ∷ 3 ∷ 0 ∷ 0 ∷ replicate 64 7
      ++ (replicate 32 7 ++ replicate 32 8);
  outbox = [];
  file = none;
  device = [];
  wire = [];
  next = 3;
  closed = λ k. false;
}

-- A session that `session_create` has made of socket 4.
abbrev accepted : Session
accepted = record (session_init server) { socket = pos 4; protocol_version = 1 }

session_server_connect-Admitted_example :
    Admitted accepted (session_server_connect (accepted, client_speaks))
session_server_connect-Admitted_example = session_server_connect-Admitted (accepted, client_speaks)

abbrev hello_back : List ℕ
hello_back = 0 ∷ 0 ∷ 0 ∷ 0 ∷ 1 ∷ 1 ∷ 0 ∷ 0 ∷ []

-- A challenge of 144 bytes under the public key 7 7 … 7 and with the signature `s` s … s.
abbrev challenge_of : ℕ → List ℕ
challenge_of s =
    0 ∷ 0 ∷ 0 ∷ 144 ∷ 1 ∷ 2 ∷ 0 ∷ 0 ∷ replicate 64 s
    ++ (replicate 32 7 ++ (replicate 32 8 ++ replicate 16 4))

abbrev server_speaks : World
server_speaks = record client_speaks {
  inbox =
      hello_back
      ++ (challenge_of 7 ++ 0 ∷ 0 ∷ 0 ∷ 40 ∷ 1 ∷ 4 ∷ 0 ∷ 0 ∷ replicate 32 6 ++ replicate 8 1);
}

abbrev joining : Session
joining = record (session_init client) { socket = pos 4; protocol_version = 1 }

session_client_connect-Settled_example :
    Settled joining (session_client_connect (joining, server_speaks))
session_client_connect-Settled_example = session_client_connect-Settled (joining, server_speaks)

abbrev forger_speaks : World
forger_speaks = record client_speaks { inbox = challenge_of 5 }

abbrev forged : Packet
forged = record {
  payload = replicate 64 5 ++ (replicate 32 7 ++ (replicate 32 8 ++ replicate 16 4));
  header = record { payload_length = 144; version = 1; type = 2 };
}

abbrev emptied : Session × World
emptied = (joining, record client_speaks { inbox = [] })

forgery_received : receive_message auth_request (joining, forger_speaks) ≡ (some forged, emptied)
unfolding receive_message packet_receive receive_payload recv_all recv_loop recv_round parse_header
    sim_os be_value session_init cleared_session
forgery_received = refl

new : joining.has_trusted_peer_key ≡ false
unfolding session_init cleared_session
new = refl

forgery_refused :
    let c = parse_challenge forged.payload in
    crypto_verify_message c.public_key (c.nonce ++ c.eph_public_key) c.signature ≡ false
unfolding parse_challenge crypto_verify_message sim_sodium bytes_eq
forgery_refused = refl

-- Where the client keeps the key.
abbrev key_path : List ℕ
key_path = b'/' ∷ b'/' ∷ config_dirname ++ (b'/' ∷ trusted_key_name)

finds_path :
    crypto_config_path {W = World} trusted_key_name path_max emptied.1 ≡ (some key_path, emptied.1)
unfolding crypto_config_path home_dir join_path sim_os
finds_path = refl

writes_key :
    (sim_os.write_file emptied.1 key_path (parse_challenge forged.payload).public_key).0 ≡ true
unfolding sim_os
writes_key = refl

session_authenticate_client_poisoned_example :
    ((session_authenticate_client (joining, forger_speaks)).0 ≡ none)
    × ((session_authenticate_client (joining, forger_speaks)).1.0.has_trusted_peer_key ≡ true)
    × ((session_authenticate_client (joining, forger_speaks)).1.0.trusted_peer_key
        ≡ (parse_challenge forged.payload).public_key)
    × (sim_os.read_file (session_authenticate_client (joining, forger_speaks)).1.1 key_path
        ≡ some (parse_challenge forged.payload).public_key)
session_authenticate_client_poisoned_example =
    session_authenticate_client_poisoned sim_files (joining, forger_speaks) emptied forged key_path
      emptied.1 forgery_received finds_path writes_key refl new forgery_refused
