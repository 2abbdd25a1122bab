-- ===== src/Examples/Links.antt =====
-- A server and a client connected to each other, on the platform of Sim/Pair.antt.
use sencd.Base.{◌≡◌, refl, true, false, none, some, [], arith, replicate, pos}
use sencd.Sim.{World, sim_random, sim_sodium, sim_keys}
use sencd.Sim.Pair.{pair_os, pair_stream, pair-Responsive, pair-Linked, sim_sizes}
use sencd.Session.{Session, server, client, session_init, cleared_session}
use sencd.Session.Phases.{exchange}
use sencd.Session.Complete.{Agreed, handshake_completes}

abbrev quiet : World
quiet = record {
  inbox = [];
  outbox = [];
  file = none;
  device = [];
  wire = [];
  next = 6;
  closed = λ k. false;
}

-- Both sides have the key pair that the platform makes.
abbrev caller : Session
caller = record (session_init client) {
  socket = pos 4;
  protocol_version = 1;
  crypto = record (session_init client).crypto {
    public_key = replicate 32 7;
    private_key = replicate 64 7;
  };
}

abbrev listener : Session
listener = record caller { role = server; socket = pos 5; session_id = 77 }

stranger : caller.has_trusted_peer_key ≡ true → listener.crypto.public_key ≡ caller.trusted_peer_key
unfolding session_init cleared_session
stranger e = cc e

nothing_under_way :
    (pair_stream.pending quiet (pos 4) ≡ []) × (pair_stream.pending quiet (pos 5) ≡ [])
unfolding pair_stream
nothing_under_way = (refl, refl)

own_keys : (sim_random.sign_keypair quiet).0 ≡ some (replicate 32 7, replicate 64 7)
unfolding sim_random
own_keys = refl

handshake_completes_example :
    (c s : Session) × (w : World) × (exchange (caller, listener, quiet) ≡ (some tt, (c, s, w)))
    × Agreed caller listener c s
    × (pair_stream.pending w (pos 4) ≡ [])
    × (pair_stream.pending w (pos 5) ≡ [])
handshake_completes_example =
    handshake_completes pair_stream pair-Responsive sim_keys sim_sizes (pos 4) (pos 5) pair-Linked
      caller listener quiet quiet quiet nothing_under_way refl refl refl refl (omega arith) own_keys
      own_keys stranger
