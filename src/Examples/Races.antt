-- ===== src/Examples/Races.antt =====
-- The shell and the receiver of a connected client that both tear its session down.
use sencd.Base.{◌≡◌, refl, true, false, none, [], ◌∷◌, ◌++◌, arith, pos, replicate}
use sencd.Sim.{World, sim_os, sim_descriptors}
use sencd.Crypto.{crypto_context_init}
use sencd.Session.{client, session_init, established}
use sencd.Endpoint.Client.{connection_init, connected}
use sencd.Command.Client.{ClientRun}
use sencd.Command.Client.Coherent.{Up}
use sencd.Command.Client.Race.{receiver_thread, tests, race, turns}
use sencd.Command.Client.Race.Ends.{Ended, race-Ended, both_pass, race_closes_stdin}

abbrev before : World
before = record {
  inbox = [];
  outbox = [];
  file = none;
  device = [];
  wire = [];
  next = 4;
  closed = λ k. false;
}

abbrev now : World
now = record before { next = 6 }

-- On the stream socket 4 and the datagram socket 5.
abbrev online : ClientRun
online = record {
  client = record {
    session = record (session_init client) {
      state = established;
      socket = pos 4;
      udp = record (session_init client).udp { socket = pos 5 };
    };
    identity = crypto_context_init;
    connection = record connection_init { state = connected; socket = pos 4 };
    tun = record { name = b'x' ∷ []; fd = pos 3 };
  };
  should_exit = 0;
  receiving = true;
}

is_online : Up sim_descriptors before 4 5 online now
unfolding sim_descriptors
is_online = record {
  is_established = refl;
  is_connected = refl;
  stream = refl;
  same_stream = refl;
  datagrams = refl;
  stays = refl;
  stream_fresh = refl;
  datagrams_fresh = refl;
  opened = λ k. ground arith;
}

race-Ended_example :
    Ended sim_descriptors before
      (race (both_pass ++ replicate 2 receiver_thread) (tests, tests, online, now))
unfolding turns
race-Ended_example =
    race-Ended sim_descriptors before 4 5 online now (both_pass ++ replicate 2 receiver_thread)
      is_online (omega arith) (omega arith)

race_closes_stdin_example :
    (sim_descriptors.is_open now 0 ≡ true)
    × (sim_descriptors.is_open (race both_pass (tests, tests, online, now)).3 0 ≡ false)
unfolding sim_descriptors
race_closes_stdin_example = race_closes_stdin sim_descriptors before 4 5 online now is_online refl
