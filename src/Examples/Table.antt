-- ===== src/Examples/Table.antt =====
-- The server's table: an empty one, and one whose 1024 sessions are all established.
use sencd.Base.{
  ◌==◌, false, ℕ, zero, suc, ◌≡◌, ◌≤◌, ◌+◌, ◌↔◌, refl, ap, Option, none, some, List, [], ◌∷◌, ◌++◌,
  arith, length, replicate, pos, get_elem?, get_or, length-replicate,
}
use sencd.Base.Tests.{bytes_eq}
use sencd.Base.Bytes.{be_value}
use sencd.Platform.Os.{SockAddr}
use sencd.Sim.{World, sim_os, sim_random, sim_sodium, sim_zstd}
use sencd.Crypto.{crypto_context_init, crypto_decrypt_packet}
use sencd.Session.{Session, established, server, session_init, cleared_session, session_create}
use sencd.Tunnel.Frame.{tunnel_packet_decode, tunnel_packet_peek_session_id}
use sencd.Manager.{
  SessionManager, max_sessions, cleared_manager, session_manager_add, session_manager_get,
}
use sencd.Manager.Slots.{in_slot, SlotTable, octet_of, find_id, insert}
use sencd.Manager.Connect.{session_manager_connect}
use sencd.Manager.Traffic.{heard_from, forward, udp_listener_round, tun_sender_round}
use sencd.Manager.Found.{session_manager_get-add}
use sencd.Manager.Count.{
  occupied-replicate, replicate-Addressed, occupied, Addressed, IsSound,
  session_manager_add-IsSound, session_manager_add_full,
}
use sencd.Manager.Admission.{Connected, session_manager_connect-Connected}
use sencd.Manager.Forward.{udp_listener_round_hijacked}
use sencd.Manager.Deliver.{tun_sender_round_shadowed}

abbrev still : World
still = record {
  inbox = [];
  outbox = [];
  file = none;
  device = [];
  wire = [];
  next = 3;
  closed = λ k. false;
}

cleared-IsSound : IsSound cleared_manager
unfolding cleared_manager
cleared-IsSound = record {
  size = length-replicate {A = Option Session} max_sessions none;
  counted = omega (arith, occupied-replicate max_sessions);
  addressed = replicate-Addressed max_sessions 0;
}

-- The session of a slot, under the slot's number, its peer known.
up : ℕ → Session
unfolding octet_of session_init cleared_session
up i = record (session_init server) {
  session_id = i;
  state = established;
  tunnel_ip_octet = octet_of i;
  udp = record (session_init server).udp { peer_known = 1 };
}

filled : ℕ → ℕ → SlotTable
filled i zero = []
filled i (suc n) = some (up i) ∷ filled (suc i) n

length-filled : (i n : ℕ) → length (filled i n) ≡ n
unfolding filled
length-filled i zero = refl
length-filled i (suc n) = ap suc (length-filled (suc i) n)

occupied-filled : (i n : ℕ) → occupied (filled i n) ≡ n
unfolding filled
occupied-filled i zero = refl
occupied-filled i (suc n) = ap suc (occupied-filled (suc i) n)

filled-Addressed : (i n : ℕ) → Addressed i (filled i n)
unfolding filled Addressed up
filled-Addressed i zero = tt
filled-Addressed i (suc n) = (refl, filled-Addressed (suc i) n)

busy : SessionManager
unfolding crypto_context_init
busy = record {
  sessions = filled 0 max_sessions;
  identity = crypto_context_init;
  tun = some (pos 3);
  session_count = max_sessions;
  udp_socket = pos 5;
}

busy-IsSound : IsSound busy
unfolding busy
busy-IsSound = record {
  size = length-filled 0 max_sessions;
  counted = omega (arith, occupied-filled 0 max_sessions);
  addressed = filled-Addressed 0 max_sessions;
}

at_three : get_elem? busy.sessions 3 ≡ some (some (up 3))
unfolding busy filled
at_three = refl

at_far : get_elem? busy.sessions (256 + 3) ≡ some (some (up 259))
unfolding busy filled
at_far = refl

got_three : session_manager_get busy 3 ≡ some (3, up 3)
unfolding session_manager_get find_id busy filled up
got_three = refl

-- The cleared table with a session in its first slot.
abbrev first_taken : SessionManager
first_taken = record cleared_manager {
  sessions = some (record (up 9) { tunnel_ip_octet = 2 }) ∷ replicate 1023 none;
  session_count = 1;
}

taken : session_manager_add cleared_manager (up 9) ≡ some first_taken
unfolding session_manager_add insert octet_of cleared_manager
taken = refl

session_manager_add-IsSound_example :
    IsSound first_taken
    × (first_taken.session_count ≡ cleared_manager.session_count + 1)
    × (first_taken.session_count ≤ max_sessions)
session_manager_add-IsSound_example =
    session_manager_add-IsSound cleared_manager first_taken (up 9) cleared-IsSound taken

session_manager_add_full_example :
    (session_manager_add busy (up 9) ≡ none) ↔ (busy.session_count ≡ max_sessions)
session_manager_add_full_example = session_manager_add_full busy (up 9) busy-IsSound

-- The client's side of a handshake, and what the server makes of it.
abbrev client_speaks : World
client_speaks = record still {
  inbox =
      0 ∷ 0 ∷ 0 ∷ 0 ∷ 1 ∷ 0 ∷ 0 ∷ 0 ∷ 0 ∷ 0 ∷ 0 ∷ 128 ∷ 1 ∷ 3 ∷ 0 ∷ 0 ∷ replicate 64 7
      ++ (replicate 32 7 ++ replicate 32 8);
}

session_manager_connect-Connected_example :
    Connected cleared_manager
      (session_create server (pos 4) (b'1' ∷ []) cleared_manager.identity none client_speaks)
      (session_manager_connect 700 cleared_manager server (pos 4) (b'1' ∷ []) client_speaks)
unfolding sim_os
session_manager_connect-Connected_example =
    session_manager_connect-Connected 700 cleared_manager server (pos 4) (b'1' ∷ []) client_speaks
      cleared-IsSound

abbrev elsewhere : SockAddr
elsewhere = record { addr = 99; port = 1 }

-- Thirty-two bytes that name session 3, and no tag that the cipher would make.
abbrev forged : List ℕ
forged = 0 ∷ 0 ∷ 0 ∷ 0 ∷ 0 ∷ 0 ∷ 0 ∷ 3 ∷ replicate 24 0

names_three : tunnel_packet_peek_session_id forged ≡ some 3
unfolding tunnel_packet_peek_session_id be_value
names_three = refl

refused : tunnel_packet_decode forged (up 3).crypto ≡ none
unfolding tunnel_packet_decode crypto_decrypt_packet sim_sodium bytes_eq be_value
refused = refl

udp_listener_round_hijacked_example :
    let (m', w') = udp_listener_round forged elsewhere busy still in
    (w' ≡ still)
    × (session_manager_get m' 3 ≡ some (3, heard_from elsewhere (up 3)))
    × ((heard_from elsewhere (up 3)).udp.peer_addr ≡ elsewhere)
udp_listener_round_hijacked_example =
    udp_listener_round_hijacked forged elsewhere busy still 3 3 (up 3) names_three got_three refused

-- An IPv4 packet for 10.8.0.5, the address of the sessions in slots 3 and 259.
abbrev raw : List ℕ
raw = 69 ∷ replicate 15 0 ++ 10 ∷ 8 ∷ 0 ∷ 5 ∷ 1 ∷ []

up_state : (i : ℕ) → (up i).state ≡ established
unfolding up
up_state i = refl

up_known : (i : ℕ) → (up i).udp.peer_known ≡ 1
unfolding up
up_known i = refl

to_far : get_or raw 19 0 ≡ (up 259).tunnel_ip_octet
unfolding octet_of up
to_far = refl

tun_sender_round_shadowed_example :
    tun_sender_round raw busy still ≡ forward raw 3 (up 3) busy still
tun_sender_round_shadowed_example =
    tun_sender_round_shadowed raw busy still 3 (up 3) (up 259) busy-IsSound (omega arith) at_three
      at_far (up_state 3) (up_known 3) to_far (omega arith) (omega arith)

nobody_nine : session_manager_get cleared_manager (up 9).session_id ≡ none
unfolding session_manager_get find_id cleared_manager up
nobody_nine = refl

session_manager_get-add_example :
    ((i : ℕ) × (session_manager_get first_taken (up 9).session_id ≡ some (i, in_slot i (up 9))))
    × ((id : ℕ)
        → ((up 9).session_id == id) ≡ false
        → session_manager_get first_taken id ≡ session_manager_get cleared_manager id)
session_manager_get-add_example =
    session_manager_get-add cleared_manager first_taken (up 9) taken nobody_nine
