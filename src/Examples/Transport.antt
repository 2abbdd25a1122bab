-- ===== src/Examples/Transport.antt =====
-- A packet of three bytes over the sockets of Sim, which move a few bytes at a call.
use sencd.Base.{ap, false, ℕ, ◌≡◌, refl, none, some, List, [], ◌∷◌, ◌++◌, arith, length, pos}
use sencd.Base.Bytes.{be_bytes, be_value}
use sencd.Sim.{World, sim_os, sim_stream, sim-Responsive}
use sencd.Packet.{
  Packet, header_size, send_round, send_loop, send_all, recv_round, recv_loop, recv_all,
  header_bytes, parse_header, packet_send, receive_payload, packet_receive,
}
use sencd.Packet.Stream.{recv_all-total}
use sencd.Packet.Frame.{IsValid, frame}
use sencd.Packet.Send.{packet_send-frames}
use sencd.Packet.Receive.{packet_receive-takes}
use sencd.Packet.Transfer.{packet_receive-packet_send}

abbrev sample : Packet
sample = record {
  payload = 11 ∷ 12 ∷ 13 ∷ [];
  header = record { payload_length = 3; version = 1; type = 8 };
}

sample-IsValid : IsValid sample
sample-IsValid = record { whole = refl; fits = omega arith; spoken = refl; known = omega arith }

abbrev quiet : World
quiet = record {
  inbox = [];
  outbox = 9 ∷ [];
  file = none;
  device = [];
  wire = [];
  next = 3;
  closed = λ k. false;
}

abbrev on_wire : List ℕ
on_wire = 0 ∷ 0 ∷ 0 ∷ 3 ∷ 1 ∷ 8 ∷ 0 ∷ 0 ∷ 11 ∷ 12 ∷ 13 ∷ []

abbrev sent_world : World
sent_world = record quiet { outbox = 9 ∷ on_wire }

abbrev waiting : World
waiting = record quiet { inbox = on_wire ++ 5 ∷ 6 ∷ [] }

abbrev read_world : World
read_world = record quiet { inbox = 5 ∷ 6 ∷ [] }

sends : packet_send (pos 4) sample quiet ≡ (some tt, sent_world)
unfolding packet_send send_all send_loop send_round header_bytes sim_os be_bytes
sends = refl

receives : packet_receive (pos 4) waiting ≡ (some sample, read_world)
unfolding packet_receive receive_payload recv_all recv_loop recv_round parse_header sim_os be_value
receives = refl

grown : (packet_send (pos 4) sample quiet).1.outbox ≡ quiet.outbox ++ on_wire
grown = ap (λ r. r.1.outbox) sends

packet_receive-packet_send_example :
    ((packet_send (pos 4) sample quiet).0 ≡ some tt)
    × ((v : World) × (packet_receive (pos 5) waiting ≡ (some sample, v)) × (v.inbox ≡ 5 ∷ 6 ∷ []))
unfolding sim_stream
packet_receive-packet_send_example =
    packet_receive-packet_send sim_stream sim-Responsive (pos 4) (pos 5) sample quiet waiting
      on_wire (5 ∷ 6 ∷ []) sample-IsValid grown refl

packet_send-frames_example : sent_world.outbox ≡ quiet.outbox ++ frame sample (sim_os.padding quiet)
unfolding sim_stream
packet_send-frames_example =
    packet_send-frames sim_stream (pos 4) sample quiet sent_world sample-IsValid sends

packet_receive-takes_example :
    IsValid sample
    × ((bytes : List ℕ) × (length bytes ≡ header_size)
        × (parse_header bytes ≡ sample.header)
        × (waiting.inbox ≡ bytes ++ sample.payload ++ read_world.inbox))
unfolding sim_stream
packet_receive-takes_example =
    packet_receive-takes sim_stream (pos 4) waiting read_world sample receives

framed : waiting.inbox ≡ frame sample (0 ∷ 0 ∷ []) ++ 5 ∷ 6 ∷ []
unfolding header_bytes be_bytes
framed = refl

seven : List ℕ
seven = 1 ∷ 2 ∷ 3 ∷ 4 ∷ 5 ∷ 6 ∷ 7 ∷ []

all_sent : send_all (pos 4) seven quiet ≡ (some tt, record quiet { outbox = 9 ∷ seven })
unfolding send_all send_loop send_round sim_os seven
all_sent = refl

all_received : recv_all (pos 4) 11 waiting ≡ (some on_wire, read_world)
unfolding recv_all recv_loop recv_round sim_os
all_received = refl

recv_all-total_example :
    (all : List ℕ) × (t : World) × (recv_all (pos 4) 11 waiting ≡ (some all, t))
unfolding sim_stream
recv_all-total_example = recv_all-total sim_stream sim-Responsive (pos 4) 11 waiting (omega arith)
