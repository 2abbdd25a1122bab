-- ===== src/Sim/Wire.antt =====
-- The concrete platform with datagrams that arrive whole: the device hands out the packets of
-- `device`, and a datagram socket those of `wire`.
use sencd.Base.{ℕ, List, [], ◌∷◌, length, ℤ, pos, negsuc}
use sencd.Platform.Os.{Os, SockAddr}
use sencd.Sim.{World, sim_os}

abbrev next_packet : List (List ℕ) → ℤ × List ℕ × List (List ℕ)
next_packet [] = (negsuc 0, [], [])
next_packet (packet ∷ rest) = (pos (length packet), packet, rest)

-- Where the client's datagrams come from.
abbrev pub client_address : SockAddr
client_address = record { addr = 7; port = 9 }

instance unfoldable pub wire_os : Os World
unfolding sim_os
wire_os = record sim_os {
  read = λ w fd n.
      let (count, packet, rest) = next_packet w.device in
      (count, packet, record w { device = rest });
  recv = λ w fd n.
      let (count, packet, rest) = next_packet w.wire in (count, packet, record w { wire = rest });
  recvfrom = λ w fd n.
      let (count, packet, rest) = next_packet w.wire in
      (count, packet, client_address, record w { wire = rest });
  send = λ w fd bytes. (pos (length bytes), record w { wire = bytes ∷ w.wire });
}
