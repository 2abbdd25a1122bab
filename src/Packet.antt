-- ===== src/Packet.antt =====
-- src/shared/packet.h and packet.c: the control packets and their transfer over a stream socket.
-- Log output is left out, as in the other modules. A payload that is the null pointer is [].
pub mod Stream
pub mod Frame
pub mod Send
pub mod Receive
pub mod Transfer
pub mod Keeps
use sencd.Base.{
  ℕ, zero, suc, ◌+◌, ◌-◌, ◌*◌, ◌^◌, ◌≡◌, Bool, true, false, Option, none, some, List, [], ◌∷◌, ◌++◌,
  ltb, leb, ◌==◌, if◌then◌else◌, length, take, drop, get_or, ℤ, pos, negsuc,
}
use sencd.Base.Bytes.{be_bytes, be_value}
use sencd.Base.Control.{M, ◌>>=◌, ◌>>◌, pure, fail, guard, get}
use sencd.Platform.Os.{Os}

pub data PacketHeaderT : Type 0 where
  client_hello : PacketHeaderT
  server_hello : PacketHeaderT
  auth_request : PacketHeaderT
  auth_response : PacketHeaderT
  auth_success : PacketHeaderT
  auth_fail : PacketHeaderT
  key_exchange : PacketHeaderT
  key_confirm : PacketHeaderT
  ping : PacketHeaderT
  pong : PacketHeaderT
  tunnel_data : PacketHeaderT
  disconnect : PacketHeaderT
  error : PacketHeaderT

-- The number that C gives to the enumerator.
abbrev pub code : PacketHeaderT → ℕ
code client_hello = 0
code server_hello = 1
code auth_request = 2
code auth_response = 3
code auth_success = 4
code auth_fail = 5
code key_exchange = 6
code key_confirm = 7
code ping = 8
code pong = 9
code tunnel_data = 10
code disconnect = 11
code error = 12

abbrev pub current_protocol_version : ℕ
current_protocol_version = 1

abbrev pub max_packet_size : ℕ
max_packet_size = 0x1000000

-- sizeof(PACKET_HEADER): four bytes, two, and two of padding.
abbrev pub header_size : ℕ
header_size = 8

pub record PacketHeader : Type 0 where
  pub payload_length : ℕ
  pub version : ℕ
  pub type : ℕ

pub record Packet : Type 0 where
  pub payload : List ℕ
  pub header : PacketHeader

pub record PacketConstructor : Type 0 where
  pub payload : List ℕ
  pub payload_length : ℕ
  pub header_type : PacketHeaderT
  pub header_version : ℕ

-- `packet_init`, and what `packet_destroy` leaves.
abbrev pub packet_init : Packet
packet_init = record { payload = []; header = record { payload_length = 0; version = 0; type = 0 } }

-- The bytes of a header in memory, its length in network order.
unfoldable pub header_bytes : PacketHeader → List ℕ → List ℕ
header_bytes h pad = be_bytes 4 h.payload_length ++ h.version ∷ h.type ∷ pad

unfoldable pub parse_header : List ℕ → PacketHeader
parse_header b = record {
  payload_length = be_value (take 4 b);
  version = get_or b 4 0;
  type = get_or b 5 0;
}

module _ {W : Type 0} ⦃os : Os W⦄ where
  -- One pass of the loop in `send_all`: `count` is what `send` returned.
  unfoldable pub send_round : ℤ → W → (ℕ → M W (Unit {0})) → Option (Unit {0}) × W
  send_round (pos zero) w more = (none, w)
  send_round (pos (suc n)) w more = more (suc n) w
  send_round (negsuc n) w more = (none, w)

  -- `while (total_sent < length) { … }`. Each pass sends a byte at least: `rounds` is the fuel.
  unfoldable pub send_loop : ℕ → ℤ → List ℕ → ℕ → M W (Unit {0})
  unfolding send_round
  send_loop zero socket buffer total w =
      if ltb total (length buffer) then (none, w) else (some tt, w)
  send_loop (suc rounds) socket buffer total w =
      let more = λ (n : ℕ) (u : W). send_loop rounds socket buffer (total + n) u in
      let (count, w') = os.send w socket (drop total buffer) in
      if ltb total (length buffer) then send_round count w' more else (some tt, w)

  unfoldable pub send_all : ℤ → List ℕ → M W (Unit {0})
  unfolding send_loop
  send_all socket buffer w = send_loop (length buffer) socket buffer 0 w

  unfoldable pub recv_round : ℤ → List ℕ → W → (List ℕ → M W (List ℕ)) → Option (List ℕ) × W
  recv_round (pos zero) bytes w more = (none, w)
  recv_round (pos (suc n)) bytes w more = more bytes w
  recv_round (negsuc n) bytes w more = (none, w)

  -- `got` is the part of the buffer that is filled, of length `total_received`.
  unfoldable pub recv_loop : ℕ → ℤ → ℕ → List ℕ → M W (List ℕ)
  unfolding recv_round
  recv_loop zero socket want got w = if ltb (length got) want then (none, w) else (some got, w)
  recv_loop (suc rounds) socket want got w =
      let more = λ (bytes : List ℕ) (u : W). recv_loop rounds socket want (got ++ bytes) u in
      let (count, bytes, w') = os.recv w socket (want - length got) in
      if ltb (length got) want then recv_round count bytes w' more else (some got, w)

  unfoldable pub recv_all : ℤ → ℕ → M W (List ℕ)
  unfolding recv_loop
  recv_all socket want w = recv_loop want socket want [] w

  unfoldable pub packet_send : ℤ → Packet → M W (Unit {0})
  packet_send socket packet = do
    w ← get
    guard (leb packet.header.payload_length max_packet_size)
    send_all socket (header_bytes packet.header (os.padding w))
    if ltb 0 packet.header.payload_length
        then send_all socket (take packet.header.payload_length packet.payload)
        else pure tt

  -- The allocation and the second `recv_all` of `packet_receive`.
  unfoldable pub receive_payload : ℤ → ℕ → M W (List ℕ)
  receive_payload socket n w =
      let (allocated, w') = os.malloc w n in if allocated then recv_all socket n w' else (none, w')

  -- A packet that was not received whole is destroyed here or by the caller: there is none.
  unfoldable pub packet_receive : ℤ → M W Packet
  unfolding receive_payload
  packet_receive socket = do
    bytes ← recv_all socket header_size
    let header = parse_header bytes
    guard (header.version == current_protocol_version)
    guard (leb header.type (code error))
    guard (leb header.payload_length max_packet_size)
    payload ←
        if ltb 0 header.payload_length
        then receive_payload socket header.payload_length
        else pure []
    pure (record { payload = payload; header = header })

  unfoldable pub packet_construct : PacketConstructor → W → Packet × W
  packet_construct c w =
      let header = λ (n : ℕ).
        let h : PacketHeader = record {
          payload_length = n;
          version = c.header_version;
          type = code c.header_type;
        } in
        h in
      let (allocated, w') = os.malloc w c.payload_length in
      if ltb 0 c.payload_length
      then (if allocated
          then (
            record { payload = take c.payload_length c.payload; header = header c.payload_length },
            w',
          )
          else (record { payload = []; header = header 0 }, w'))
      else (record { payload = []; header = header c.payload_length }, w)
