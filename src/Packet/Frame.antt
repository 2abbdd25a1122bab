-- ===== src/Packet/Frame.antt =====
-- The packets of src/shared/packet.c that both sides agree on, and their bytes.
use sencd.Base.{ℕ, ◌^◌, ◌≤◌, ◌<◌, ◌≡◌, List, ◌∷◌, ◌++◌, arith, length, length-append}
use sencd.Base.Bytes.{be_bytes, length-be_bytes, be_value-be_bytes}
use sencd.Packet.{
  Packet, PacketHeader, PacketHeaderT, client_hello, code, error, current_protocol_version,
  max_packet_size, header_bytes, parse_header,
}

-- A packet that `packet_construct` builds of `payload_length` bytes: what both sides agree on.
pub record IsValid (p : Packet) : Type 0 where
  pub whole : length p.payload ≡ p.header.payload_length
  pub fits : p.header.payload_length ≤ max_packet_size
  pub spoken : p.header.version ≡ current_protocol_version
  pub known : p.header.type ≤ code error

-- What a packet is on the wire.
abbrev pub frame : Packet → List ℕ → List ℕ
frame p pad = header_bytes p.header pad ++ p.payload

pub code-le : (t : PacketHeaderT) → code t ≤ code error
code-le client_hello = omega arith
code-le _ = omega arith

pub header_tail :
    (h : PacketHeader) (pad : List ℕ) → length pad ≡ 2 → length (header_bytes h pad) ≡ 8
unfolding header_bytes
header_tail h pad e = omega (
  arith,
  length-append (be_bytes 4 h.payload_length) (h.version ∷ h.type ∷ pad),
  length-be_bytes 4 h.payload_length,
)

-- A header's bytes give the header back.
pub parse_header-header_bytes :
    (h : PacketHeader) (pad : List ℕ)
    → h.payload_length < 2 ^ 32
    → parse_header (header_bytes h pad) ≡ h
unfolding parse_header header_bytes be_bytes
parse_header-header_bytes h pad fits = λ i. record {
  payload_length = be_value-be_bytes 4 h.payload_length fits i;
  version = h.version;
  type = h.type;
}
