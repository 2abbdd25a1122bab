-- ===== src/Packet/Keeps.antt =====
-- What the calls of src/shared/packet.c leave alone: anything that can be seen of the world and that
-- the `send`, `recv` or `malloc` calls under them keep.
use sencd.Base.{
  ℕ, zero, suc, ◌+◌, ◌-◌, ◌≡◌, refl, ◌∙◌, inl, inr, some, List, [], ◌++◌, arith, ltb, leb, ◌==◌,
  if◌then◌else◌, length, take, drop, ℤ, pos, negsuc, Bool-cases,
}
use sencd.Base.Control.{M, guard, then_with-keeps, guard-keeps, ite-keeps}
use sencd.Platform.Os.{Os}
use sencd.Packet.{
  Packet, PacketConstructor, send_round, send_loop, send_all, recv_round, recv_loop, recv_all,
  receive_payload, packet_send, packet_receive, packet_construct, header_bytes, header_size,
  parse_header, max_packet_size, current_protocol_version, code, error,
}

module _ {W V : Type 0} ⦃os : Os W⦄ (see : W → V) (socket : ℤ) where
  send_round-keeps :
      (c : ℤ) (w : W) (more : ℕ → M W (Unit {0}))
      → ((n : ℕ) → see (more n w).1 ≡ see w)
      → see (send_round c w more).1 ≡ see w
  unfolding send_round
  send_round-keeps (pos zero) w more h = refl
  send_round-keeps (pos (suc n)) w more h = h (suc n)
  send_round-keeps (negsuc n) w more h = refl

  send_loop-keeps :
      ((w : W) (buf : List ℕ) → see (os.send w socket buf).1 ≡ see w)
      → (rounds : ℕ) (buffer : List ℕ) (total : ℕ) (w : W)
      → see (send_loop rounds socket buffer total w).1 ≡ see w
  unfolding send_loop
  send_loop-keeps keeps zero buffer total w = ground arith
  send_loop-keeps keeps (suc rounds) buffer total w =
      elim (Bool-cases (ltb total (length buffer))) [
        | inl more ↦
            let buf = drop total buffer in
            let u = (os.send w socket buf).1 in
            rw more (
              send_round-keeps (os.send w socket buf).0 u
                (λ n. send_loop rounds socket buffer (total + n))
                (λ n. send_loop-keeps keeps rounds buffer (total + n) u)
              ∙ keeps w buf)
        | inr done ↦ rw done refl
      ]

  pub send_all-keeps :
      ((w : W) (buf : List ℕ) → see (os.send w socket buf).1 ≡ see w)
      → (buffer : List ℕ) (w : W) → see (send_all socket buffer w).1 ≡ see w
  unfolding send_all
  send_all-keeps keeps buffer w = send_loop-keeps keeps (length buffer) buffer 0 w

  recv_round-keeps :
      (c : ℤ) (bytes : List ℕ) (w : W) (more : List ℕ → M W (List ℕ))
      → see (more bytes w).1 ≡ see w
      → see (recv_round c bytes w more).1 ≡ see w
  unfolding recv_round
  recv_round-keeps (pos zero) bytes w more h = refl
  recv_round-keeps (pos (suc n)) bytes w more h = h
  recv_round-keeps (negsuc n) bytes w more h = refl

  recv_loop-keeps :
      ((w : W) (n : ℕ) → see (os.recv w socket n).2 ≡ see w)
      → (rounds want : ℕ) (got : List ℕ) (w : W)
      → see (recv_loop rounds socket want got w).1 ≡ see w
  unfolding recv_loop
  recv_loop-keeps keeps zero want got w = ground arith
  recv_loop-keeps keeps (suc rounds) want got w = elim (Bool-cases (ltb (length got) want)) [
    | inl more ↦
        let (count, bytes, u) = os.recv w socket (want - length got) in
        rw more (
          recv_round-keeps count bytes u (λ b. recv_loop rounds socket want (got ++ b))
            (recv_loop-keeps keeps rounds want (got ++ bytes) u)
          ∙ keeps w (want - length got))
    | inr done ↦ rw done refl
  ]

  pub recv_all-keeps :
      ((w : W) (n : ℕ) → see (os.recv w socket n).2 ≡ see w)
      → (want : ℕ) (w : W) → see (recv_all socket want w).1 ≡ see w
  unfolding recv_all
  recv_all-keeps keeps want w = recv_loop-keeps keeps want want [] w

  pub packet_send-keeps :
      ((w : W) (buf : List ℕ) → see (os.send w socket buf).1 ≡ see w)
      → (p : Packet) (w : W) → see (packet_send socket p w).1 ≡ see w
  unfolding packet_send
  packet_send-keeps keeps p w =
      then_with-keeps see (guard (leb p.header.payload_length max_packet_size) w) _ _
        (guard-keeps see _ w)
        λ _ u.
          then_with-keeps see (send_all socket (header_bytes p.header (os.padding w)) u) _ _
            (send_all-keeps keeps _ u)
            λ _ v.
              ite-keeps see (ltb 0 p.header.payload_length)
                (send_all socket (take p.header.payload_length p.payload)) (λ u. (some tt, u)) v
                (send_all-keeps keeps _ v) refl

  receive_payload-keeps :
      ((w : W) (n : ℕ) → see (os.recv w socket n).2 ≡ see w)
      → ((w : W) (n : ℕ) → see (os.malloc w n).1 ≡ see w)
      → (n : ℕ) (w : W) → see (receive_payload socket n w).1 ≡ see w
  unfolding receive_payload
  receive_payload-keeps keeps allocates n w = elim (Bool-cases (os.malloc w n).0) [
    | inl given ↦ rw given (recv_all-keeps keeps n (os.malloc w n).1 ∙ allocates w n)
    | inr refused ↦ rw refused (allocates w n)
  ]

  pub packet_receive-keeps :
      ((w : W) (n : ℕ) → see (os.recv w socket n).2 ≡ see w)
      → ((w : W) (n : ℕ) → see (os.malloc w n).1 ≡ see w)
      → (w : W) → see (packet_receive socket w).1 ≡ see w
  unfolding packet_receive
  packet_receive-keeps keeps allocates w =
      then_with-keeps see (recv_all socket header_size w) _ _ (recv_all-keeps keeps _ w) λ bytes u.
        let h = parse_header bytes in
        then_with-keeps see (guard (h.version == current_protocol_version) u) _ _
          (guard-keeps see _ u)
          λ _ u.
            then_with-keeps see (guard (leb h.type (code error)) u) _ _ (guard-keeps see _ u) λ _ u.
              then_with-keeps see (guard (leb h.payload_length max_packet_size) u) _ _
                (guard-keeps see _ u)
                λ _ u.
                  then_with-keeps see
                    ((if ltb 0 h.payload_length
                        then receive_payload socket h.payload_length
                        else (λ u. (some [], u)))
                      u)
                    _ _
                    (ite-keeps see (ltb 0 h.payload_length)
                      (receive_payload socket h.payload_length) (λ u. (some [], u)) u
                      (receive_payload-keeps keeps allocates _ u) refl)
                    λ _ u. refl

module _ {W V : Type 0} ⦃os : Os W⦄ (see : W → V) where
  pub packet_construct-keeps :
      ((w : W) (n : ℕ) → see (os.malloc w n).1 ≡ see w)
      → (c : PacketConstructor) (w : W) → see (packet_construct c w).1 ≡ see w
  unfolding packet_construct
  packet_construct-keeps allocates c w = ground (arith, allocates w c.payload_length)
