-- ===== src/Packet/Send.antt =====
-- `packet_send` of src/shared/packet.c.
use sencd.Base.{
  ◌≡◌, sym, ap, ap₂, ◌∙◌, inl, inr, true, some, ◌++◌, arith, ltb, leb, if◌then◌else◌, take, ℤ,
  append-nil, append_assoc, Bool-cases, take_all,
}
use sencd.Base.Control.{then_with-eq-some, guard-eq-some}
use sencd.Platform.Os.{Os, StreamLaws, Responsive}
use sencd.Packet.{Packet, max_packet_size, header_bytes, send_all, packet_send}
use sencd.Packet.Stream.{send_all-appends, send_all-total}
use sencd.Packet.Frame.{IsValid, frame}

module _ {W : Type 0} ⦃os : Os W⦄ (laws : StreamLaws os) where
  open laws use {sent, pending}

  payload_sent :
      (socket : ℤ) (p : Packet) (w t : W)
      → (if ltb 0 p.header.payload_length
            then send_all socket (take p.header.payload_length p.payload)
            else (λ u. (some tt, u)))
          w
        ≡ (some tt, t)
      → sent t socket ≡ sent w socket ++ take p.header.payload_length p.payload
  payload_sent socket p w t e = elim (Bool-cases (ltb 0 p.header.payload_length)) [
    | inl some_bytes ↦
        send_all-appends laws socket (take p.header.payload_length p.payload) w t
          (rw some_bytes at e)
    | inr no_bytes ↦
        let zero_length : p.header.payload_length ≡ 0 = ground arith in
        rw (zero_length, append-nil)
          (ap (λ x. sent x socket) (sym (ap (λ x. x.1) (rw no_bytes at e))))
  ]

  -- When `packet_send` returns 0 on a valid packet, the socket has sent the packet's frame, whole,
  -- and nothing else.
  pub packet_send-frames :
      (socket : ℤ) (p : Packet) (w t : W)
      → IsValid p
      → packet_send socket p w ≡ (some tt, t)
      → sent t socket ≡ sent w socket ++ frame p (os.padding w)
  unfolding packet_send
  packet_send-frames socket p w t v e =
      let header = header_bytes p.header (os.padding w) in
      let (_, rest) = guard-eq-some (leb p.header.payload_length max_packet_size) w _ e in
      let (_, u, head, tail) = then_with-eq-some (send_all socket header w) _ rest in
      payload_sent socket p u t tail
      ∙ ap₂ ◌++◌ (send_all-appends laws socket header w u head)
          (take_all p.payload p.header.payload_length (omega arith))
      ∙ append_assoc (sent w socket) header p.payload

  -- A valid packet can be sent over a socket that takes bytes.
  pub packet_send-total :
      Responsive os laws
      → (socket : ℤ) (p : Packet) (w : W) → IsValid p
      → (t : W) × (packet_send socket p w ≡ (some tt, t))
  unfolding packet_send
  packet_send-total live socket p w v =
      let n = p.header.payload_length in
      let fits : leb n max_packet_size ≡ true = ground arith in
      let (u, head) = send_all-total laws live socket (header_bytes p.header (os.padding w)) w in
      let (t, body) = send_all-total laws live socket (take n p.payload) u in
      elim (Bool-cases (ltb 0 n)) [
        | inl some_bytes ↦ (t, rw (fits, head, some_bytes, body))
        | inr no_bytes ↦ (u, rw (fits, head, no_bytes))
      ]
