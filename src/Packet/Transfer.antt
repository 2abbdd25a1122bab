-- ===== src/Packet/Transfer.antt =====
-- `packet_construct`, `packet_send` and `packet_receive` of src/shared/packet.c together.
use sencd.Base.{
  [], if◌then◌else◌, ℕ, ◌≤◌, ◌≡◌, refl, sym, ap, ◌∙◌, some, List, ◌++◌, arith, length, ℤ, take_all,
  append_injective, nil_of_length,
}
use sencd.Platform.Os.{Os, StreamLaws, Responsive}
use sencd.Packet.{
  Packet, PacketConstructor, code, current_protocol_version, max_packet_size, packet_send,
  packet_receive, packet_construct,
}
use sencd.Packet.Frame.{IsValid, frame, code-le}
use sencd.Packet.Send.{packet_send-frames, packet_send-total}
use sencd.Packet.Receive.{packet_receive-frame}

module _ {W : Type 0} ⦃os : Os W⦄ (laws : StreamLaws os) where
  open laws use {sent, pending}

  -- On sockets that keep up, sending a valid packet succeeds, and when the other end's stream holds
  -- what this call sent, `packet_receive` there returns that very packet and leaves what follows it.
  pub packet_receive-packet_send :
      Responsive os laws
      → (near far : ℤ) (p : Packet) (w u : W) (chunk rest : List ℕ) → IsValid p
      → sent (packet_send near p w).1 near ≡ sent w near ++ chunk
      → pending u far ≡ chunk ++ rest
      → ((packet_send near p w).0 ≡ some tt)
        × ((v : W) × (packet_receive far u ≡ (some p, v)) × (pending v far ≡ rest))
  packet_receive-packet_send live near far p w u chunk rest v e arrived =
      let (t, done) = packet_send-total laws live near p w v in
      let framed = packet_send-frames laws near p w t v done in
      let left : sent t near ≡ sent w near ++ chunk = ap (λ r. sent r.1 near) (sym done) ∙ e in
      let (_, same) =
        append_injective (sent w near) chunk (sent w near) (frame p (os.padding w)) refl
          (sym left ∙ framed) in
      (
        ap (λ r. r.0) done,
        packet_receive-frame laws live far p (os.padding w) rest u v (laws.length-padding w)
            (arrived ∙ ap (λ x. x ++ rest) same),
      )

module _ {W : Type 0} ⦃os : Os W⦄ where
  -- From a constructor of the current version whose length is that of its payload and fits,
  -- `packet_construct` builds a valid packet of the asked type, with the constructor's payload if the
  -- allocation succeeds and none otherwise.
  pub packet_construct-IsValid :
      (c : PacketConstructor) (w : W)
      → length c.payload ≡ c.payload_length
      → c.payload_length ≤ max_packet_size
      → c.header_version ≡ current_protocol_version
      → IsValid (packet_construct c w).0
        × ((packet_construct c w).0.header.type ≡ code c.header_type)
        × ((packet_construct c w).0.payload
            ≡ (if (os.malloc w c.payload_length).0 then c.payload else []))
  unfolding packet_construct
  packet_construct-IsValid c w size fits spoken =
      ground
        (arith, take_all c.payload c.payload_length, code-le c.header_type, nil_of_length c.payload)
