-- ===== src/Packet/Receive.antt =====
-- `packet_receive` of src/shared/packet.c.
use sencd.Base.{
  ℕ, ◌≡◌, sym, ap, ◌∙◌, inl, inr, true, some, List, [], ◌++◌, arith, ltb, leb, ◌==◌, if◌then◌else◌,
  length, ℤ, append_assoc, Bool-cases, length-append, append_injective, nil_of_length, subst,
}
use sencd.Base.Control.{then_with-eq-some, guard-eq-some, pure-eq-some}
use sencd.Platform.Os.{Os, StreamLaws, Responsive}
use sencd.Packet.{
  Packet, code, error, current_protocol_version, max_packet_size, header_size, header_bytes,
  parse_header, recv_all, receive_payload, packet_receive,
}
use sencd.Packet.Stream.{recv_all-takes, recv_all-total}
use sencd.Packet.Frame.{IsValid, frame, header_tail, parse_header-header_bytes}

module _ {W : Type 0} ⦃os : Os W⦄ (laws : StreamLaws os) where
  open laws use {sent, pending}

  payload_received :
      (socket : ℤ) (n : ℕ) (w t : W) (payload : List ℕ)
      → (if ltb 0 n then receive_payload socket n else (λ u. (some [], u))) w ≡ (some payload, t)
      → (length payload ≡ n) × (pending w socket ≡ payload ++ pending t socket)
  unfolding receive_payload
  payload_received socket n w t payload e = elim (Bool-cases (ltb 0 n)) [
    | inl some_bytes ↦ elim (Bool-cases (os.malloc w n).0) [
      | inl allocated ↦
          rw (← laws.malloc_pending w n socket)
            (recv_all-takes laws socket n _ payload t (rw allocated at (rw some_bytes at e)))
      | inr refused ↦ cc (rw refused at (rw some_bytes at e))
    ]
    | inr no_bytes ↦ ground arith
  ]

  accepted :
      (socket : ℤ) (w t : W) (p : Packet) (bytes payload : List ℕ)
      → IsValid p
      → length bytes ≡ header_size
      → parse_header bytes ≡ p.header
      → pending w socket ≡ bytes ++ payload ++ pending t socket
      → payload ≡ p.payload
      → IsValid p
        × ((bytes : List ℕ) × (length bytes ≡ header_size)
            × (parse_header bytes ≡ p.header)
            × (pending w socket ≡ bytes ++ p.payload ++ pending t socket))
  accepted socket w t p bytes payload v size parsed stream same =
      (v, (bytes, size, parsed, stream ∙ ap (λ x. bytes ++ x ++ pending t socket) same))

  -- What `packet_receive` accepts: it has taken a header of 8 bytes and a payload of the announced
  -- length off the stream, and the packet is valid.
  pub packet_receive-takes :
      (socket : ℤ) (w t : W) (p : Packet)
      → packet_receive socket w ≡ (some p, t)
      → IsValid p
        × ((bytes : List ℕ) × (length bytes ≡ header_size)
            × (parse_header bytes ≡ p.header)
            × (pending w socket ≡ bytes ++ p.payload ++ pending t socket))
  unfolding packet_receive
  packet_receive-takes socket w t p e =
      let (bytes, u, got, rest) = then_with-eq-some (recv_all socket header_size w) _ e in
      let h = parse_header bytes in
      let (spoken, rest) = guard-eq-some (h.version == current_protocol_version) u _ rest in
      let (known, rest) = guard-eq-some (leb h.type (code error)) u _ rest in
      let (fits, rest) = guard-eq-some (leb h.payload_length max_packet_size) u _ rest in
      let (payload, v, body, rest) =
        then_with-eq-some
          ((if ltb 0 h.payload_length
              then receive_payload socket h.payload_length
              else (λ u. (some [], u)))
            u)
          _ rest in
      let (size, stream) = recv_all-takes laws socket header_size w bytes u got in
      let (whole, stream') = payload_received socket h.payload_length u v payload body in
      let made : Packet = record { payload = payload; header = h } in
      let (same, end) = pure-eq-some made p v t rest in
      accepted socket w t p bytes payload
        (subst IsValid same (record {
          whole = whole;
          fits = ground arith;
          spoken = ground arith;
          known = ground arith;
        }))
        size (ap (λ q. q.header) same)
        (stream
          ∙ ap (λ x. bytes ++ x) stream'
          ∙ sym (append_assoc bytes payload _)
          ∙ ap (λ x. bytes ++ payload ++ pending x socket) end)
        (ap (λ q. q.payload) same)

  payload_receivable :
      Responsive os laws
      → (socket : ℤ) (n : ℕ) (w : W) (payload rest : List ℕ) → length payload ≡ n
      → pending w socket ≡ payload ++ rest
      → (t : W) × ((if ltb 0 n then receive_payload socket n else (λ u. (some [], u))) w
          ≡ (some payload, t))
        × (pending t socket ≡ rest)
  unfolding receive_payload
  payload_receivable live socket n w payload rest size e = elim (Bool-cases (ltb 0 n)) [
    | inr no_bytes ↦
        let empty = nil_of_length payload (ground arith) in
        (w, rw (no_bytes, empty), e ∙ ap (λ x. x ++ rest) empty)
    | inl some_bytes ↦
        let u = (os.malloc w n).1 in
        let kept = laws.malloc_pending w n socket ∙ e in
        let (got, t, done) =
          recv_all-total laws live socket n u
            (omega (arith, ap length kept, length-append payload rest)) in
        let (got_size, stream) = recv_all-takes laws socket n u got t done in
        let (same, left) =
          append_injective got (pending t socket) payload rest (omega arith) (sym stream ∙ kept) in
        (t, rw (some_bytes, live.malloc_some w n, done, same), left)
  ]

  -- On sockets that keep up, a valid packet's frame at the front of the stream is received as that
  -- packet, with nothing more taken, whatever follows it and however `recv` cuts it up.
  pub packet_receive-frame :
      Responsive os laws
      → (socket : ℤ) (p : Packet) (pad rest : List ℕ) (w : W) → IsValid p
      → length pad ≡ 2
      → pending w socket ≡ frame p pad ++ rest
      → (t : W) × (packet_receive socket w ≡ (some p, t)) × (pending t socket ≡ rest)
  unfolding packet_receive
  packet_receive-frame live socket p pad rest w v two e =
      let header = header_bytes p.header pad in
      let size = header_tail p.header pad two in
      let on_wire : pending w socket ≡ header ++ (p.payload ++ rest) =
        e ∙ append_assoc header p.payload rest in
      let (bytes, u, got) =
        recv_all-total laws live socket header_size w
          (omega (arith, ap length on_wire, length-append header (p.payload ++ rest))) in
      let (bytes_size, stream) = recv_all-takes laws socket header_size w bytes u got in
      let (same, left) =
        append_injective bytes (pending u socket) header (p.payload ++ rest) (omega arith)
          (sym stream ∙ on_wire) in
      let parsed : parse_header bytes ≡ p.header =
        ap parse_header same ∙ parse_header-header_bytes p.header pad (omega arith) in
      let (t, body, end) =
        payload_receivable live socket p.header.payload_length u p.payload rest v.whole left in
      let spoken : (p.header.version == current_protocol_version) ≡ true = ground arith in
      let known : leb p.header.type (code error) ≡ true = ground arith in
      let fits : leb p.header.payload_length max_packet_size ≡ true = ground arith in
      (t, rw (got, parsed, spoken, known, fits, body), end)
