-- ===== src/Session/Link.antt =====
-- Two connected stream sockets, and what a message of the handshake in src/sessions/session.c does
-- to the bytes between them.
use sencd.Base.{
  ℕ, ◌≤◌, ◌≡◌, refl, sym, ap, ◌∙◌, inl, inr, true, some, List, [], ◌∷◌, ◌++◌, arith, ltb, ◌==◌,
  length, ℤ, append_assoc, Bool-cases, take_all, nil_of_length, append-nil, subst, if◌then◌else◌,
}
use sencd.Platform.Os.{Os, StreamLaws, Responsive}
use sencd.Platform.Sodium.{Random}
use sencd.Packet.{
  Packet, PacketHeaderT, code, current_protocol_version, max_packet_size, packet_send,
  packet_receive, packet_construct,
}
use sencd.Packet.Frame.{IsValid, frame, code-le}
use sencd.Packet.Send.{packet_send-frames, packet_send-total}
use sencd.Packet.Keeps.{packet_send-keeps, packet_receive-keeps}
use sencd.Packet.Receive.{packet_receive-frame}
use sencd.Session.{Session, send_message, receive_message}

-- Two sockets connected to each other: what one has sent and the other has not taken yet is what is
-- pending there, and no call but `send` and `recv` on them touches it.
pub record Linked {W : Type 0} (os : Os W) (rnd : Random W) (laws : StreamLaws os) (near far : ℤ)
    : Type 0 where
  pub near_to_far : (w : W) → laws.sent w near ≡ laws.pending w far
  pub far_to_near : (w : W) → laws.sent w far ≡ laws.pending w near
  pub send_keeps :
      (w : W) (fd : ℤ) (buf : List ℕ) → laws.pending (os.send w fd buf).1 fd ≡ laws.pending w fd
  pub recv_keeps : (w : W) (fd : ℤ) (n : ℕ) → laws.sent (os.recv w fd n).2 fd ≡ laws.sent w fd
  pub malloc_keeps : (w : W) (n : ℕ) (fd : ℤ) → laws.sent (os.malloc w n).1 fd ≡ laws.sent w fd
  pub mkdir_keeps :
      (w : W) (path : List ℕ) (fd : ℤ) → laws.pending (os.mkdir w path).1 fd ≡ laws.pending w fd
  pub write_file_keeps :
      (w : W) (path bytes : List ℕ) (fd : ℤ)
      → laws.pending (os.write_file w path bytes).1 fd ≡ laws.pending w fd
  pub randombytes_keeps :
      (w : W) (n : ℕ) (fd : ℤ) → laws.pending (rnd.randombytes w n).1 fd ≡ laws.pending w fd
  pub kx_keypair_keeps : (w : W) (fd : ℤ) → laws.pending (rnd.kx_keypair w).1 fd ≡ laws.pending w fd

pub swap :
    {W : Type 0} {os : Os W} {rnd : Random W} {laws : StreamLaws os} {near far : ℤ}
    → Linked os rnd laws near far
    → Linked os rnd laws far near
swap l = record {
  near_to_far = l.far_to_near;
  far_to_near = l.near_to_far;
  send_keeps = l.send_keeps;
  recv_keeps = l.recv_keeps;
  malloc_keeps = l.malloc_keeps;
  mkdir_keeps = l.mkdir_keeps;
  write_file_keeps = l.write_file_keeps;
  randombytes_keeps = l.randombytes_keeps;
  kx_keypair_keeps = l.kx_keypair_keeps;
}

-- A message of the handshake: its type and its payload.
abbrev pub Message : Type 0
Message = PacketHeaderT × List ℕ

-- The packet that `packet_construct` makes of a message.
abbrev pub packet_of : Message → Packet
packet_of m = record {
  payload = m.1;
  header = record {
    payload_length = length m.1;
    version = current_protocol_version;
    type = code m.0;
  };
}

-- The bytes are the frames of the messages, in their order.
abbrev pub Carries : List ℕ → List Message → Type 0
Carries bytes [] = bytes ≡ []
Carries bytes (m ∷ ms) =
    (pad rest : List ℕ) × (length pad ≡ 2)
    × (bytes ≡ frame (packet_of m) pad ++ rest)
    × Carries rest ms

Carries-append :
    (bytes : List ℕ) (ms : List Message) (m : Message) (pad : List ℕ)
    → length pad ≡ 2
    → Carries bytes ms
    → Carries (bytes ++ frame (packet_of m) pad) (ms ++ m ∷ [])
Carries-append bytes [] m pad two c =
    (pad, [], two, ap (λ b. b ++ frame (packet_of m) pad) c ∙ sym (append-nil _), refl)
Carries-append bytes (k ∷ ms) m pad two (pad', rest, two', e, c) = (
  pad',
  rest ++ frame (packet_of m) pad,
  two',
  ap (λ b. b ++ frame (packet_of m) pad) e ∙ append_assoc (frame (packet_of k) pad') rest _,
  Carries-append rest ms m pad two c,
)

packet_of-IsValid : (m : Message) → length m.1 ≤ max_packet_size → IsValid (packet_of m)
packet_of-IsValid m fits = record { whole = refl; fits = fits; spoken = refl; known = code-le m.0 }

eq_self : (n : ℕ) → (n == n) ≡ true
eq_self n = ground arith

module _ {W : Type 0} ⦃os : Os W⦄ ⦃rnd : Random W⦄ (laws : StreamLaws os)
    (live : Responsive os laws) where
  open laws use {sent, pending}

  -- What is under way to each of the two ends of a link.
  abbrev pub Traffic : ℤ → ℤ → W → List Message → List Message → Type 0
  Traffic near far w to_near to_far =
      Carries (pending w near) to_near × Carries (pending w far) to_far

  pub Traffic-keeps :
      (near far : ℤ) (v w : W) (to_near to_far : List Message)
      → ((fd : ℤ) → pending v fd ≡ pending w fd)
      → Traffic near far w to_near to_far
      → Traffic near far v to_near to_far
  Traffic-keeps near far v w to_near to_far keeps (a, b) = (
    subst (λ x. Carries x to_near) (sym (keeps near)) a,
    subst (λ x. Carries x to_far) (sym (keeps far)) b,
  )

  construct_whole :
      (m : Message) (w : W)
      → packet_construct
          (record {
            payload = m.1;
            payload_length = length m.1;
            header_type = m.0;
            header_version = current_protocol_version;
          })
          w
        ≡ (packet_of m, (if ltb 0 (length m.1) then (os.malloc w (length m.1)).1 else w))
  unfolding packet_construct
  construct_whole m w = elim (Bool-cases (ltb 0 (length m.1))) [
    | inl some_bytes ↦
        rw (some_bytes, live.malloc_some w (length m.1), take_all m.1 (length m.1) (omega arith))
          refl
    | inr no_bytes ↦ rw (no_bytes, nil_of_length m.1 (ground arith)) refl
  ]

  constructed_keeps :
      (see : W → List ℕ) (n : ℕ) (w : W)
      → see (os.malloc w n).1 ≡ see w
      → see (if ltb 0 n then (os.malloc w n).1 else w) ≡ see w
  constructed_keeps see n w e = ground arith

  -- A message that is sent arrives behind those that are under way, and nothing else changes.
  pub send_message-Traffic :
      {near far : ℤ}
      → Linked os rnd laws near far
      → (type : PacketHeaderT) (version : ℕ) (payload : List ℕ) (s : Session) (w : W)
        (to_near to_far : List Message)
      → s.socket ≡ near
      → version ≡ current_protocol_version
      → length payload ≤ max_packet_size
      → Traffic near far w to_near to_far
      → (v : W) × (send_message type version payload (s, w) ≡ (some tt, (s, v)))
        × Traffic near far v to_near (to_far ++ (type, payload) ∷ [])
  unfolding send_message
  send_message-Traffic {near} {far} link type version payload s w to_near to_far at_near spoken fits
        (a, b) =
      let q = packet_of (type, payload) in
      let u = if ltb 0 (length payload) then (os.malloc w (length payload)).1 else w in
      let valid = packet_of-IsValid (type, payload) fits in
      let (v, done) = packet_send-total laws live near q u valid in
      let there : pending v far ≡ pending w far ++ frame q (os.padding u) =
        sym (link.near_to_far v)
        ∙ packet_send-frames laws near q u v valid done
        ∙ ap (λ b. b ++ frame q (os.padding u))
            (link.near_to_far u
              ∙ constructed_keeps (λ x. pending x far) _ w (laws.malloc_pending w _ far)) in
      let here : pending v near ≡ pending w near =
        ap (λ r. pending r.1 near) (sym done)
        ∙ packet_send-keeps (λ x. pending x near) near (λ x buf. link.send_keeps x near buf) q u
        ∙ constructed_keeps (λ x. pending x near) _ w (laws.malloc_pending w _ near) in
      let sends : packet_send s.socket q u ≡ (some tt, v) = rw at_near done in
      (
        v,
        rw (spoken, construct_whole (type, payload) w, sends) refl,
        (
          subst (λ b. Carries b to_near) (sym here) a,
          subst (λ b. Carries b (to_far ++ (type, payload) ∷ [])) (sym there)
              (Carries-append (pending w far) to_far (type, payload) (os.padding u)
                (laws.length-padding u) b),
        ),
      )

  pub receive_message-Traffic :
      {near far : ℤ}
      → Linked os rnd laws near far
      → (type : PacketHeaderT) (payload : List ℕ) (s : Session) (w : W)
        (to_near to_far : List Message)
      → s.socket ≡ near
      → length payload ≤ max_packet_size
      → Traffic near far w ((type, payload) ∷ to_near) to_far
      → (v : W) × (receive_message type (s, w) ≡ (some (packet_of (type, payload)), (s, v)))
        × Traffic near far v to_near to_far
  unfolding receive_message
  receive_message-Traffic {near} {far} link type payload s w to_near to_far at_near fits (a, b) =
      let q = packet_of (type, payload) in
      let (pad, rest, two, bytes, c) = a in
      let (v, done, left) =
        packet_receive-frame laws live near q pad rest w (packet_of-IsValid (type, payload) fits)
          two bytes in
      let there : pending v far ≡ pending w far =
        sym (link.near_to_far v)
        ∙ ap (λ r. sent r.1 near) (sym done)
        ∙ packet_receive-keeps (λ x. sent x near) near (λ x n. link.recv_keeps x near n)
            (λ x n. link.malloc_keeps x n near) w
        ∙ link.near_to_far w in
      let takes : packet_receive s.socket w ≡ (some q, v) = rw at_near done in
      (
        v,
        rw (takes, eq_self (code type)) refl,
        (subst (λ b. Carries b to_near) (sym left) c, subst (λ b. Carries b to_far) (sym there) b),
      )
