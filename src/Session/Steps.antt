-- ===== src/Session/Steps.antt =====
-- The steps that both sides of the handshake share: what sending, receiving and drawing an ephemeral
-- pair do to the session.
use sencd.Base.{ℕ, ◌≡◌, refl, sym, ap, ◌∙◌, Option, none, some, List, arith}
use sencd.Platform.Os.{Os}
use sencd.Platform.Sodium.{Random, Sodium}
use sencd.Packet.{Packet, PacketHeaderT}
use sencd.Crypto.{crypto_generate_ephemeral}
use sencd.Session.{Session, send_message, receive_message, generate_ephemeral}

module _ {W : Type 0} ⦃os : Os W⦄ where
  pub send_message-keeps :
      (type : PacketHeaderT) (version : ℕ) (payload : List ℕ) (p : Session × W)
      → (send_message type version payload p).1.0 ≡ p.0
  unfolding send_message
  send_message-keeps type version payload p = ground arith

  pub receive_message-keeps :
      (type : PacketHeaderT) (p : Session × W) → (receive_message type p).1.0 ≡ p.0
  unfolding receive_message
  receive_message-keeps type p = ground arith

module _ {W : Type 0} ⦃os : Os W⦄ where
  pub send_kept :
      (type : PacketHeaderT) (version : ℕ) (payload : List ℕ) (p : Session × W)
      (t : Option (Unit {0}) × (Session × W))
      → send_message type version payload p ≡ t
      → t.1.0 ≡ p.0
  send_kept type version payload p t e =
      ap (λ r. r.1.0) (sym e) ∙ send_message-keeps type version payload p

  pub receive_kept :
      (type : PacketHeaderT) (p : Session × W) (t : Option Packet × (Session × W))
      → receive_message type p ≡ t
      → t.1.0 ≡ p.0
  receive_kept type p t e = ap (λ r. r.1.0) (sym e) ∙ receive_message-keeps type p

module _ {W : Type 0} ⦃os : Os W⦄ ⦃rnd : Random W⦄ ⦃na : Sodium⦄ where
  -- A fresh pair is put into the session, and nothing else changes; or nothing changes at all.
  abbrev pub Ephemeral : Session → Option (Unit {0}) × (Session × W) → Type 0
  Ephemeral s (none, q) = q.0 ≡ s
  Ephemeral s (some _, q) =
      (pk sk : List ℕ) × (q.0
        ≡ record s { crypto = record s.crypto { eph_public_key = pk; eph_private_key = sk } })

  pub generate_ephemeral-Ephemeral : (p : Session × W) → Ephemeral p.0 (generate_ephemeral p)
  unfolding generate_ephemeral crypto_generate_ephemeral
  generate_ephemeral-Ephemeral p = split (rnd.kx_keypair p.1) refl
    where
      split :
          (r : Option (List ℕ × List ℕ) × W)
          → rnd.kx_keypair p.1 ≡ r
          → Ephemeral p.0 (generate_ephemeral p)
      split (none, w) e = rw e refl
      split (some (pk, sk), w) e = rw e (pk, sk, refl)
