-- ===== src/Session/Sockets.antt =====
-- What the handshakes of src/sessions/session.c do to descriptors: nothing, and the session keeps its
-- sockets.
use sencd.Base.{ℕ, ap, Bool, ℤ}
use sencd.Platform.Os.{Os, DescriptorLaws}
use sencd.Platform.Calls.{QuietLaws}
use sencd.Platform.Sodium.{Random}
use sencd.Tunnel.Udp.{UdpTunnel}
use sencd.Session.{Session}
use sencd.Session.Keeps.{Unseen}

module _ {W : Type 0} ⦃os : Os W⦄ ⦃rnd : Random W⦄ (laws : DescriptorLaws os)
    (quiet : QuietLaws os rnd laws) where
  open laws use {is_open}

  -- The two sockets of a session, and whether one descriptor is open.
  abbrev pub sockets : ℕ → Session × W → ℤ × UdpTunnel × Bool
  sockets k p = (p.0.socket, p.0.udp, is_open p.1 k)

  pub sockets-Unseen : (k : ℕ) → Unseen os rnd (sockets k)
  sockets-Unseen k = record {
    same = λ p q a b c i. (a i, b i, is_open (c i) k);
    send_kept = λ s w fd buf. ap (λ b. (s.socket, s.udp, b)) (quiet.send_keeps w fd buf k);
    recv_kept = λ s w fd n. ap (λ b. (s.socket, s.udp, b)) (quiet.recv_keeps w fd n k);
    malloc_kept = λ s w n. ap (λ b. (s.socket, s.udp, b)) (quiet.malloc_keeps w n k);
    mkdir_kept = λ s w path. ap (λ b. (s.socket, s.udp, b)) (quiet.mkdir_keeps w path k);
    write_file_kept =
        λ s w path bytes. ap (λ b. (s.socket, s.udp, b)) (quiet.write_file_keeps w path bytes k);
    randombytes_kept = λ s w n. ap (λ b. (s.socket, s.udp, b)) (quiet.randombytes_keeps w n k);
    kx_keypair_kept = λ s w. ap (λ b. (s.socket, s.udp, b)) (quiet.kx_keypair_keeps w k);
  }
