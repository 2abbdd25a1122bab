-- ===== src/Command/Carries.antt =====
-- src/commands/client_env.c and src/sessions/session_manager.c together: a packet from one TUN device
-- to the other, between a client and a server whose sessions came out of one handshake.
pub mod Datagram
pub mod Rounds
use sencd.Base.{
  ℕ, ◌+◌, ◌^◌, ◌≤◌, ◌<◌, ◌≡◌, refl, ◌∙◌, sym, true, some, List, arith, get_or, get_elem?, length, ℤ,
  pos, is_positive, subst,
}
use sencd.Platform.Os.{Os, SockAddr}
use sencd.Platform.Sodium.{Sodium, AeadLaws}
use sencd.Platform.Zstd.{Zstd, ZstdLaws}
use sencd.Session.{Session}
use sencd.Session.Complete.{Agreed}
use sencd.Tunnel.Frame.{tunnel_packet_max_plaintext, tunnel_packet_max_size}
use sencd.Tunnel.Compress.{tunnel_compress_header_size}
use sencd.Tunnel.Pipeline.{outbound}
use sencd.Manager.{SessionManager, session_manager_get}
use sencd.Manager.Slots.{octet_of}
use sencd.Manager.Traffic.{store, heard_from, count_sent, udp_listener_round}
use sencd.Manager.Rounds.{session_manager_udp_listener, session_manager_tun_sender}
use sencd.Manager.Count.{IsSound}
use sencd.Manager.Lookup.{session_manager_get-slot, session_manager_get-store, store-IsSound}
use sencd.Manager.Forward.{tun_sender_round_routes}
use sencd.Manager.Deliver.{udp_listener_round_delivers}
use sencd.Command.Client.{ClientRun}
use sencd.Command.Client.Steps.{with_session, client_tun_sender_round, client_udp_receiver_round}
use Datagram.{datagram_of, datagram_of-outbound}
use Rounds.{client_sends, client_receives, server_receives, server_reads, forwards}

module _ {W : Type 0} ⦃os : Os W⦄ ⦃na : Sodium⦄ ⦃z : Zstd⦄ (aead : AeadLaws na)
    (zstd : ZstdLaws z) where
  -- Between a client and a server whose sessions agree, as after a handshake, a packet of 1 to 65499
  -- bytes that the client's sender reads from its device leaves in one datagram of at most 65536 bytes; where the
  -- server's listener receives it, the server writes the same packet to its device and records where
  -- the client sends from.
  pub client_to_server :
      (c s t : Session) (raw : List ℕ) (r : ClientRun) (w v : W) (ready count : ℤ) (fd : ℕ)
      (m : SessionManager) (u x : W) (ready' count' : ℤ) (i port dev : ℕ) (from : SockAddr)
      → Agreed c s r.client.session t
      → r.client.session.udp.socket ≡ pos fd
      → is_positive ready ≡ true
      → is_positive count ≡ true
      → os.read w r.client.tun.fd tunnel_packet_max_plaintext ≡ (count, raw, v)
      → 1 ≤ length raw
      → length raw + tunnel_compress_header_size ≤ tunnel_packet_max_plaintext
      → t.session_id < 2 ^ 64
      → r.client.session.crypto.tx_nonce < 2 ^ 64
      → session_manager_get m t.session_id ≡ some (i, t)
      → m.udp_socket ≡ pos port
      → m.tun ≡ some (pos dev)
      → is_positive ready' ≡ true
      → is_positive count' ≡ true
      → os.recvfrom u (pos port) tunnel_packet_max_size
        ≡ (count', datagram_of raw r.client.session, from, x)
      → let b = datagram_of raw r.client.session in
        (length b ≤ tunnel_packet_max_size)
        × (client_tun_sender_round ready (r, w)
            ≡ (with_session r (count_sent r.client.session), (os.send v (pos fd) b).1))
        × (session_manager_udp_listener ready' m u
            ≡ (store m i (heard_from from t), os.write x (pos dev) raw))
  client_to_server c s t raw r w v ready count fd m u x ready' count' i port dev from agreed socket
        wakes got read long fits small count_small found bound device wakes' got' arrives =
      let k = r.client.session in
      let b = datagram_of raw k in
      let known : k.session_id < 2 ^ 64 = omega (arith, agreed.same_number) in
      let (sent, short, _, _) =
        datagram_of-outbound aead zstd raw k t.crypto long fits known count_small
          agreed.server_hears_client in
      let (b', sent', delivered) =
        udp_listener_round_delivers aead zstd raw from m x t.session_id k.crypto.tx_nonce i dev t
          k.crypto found device long fits small count_small agreed.server_hears_client in
      let here : outbound raw k.session_id k.crypto.tx_nonce k.crypto ≡ some b' =
        rw agreed.same_number sent' in
      let same : b' ≡ b = cc (here, sent) in
      (
        short,
        client_sends raw r w v ready count fd b agreed.client_established socket wakes got read fits
            sent,
        server_receives b m u x ready' count' port from bound wakes' got' arrives
            ∙ subst
                (λ a.
                  udp_listener_round a from m x
                  ≡ (store m i (heard_from from t), os.write x (pos dev) raw))
                same delivered,
      )

  -- Then an answer: a packet of 20 to 65499 bytes for the octet of the session's slot, one of the
  -- first 256, that the server's sender reads from its device leaves in one datagram of at most 65536 bytes for the
  -- address that the client's packet came from; where the client's receiver receives it, the client
  -- writes the same packet to its device.
  pub server_to_client :
      (c s t : Session) (raw : List ℕ) (m : SessionManager) (u x : W) (ready count : ℤ) (i port : ℕ)
      (dev : ℤ) (from : SockAddr) (r : ClientRun) (w v : W) (ready' count' : ℤ) (fd : ℕ)
      → Agreed c s r.client.session t
      → IsSound m
      → session_manager_get m t.session_id ≡ some (i, t)
      → i < 256
      → m.udp_socket ≡ pos port
      → m.tun ≡ some dev
      → is_positive ready ≡ true
      → is_positive count ≡ true
      → os.read u dev tunnel_packet_max_plaintext ≡ (count, raw, x)
      → get_or raw 19 0 ≡ octet_of i
      → 20 ≤ length raw
      → length raw + tunnel_compress_header_size ≤ tunnel_packet_max_plaintext
      → t.session_id < 2 ^ 64
      → t.crypto.tx_nonce < 2 ^ 64
      → r.client.session.udp.socket ≡ pos fd
      → is_positive ready' ≡ true
      → is_positive count' ≡ true
      → os.recv w (pos fd) tunnel_packet_max_size ≡ (count', datagram_of raw t, v)
      → let heard = store m i (heard_from from t) in
        let b = datagram_of raw t in
        (length b ≤ tunnel_packet_max_size)
        × (session_manager_tun_sender ready heard u
            ≡ (store heard i (count_sent (heard_from from t)), os.sendto x (pos port) b from))
        × (client_udp_receiver_round ready' (r, w) ≡ (r, os.write v r.client.tun.fd raw))
  unfolding heard_from store
  server_to_client c s t raw m u x ready count i port dev from r w v ready' count' fd agreed sound
        found near bound device wakes got read octet long fits small count_small socket wakes' got'
        arrives =
      let heard = store m i (heard_from from t) in
      let (at, _) = session_manager_get-slot m t.session_id i t found in
      let sound' : IsSound heard = store-IsSound m i t (heard_from from t) at refl sound in
      let at' : get_elem? heard.sessions i ≡ some (some (heard_from from t)) =
        (session_manager_get-slot heard t.session_id i (heard_from from t)
          (session_manager_get-store m t.session_id i t (heard_from from t) found refl)).0 in
      let b = datagram_of raw t in
      let (sent, short, _, back) =
        datagram_of-outbound aead zstd raw t r.client.session.crypto (omega arith) fits small
          count_small agreed.client_hears_server in
      let routed =
        tun_sender_round_routes raw heard x i (heard_from from t) sound' near at'
          agreed.server_established refl octet long fits in
      (
        short,
        server_reads raw heard u x ready count port dev bound device wakes got read
            ∙ routed
            ∙ forwards raw b i (heard_from from t) heard x port bound sent,
        client_receives raw b r w v ready' count' fd agreed.client_established socket wakes' got'
            arrives back,
      )
