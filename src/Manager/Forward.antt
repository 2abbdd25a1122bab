-- ===== src/Manager/Forward.antt =====
-- What the packets through the listener and the sender of src/sessions/session_manager.c do to the
-- table, and where they end.
use sencd.Base.{
  ℕ, ◌+◌, ◌≤◌, ◌<◌, ◌≡◌, refl, sym, subst, true, none, some, List, arith, ltb, ◌==◌, get_or,
  get_elem?, length, Option-cases, Bool-cases, inl, inr, ◌⊎◌,
}
use sencd.Platform.Os.{Os, SockAddr}
use sencd.Platform.Sodium.{Sodium}
use sencd.Platform.Zstd.{Zstd}
use sencd.Session.{Session, established}
use sencd.Tunnel.Frame.{
  tunnel_packet_max_plaintext, tunnel_packet_decode, tunnel_packet_peek_session_id,
}
use sencd.Tunnel.Compress.{
  tunnel_compress_header_size, tunnel_pipeline_compress, tunnel_pipeline_compress-ne-nil,
}
use sencd.Tunnel.Pipeline.{outbound, inbound}
use sencd.Manager.{SessionManager, session_manager_get}
use sencd.Manager.Slots.{find_octet, takes_octet, octet_of, is_established}
use sencd.Manager.Traffic.{
  store, heard_from, count_sent, tun_write, deliver, deliver_to, udp_listener_round, forward,
  forward_to, tun_sender_round,
}
use sencd.Manager.Count.{IsSound}
use sencd.Manager.Lookup.{
  store-IsSound, session_manager_get-slot, session_manager_get-store, find_octet-slot,
  find_octet_first, get_elem-Addressed,
}

module _ {W : Type 0} ⦃os : Os W⦄ ⦃na : Sodium⦄ ⦃z : Zstd⦄ where
  -- A round with a datagram: nothing happens, or a session that is found hears it.
  pub udp_listener_round-cases :
      (buffer : List ℕ) (from : SockAddr) (m : SessionManager) (w : W)
      → (udp_listener_round buffer from m w ≡ (m, w))
        ⊎ ((id i : ℕ) × (s : Session) × (session_manager_get m id ≡ some (i, s))
            × (udp_listener_round buffer from m w ≡ deliver buffer from i s m w))
  unfolding udp_listener_round deliver_to
  udp_listener_round-cases buffer from m w =
      elim (Option-cases (tunnel_packet_peek_session_id buffer)) [
        | inl stop ↦ inl (ground arith)
        | inr (id, seen) ↦ elim (Option-cases (session_manager_get m id)) [
          | inl stop ↦ inl (ground arith)
          | inr ((i, s), found) ↦ inr (id, i, s, found, ground arith)
        ]
      ]

  -- Whatever datagram comes in, from whatever address, the listener leaves the table sound.
  pub udp_listener_round-IsSound :
      (buffer : List ℕ) (from : SockAddr) (m : SessionManager) (w : W)
      → IsSound m
      → IsSound (udp_listener_round buffer from m w).0
  unfolding deliver
  udp_listener_round-IsSound buffer from m w sound =
      elim (udp_listener_round-cases buffer from m w) [
        | inl same ↦ subst (λ (p : SessionManager × W). IsSound p.0) (sym same) sound
        | inr (id, i, s, found, same) ↦
            let at = (session_manager_get-slot m id i s found).0 in
            subst (λ (p : SessionManager × W). IsSound p.0) (sym same)
              (store-IsSound m i s (heard_from from s) at (ground arith) sound)
      ]

  -- A datagram that names a session and does not decode: nothing is written to the TUN device,
  -- and yet the session's packets go to the datagram's sender from then on.
  pub udp_listener_round_hijacked :
      (buffer : List ℕ) (from : SockAddr) (m : SessionManager) (w : W) (id i : ℕ) (s : Session)
      → tunnel_packet_peek_session_id buffer ≡ some id
      → session_manager_get m id ≡ some (i, s)
      → tunnel_packet_decode buffer s.crypto ≡ none
      → let (m', w') = udp_listener_round buffer from m w in
        (w' ≡ w)
        × (session_manager_get m' id ≡ some (i, heard_from from s))
        × ((heard_from from s).udp.peer_addr ≡ from)
  unfolding udp_listener_round deliver_to deliver heard_from inbound tun_write
  udp_listener_round_hijacked buffer from m w id i s seen found refused =
      let (at, same) = session_manager_get-slot m id i s found in
      let stored = session_manager_get-store m id i s (heard_from from s) found same in
      let lost : inbound buffer s.crypto ≡ none = ground arith in
      let silent : tun_write m.tun none w ≡ w = elim (Option-cases m.tun) [
        | inl a ↦ ground arith
        | inr (fd, a) ↦ ground arith
      ] in
      (ground (arith, lost, silent), ground (arith, stored), refl)

  -- A round with a packet: nothing happens, or the session that has its octet sends it.
  pub tun_sender_round-cases :
      (raw : List ℕ) (m : SessionManager) (w : W)
      → (tun_sender_round raw m w ≡ (m, w))
        ⊎ ((i : ℕ) × (s : Session) × (get_elem? m.sessions i ≡ some (some s))
            × (tun_sender_round raw m w ≡ forward raw i s m w))
  unfolding tun_sender_round forward_to
  tun_sender_round-cases raw m w =
      let compressed = tunnel_pipeline_compress raw tunnel_packet_max_plaintext in
      elim (Bool-cases (ltb (length raw) 20)) [
        | inl short ↦ inl (ground arith)
        | inr long ↦ elim (Bool-cases (length compressed == 0)) [
          | inl empty ↦ inl (ground arith)
          | inr text ↦ elim (Option-cases (find_octet 0 (get_or raw 19 0) m.sessions)) [
            | inl stop ↦ inl (ground arith)
            | inr ((i, s), found) ↦
                let (k, here, at) = find_octet-slot 0 (get_or raw 19 0) m.sessions i s found in
                let same : i ≡ k = omega arith in inr (k, s, at, ground arith)
          ]
        ]
      ]

  -- Whatever packet the TUN device hands out, the sender leaves the table sound.
  pub tun_sender_round-IsSound :
      (raw : List ℕ) (m : SessionManager) (w : W) → IsSound m → IsSound (tun_sender_round raw m w).0
  unfolding forward
  tun_sender_round-IsSound raw m w sound = elim (tun_sender_round-cases raw m w) [
    | inl same ↦ subst (λ (p : SessionManager × W). IsSound p.0) (sym same) sound
    | inr (i, s, at, same) ↦
        let kept = store-IsSound m i s (count_sent s) at (ground arith) sound in
        let stored : (forward raw i s m w).0 ≡ store m i (count_sent s) =
          elim (Option-cases (outbound raw s.session_id s.crypto.tx_nonce s.crypto)) [
            | inl e ↦ ground arith
            | inr (b, e) ↦ ground arith
          ] in
        subst (λ (p : SessionManager × W). IsSound p.0) (sym same) (subst IsSound (sym stored) kept)
  ]

  -- A packet for the octet of one of the first 256 slots goes to the session there, if that is
  -- established and its peer is known.
  pub tun_sender_round_routes :
      (raw : List ℕ) (m : SessionManager) (w : W) (i : ℕ) (s : Session)
      → IsSound m
      → i < 256
      → get_elem? m.sessions i ≡ some (some s)
      → s.state ≡ established
      → s.udp.peer_known ≡ 1
      → get_or raw 19 0 ≡ octet_of i
      → 20 ≤ length raw
      → length raw + tunnel_compress_header_size ≤ tunnel_packet_max_plaintext
      → tun_sender_round raw m w ≡ forward raw i s m w
  unfolding tun_sender_round forward_to takes_octet is_established
  tun_sender_round_routes raw m w i s sound near at up known octet long fits =
      let own = get_elem-Addressed 0 m.sessions i s sound.addressed at in
      let takes : takes_octet (octet_of i) s ≡ true = ground arith in
      let found = find_octet_first 0 m.sessions i i s sound.addressed (omega arith) near at takes in
      let text = tunnel_pipeline_compress-ne-nil raw tunnel_packet_max_plaintext fits in
      ground (arith, found, text, octet)
