-- ===== src/Packet/Stream.antt =====
-- The loops `send_all` and `recv_all` of src/shared/packet.c: what they do to the stream when they
-- succeed, and that they succeed on a socket that keeps up.
use sencd.Base.{
  ℕ, zero, suc, ◌+◌, ◌-◌, ◌≤◌, ◌≡◌, refl, sym, ap, ◌∙◌, inl, inr, false, Option, some, List, [],
  ◌++◌, arith, ltb, length, take, drop, ℤ, pos, negsuc, append-nil, append_assoc, Bool-cases,
  length-drop, length-append, drop_all, drop-drop, take-append-drop,
}
use sencd.Base.Control.{M}
use sencd.Platform.Os.{Os, StreamLaws, Responsive}
use sencd.Packet.{send_round, send_loop, send_all, recv_round, recv_loop, recv_all}

module _ {W : Type 0} ⦃os : Os W⦄ where
  send_round-eq-some :
      (c : ℤ) (w : W) (more : ℕ → M W (Unit {0})) (t : W)
      → send_round c w more ≡ (some tt, t)
      → (n : ℕ) × (c ≡ pos (suc n)) × (more (suc n) w ≡ (some tt, t))
  unfolding send_round
  send_round-eq-some (pos zero) w more t e = cc
  send_round-eq-some (pos (suc n)) w more t e = (n, refl, e)
  send_round-eq-some (negsuc n) w more t e = cc

  recv_round-eq-some :
      (c : ℤ) (bytes : List ℕ) (w : W) (more : List ℕ → M W (List ℕ)) (got : List ℕ) (t : W)
      → recv_round c bytes w more ≡ (some got, t)
      → (n : ℕ) × (c ≡ pos (suc n)) × (more bytes w ≡ (some got, t))
  unfolding recv_round
  recv_round-eq-some (pos zero) bytes w more got t e = cc
  recv_round-eq-some (pos (suc n)) bytes w more got t e = (n, refl, e)
  recv_round-eq-some (negsuc n) bytes w more got t e = cc

module _ {W : Type 0} ⦃os : Os W⦄ (laws : StreamLaws os) where
  open laws use {sent, pending}

  send_loop-appends :
      (rounds : ℕ) (socket : ℤ) (buffer : List ℕ) (total : ℕ) (w t : W)
      → send_loop rounds socket buffer total w ≡ (some tt, t)
      → sent t socket ≡ sent w socket ++ drop total buffer
  unfolding send_loop
  send_loop-appends zero socket buffer total w t e = elim (Bool-cases (ltb total (length buffer))) [
    | inl more ↦ cc (rw more at e)
    | inr done ↦
        rw (drop_all buffer total (ground arith), append-nil)
          (ap (λ x. sent x socket) (sym (ap (λ x. x.1) (rw done at e))))
  ]
  send_loop-appends (suc rounds) socket buffer total w t e =
      elim (Bool-cases (ltb total (length buffer))) [
        | inr done ↦
            rw (drop_all buffer total (ground arith), append-nil)
              (ap (λ x. sent x socket) (sym (ap (λ x. x.1) (rw done at e))))
        | inl more ↦
            let (n, count, rest) = send_round-eq-some _ _ _ t (rw more at e) in
            send_loop-appends rounds socket buffer (total + suc n) _ t rest
            ∙ ap (λ x. x ++ drop (total + suc n) buffer)
                (laws.send_appends w socket _ (suc n) count)
            ∙ append_assoc (sent w socket) (take (suc n) (drop total buffer)) _
            ∙ ap (λ x. sent w socket ++ x)
                (ap (λ x. take (suc n) (drop total buffer) ++ x)
                    (sym (drop-drop total (suc n) buffer))
                  ∙ take-append-drop (suc n) (drop total buffer))
      ]

  -- When `send_all` returns 0, the socket has sent what it had sent before and then the whole buffer.
  pub send_all-appends :
      (socket : ℤ) (buffer : List ℕ) (w t : W)
      → send_all socket buffer w ≡ (some tt, t)
      → sent t socket ≡ sent w socket ++ buffer
  unfolding send_all
  send_all-appends socket buffer w t e = send_loop-appends (length buffer) socket buffer 0 w t e

  send_loop-total :
      Responsive os laws
      → (rounds : ℕ) (socket : ℤ) (buffer : List ℕ) (total : ℕ) (w : W)
      → length buffer ≤ total + rounds
      → (t : W) × (send_loop rounds socket buffer total w ≡ (some tt, t))
  unfolding send_loop
  send_loop-total live zero socket buffer total w h = (w, ground arith)
  send_loop-total live (suc rounds) socket buffer total w h =
      elim (Bool-cases (ltb total (length buffer))) [
        | inr done ↦ (w, rw done)
        | inl more ↦
            let (n, count) =
              live.send_some w socket (drop total buffer) (rw length-drop (ground arith)) in
            let (t, rest) =
              send_loop-total live rounds socket buffer (total + suc n)
                (os.send w socket (drop total buffer)).1 (omega arith) in
            (t, rw (more, count) rest)
      ]

  -- On sockets that keep up, `send_all` returns 0: the loop ends by its test, never for want of
  -- rounds.
  pub send_all-total :
      Responsive os laws
      → (socket : ℤ) (buffer : List ℕ) (w : W) → (t : W) × (send_all socket buffer w ≡ (some tt, t))
  unfolding send_all
  send_all-total live socket buffer w =
      send_loop-total live (length buffer) socket buffer 0 w (omega arith)

  recv_stop :
      (want : ℕ) (got all : List ℕ) (w t : W)
      → length got ≤ want
      → ltb (length got) want ≡ false
      → ◌≡◌ {A = Option (List ℕ) × W} (some got, w) (some all, t)
      → (socket : ℤ) → (length all ≡ want) × (got ++ pending w socket ≡ all ++ pending t socket)
  recv_stop want got all w t h done e socket = ground arith

  recv_loop-takes :
      (rounds : ℕ) (socket : ℤ) (want : ℕ) (got : List ℕ) (w : W) (all : List ℕ) (t : W)
      → length got ≤ want
      → recv_loop rounds socket want got w ≡ (some all, t)
      → (length all ≡ want) × (got ++ pending w socket ≡ all ++ pending t socket)
  unfolding recv_loop
  recv_loop-takes zero socket want got w all t h e = elim (Bool-cases (ltb (length got) want)) [
    | inl more ↦ cc (rw more at e)
    | inr done ↦ recv_stop want got all w t h done (rw done at e) socket
  ]
  recv_loop-takes (suc rounds) socket want got w all t h e =
      elim (Bool-cases (ltb (length got) want)) [
        | inr done ↦ recv_stop want got all w t h done (rw done at e) socket
        | inl more ↦
            let (n, count, rest) = recv_round-eq-some _ _ _ _ all t (rw more at e) in
            let (size, fits) = laws.recv_count w socket (want - length got) (suc n) count in
            let bytes = (os.recv w socket (want - length got)).1 in
            let (total, stream) =
              recv_loop-takes rounds socket want (got ++ bytes) _ all t
                (omega (arith, length-append got bytes)) rest in
            (
              total,
              ap (λ x. got ++ x) (laws.recv_takes w socket _ (suc n) count)
                  ∙ sym (append_assoc got bytes _)
                  ∙ stream,
            )
      ]

  -- When `recv_all` returns 0, it has taken exactly `want` bytes off the front of the stream.
  pub recv_all-takes :
      (socket : ℤ) (want : ℕ) (w : W) (all : List ℕ) (t : W)
      → recv_all socket want w ≡ (some all, t)
      → (length all ≡ want) × (pending w socket ≡ all ++ pending t socket)
  unfolding recv_all
  recv_all-takes socket want w all t e = recv_loop-takes want socket want [] w all t (omega arith) e

  recv_loop-total :
      Responsive os laws
      → (rounds : ℕ) (socket : ℤ) (want : ℕ) (got : List ℕ) (w : W) → want ≤ length got + rounds
      → length got ≤ want
      → want ≤ length got + length (pending w socket)
      → (all : List ℕ) × (t : W) × (recv_loop rounds socket want got w ≡ (some all, t))
  unfolding recv_loop
  recv_loop-total live zero socket want got w h fits enough = (got, w, ground arith)
  recv_loop-total live (suc rounds) socket want got w h fits enough =
      elim (Bool-cases (ltb (length got) want)) [
        | inr done ↦ (got, w, rw done)
        | inl more ↦
            let rem = want - length got in
            let (n, count) = live.recv_some w socket rem (ground arith) (ground arith) in
            let (size, small) = laws.recv_count w socket rem (suc n) count in
            let bytes = (os.recv w socket rem).1 in
            let u = (os.recv w socket rem).2 in
            let split : length (pending w socket) ≡ length bytes + length (pending u socket) =
              ap length (laws.recv_takes w socket rem (suc n) count)
              ∙ length-append bytes (pending u socket) in
            let grown = length-append got bytes in
            let (all, t, rest) =
              recv_loop-total live rounds socket want (got ++ bytes) u (omega arith) (omega arith)
                (omega arith) in
            (all, t, rw (more, count) rest)
      ]

  -- With `want` bytes pending on a socket that keeps up, `recv_all` returns 0, however `recv` cuts the
  -- stream.
  pub recv_all-total :
      Responsive os laws
      → (socket : ℤ) (want : ℕ) (w : W) → want ≤ length (pending w socket)
      → (all : List ℕ) × (t : W) × (recv_all socket want w ≡ (some all, t))
  unfolding recv_all
  recv_all-total live socket want w h =
      recv_loop-total live want socket want [] w (omega arith) (omega arith) (omega arith)
