-- ===== src/Sim/Pair.antt =====
-- The concrete platform with two of its stream sockets connected to each other: 4 is the client's
-- and 5 is the server's. What 5 sends is in the inbox, what 4 sends in the outbox.
use sencd.Base.{
  ◌∙◌, ◌==◌, ℤ, ℕ, ◌≡◌, refl, true, Bool, Option, some, false, List, ◌++◌, arith, length, take,
  drop, pos, negsuc, length-take, sym, ap, take-append-drop, ◌-◌, replicate, length-replicate,
}
use Prim.Native.Nat.{min}
use sencd.Platform.Os.{Os, StreamLaws, Responsive}
use sencd.Platform.Sodium.{SizeLaws}
use sencd.Sim.{World, sim_os, taken, sim_random, sim_sodium}
use sencd.Session.Link.{Linked}

abbrev is_server : ℤ → Bool
is_server (pos n) = n == 5
is_server (negsuc n) = false

abbrev flow : Bool → World → List ℕ
flow true w = w.outbox
flow false w = w.inbox

abbrev with_flow : Bool → World → List ℕ → World
with_flow true w bytes = record w { outbox = bytes }
with_flow false w bytes = record w { inbox = bytes }

abbrev opposite : Bool → Bool
opposite true = false
opposite false = true

abbrev got : Bool → ℕ → World → ℕ
got side want w = min 3 (min want (length (flow side w)))

instance unfoldable pub pair_os : Os World
unfolding sim_os
pair_os = record sim_os {
  send = λ w fd buf. (
    pos (taken buf),
    with_flow (opposite (is_server fd)) w
        (flow (opposite (is_server fd)) w ++ take (taken buf) buf),
  );
  recv = λ w fd want.
      let side = is_server fd in
      (
        pos (got side want w),
        take (got side want w) (flow side w),
        with_flow side w (drop (got side want w) (flow side w)),
      );
}

pub flow_set :
    (side : Bool) (w : World) (bytes : List ℕ) → flow side (with_flow side w bytes) ≡ bytes
flow_set true w bytes = refl
flow_set false w bytes = refl

flow_other :
    (side : Bool) (w : World) (bytes : List ℕ)
    → flow (opposite side) (with_flow side w bytes) ≡ flow (opposite side) w
flow_other true w bytes = refl
flow_other false w bytes = refl

flow_back :
    (side : Bool) (w : World) (bytes : List ℕ)
    → flow side (with_flow (opposite side) w bytes) ≡ flow side w
flow_back true w bytes = refl
flow_back false w bytes = refl

flow_file :
    (side : Bool) (w : World) (file : Option (List ℕ × List ℕ))
    → flow side (record w { file = file }) ≡ flow side w
flow_file true w file = refl
flow_file false w file = refl

unfoldable pub pair_stream : StreamLaws pair_os
unfolding pair_os
pair_stream = record {
  sent = λ w fd. flow (opposite (is_server fd)) w;
  pending = λ w fd. flow (is_server fd) w;
  send_count = λ w fd buf n e. ground arith;
  send_appends = λ w fd buf n e.
      let side = opposite (is_server fd) in
      flow_set side w _ ∙ ap (λ k. flow side w ++ take k buf) (cc e);
  recv_count = λ w fd want n e.
      ground (arith, length-take (got (is_server fd) want w) (flow (is_server fd) w));
  recv_takes = λ w fd want n e.
      let side = is_server fd in
      let k = got side want w in
      sym (
        ap (λ rest. take k (flow side w) ++ rest) (flow_set side w _)
        ∙ take-append-drop k (flow side w));
  malloc_pending = λ w n fd. refl;
  length-padding = λ w. refl;
}

pub pair-Responsive : Responsive pair_os pair_stream
unfolding pair_os pair_stream
pair-Responsive = record {
  send_some = λ w fd buf h. (taken buf - 1, ap pos (omega arith));
  recv_some =
      λ w fd want some_wanted some_pending. (got (is_server fd) want w - 1, ap pos (omega arith));
  malloc_some = λ w n. refl;
}

pub pair-Linked : Linked pair_os sim_random pair_stream (pos 4) (pos 5)
unfolding pair_os pair_stream sim_random
pair-Linked = record {
  near_to_far = λ w. refl;
  far_to_near = λ w. refl;
  send_keeps = λ w fd buf. flow_back (is_server fd) w _;
  recv_keeps = λ w fd n. flow_other (is_server fd) w _;
  malloc_keeps = λ w n fd. refl;
  mkdir_keeps = λ w path fd. refl;
  write_file_keeps = λ w path bytes fd. flow_file (is_server fd) w (some (path, bytes));
  randombytes_keeps = λ w n fd. refl;
  kx_keypair_keeps = λ w fd. refl;
}

pub sim_sizes : SizeLaws sim_random sim_sodium
unfolding sim_random sim_sodium
sim_sizes = record {
  length-randombytes = λ w n. length-replicate n 4;
  kx_keypair_some = λ w. (replicate 32 8, replicate 32 9, refl, refl);
  length-sign_detached = λ message sk sig size e. ground arith;
}
