-- ===== src/Sim.antt =====
-- A small concrete platform on which the modelled code runs: a stream socket that moves a few bytes
-- at a call, a disk with one file, a TUN device, and stand-ins for libsodium and zstd that keep the
-- documented laws.
pub mod Pair
pub mod Keyboard
pub mod Wire
pub mod Calls
use sencd.Base.{
  Bool, ltb, ◌==◌, not, ◌||◌, ℤ, suc, ℕ, ◌+◌, ◌-◌, ◌≤◌, ◌≡◌, refl, true, ◌&&◌, Option, none, some,
  List, [], ◌∷◌, ◌++◌, arith, leb, if◌then◌else◌, bytes_eq, bytes_eq_self, length, take, drop,
  replicate, pos, negsuc, length-append, length-take, take-append, drop-append, take-append-drop,
  ◌∙◌, sym, ap,
}
use Prim.Native.Nat.{min}
use sencd.Platform.Os.{Os, SockAddr, StreamLaws, Responsive, FileLaws, DescriptorLaws}
use sencd.Platform.Sodium.{Random, Sodium, KeyLaws, AeadLaws}
use sencd.Platform.Zstd.{Zstd, ZstdLaws}

pub record World : Type 0 where
  pub inbox : List ℕ
  pub outbox : List ℕ
  pub file : Option (List ℕ × List ℕ)
  pub device : List (List ℕ)
  pub wire : List (List ℕ)
  pub next : ℕ
  pub closed : ℕ → Bool

abbrev pub nobody : SockAddr
nobody = record { addr = 0; port = 0 }

-- At most three bytes at a time.
abbrev received : ℕ → World → ℕ
received want w = min 3 (min want (length w.inbox))

-- At most five bytes at a time.
abbrev pub taken : List ℕ → ℕ
taken buf = min 5 (length buf)

abbrev file_at : Option (List ℕ × List ℕ) → List ℕ → Option (List ℕ)
file_at none path = none
file_at (some (name, bytes)) path = if bytes_eq name path then some bytes else none

abbrev close_in : World → ℤ → World
close_in w (pos n) = record w { closed = λ k. k == n || w.closed k }
close_in w (negsuc n) = w

instance unfoldable pub sim_os : Os World
sim_os = record {
  malloc = λ w n. (true, w);
  padding = λ w. 0 ∷ 0 ∷ [];
  send = λ w fd buf. (pos (taken buf), record w { outbox = w.outbox ++ take (taken buf) buf });
  recv = λ w fd want. (
    pos (received want w),
    take (received want w) w.inbox,
    record w { inbox = drop (received want w) w.inbox },
  );
  socket = λ w stream.
      (pos w.next, record w { next = suc w.next; closed = λ k. not (k == w.next) && w.closed k });
  close = close_in;
  set_reuse_addr = λ w fd. (pos 0, w);
  bind = λ w fd port. (pos 0, w);
  listen = λ w fd. (pos 0, w);
  connect = λ w fd a. (pos 0, w);
  accept = λ w fd. (
    pos w.next,
    nobody,
    record w { next = suc w.next; closed = λ k. not (k == w.next) && w.closed k },
  );
  inet_pton = λ text. some 1;
  inet_ntop = λ a size. some (b'1' ∷ []);
  recvfrom = λ w fd n. (negsuc 0, [], nobody, w);
  sendto = λ w fd bytes a. record w { wire = bytes ∷ w.wire };
  read = λ w fd n. (negsuc 0, [], w);
  write = λ w fd bytes. record w { device = bytes ∷ w.device };
  read_file = λ w path. file_at w.file path;
  write_file = λ w path bytes. (true, record w { file = some (path, bytes) });
  home = λ w. some (b'/' ∷ []);
  passwd_dir = λ w. none;
  mkdir = λ w path. (true, w);
}

unfoldable pub sim_stream : StreamLaws sim_os
unfolding sim_os
sim_stream = record {
  sent = λ w fd. w.outbox;
  pending = λ w fd. w.inbox;
  send_count = λ w fd buf n e. ground arith;
  send_appends = λ w fd buf n e. ground arith;
  recv_count = λ w fd want n e. ground (arith, length-take (received want w) w.inbox);
  recv_takes = λ w fd want n e. sym (take-append-drop (received want w) w.inbox);
  malloc_pending = λ w n fd. refl;
  length-padding = λ w. refl;
}

pub sim-Responsive : Responsive sim_os sim_stream
unfolding sim_os sim_stream
sim-Responsive = record {
  send_some = λ w fd buf h. (taken buf - 1, ap pos (omega arith));
  recv_some = λ w fd want some_wanted some_pending. (received want w - 1, ap pos (omega arith));
  malloc_some = λ w n. refl;
}

unfoldable pub sim_descriptors : DescriptorLaws sim_os
unfolding sim_os
sim_descriptors = record {
  is_open = λ w k. ltb k w.next && not (w.closed k);
  socket_fresh = λ w stream n e. ground arith;
  socket_opens = λ w stream n k e. ground arith;
  socket_fails = λ w stream n k e. cc e;
  close_frees = λ w n k. ground arith;
  set_reuse_addr_keeps = λ w fd k. refl;
  bind_keeps = λ w fd port k. refl;
  listen_keeps = λ w fd k. refl;
  connect_keeps = λ w fd a k. refl;
}

pub sim_files : FileLaws sim_os
unfolding sim_os
sim_files = record { read-write = λ w path bytes e. ground (arith, bytes_eq_self path) }

instance unfoldable pub sim_random : Random World
sim_random = record {
  randombytes = λ w n. (replicate n 4, w);
  sign_keypair = λ w. (some (replicate 32 7, replicate 64 7), w);
  kx_keypair = λ w. (some (replicate 32 8, replicate 32 9), w);
}

-- The tag of every ciphertext.
abbrev pub tag : List ℕ
tag = replicate 16 1

-- A signature is the secret key, which begins with the public one.
instance unfoldable pub sim_sodium : Sodium
sim_sodium = record {
  sign_detached = λ message sk. some sk;
  verify_detached = λ sig message pk. bytes_eq (take 32 sig) pk;
  kx_server = λ pk sk peer. some (replicate 32 1, replicate 32 2);
  kx_client = λ pk sk peer. some (replicate 32 2, replicate 32 1);
  aead_encrypt = λ text nonce key. some (text ++ tag);
  aead_decrypt = λ c nonce key.
      let n = length c - 16 in
      if leb 16 (length c) && bytes_eq (drop n c) tag then some (take n c) else none;
}

signed :
    (pk sk : List ℕ) → replicate 32 7 ≡ pk → replicate 64 7 ≡ sk → bytes_eq (take 32 sk) pk ≡ true
signed pk sk hp hs = rw (← hp, ← hs) (bytes_eq_self (replicate 32 7))

pub sim_keys : KeyLaws sim_random sim_sodium
unfolding sim_random sim_sodium
sim_keys = record {
  sign_keypair_sizes = λ w pk sk e. ground arith;
  verify-sign = λ w pk sk message e. (sk, refl, signed pk sk (ground arith) (ground arith));
  kx_agree = λ v w spk ssk cpk csk e f. (replicate 32 1, replicate 32 2, refl, refl);
}

untagged :
    (text : List ℕ)
    → let c = text ++ tag in
      (16 ≤ length c)
      × (take (length c - 16) c ≡ text)
      × (bytes_eq (drop (length c - 16) c) tag ≡ true)
untagged text =
    let size = length-append text tag in
    let cut : length text ≡ length (text ++ tag) - 16 = omega (arith, size) in
    (
      omega (arith, size),
      take-append text tag _ cut,
      ap (λ b. bytes_eq b tag) (drop-append text tag _ cut) ∙ bytes_eq_self tag,
    )

pub sim_aead : AeadLaws sim_sodium
unfolding sim_sodium
sim_aead = record {
  encrypt_some = λ text nonce key. (text ++ tag, refl);
  decrypt-encrypt = λ text nonce key c e. ground (arith, untagged text);
  length-encrypt = λ text nonce key c e. ground (arith, length-append text tag);
  length-decrypt = λ c nonce key text e. ground (arith, length-take (length c - 16) c);
}

-- A packet is its own compressed form.
abbrev within : ℕ → List ℕ → Option (List ℕ)
within cap bytes = if leb (length bytes) cap then some bytes else none

instance unfoldable pub sim_zstd : Zstd
sim_zstd = record { compress_bound = λ n. n + 8; compress = within; decompress = within }

pub sim_zstd_laws : ZstdLaws sim_zstd
unfolding sim_zstd
sim_zstd_laws = record {
  decompress-compress = λ cap room raw c e h. ground arith;
  compress_fits = λ cap raw c e. ground arith;
  decompress_fits = λ cap src raw e. ground arith;
}
