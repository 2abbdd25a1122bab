-- ===== src/Crypto.antt =====
-- src/shared/security/crypto.h and crypto.c: keys, signatures, key exchange, the packet cipher and
-- the key files. A key is the list of its bytes; a C function that fills a context and may fail
-- returns the filled context.
pub mod Nonce
pub mod Identity
use sencd.Base.{
  ℕ, zero, suc, ◌+◌, ◌-◌, ◌^◌, ◌≤◌, ◌<◌, ◌≡◌, Bool, true, false, ◌&&◌, ◌||◌, not, Option, none,
  some, List, [], ◌∷◌, ◌++◌, ltb, leb, ◌==◌, if◌then◌else◌, length, take, drop, replicate,
}
use sencd.Base.Bytes.{be_bytes}
use sencd.Base.Control.{M, ◌>>=◌, ◌>>◌, pure, fail, guard, get, modify, or_fail, or_else}
use sencd.Platform.Os.{Os}
use sencd.Platform.Sodium.{Random, Sodium}

abbrev pub crypto_public_key_size : ℕ
crypto_public_key_size = 32

abbrev pub crypto_private_key_size : ℕ
crypto_private_key_size = 64

abbrev pub crypto_session_key_size : ℕ
crypto_session_key_size = 32

abbrev pub crypto_signature_size : ℕ
crypto_signature_size = 64

-- crypto_kx_PUBLICKEYBYTES and crypto_kx_SECRETKEYBYTES of libsodium.
abbrev pub kx_public_key_size : ℕ
kx_public_key_size = 32

-- crypto_aead_chacha20poly1305_ietf_ABYTES and _NPUBBYTES of libsodium.
abbrev pub tunnel_aead_tag_size : ℕ
tunnel_aead_tag_size = 16

abbrev pub aead_nonce_size : ℕ
aead_nonce_size = 12

pub record CryptoContext : Type 0 where
  pub private_key : List ℕ
  pub eph_private_key : List ℕ
  pub public_key : List ℕ
  pub peer_public_key : List ℕ
  pub tx_key : List ℕ
  pub rx_key : List ℕ
  pub eph_public_key : List ℕ
  pub tx_nonce : ℕ
  pub rx_nonce : ℕ
  pub verified : ℕ

-- `memset(ctx, 0, sizeof(*ctx))`.
unfoldable pub crypto_context_init : CryptoContext
crypto_context_init = record {
  private_key = replicate 64 0;
  eph_private_key = replicate 32 0;
  public_key = replicate 32 0;
  peer_public_key = replicate 32 0;
  tx_key = replicate 32 0;
  rx_key = replicate 32 0;
  eph_public_key = replicate 32 0;
  tx_nonce = 0;
  rx_nonce = 0;
  verified = 0;
}

-- The name of the directory below the home directory: ".sencd-config".
abbrev pub config_dirname : List ℕ
config_dirname =
    b'.' ∷ b's' ∷ b'e' ∷ b'n' ∷ b'c' ∷ b'd' ∷ b'-' ∷ b'c' ∷ b'o' ∷ b'n' ∷ b'f' ∷ b'i' ∷ b'g' ∷ []

abbrev pub path_max : ℕ
path_max = 4096

-- "sencd-identity-check" with its final null byte.
abbrev pub identity_probe : List ℕ
identity_probe =
    b's' ∷ b'e' ∷ b'n' ∷ b'c' ∷ b'd' ∷ b'-' ∷ b'i' ∷ b'd' ∷ b'e' ∷ b'n' ∷ b't' ∷ b'i' ∷ b't' ∷ b'y'
    ∷ b'-' ∷ b'c' ∷ b'h' ∷ b'e' ∷ b'c' ∷ b'k' ∷ 0 ∷ []

-- The 12 bytes of the nonce: zeros, and in the last eight places the counter.
unfoldable pub crypto_build_nonce : ℕ → List ℕ
crypto_build_nonce counter = replicate (aead_nonce_size - 8) 0 ++ be_bytes 8 counter

module _ {W : Type 0} ⦃rnd : Random W⦄ where
  unfoldable pub crypto_generate_nonce : ℕ → M W (List ℕ)
  crypto_generate_nonce size w = let (bytes, w') = rnd.randombytes w size in (some bytes, w')

  unfoldable pub crypto_generate_identity : CryptoContext → M W CryptoContext
  crypto_generate_identity ctx = do
    (pk, sk) ← rnd.sign_keypair
    pure (record ctx { public_key = pk; private_key = sk })

  unfoldable pub crypto_generate_ephemeral : CryptoContext → M W CryptoContext
  crypto_generate_ephemeral ctx = do
    (pk, sk) ← rnd.kx_keypair
    pure (record ctx { eph_public_key = pk; eph_private_key = sk })

module _ ⦃na : Sodium⦄ where
  unfoldable pub crypto_sign_message : CryptoContext → List ℕ → Option (List ℕ)
  crypto_sign_message ctx message = na.sign_detached message ctx.private_key

  -- True is the result 0.
  unfoldable pub crypto_verify_message : List ℕ → List ℕ → List ℕ → Bool
  crypto_verify_message public_key message signature =
      na.verify_detached signature message public_key

  -- The two derived keys, receive key first, put into a context.
  abbrev with_session_keys : CryptoContext → Option (List ℕ × List ℕ) → Option CryptoContext
  with_session_keys ctx none = none
  with_session_keys ctx (some (rx, tx)) = some (record ctx { rx_key = rx; tx_key = tx })

  unfoldable pub crypto_derive_server_keys : CryptoContext → List ℕ → Option CryptoContext
  crypto_derive_server_keys ctx client_eph_pub =
      with_session_keys ctx (na.kx_server ctx.eph_public_key ctx.eph_private_key client_eph_pub)

  unfoldable pub crypto_derive_client_keys : CryptoContext → List ℕ → Option CryptoContext
  crypto_derive_client_keys ctx server_eph_pub =
      with_session_keys ctx (na.kx_client ctx.eph_public_key ctx.eph_private_key server_eph_pub)

  unfoldable pub crypto_encrypt_packet : CryptoContext → ℕ → List ℕ → Option (List ℕ)
  crypto_encrypt_packet ctx counter plaintext =
      na.aead_encrypt plaintext (crypto_build_nonce counter) ctx.tx_key

  unfoldable pub crypto_decrypt_packet : CryptoContext → ℕ → List ℕ → Option (List ℕ)
  crypto_decrypt_packet ctx counter ciphertext =
      na.aead_decrypt ciphertext (crypto_build_nonce counter) ctx.rx_key

  -- The check of a loaded identity: it signs a probe, and the signature verifies.
  unfoldable pub identity_checks : CryptoContext → Bool
  unfolding crypto_sign_message crypto_verify_message
  identity_checks ctx = elim (crypto_sign_message ctx identity_probe) [
    | none ↦ false
    | some sig ↦ crypto_verify_message ctx.public_key identity_probe sig
  ]

-- The first half of `crypto_identity_load_or_create`: the context read from the file's bytes.
unfoldable pub read_identity : CryptoContext → List ℕ → Option CryptoContext
read_identity ctx bytes =
    let pub_key = take crypto_public_key_size bytes in
    let priv_key = take crypto_private_key_size (drop crypto_public_key_size bytes) in
    if length pub_key == crypto_public_key_size && length priv_key == crypto_private_key_size
    then some (record ctx { public_key = pub_key; private_key = priv_key })
    else none

module _ ⦃na : Sodium⦄ where
  -- The identity that the file holds, if there is a file, it is long enough and it checks.
  unfoldable pub load_identity : CryptoContext → Option (List ℕ) → Option CryptoContext
  load_identity ctx none = none
  load_identity ctx (some bytes) = elim (read_identity ctx bytes) [
    | none ↦ none
    | some loaded ↦ if identity_checks loaded then some loaded else none
  ]

-- `snprintf(out, size, "%s/%s", a, b)`: what it writes, unless that and the null byte do not fit.
unfoldable pub join_path : List ℕ → List ℕ → ℕ → Option (List ℕ)
join_path a b size = let path = a ++ b'/' ∷ b in if ltb (length path) size then some path else none

module _ {W : Type 0} ⦃os : Os W⦄ where
  unfoldable pub crypto_trust_key_load : List ℕ → W → Option (List ℕ)
  crypto_trust_key_load path w = elim (os.read_file w path) [
    | none ↦ none
    | some bytes ↦
        let key = take crypto_public_key_size bytes in
        if length key == crypto_public_key_size then some key else none
  ]

  -- `fopen(path, "wb")`, `fwrite`, `fclose`, `chmod`.
  unfoldable pub save : List ℕ → List ℕ → M W (Unit {0})
  save path bytes w = let (opened, w') = os.write_file w path bytes in guard opened w'

  unfoldable pub crypto_trust_key_save : List ℕ → List ℕ → M W (Unit {0})
  unfolding save
  crypto_trust_key_save path key = save path key

  -- `getenv("HOME")`, or the password entry's directory where that is missing or empty.
  unfoldable pub home_dir : W → Option (List ℕ)
  home_dir w = elim (os.home w) [
    | none ↦ os.passwd_dir w
    | some [] ↦ os.passwd_dir w
    | some h ↦ some h
  ]

  unfoldable pub crypto_config_path : List ℕ → ℕ → M W (List ℕ)
  unfolding home_dir
  crypto_config_path filename out_size = do
    w ← get
    home ← or_fail (home_dir w)
    dir ← or_fail (join_path home config_dirname path_max)
    made ← (λ v. let (made, v') = os.mkdir v dir in (some made, v'))
    guard made
    or_fail (join_path dir filename out_size)

  module _ ⦃rnd : Random W⦄ ⦃na : Sodium⦄ where
    -- The file's identity if it checks; otherwise a new one, which is written to the file.
    unfoldable pub crypto_identity_load_or_create : CryptoContext → List ℕ → M W CryptoContext
    crypto_identity_load_or_create ctx path = do
      w ← get
      let create = do
        created ← crypto_generate_identity ctx
        save path (created.public_key ++ created.private_key)
        pure created
      or_else (load_identity ctx (os.read_file w path)) create
