-- ===== src/Platform/Sodium.antt =====
-- libsodium: the calls that the program makes of it, and what its documentation says of them.
use sencd.Base.{ℕ, ◌+◌, ◌≡◌, Bool, true, Option, some, List, length}

-- The calls that draw random bytes.
pub record Random (W : Type 0) : Type 0 where
  -- `randombytes_buf` of a size.
  pub randombytes : W → ℕ → List ℕ × W
  -- `crypto_sign_keypair` and `crypto_kx_keypair`: the public key, then the secret key.
  pub sign_keypair : W → Option (List ℕ × List ℕ) × W
  pub kx_keypair : W → Option (List ℕ × List ℕ) × W

-- The calls that compute. `none` stands for a result other than 0.
pub record Sodium : Type 0 where
  -- `crypto_sign_detached`: message, secret key. `crypto_sign_verify_detached`: signature,
  -- message, public key; true stands for the result 0.
  pub sign_detached : List ℕ → List ℕ → Option (List ℕ)
  pub verify_detached : List ℕ → List ℕ → List ℕ → Bool
  -- `crypto_kx_server_session_keys` and its client twin: own public, own secret, peer's public
  -- key; the results are the receive key and the transmit key.
  pub kx_server : List ℕ → List ℕ → List ℕ → Option (List ℕ × List ℕ)
  pub kx_client : List ℕ → List ℕ → List ℕ → Option (List ℕ × List ℕ)
  -- `crypto_aead_chacha20poly1305_ietf_encrypt` and `_decrypt` with no additional data: text,
  -- nonce, key.
  pub aead_encrypt : List ℕ → List ℕ → List ℕ → Option (List ℕ)
  pub aead_decrypt : List ℕ → List ℕ → List ℕ → Option (List ℕ)

-- What is documented of key pairs: sizes, that a signature made with the secret key exists and
-- verifies under the public key, and that both sides of an exchange derive the same two keys.
pub record KeyLaws {W : Type 0} (rnd : Random W) (na : Sodium) : Type 0 where
  pub sign_keypair_sizes :
      (w : W) (pk sk : List ℕ)
      → (rnd.sign_keypair w).0 ≡ some (pk, sk)
      → (length pk ≡ 32) × (length sk ≡ 64)
  pub verify-sign :
      (w : W) (pk sk message : List ℕ)
      → (rnd.sign_keypair w).0 ≡ some (pk, sk)
      → (sig : List ℕ) × (na.sign_detached message sk ≡ some sig)
        × (na.verify_detached sig message pk ≡ true)
  pub kx_agree :
      (v w : W) (spk ssk cpk csk : List ℕ)
      → (rnd.kx_keypair v).0 ≡ some (spk, ssk)
      → (rnd.kx_keypair w).0 ≡ some (cpk, csk)
      → (a b : List ℕ) × (na.kx_server spk ssk cpk ≡ some (a, b))
        × (na.kx_client cpk csk spk ≡ some (b, a))

-- The sizes that are documented, and that an exchange key pair is always made.
pub record SizeLaws {W : Type 0} (rnd : Random W) (na : Sodium) : Type 0 where
  pub length-randombytes : (w : W) (n : ℕ) → length (rnd.randombytes w n).0 ≡ n
  pub kx_keypair_some :
      (w : W) → (pk sk : List ℕ) × ((rnd.kx_keypair w).0 ≡ some (pk, sk)) × (length pk ≡ 32)
  pub length-sign_detached :
      (message sk sig : List ℕ)
      → length sk ≡ 64
      → na.sign_detached message sk ≡ some sig
      → length sig ≡ 64

-- The AEAD: encryption succeeds, a ciphertext is its text and a tag of 16 bytes, and decrypts under its nonce and key.
pub record AeadLaws (na : Sodium) : Type 0 where
  pub encrypt_some :
      (text nonce key : List ℕ) → (c : List ℕ) × (na.aead_encrypt text nonce key ≡ some c)
  pub decrypt-encrypt :
      (text nonce key c : List ℕ)
      → na.aead_encrypt text nonce key ≡ some c
      → na.aead_decrypt c nonce key ≡ some text
  pub length-encrypt :
      (text nonce key c : List ℕ)
      → na.aead_encrypt text nonce key ≡ some c
      → length c ≡ length text + 16
  pub length-decrypt :
      (c nonce key text : List ℕ)
      → na.aead_decrypt c nonce key ≡ some text
      → length c ≡ length text + 16
