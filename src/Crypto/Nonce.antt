-- ===== src/Crypto/Nonce.antt =====
-- The nonces, the packet cipher and the key exchange of src/shared/security/crypto.c.
use sencd.Base.{ℕ, ◌^◌, ◌<◌, ◌≡◌, refl, some, List, arith, append_injective, replicate}
use sencd.Base.Bytes.{be_bytes, be_bytes-injective}
use sencd.Platform.Sodium.{Random, Sodium, KeyLaws, AeadLaws}
use sencd.Crypto.{
  CryptoContext, crypto_build_nonce, crypto_generate_ephemeral, crypto_derive_server_keys,
  crypto_derive_client_keys, crypto_encrypt_packet, crypto_decrypt_packet,
}

-- Two 64-bit counters never share a nonce.
pub crypto_build_nonce-injective :
    (a b : ℕ) → a < 2 ^ 64 → b < 2 ^ 64 → crypto_build_nonce a ≡ crypto_build_nonce b → a ≡ b
unfolding crypto_build_nonce
crypto_build_nonce-injective a b ha hb e =
    be_bytes-injective 8 a b (omega arith) (omega arith)
      (append_injective (replicate 4 0) (be_bytes 8 a) (replicate 4 0) (be_bytes 8 b) refl e).1

module _ ⦃na : Sodium⦄ (laws : AeadLaws na) where
  -- What one context encrypts under a counter, a context that receives with its key decrypts under
  -- that counter.
  pub crypto_decrypt-encrypt :
      (sender receiver : CryptoContext) (counter : ℕ) (text c : List ℕ)
      → receiver.rx_key ≡ sender.tx_key
      → crypto_encrypt_packet sender counter text ≡ some c
      → crypto_decrypt_packet receiver counter c ≡ some text
  unfolding crypto_encrypt_packet crypto_decrypt_packet
  crypto_decrypt-encrypt sender receiver counter text c keys e =
      rw keys (laws.decrypt-encrypt text (crypto_build_nonce counter) sender.tx_key c e)

module _ {W : Type 0} ⦃rnd : Random W⦄ ⦃na : Sodium⦄ (laws : KeyLaws rnd na) where
  ephemeral_drawn :
      (ctx done : CryptoContext) (w t : W)
      → crypto_generate_ephemeral ctx w ≡ (some done, t)
      → (rnd.kx_keypair w).0 ≡ some (done.eph_public_key, done.eph_private_key)
  unfolding crypto_generate_ephemeral
  ephemeral_drawn ctx done w t e = ground arith

  -- When both ends have drawn an ephemeral pair and each derives its keys from the other's public
  -- key, both derivations succeed, and each end receives with the key that the other sends with.
  pub session_keys_agree :
      (server server' client client' : CryptoContext) (v v' w w' : W)
      → crypto_generate_ephemeral server v ≡ (some server', v')
      → crypto_generate_ephemeral client w ≡ (some client', w')
      → (s c : CryptoContext) × (crypto_derive_server_keys server' client'.eph_public_key ≡ some s)
        × (crypto_derive_client_keys client' server'.eph_public_key ≡ some c)
        × (s.rx_key ≡ c.tx_key)
        × (c.rx_key ≡ s.tx_key)
  unfolding crypto_derive_server_keys crypto_derive_client_keys
  session_keys_agree server server' client client' v v' w w' e f =
      let (a, b, hs, hc) =
        laws.kx_agree v w server'.eph_public_key server'.eph_private_key client'.eph_public_key
          client'.eph_private_key (ephemeral_drawn server server' v v' e)
          (ephemeral_drawn client client' w w' f) in
      (
        record server' { rx_key = a; tx_key = b },
        record client' { rx_key = b; tx_key = a },
        rw hs,
        rw hc,
        refl,
        refl,
      )
