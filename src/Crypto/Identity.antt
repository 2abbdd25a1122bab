-- ===== src/Crypto/Identity.antt =====
-- The key files of src/shared/security/crypto.c: the long-term identity and the trusted key.
use sencd.Base.{
  ℕ, ◌≡◌, refl, sym, ap, ◌∙◌, inl, inr, true, Option, some, none, List, ◌++◌, arith, take, drop,
  length, take-append, drop-append, take_all, Option-cases,
}
use sencd.Base.Control.{then_with-eq-some, guard-eq-some, pure-eq-some}
use sencd.Platform.Os.{Os, FileLaws}
use sencd.Platform.Sodium.{Random, Sodium, KeyLaws}
use sencd.Crypto.{
  CryptoContext, crypto_generate_identity, identity_checks, identity_probe, read_identity,
  load_identity, crypto_trust_key_load, crypto_trust_key_save, save, crypto_identity_load_or_create,
}

module _ {W : Type 0} ⦃os : Os W⦄ (disk : FileLaws os) where
  -- A trusted key of 32 bytes that was saved, on a disk that keeps what was written, is the one that a
  -- later run loads.
  pub crypto_trust_key_load-save :
      (path key : List ℕ) (w t : W)
      → length key ≡ 32
      → crypto_trust_key_save path key w ≡ (some tt, t)
      → crypto_trust_key_load path t ≡ some key
  unfolding crypto_trust_key_load crypto_trust_key_save
  crypto_trust_key_load-save path key w t size e =
      ground (arith, disk.read-write w path key, take_all key 32)

-- A file that holds the two keys one after the other is read as these keys.
read_identity-append :
    (ctx : CryptoContext) (pk sk : List ℕ)
    → length pk ≡ 32
    → length sk ≡ 64
    → read_identity ctx (pk ++ sk) ≡ some (record ctx { public_key = pk; private_key = sk })
unfolding read_identity
read_identity-append ctx pk sk hp hs =
    rw (take-append pk sk 32 hp, drop-append pk sk 32 hp, take_all sk 64 (omega arith), hp, hs)

module _ {W : Type 0} ⦃os : Os W⦄ ⦃rnd : Random W⦄ ⦃na : Sodium⦄ (keys : KeyLaws rnd na) where
  generated_checks :
      (ctx made : CryptoContext) (w t : W)
      → crypto_generate_identity ctx w ≡ (some made, t)
      → (length made.public_key ≡ 32)
        × (length made.private_key ≡ 64)
        × (made ≡ record ctx { public_key = made.public_key; private_key = made.private_key })
        × (identity_checks made ≡ true)
  unfolding crypto_generate_identity identity_checks
  generated_checks ctx made w t e =
      let drawn : (rnd.sign_keypair w).0 ≡ some (made.public_key, made.private_key) =
        ground arith in
      let (hp, hs) = keys.sign_keypair_sizes w made.public_key made.private_key drawn in
      let (sig, signed, verified) =
        keys.verify-sign w made.public_key made.private_key identity_probe drawn in
      (hp, hs, ground arith, ground arith)

  identity_checks-other :
      (ctx other : CryptoContext) (pk sk : List ℕ)
      → identity_checks (record other { public_key = pk; private_key = sk })
        ≡ identity_checks (record ctx { public_key = pk; private_key = sk })
  unfolding identity_checks
  identity_checks-other ctx other pk sk = refl

  -- A context with other fields reads the same keys from the same file.
  load_identity-other :
      (ctx other made : CryptoContext) (file : Option (List ℕ))
      → load_identity ctx file ≡ some made
      → (load_identity other file
          ≡ some (record other { public_key = made.public_key; private_key = made.private_key }))
        × (identity_checks made ≡ true)
  unfolding load_identity read_identity
  load_identity-other ctx other made none e = cc
  load_identity-other ctx other made (some bytes) e =
      ground (arith, identity_checks-other ctx other (take 32 bytes) (take 64 (drop 32 bytes)))

  load_identity-append :
      (ctx : CryptoContext) (pk sk : List ℕ)
      → length pk ≡ 32
      → length sk ≡ 64
      → identity_checks (record ctx { public_key = pk; private_key = sk }) ≡ true
      → load_identity ctx (some (pk ++ sk))
        ≡ some (record ctx { public_key = pk; private_key = sk })
  unfolding load_identity
  load_identity-append ctx pk sk hp hs checks = ground (arith, read_identity-append ctx pk sk)

  loaded_again :
      (other made : CryptoContext) (path : List ℕ) (t : W)
      → load_identity other (os.read_file t path)
        ≡ some (record other { public_key = made.public_key; private_key = made.private_key })
      → crypto_identity_load_or_create other path t
        ≡ (some (record other { public_key = made.public_key; private_key = made.private_key }), t)
  unfolding crypto_identity_load_or_create
  loaded_again other made path t e = rw e

  -- On a disk that keeps what was written, and with key pairs as libsodium documents them,
  -- `crypto_identity_load_or_create` returns an identity that checks, and when it is called again in
  -- the world that it left, it returns the same two keys from the file and changes nothing: an
  -- identity lasts, whether it was loaded or created, and whatever the file held before.
  pub crypto_identity_load_or_create-again :
      FileLaws os
      → (ctx other made : CryptoContext) (path : List ℕ) (w t : W)
      → crypto_identity_load_or_create ctx path w ≡ (some made, t)
      → (identity_checks made ≡ true)
        × (crypto_identity_load_or_create other path t ≡ (
          some (record other { public_key = made.public_key; private_key = made.private_key }),
          t,
        ))
  unfolding crypto_identity_load_or_create save
  crypto_identity_load_or_create-again disk ctx other made path w t e =
      elim (Option-cases (load_identity ctx (os.read_file w path))) [
        | inr (found, h) ↦
            let (same, stay) = pure-eq-some found made w t (rw h at e) in
            let (reload, checks) = load_identity-other ctx other found (os.read_file w path) h in
            rw (← same, ← stay) (checks, loaded_again other found path w reload)
        | inl h ↦
            let (created, u, drawn, rest) =
              then_with-eq-some (crypto_generate_identity ctx w) _ (rw h at e) in
            let file = created.public_key ++ created.private_key in
            let (opened, rest) = guard-eq-some (os.write_file u path file).0 _ _ rest in
            let (same, stay) = pure-eq-some created made _ t rest in
            let (hp, hs, shape, checks) = generated_checks ctx created w u drawn in
            let reload = load_identity-append other created.public_key created.private_key hp hs (
              identity_checks-other ctx other created.public_key created.private_key
              ∙ ap (λ c. identity_checks c) (sym shape)
              ∙ checks) in
            rw (← same, ← stay)
              (
                checks,
                loaded_again other created path _
                    (ap (λ f. load_identity other f) (disk.read-write u path file opened) ∙ reload),
              )
      ]
