-- ===== src/Examples/Keys.antt =====
-- Keys and key files of src/shared/security/crypto.c.
use sencd.Base.{false, ℕ, ◌≡◌, refl, true, none, some, List, [], ◌∷◌, ◌++◌, replicate, ◌+◌}
use sencd.Sim.{World, sim_os, sim_files, sim_random, sim_sodium, sim_keys}
use sencd.Crypto.{
  CryptoContext, crypto_context_init, crypto_generate_ephemeral, crypto_generate_identity,
  crypto_trust_key_save, crypto_identity_load_or_create, identity_checks, load_identity, save,
}
use sencd.Crypto.Identity.{crypto_identity_load_or_create-again}

abbrev blank : World
blank = record {
  inbox = [];
  outbox = [];
  file = none;
  device = [];
  wire = [];
  next = 3;
  closed = λ k. false;
}

abbrev first : ℕ
first = 5

abbrev second : ℕ
second = 2 + 3

abbrev with_ephemeral : CryptoContext
with_ephemeral = record crypto_context_init {
  eph_public_key = replicate 32 8;
  eph_private_key = replicate 32 9;
}

drawn : crypto_generate_ephemeral crypto_context_init blank ≡ (some with_ephemeral, blank)
unfolding crypto_generate_ephemeral sim_random
drawn = refl

abbrev key_path : List ℕ
key_path = b'k' ∷ []

abbrev key : List ℕ
key = replicate 32 3

key_saved :
    crypto_trust_key_save key_path key blank
    ≡ (some tt, record blank { file = some (key_path, key) })
unfolding crypto_trust_key_save save sim_os
key_saved = refl

abbrev identity : CryptoContext
identity = record crypto_context_init { public_key = replicate 32 7; private_key = replicate 64 7 }

abbrev identified : World
identified = record blank { file = some (key_path, replicate 32 7 ++ replicate 64 7) }

created :
    crypto_identity_load_or_create crypto_context_init key_path blank ≡ (some identity, identified)
unfolding crypto_identity_load_or_create load_identity crypto_generate_identity save sim_os
    sim_random
created = refl

crypto_identity_load_or_create-again_example :
    (identity_checks identity ≡ true)
    × (crypto_identity_load_or_create crypto_context_init key_path identified ≡ (
      some (record crypto_context_init {
        public_key = identity.public_key;
        private_key = identity.private_key;
      }),
      identified,
    ))
crypto_identity_load_or_create-again_example =
    crypto_identity_load_or_create-again sim_keys sim_files crypto_context_init crypto_context_init
      identity key_path blank identified created
