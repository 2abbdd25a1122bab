-- ===== src/Session/Auth.antt =====
-- src/shared/auth.h: the messages of the handshake, and their bytes in memory. No structure of it
-- has padding; an integer is in the order of the host, which is taken to be little-endian.
use sencd.Base.{
  ℕ, ◌^◌, ◌<◌, ◌≡◌, ap, ◌∙◌, List, ◌++◌, arith, length, take, drop, length-append, take-append,
  drop-append, take_all,
}
use sencd.Base.Bytes.{le_bytes, le_value, length-le_bytes, le_value-le_bytes}

abbrev pub auth_nonce_size : ℕ
auth_nonce_size = 16

abbrev pub session_nonce_size : ℕ
session_nonce_size = 32

pub record AuthChallenge : Type 0 where
  pub signature : List ℕ
  pub public_key : List ℕ
  pub eph_public_key : List ℕ
  pub nonce : List ℕ

pub record AuthResponse : Type 0 where
  pub signature : List ℕ
  pub public_key : List ℕ
  pub eph_public_key : List ℕ

pub record AuthSuccess : Type 0 where
  pub session_nonce : List ℕ
  pub session_id : ℕ

unfoldable pub challenge_bytes : AuthChallenge → List ℕ
challenge_bytes c = c.signature ++ (c.public_key ++ (c.eph_public_key ++ c.nonce))

unfoldable pub parse_challenge : List ℕ → AuthChallenge
parse_challenge b = record {
  signature = take 64 b;
  public_key = take 32 (drop 64 b);
  eph_public_key = take 32 (drop 32 (drop 64 b));
  nonce = take 16 (drop 32 (drop 32 (drop 64 b)));
}

unfoldable pub response_bytes : AuthResponse → List ℕ
response_bytes r = r.signature ++ (r.public_key ++ r.eph_public_key)

unfoldable pub parse_response : List ℕ → AuthResponse
parse_response b = record {
  signature = take 64 b;
  public_key = take 32 (drop 64 b);
  eph_public_key = take 32 (drop 32 (drop 64 b));
}

unfoldable pub success_bytes : AuthSuccess → List ℕ
success_bytes s = s.session_nonce ++ le_bytes 8 s.session_id

unfoldable pub parse_success : List ℕ → AuthSuccess
parse_success b = record { session_nonce = take 32 b; session_id = le_value (take 8 (drop 32 b)) }

-- The sizes of the arrays in the three structures.
pub record ChallengeSized (c : AuthChallenge) : Type 0 where
  pub signature_size : length c.signature ≡ 64
  pub public_key_size : length c.public_key ≡ 32
  pub eph_public_key_size : length c.eph_public_key ≡ 32
  pub nonce_size : length c.nonce ≡ 16

-- The bytes of a challenge whose arrays have their sizes are the 144 that the receiver asks for, and
-- read back as the challenge.
pub parse_challenge-challenge_bytes :
    (c : AuthChallenge)
    → ChallengeSized c
    → (length (challenge_bytes c) ≡ 144) × (parse_challenge (challenge_bytes c) ≡ c)
unfolding challenge_bytes parse_challenge
parse_challenge-challenge_bytes c v =
    let r1 = c.public_key ++ (c.eph_public_key ++ c.nonce) in
    let r2 = c.eph_public_key ++ c.nonce in
    let d1 = drop-append c.signature r1 64 v.signature_size in
    let d2 = ap (λ b. drop 32 b) d1 ∙ drop-append c.public_key r2 32 v.public_key_size in
    let d3 =
      ap (λ b. drop 32 b) d2 ∙ drop-append c.eph_public_key c.nonce 32 v.eph_public_key_size in
    let e1 = take-append c.signature r1 64 v.signature_size in
    let e2 = ap (λ b. take 32 b) d1 ∙ take-append c.public_key r2 32 v.public_key_size in
    let e3 =
      ap (λ b. take 32 b) d2 ∙ take-append c.eph_public_key c.nonce 32 v.eph_public_key_size in
    let e4 = ap (λ b. take 16 b) d3 ∙ take_all c.nonce 16 (omega arith) in
    (
      omega (
        arith,
        length-append c.signature r1,
        length-append c.public_key r2,
        length-append c.eph_public_key c.nonce,
      ),
      λ i. record { signature = e1 i; public_key = e2 i; eph_public_key = e3 i; nonce = e4 i },
    )

-- The sizes of the arrays in a response.
pub record ResponseSized (r : AuthResponse) : Type 0 where
  pub signature_size : length r.signature ≡ 64
  pub public_key_size : length r.public_key ≡ 32
  pub eph_public_key_size : length r.eph_public_key ≡ 32

-- The bytes of a response whose arrays have their sizes are the 128 that the server asks for, and
-- read back as the response.
pub parse_response-response_bytes :
    (r : AuthResponse)
    → ResponseSized r
    → (length (response_bytes r) ≡ 128) × (parse_response (response_bytes r) ≡ r)
unfolding response_bytes parse_response
parse_response-response_bytes r v =
    let r1 = r.public_key ++ r.eph_public_key in
    let d1 = drop-append r.signature r1 64 v.signature_size in
    let d2 =
      ap (λ b. drop 32 b) d1 ∙ drop-append r.public_key r.eph_public_key 32 v.public_key_size in
    let e1 = take-append r.signature r1 64 v.signature_size in
    let e2 =
      ap (λ b. take 32 b) d1 ∙ take-append r.public_key r.eph_public_key 32 v.public_key_size in
    let e3 = ap (λ b. take 32 b) d2 ∙ take_all r.eph_public_key 32 (omega arith) in
    (
      omega (arith, length-append r.signature r1, length-append r.public_key r.eph_public_key),
      λ i. record { signature = e1 i; public_key = e2 i; eph_public_key = e3 i },
    )

-- The bytes of a success message, with a nonce of 32 bytes and a 64-bit number, are the 40 that the
-- client asks for, and read back as the message.
pub parse_success-success_bytes :
    (s : AuthSuccess)
    → length s.session_nonce ≡ 32
    → s.session_id < 2 ^ 64
    → (length (success_bytes s) ≡ 40) × (parse_success (success_bytes s) ≡ s)
unfolding success_bytes parse_success
parse_success-success_bytes s h small =
    let id = le_bytes 8 s.session_id in
    let size = length-le_bytes 8 s.session_id in
    let e1 = take-append s.session_nonce id 32 h in
    let e2 =
      ap (λ b. le_value (take 8 b)) (drop-append s.session_nonce id 32 h)
      ∙ ap le_value (take_all id 8 (omega arith))
      ∙ le_value-le_bytes 8 s.session_id (omega arith) in
    (
      omega (arith, length-append s.session_nonce id),
      λ i. record { session_nonce = e1 i; session_id = e2 i },
    )
