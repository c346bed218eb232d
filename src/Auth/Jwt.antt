-- ===== src/Auth/Jwt.antt =====
-- roboserver/auth/jwt.go and user_jwt.go: HS256 tokens of robot sessions and of users. HMAC, base64
-- and JSON are parameters; the assembly, the split and the checks are written out. The two files
-- repeat each other but for the type of the claims, so the steps they share are written once.
pub mod Tokens
use robomesh.Prelude.{
  ℕ, ◌+◌, Bool, true, false, not, Option, none, some, ◌++◌, ◌∷◌, ◌≡◌, Text, codes, text_eq, leb,
  ltb, if◌then◌else◌,
}
use robomesh.Prelude.Bytes.{is_empty, split3, contains}
use robomesh.Prelude.Int.{ℤ, pos, leb_ℤ, int64_of_bits}
use robomesh.Prelude.Results.{Result, ok, err, ◌>>=◌, ◌>>◌, guard, or_fail}
use robomesh.Database.Client.{Codec}

pub record JwtHeader : Type 0 where
  pub alg : Text
  pub typ : Text

pub record JwtClaims : Type 0 where
  pub sub : Text
  pub device_type : Text
  pub ip : Text
  pub iat : ℤ
  pub exp : ℤ
  pub session_id : Text

pub record UserJwtClaims : Type 0 where
  pub sub : Text
  pub iat : ℤ
  pub exp : ℤ
  pub token_id : Text

pub data JwtError : Type 0 where
  not_configured marshal_failed random_failed token_invalid token_expired : JwtError

-- crypto/hmac with SHA-256, the raw URL encoding of encoding/base64, and encoding/json.
pub record JwtLib : Type 0 where
  pub hmac_sha256 : Text → Text → Text
  pub b64_encode : Text → Text
  pub b64_decode : Text → Option Text
  pub header_codec : Codec JwtHeader
  pub claims_codec : Codec JwtClaims
  pub user_claims_codec : Codec UserJwtClaims

pub record JwtConfig : Type 0 where
  pub jwt_secret : Text
  pub jwt_expiry : ℕ

-- base64 decodes what it encoded, and its alphabet has no dot.
pub record JwtLibLaws (lib : JwtLib) : Type 0 where
  pub b64_round_trip : (t : Text) → lib.b64_decode (lib.b64_encode t) ≡ some t
  pub b64_no_dot : (t : Text) → contains b'.' (lib.b64_encode t) ≡ false

module _ (lib : JwtLib) where
  unfoldable pub sign_hs256 : Text → Text → Text
  sign_hs256 input secret = lib.b64_encode (lib.hmac_sha256 secret input)

  -- From the header to the signature.
  unfoldable pub sign_token : {C : Type 0} → Codec C → Text → C → Result JwtError Text
  unfolding sign_hs256
  sign_token codec secret claims = do
    header_json ← or_fail (lib.header_codec.marshal header) marshal_failed
    claims_json ← or_fail (codec.marshal claims) marshal_failed
    let signing_input = lib.b64_encode header_json ++ b'.' ∷ lib.b64_encode claims_json
    ok (signing_input ++ b'.' ∷ sign_hs256 signing_input secret)
    where
      header : JwtHeader
      header = record { alg = codes "HS256"; typ = codes "JWT" }

  -- From the split to the expiry: `now` is time.Now().Unix().
  unfoldable pub check_token :
      {C : Type 0} → Codec C → (C → ℤ) → Text → ℕ → Text → Result JwtError C
  unfolding sign_hs256
  check_token codec exp_of secret now token = do
    (head, body, sig) ← or_fail (split3 b'.' token) token_invalid
    guard (text_eq sig (sign_hs256 (head ++ b'.' ∷ body) secret)) token_invalid
    claims_json ← or_fail (lib.b64_decode body) token_invalid
    claims ← or_fail (codec.unmarshal claims_json) token_invalid
    guard (leb_ℤ (pos now) (exp_of claims)) token_expired
    ok claims

  module _ (cfg : JwtConfig) where
    -- now + int64(JWTExpiry)
    unfoldable pub expiry : ℕ → ℤ
    expiry now = int64_of_bits (now + cfg.jwt_expiry)

    unfoldable pub session_claims : Text → Text → Text → Text → ℕ → JwtClaims
    unfolding expiry
    session_claims uuid device_type ip session_id now = record {
      sub = uuid;
      device_type = device_type;
      ip = ip;
      iat = pos now;
      exp = expiry now;
      session_id = session_id;
    }

    unfoldable pub issue_session_jwt : Text → Text → Text → Text → ℕ → Result JwtError Text
    unfolding sign_token session_claims
    issue_session_jwt uuid device_type ip session_id now = do
      guard (not (is_empty cfg.jwt_secret)) not_configured
      sign_token lib.claims_codec cfg.jwt_secret (session_claims uuid device_type ip session_id now)

    unfoldable pub validate_session_jwt : ℕ → Text → Result JwtError JwtClaims
    unfolding check_token
    validate_session_jwt now token = do
      guard (not (is_empty cfg.jwt_secret)) not_configured
      check_token lib.claims_codec (λ c. c.exp) cfg.jwt_secret now token

    unfoldable pub user_claims : Text → Text → ℕ → UserJwtClaims
    unfolding expiry
    user_claims username token_id now = record {
      sub = username;
      iat = pos now;
      exp = expiry now;
      token_id = token_id;
    }

    -- `random` is the token id, the hexadecimal form of what rand.Read gave, or its failure.
    unfoldable pub issue_user_jwt : Text → Option Text → ℕ → Result JwtError Text
    unfolding sign_token user_claims
    issue_user_jwt username random now = do
      guard (not (is_empty cfg.jwt_secret)) token_invalid
      token_id ← or_fail random random_failed
      sign_token lib.user_claims_codec cfg.jwt_secret (user_claims username token_id now)

    unfoldable pub validate_user_jwt : ℕ → Text → Result JwtError UserJwtClaims
    unfolding check_token
    validate_user_jwt now token = do
      guard (not (is_empty cfg.jwt_secret)) token_invalid
      check_token lib.user_claims_codec (λ c. c.exp) cfg.jwt_secret now token
