-- ===== src/Auth/Jwt/Tokens.antt =====
-- What the tokens of roboserver/auth/jwt.go and user_jwt.go guarantee: a token that was issued is
-- valid until its expiry, and a token that is valid carries the server's signature.
use mathlib.Core.List.{append_assoc}
use robomesh.Prelude.{
  ℕ, ◌+◌, ◌<◌, ◌^◌, false, not, some, ◌++◌, ◌∷◌, ◌≡◌, sym, ap, ◌∙◌, Text, text_eq, text_eq_refl,
  text_eq_iff, leb, if◌then◌else◌, arith,
}
use robomesh.Prelude.Bytes.{is_empty, split3, split3-append, split3-some, contains}
use robomesh.Prelude.Int.{ℤ, pos, leb_ℤ, ◌≤ℤ◌, int64_of_bits-small}
use robomesh.Prelude.Results.{ok, err, or_fail-ok, guard-ok, ok_inj}
use robomesh.Database.Client.{Codec, RoundTrips}
use robomesh.Auth.Jwt.{
  JwtLib, JwtLibLaws, JwtConfig, JwtClaims, UserJwtClaims, token_expired, sign_hs256, sign_token,
  check_token, session_claims, user_claims, issue_session_jwt, issue_user_jwt, validate_session_jwt,
  validate_user_jwt,
}

split3-token :
    (h b s : Text)
    → contains b'.' h ≡ false
    → contains b'.' b ≡ false
    → split3 b'.' ((h ++ b'.' ∷ b) ++ b'.' ∷ s) ≡ some (h, b, s)
split3-token h b s hh hb =
    ap (split3 b'.') (append_assoc h (b'.' ∷ b) (b'.' ∷ s)) ∙ split3-append b'.' h b s hh hb

-- The token starts with two parts and ends with the server's HMAC of them.
pub record Signed (lib : JwtLib) (secret token : Text) : Type 0 where
  pub header : Text
  pub body : Text
  pub is_signed :
      token ≡ (header ++ b'.' ∷ body) ++ b'.' ∷ sign_hs256 lib (header ++ b'.' ∷ body) secret

module _ (lib : JwtLib) where
  module _ {C : Type 0} (codec : Codec C) (exp_of : C → ℤ) where
    -- A token that passes the checks carries the server's signature and has not expired.
    check_token-Signed :
        (secret token : Text) (now : ℕ) (claims : C)
        → check_token lib codec exp_of secret now token ≡ ok claims
        → Signed lib secret token × (pos now ≤ℤ exp_of claims)
    unfolding check_token
    check_token-Signed secret token now claims e =
        let ((h, b, s), e₁, h₁) = or_fail-ok (split3 b'.' token) _ _ e in
        let (e₂, h₂) = guard-ok (text_eq s (sign_hs256 lib (h ++ b'.' ∷ b) secret)) _ _ h₁ in
        let (json, e₃, h₃) = or_fail-ok (lib.b64_decode b) _ _ h₂ in
        let (c, e₄, h₄) = or_fail-ok (codec.unmarshal json) _ _ h₃ in
        let (e₅, h₅) = guard-ok (leb_ℤ (pos now) (exp_of c)) _ _ h₄ in
        (
          record {
            header = h;
            body = b;
            is_signed =
                split3-some b'.' token e₁
                ∙ sym (append_assoc h (b'.' ∷ b) (b'.' ∷ s))
                ∙ ap (λ t. (h ++ b'.' ∷ b) ++ b'.' ∷ t) ((text_eq_iff s _).0 e₂);
          },
          ground arith,
        )

    module _ (laws : JwtLibLaws lib) (rt : RoundTrips codec) where
      open laws use {b64_round_trip, b64_no_dot}

      -- A token that was signed is checked down to its expiry.
      check_token-sign_token :
          (secret token : Text) (now : ℕ) (claims : C)
          → sign_token lib codec secret claims ≡ ok token
          → check_token lib codec exp_of secret now token
            ≡ (if leb_ℤ (pos now) (exp_of claims) then ok claims else err token_expired)
      unfolding sign_token check_token
      check_token-sign_token secret token now claims e =
          let (hj, e₁, h₁) = or_fail-ok (lib.header_codec.marshal _) _ _ e in
          let (cj, e₂, h₂) = or_fail-ok (codec.marshal claims) _ _ h₁ in
          let h : Text = lib.b64_encode hj in
          let b : Text = lib.b64_encode cj in
          let s : Text = sign_hs256 lib (h ++ b'.' ∷ b) secret in
          rw (← ok_inj h₂) (
            ground (
              arith,
              split3-token h b s (b64_no_dot hj) (b64_no_dot cj),
              text_eq_refl s,
              b64_round_trip cj,
              rt claims cj e₂,
            ))

      -- The checks read a token by the codec of the type asked for, whatever type it was signed at.
      check_token-other :
          {D : Type 0} (other : Codec D) (exp_other : D → ℤ) (secret token json : Text) (now : ℕ)
          (claims : C) (d : D)
          → sign_token lib codec secret claims ≡ ok token
          → codec.marshal claims ≡ some json
          → other.unmarshal json ≡ some d
          → pos now ≤ℤ exp_other d
          → check_token lib other exp_other secret now token ≡ ok d
      unfolding sign_token check_token
      check_token-other other exp_other secret token json now claims d e m u live =
          let (hj, e₁, h₁) = or_fail-ok (lib.header_codec.marshal _) _ _ e in
          let (cj, e₂, h₂) = or_fail-ok (codec.marshal claims) _ _ h₁ in
          let h : Text = lib.b64_encode hj in
          let b : Text = lib.b64_encode cj in
          let s : Text = sign_hs256 lib (h ++ b'.' ∷ b) secret in
          rw (← ok_inj h₂) (
            ground (
              arith,
              split3-token h b s (b64_no_dot hj) (b64_no_dot cj),
              text_eq_refl s,
              b64_round_trip cj,
            ))

module _ (lib : JwtLib) (laws : JwtLibLaws lib) (cfg : JwtConfig) where
  -- A session token that was issued is valid up to its expiry, where it gives its claims back, and
  -- expired after it. Base64 decodes what it encoded without dots, the claims survive JSON, and
  -- the expiry fits int64.
  pub validate_session_jwt-issue_session_jwt :
      RoundTrips lib.claims_codec
      → (uuid device_type ip session_id token : Text) (now later : ℕ)
      → now + cfg.jwt_expiry < 2 ^ 63
      → issue_session_jwt lib cfg uuid device_type ip session_id now ≡ ok token
      → validate_session_jwt lib cfg later token ≡ (
          if leb later (now + cfg.jwt_expiry)
          then ok (session_claims lib cfg uuid device_type ip session_id now)
          else err token_expired)
  unfolding issue_session_jwt validate_session_jwt session_claims
  validate_session_jwt-issue_session_jwt rt uuid device_type ip session_id token now later small e =
      let (set, e₁) = guard-ok (not (is_empty cfg.jwt_secret)) _ _ e in
      ground (
        arith,
        set,
        int64_of_bits-small (now + cfg.jwt_expiry) small,
        check_token-sign_token lib lib.claims_codec (λ (c : JwtClaims). c.exp) laws rt
            cfg.jwt_secret token later (session_claims lib cfg uuid device_type ip session_id now)
            e₁,
      )

  -- A user's token that was issued is valid up to its expiry, where it gives its claims back, and
  -- expired after it. Base64 decodes what it encoded without dots, the claims survive JSON, and
  -- the expiry fits int64.
  pub validate_user_jwt-issue_user_jwt :
      RoundTrips lib.user_claims_codec
      → (username token_id token : Text) (now later : ℕ) → now + cfg.jwt_expiry < 2 ^ 63
      → issue_user_jwt lib cfg username (some token_id) now ≡ ok token
      → validate_user_jwt lib cfg later token ≡ (
          if leb later (now + cfg.jwt_expiry)
          then ok (user_claims lib cfg username token_id now)
          else err token_expired)
  unfolding issue_user_jwt validate_user_jwt user_claims
  validate_user_jwt-issue_user_jwt rt username token_id token now later small e =
      let (set, e₁) = guard-ok (not (is_empty cfg.jwt_secret)) _ _ e in
      ground (
        arith,
        set,
        int64_of_bits-small (now + cfg.jwt_expiry) small,
        check_token-sign_token lib lib.user_claims_codec (λ (c : UserJwtClaims). c.exp) laws rt
            cfg.jwt_secret token later (user_claims lib cfg username token_id now) e₁,
      )

  -- A user's token passes for a robot's session token wherever its JSON decodes as session claims
  -- that have not expired: both kinds are signed alike with one secret and neither names its kind.
  -- Base64 decodes what it encoded without dots, and users' claims survive JSON.
  pub validate_session_jwt-issue_user_jwt :
      RoundTrips lib.user_claims_codec
      → (username token_id token json : Text) (now later : ℕ) (c : JwtClaims)
      → issue_user_jwt lib cfg username (some token_id) now ≡ ok token
      → lib.user_claims_codec.marshal (user_claims lib cfg username token_id now) ≡ some json
      → lib.claims_codec.unmarshal json ≡ some c
      → pos later ≤ℤ c.exp
      → validate_session_jwt lib cfg later token ≡ ok c
  unfolding issue_user_jwt validate_session_jwt
  validate_session_jwt-issue_user_jwt rt username token_id token json now later c e m u live =
      let (set, e₁) = guard-ok (not (is_empty cfg.jwt_secret)) _ _ e in
      ground (
        arith,
        set,
        check_token-other lib lib.user_claims_codec (λ (c : UserJwtClaims). c.exp) laws rt
            lib.claims_codec (λ (c : JwtClaims). c.exp) cfg.jwt_secret token json later
            (user_claims lib cfg username token_id now) c e₁ m u live,
      )

-- A valid session token ends with the server's HMAC of what stands before, and has not expired.
pub validate_session_jwt-Signed :
    (lib : JwtLib) (cfg : JwtConfig) (now : ℕ) (token : Text) (claims : JwtClaims)
    → validate_session_jwt lib cfg now token ≡ ok claims
    → Signed lib cfg.jwt_secret token × (pos now ≤ℤ claims.exp)
unfolding validate_session_jwt
validate_session_jwt-Signed lib cfg now token claims e =
    check_token-Signed lib lib.claims_codec (λ (c : JwtClaims). c.exp) cfg.jwt_secret token now
      claims (guard-ok (not (is_empty cfg.jwt_secret)) _ _ e).1
