-- ===== src/Auth/Tokens.antt =====
-- backend/app/auth/jwt.py. Times are in microseconds, `iat` and `exp` in whole seconds. The library
-- that signs and reads tokens (PyJWT) is a parameter. A subject is the number that its text prints:
-- the service signs no other.
use price_checker.Base.{
  ℕ, ◌+◌, ◌*◌, ◌/◌, ◌≤◌, ◌<◌, ◌≡◌, Bool, false, Option, none, some, Text, codes, text_eq,
  if◌then◌else◌,
}
use price_checker.Errors.{Error, key_error}

pub record Claims : Type 0 where
  pub sub : Option ℕ
  pub tenant_id : Option ℕ
  pub type : Option Text
  pub iat : ℕ
  pub exp : ℕ
  pub jti : Option Text

-- What reading a token gives: `ExpiredSignatureError`, `InvalidTokenError`, or its claims.
pub data Decoded : Type 0 where
  expired invalid : Decoded
  claimed : Claims → Decoded

-- A token that was signed is read as what it claims, from the second in which it was issued on, up to
-- its end.
pub record Jwt : Type 0 where
  pub encode : Claims → Text
  pub decode : Text → ℕ → Decoded
  pub decode-encode :
      (c : Claims) (now : ℕ)
      → c.iat * 1000000 ≤ now
      → now < c.exp * 1000000
      → decode (encode c) now ≡ claimed c
  pub decode_expired :
      (c : Claims) (now : ℕ) → c.exp * 1000000 ≤ now → decode (encode c) now ≡ expired

pub record Settings : Type 0 where
  pub jwt_access_ttl_minutes : ℕ
  pub jwt_refresh_ttl_days : ℕ
  pub default_tenant_api_quota_monthly : ℕ

pub record AccessTokenPayload : Type 0 where
  pub sub : ℕ
  pub tenant_id : ℕ
  pub iat : ℕ
  pub exp : ℕ
  pub jti : Text

pub record RefreshTokenPayload : Type 0 where
  pub sub : ℕ
  pub iat : ℕ
  pub exp : ℕ
  pub jti : Text

-- A payload, or `InvalidJWTError` with its text, or another exception.
pub data Decoding (A : Type 0) : Type 0 where
  decoded : A → Decoding A
  invalid_jwt : Text → Decoding A
  raised : Error → Decoding A

abbrev pub seconds : ℕ → ℕ
seconds instant = instant / 1000000

abbrev pub is_type : Text → Option Text → Bool
is_type name none = false
is_type name (some given) = text_eq given name

module _ (jwt : Jwt) where
  -- A token and its end.
  unfoldable pub encode_access_token : Settings → ℕ → ℕ → Text → ℕ → Text × ℕ
  encode_access_token settings user_id tenant_id jti issued_at =
      let expires_at = issued_at + settings.jwt_access_ttl_minutes * 60000000 in
      (
        jwt.encode (record {
          sub = some user_id;
          tenant_id = some tenant_id;
          type = some (codes "access");
          iat = seconds issued_at;
          exp = seconds expires_at;
          jti = some jti;
        }),
        expires_at,
      )

  unfoldable pub encode_refresh_token : Settings → ℕ → Text → ℕ → Text × ℕ
  encode_refresh_token settings user_id jti issued_at =
      let expires_at = issued_at + settings.jwt_refresh_ttl_days * 86400000000 in
      (
        jwt.encode (record {
          sub = some user_id;
          tenant_id = none;
          type = some (codes "refresh");
          iat = seconds issued_at;
          exp = seconds expires_at;
          jti = some jti;
        }),
        expires_at,
      )

  -- The checks of `decode_refresh_token` behind its signature.
  abbrev pub refresh_claims : Claims → Option ℕ → Option Text → Decoding RefreshTokenPayload
  refresh_claims c (some sub) (some jti) =
      decoded (record { sub = sub; iat = c.iat; exp = c.exp; jti = jti })
  refresh_claims c _ _ = invalid_jwt (codes "malformed_refresh_token")

  abbrev pub refresh_payload : Decoded → Decoding RefreshTokenPayload
  refresh_payload expired = invalid_jwt (codes "refresh_token_expired")
  refresh_payload invalid = invalid_jwt (codes "invalid_refresh_token")
  refresh_payload (claimed c) =
      if is_type (codes "refresh") c.type
      then refresh_claims c c.sub c.jti
      else invalid_jwt (codes "token_type_mismatch")

  unfoldable pub decode_refresh_token : Text → ℕ → Decoding RefreshTokenPayload
  decode_refresh_token token now = refresh_payload (jwt.decode token now)

  -- The same of `decode_access_token`, which asks for no `jti` before it reads it.
  abbrev pub access_claims :
      Claims → Option ℕ → Option ℕ → Option Text → Decoding AccessTokenPayload
  access_claims c (some sub) (some tenant_id) (some jti) =
      decoded (record { sub = sub; tenant_id = tenant_id; iat = c.iat; exp = c.exp; jti = jti })
  access_claims c (some sub) (some tenant_id) none = raised key_error
  access_claims c _ _ _ = invalid_jwt (codes "malformed_access_token")

  abbrev pub access_payload : Decoded → Decoding AccessTokenPayload
  access_payload expired = invalid_jwt (codes "access_token_expired")
  access_payload invalid = invalid_jwt (codes "invalid_access_token")
  access_payload (claimed c) =
      if is_type (codes "access") c.type
      then access_claims c c.sub c.tenant_id c.jti
      else invalid_jwt (codes "token_type_mismatch")

  pub decode_access_token : Text → ℕ → Decoding AccessTokenPayload
  decode_access_token token now = access_payload (jwt.decode token now)
