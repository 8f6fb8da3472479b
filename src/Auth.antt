-- ===== src/Auth.antt =====
-- backend/app/auth/service.py; what a provider answers is an argument. The clock is read at each use,
-- the identifiers of tokens are random texts.
pub mod Providers
pub mod Tokens
pub mod Rotation
pub mod States
use price_checker.Base.{
  ℕ, ◌+◌, ◌-◌, ◌/◌, Bool, true, false, not, ◌&&◌, Option, none, some, is_none, ◌∷◌, [], ◌++◌, List,
  map, Text, codes, text_eq, any, find, update_where, leb, if◌then◌else◌,
}
use price_checker.Errors.{
  Error, Result, email_required, invalid_refresh_token, refresh_token_expired,
  refresh_token_revoked, integrity_error,
}
use price_checker.Models.Tenancy.{Tenant, User, RefreshToken}
use price_checker.Database.{
  Db, Orm, Action, pure, raise, or_raise, query, lift, ◌>>=◌, ◌>>◌, flush, write,
}
use price_checker.Tenancy.{is_named, add_tenant, is_user, get_user_by_provider}
use price_checker.Auth.Tokens.{
  Jwt, Settings, RefreshTokenPayload, Decoding, decoded, invalid_jwt, raised, encode_access_token,
  encode_refresh_token, decode_refresh_token,
}

pub record TokenPair : Type 0 where
  pub access_token : Text
  pub refresh_token : Text
  pub expires_in : ℕ

pub record UserInfo : Type 0 where
  pub provider_user_id : Text
  pub email : Option Text
  pub nickname : Option Text

-- The instants at which one call reads the clock, and the random texts that it draws.
pub record Draws : Type 0 where
  pub decoded_at : ℕ
  pub checked_at : ℕ
  pub revoked_at : ℕ
  pub login_at : ℕ
  pub created_at : ℕ
  pub access_at : ℕ
  pub refresh_at : ℕ
  pub answered_at : ℕ
  pub access_jti : Text
  pub refresh_jti : Text
  pub suffix : Text

abbrev pub has_jti : Text → RefreshToken → Bool
has_jti jti t = text_eq t.jti jti

-- Whether a token can still be exchanged, and why not.
unfoldable pub usable : RefreshToken → ℕ → Option Error
usable stored now = elim stored.revoked_at [
  | some _ ↦ some refresh_token_revoked
  | none ↦ if leb stored.expires_at now then some refresh_token_expired else none
]

abbrev raise_some : Option Error → Action (Unit {0})
raise_some none = pure tt
raise_some (some e) = raise e

abbrev pub revoke : ℕ → RefreshToken → RefreshToken
revoke now t = record t { revoked_at = some now }

-- `update(RefreshToken).where(jti == ...)`
abbrev pub revoke_all : Text → ℕ → Db → Db
revoke_all jti now d = record d {
  refresh_tokens = update_where (has_jti jti) (revoke now) d.refresh_tokens;
}

-- The same where `revoked_at` is NULL.
abbrev pub revoke_valid : Text → ℕ → Db → Db
revoke_valid jti now d = record d {
  refresh_tokens =
      update_where (λ t. has_jti jti t && is_none t.revoked_at) (revoke now) d.refresh_tokens;
}

abbrev jwt_error : Text → Error
jwt_error message =
    if text_eq message (codes "refresh_token_expired")
    then refresh_token_expired
    else invalid_refresh_token

module _ (jwt : Jwt) (orm : Orm) (settings : Settings) (draws : Draws) where
  unfoldable pub new_token : User → RefreshToken
  new_token user = record {
    jti = draws.refresh_jti;
    user_id = user.id;
    expires_at = (encode_refresh_token jwt settings user.id draws.refresh_jti draws.refresh_at).1;
    revoked_at = none;
  }

  -- The key of a row is unique.
  abbrev jti_taken : Db → Bool
  jti_taken d = any (has_jti draws.refresh_jti) d.refresh_tokens

  abbrev add_token : RefreshToken → Db → Db
  add_token token d = record d { refresh_tokens = d.refresh_tokens ++ token ∷ [] }

  -- The pair, and the row of its refresh token.
  unfoldable pub issue_token_pair : User → Action TokenPair
  issue_token_pair user = do
    let access =
        encode_access_token jwt settings user.id user.tenant_id draws.access_jti draws.access_at
    let fresh = encode_refresh_token jwt settings user.id draws.refresh_jti draws.refresh_at
    flush orm jti_taken (add_token (new_token user))
    pure (record {
      access_token = access.0;
      refresh_token = fresh.0;
      expires_in = (access.1 - draws.answered_at) / 1000000;
    })

  -- `refresh_tokens` behind the token's signature.
  unfoldable pub rotate : RefreshTokenPayload → Action TokenPair
  rotate payload = do
    found ← query (λ d. find (has_jti payload.jti) d.refresh_tokens)
    stored ← or_raise found invalid_refresh_token
    raise_some (usable stored draws.checked_at)
    owner ← query (λ d. find (is_user payload.sub) d.users)
    user ← or_raise owner invalid_refresh_token
    write (revoke_all payload.jti draws.revoked_at)
    issue_token_pair user

  unfoldable pub exchange : Decoding RefreshTokenPayload → Action TokenPair
  exchange (invalid_jwt message) = raise (jwt_error message)
  exchange (raised e) = raise e
  exchange (decoded payload) = rotate payload

  unfoldable pub refresh_tokens : Text → Action TokenPair
  refresh_tokens refresh_token = exchange (decode_refresh_token jwt refresh_token draws.decoded_at)

  -- A token that is not valid any more is none to revoke.
  unfoldable pub withdraw : Decoding RefreshTokenPayload → Action (Unit {0})
  withdraw (invalid_jwt message) = pure tt
  withdraw (raised e) = raise e
  withdraw (decoded payload) = write (revoke_valid payload.jti draws.revoked_at)

  unfoldable pub logout : Text → Action (Unit {0})
  logout refresh_token = withdraw (decode_refresh_token jwt refresh_token draws.decoded_at)

  new_tenant : Text → Db → Tenant
  new_tenant base d = record {
    id = orm.next_id (map (λ (t : Tenant). t.id) d.tenants);
    name = base ++ b'-' ∷ draws.suffix;
    plan = codes "starter";
    api_quota_monthly = settings.default_tenant_api_quota_monthly;
  }

  new_user : Tenant → Text → Text → UserInfo → Db → User
  new_user tenant email provider info d = record {
    id = orm.next_id (map (λ (u : User). u.id) d.users);
    tenant_id = tenant.id;
    email = email;
    auth_provider = provider;
    provider_user_id = info.provider_user_id;
    role = codes "owner";
    password_hash = none;
    last_login_at = some draws.login_at;
    created_at = draws.created_at;
  }

  -- `a or b` of texts.
  abbrev or_text : Option Text → Text → Text
  or_text none b = b
  or_text (some []) b = b
  or_text (some (c ∷ s)) b = c ∷ s

  provision : Text → UserInfo → Text → Action User
  provision provider info email = do
    tenant ← query (new_tenant (or_text info.nickname email))
    flush orm (λ d. any (is_named tenant.name) d.tenants) (add_tenant tenant)
    user ← query (new_user tenant email provider info)
    flush orm (λ d. any (same_login user) d.users) (λ d. record d { users = d.users ++ user ∷ [] })
    pure user
    where
      same_login : User → User → Bool
      same_login u v =
          text_eq u.auth_provider v.auth_provider && text_eq u.provider_user_id v.provider_user_id

  find_or_provision : Text → UserInfo → Option User → Action User
  find_or_provision provider info (some existing) = do
    write (λ d. record d {
      users =
          update_where (is_user existing.id) (λ u. record u { last_login_at = some draws.login_at })
            d.users;
    })
    pure (record existing { last_login_at = some draws.login_at })
  find_or_provision provider info none = elim info.email [
    | none ↦ raise email_required
    | some email ↦ elim email [
      | [] ↦ raise email_required
      | c ∷ s ↦ provision provider info (c ∷ s)
    ]
  ]

  -- `_find_or_create_tenant_and_user`
  pub find_or_create_tenant_and_user : Text → UserInfo → Action User
  find_or_create_tenant_and_user provider info = do
    existing ← get_user_by_provider provider info.provider_user_id
    find_or_provision provider info existing

  -- `login_with_kakao` and `login_with_naver`, by what the provider answers: a user, or an exception.
  pub login : Text → Result UserInfo → Action TokenPair
  login provider answer = do
    info ← lift answer
    user ← find_or_create_tenant_and_user provider info
    issue_token_pair user
