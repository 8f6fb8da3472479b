-- ===== src/Tests/Logins.antt =====
-- Tokens that are not signed, and the theorems on logins at one of them.
use price_checker.Base.{
  ℕ, false, zero, suc, ◌-◌, ◌*◌, ◌<◌, ◌≤◌, ◌≡◌, refl, ap, arith, [], ◌∷◌, ◌++◌, Option, none, some,
  Text, codes, length, take, drop, if◌then◌else◌, leb, ◌/◌, text_eq,
}
use price_checker.Errors.{ok}
use price_checker.Models.Tenancy.{RefreshToken, User}
use price_checker.Database.{Session, ◌>>=◌}
use price_checker.Auth.Tokens.{
  Claims, Decoded, expired, invalid, claimed, Jwt, Settings, RefreshTokenPayload, decoded,
  decode_refresh_token, encode_access_token, encode_refresh_token,
}
use price_checker.Auth.{
  Draws, TokenPair, refresh_tokens, logout, rotate, exchange, withdraw, usable, new_token,
  issue_token_pair,
}
use price_checker.Auth.Rotation.{Exchanges, Spent, refresh_tokens-Spent, logout-Spent}
use price_checker.Tests.Fixtures.{orm, session, tables}

abbrev tag : {A : Type 0} → Option A → ℕ
tag none = zero
tag (some a) = suc zero

abbrev number : Option ℕ → ℕ
number none = 0
number (some n) = n

abbrev untag : {A : Type 0} → ℕ → A → Option A
untag zero a = none
untag (suc _) a = some a

abbrev text : Option Text → Text
text none = []
text (some s) = s

untag-number : (o : Option ℕ) → untag (tag o) (number o) ≡ o
untag-number none = refl
untag-number (some n) = refl

untag-text : (o : Option Text) → untag (tag o) (text o) ≡ o
untag-text none = refl
untag-text (some s) = refl

take-length : (s t : Text) → take (length s) (s ++ t) ≡ s
take-length [] t = refl
take-length (c ∷ s) t = ap (λ r. c ∷ r) (take-length s t)

drop-length : (s t : Text) → drop (length s) (s ++ t) ≡ t
drop-length [] t = refl
drop-length (c ∷ s) t = drop-length s t

abbrev show : Claims → Text
show c =
    tag c.sub
    ∷ number c.sub
    ∷ tag c.tenant_id
    ∷ number c.tenant_id
    ∷ c.iat
    ∷ c.exp
    ∷ tag c.type
    ∷ tag c.jti
    ∷ length (text c.type)
    ∷ (text c.type ++ text c.jti)

abbrev read : Text → ℕ → Decoded
read (a ∷ sub ∷ b ∷ tenant ∷ iat ∷ exp ∷ t ∷ j ∷ n ∷ rest) now =
    if leb (exp * 1000000) now
    then expired
    else claimed (record {
      sub = untag a sub;
      tenant_id = untag b tenant;
      type = untag t (take n rest);
      iat = iat;
      exp = exp;
      jti = untag j (drop n rest);
    })
read _ now = invalid

read-show :
    (c : Claims) (now : ℕ)
    → c.iat * 1000000 ≤ now
    → now < c.exp * 1000000
    → read (show c) now ≡ claimed c
read-show c now from to =
    let still : leb (c.exp * 1000000) now ≡ false = ground arith in
    rw
      (
        still,
        untag-number c.sub,
        untag-number c.tenant_id,
        take-length (text c.type) (text c.jti),
        drop-length (text c.type) (text c.jti),
        untag-text c.type,
        untag-text c.jti,
      )
      refl

read_late : (c : Claims) (now : ℕ) → c.exp * 1000000 ≤ now → read (show c) now ≡ expired
read_late c now late = ground arith

abbrev plain : Jwt
plain = record {
  encode = show;
  decode = read;
  decode-encode = read-show;
  decode_expired = read_late;
}

abbrev claims : Claims
claims = record {
  sub = some 1;
  tenant_id = none;
  type = some (codes "refresh");
  iat = 0;
  exp = 100;
  jti = some (codes "a");
}

abbrev payload : RefreshTokenPayload
payload = record { sub = 1; iat = 0; exp = 100; jti = codes "a" }

abbrev settings : Settings
settings = record {
  jwt_access_ttl_minutes = 30;
  jwt_refresh_ttl_days = 14;
  default_tenant_api_quota_monthly = 10000;
}

abbrev draws : Draws
draws = record {
  decoded_at = 5;
  checked_at = 6;
  revoked_at = 7;
  login_at = 8;
  created_at = 8;
  access_at = 8;
  refresh_at = 8;
  answered_at = 9;
  access_jti = codes "b";
  refresh_jti = codes "c";
  suffix = codes "d";
}

abbrev user : User
user = record {
  id = 1;
  tenant_id = 1;
  email = codes "a@b";
  auth_provider = codes "kakao";
  provider_user_id = codes "1";
  role = codes "owner";
  password_hash = none;
  last_login_at = none;
  created_at = 1;
}

abbrev issued : RefreshToken
issued = record { jti = codes "a"; user_id = 1; expires_at = 100000000; revoked_at = none }

abbrev logged_in : Session
logged_in = record session {
  db = record tables { users = user ∷ []; refresh_tokens = issued ∷ [] };
}

is_read : decode_refresh_token plain (show claims) 5 ≡ decoded payload
unfolding decode_refresh_token text_eq
is_read = refl

abbrev pair : TokenPair
unfolding encode_access_token encode_refresh_token
pair = record {
  access_token = (encode_access_token plain settings 1 1 (codes "b") 8).0;
  refresh_token = (encode_refresh_token plain settings 1 (codes "c") 8).0;
  expires_in = ((encode_access_token plain settings 1 1 (codes "b") 8).1 - 9) / 1000000;
}

abbrev exchanged : Session
exchanged = record session {
  db = record tables {
    users = user ∷ [];
    refresh_tokens =
        record issued { revoked_at = some 7 }
        ∷ record { jti = codes "c"; user_id = 1; expires_at = 1209600000008; revoked_at = none }
        ∷ [];
  };
}

is_exchanged :
    refresh_tokens plain orm settings draws (show claims) logged_in ≡ (ok pair, exchanged)
unfolding refresh_tokens exchange rotate usable issue_token_pair new_token encode_access_token
    encode_refresh_token decode_refresh_token text_eq ◌>>=◌
is_exchanged = refl

refresh_tokens-Spent_example :
    Exchanges plain orm settings draws (codes "a") logged_in exchanged
    × Spent plain orm settings (codes "a") exchanged
refresh_tokens-Spent_example =
    refresh_tokens-Spent plain orm settings draws (show claims) payload logged_in exchanged pair
      is_read is_exchanged

abbrev logged_out : Session
logged_out = record session {
  db = record tables {
    users = user ∷ [];
    refresh_tokens = record issued { revoked_at = some 7 } ∷ [];
  };
}

is_logged_out : logout plain orm settings draws (show claims) logged_in ≡ (ok tt, logged_out)
unfolding logout withdraw decode_refresh_token text_eq
is_logged_out = refl

logout-Spent_example : Spent plain orm settings (codes "a") logged_out
logout-Spent_example =
    logout-Spent plain orm settings draws (show claims) payload logged_in logged_out is_read
      is_logged_out
