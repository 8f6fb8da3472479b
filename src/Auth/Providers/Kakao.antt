-- ===== src/Auth/Providers/Kakao.antt =====
-- backend/app/auth/kakao.py, and `login_with_kakao` of backend/app/auth/service.py.
use price_checker.Base.{◌∷◌, [], ◌++◌, ◌||◌, not, some, Text, codes, if◌then◌else◌}
use price_checker.Errors.{
  Result, ok, err, and_then, email_consent_required, kakao_token_exchange_failed,
  kakao_userinfo_failed,
}
use price_checker.Database.{Orm, Action}
use price_checker.Auth.{UserInfo, Draws, TokenPair, login}
use price_checker.Auth.Tokens.{Jwt, Settings}
use price_checker.Auth.Providers.{
  Value, null, PyStr, Http, Fields, truthy, get, or_object, body_or, token_or, optional_text,
}

pub record KakaoSettings : Type 0 where
  pub client_id : Text
  pub client_secret : Text
  pub redirect_uri : Text

abbrev authorize_url : Text
authorize_url = codes "https://kauth.kakao.com/oauth/authorize"

abbrev token_url : Text
token_url = codes "https://kauth.kakao.com/oauth/token"

abbrev userinfo_url : Text
userinfo_url = codes "https://kapi.kakao.com/v2/user/me"

abbrev form_header : Text × Text
form_header = (codes "Content-Type", codes "application/x-www-form-urlencoded;charset=utf-8")

pub build_authorize_url : (Fields → Text) → KakaoSettings → Text → Text
build_authorize_url urlencode settings state =
    authorize_url
    ++ b'?'
      ∷ urlencode (
          (codes "client_id", settings.client_id)
          ∷ (codes "redirect_uri", settings.redirect_uri)
          ∷ (codes "response_type", codes "code")
          ∷ (codes "state", state)
          ∷ [])

abbrev secret_field : Text → Fields
secret_field [] = []
secret_field (c ∷ s) = (codes "client_secret", c ∷ s) ∷ []

unfoldable pub exchange_code : Http → KakaoSettings → Text → Result Text
exchange_code http settings code = do_exchange (
    (codes "grant_type", codes "authorization_code")
    ∷ (codes "client_id", settings.client_id)
    ∷ (codes "redirect_uri", settings.redirect_uri)
    ∷ (codes "code", code)
    ∷ secret_field settings.client_secret)
  where
    do_exchange : Fields → Result Text
    do_exchange data_fields =
        and_then
          (body_or kakao_token_exchange_failed (http.post token_url data_fields (form_header ∷ [])))
          λ payload.
            and_then (get (codes "access_token") payload) (token_or kakao_token_exchange_failed)

-- The user of the body, whose `id` is null where it is missing.
unfoldable pub account_user : PyStr → Value → Value → Result UserInfo
account_user py kakao_id account = and_then (get (codes "profile") account) λ found.
    let profile = or_object found in
    and_then (get (codes "email") account) λ email.
      and_then (get (codes "email_needs_agreement") account) λ needs_agreement.
        if truthy needs_agreement || not (truthy email)
        then err email_consent_required
        else and_then (get (codes "nickname") profile) λ nickname. ok (record {
          provider_user_id = py.text_of kakao_id;
          email = some (py.text_of email);
          nickname = optional_text py nickname;
        })

unfoldable pub user_of : PyStr → Value → Value → Result UserInfo
user_of py payload null = err kakao_userinfo_failed
user_of py payload kakao_id =
    and_then (get (codes "kakao_account") payload)
      λ found. account_user py kakao_id (or_object found)

unfoldable pub fetch_userinfo : Http → PyStr → Text → Result UserInfo
fetch_userinfo http py access_token =
    and_then
      (body_or kakao_userinfo_failed (
        http.get userinfo_url []
          ((codes "Authorization", codes "Bearer " ++ access_token) ∷ form_header ∷ [])))
      λ payload. and_then (get (codes "id") payload) (user_of py payload)

unfoldable pub kakao_user : Http → PyStr → KakaoSettings → Text → Result UserInfo
kakao_user http py settings code =
    and_then (exchange_code http settings code) (fetch_userinfo http py)

pub login_with_kakao :
    Jwt → Orm → Settings → Draws → Http → PyStr → KakaoSettings → Text → Action TokenPair
login_with_kakao jwt orm settings draws http py kakao code =
    login jwt orm settings draws (codes "kakao") (kakao_user http py kakao code)
