-- ===== src/Auth/Providers/Naver.antt =====
-- backend/app/auth/naver.py, and `login_with_naver` of backend/app/auth/service.py.
use price_checker.Base.{◌∷◌, [], ◌++◌, Bool, false, some, Text, codes, text_eq, if◌then◌else◌}
use price_checker.Errors.{
  Result, ok, err, and_then, email_consent_required, naver_token_exchange_failed,
  naver_userinfo_failed,
}
use price_checker.Database.{Orm, Action}
use price_checker.Auth.{UserInfo, Draws, TokenPair, login}
use price_checker.Auth.Tokens.{Jwt, Settings}
use price_checker.Auth.Providers.{
  Value, null, boolean, number, str, array, object, PyStr, Http, Fields, truthy, get, or_object,
  or_value, body_or, token_or, optional_text,
}

pub record NaverSettings : Type 0 where
  pub client_id : Text
  pub client_secret : Text
  pub redirect_uri : Text

abbrev authorize_url : Text
authorize_url = codes "https://nid.naver.com/oauth2.0/authorize"

abbrev token_url : Text
token_url = codes "https://nid.naver.com/oauth2.0/token"

abbrev userinfo_url : Text
userinfo_url = codes "https://openapi.naver.com/v1/nid/me"

pub build_authorize_url : (Fields → Text) → NaverSettings → Text → Text
build_authorize_url urlencode settings state =
    authorize_url
    ++ b'?'
      ∷ urlencode (
          (codes "response_type", codes "code")
          ∷ (codes "client_id", settings.client_id)
          ∷ (codes "redirect_uri", settings.redirect_uri)
          ∷ (codes "state", state)
          ∷ [])

unfoldable pub exchange_code : Http → NaverSettings → Text → Text → Result Text
exchange_code http settings code state =
    and_then
      (body_or naver_token_exchange_failed (
        http.get token_url
          ((codes "grant_type", codes "authorization_code")
            ∷ (codes "client_id", settings.client_id)
            ∷ (codes "client_secret", settings.client_secret)
            ∷ (codes "code", code)
            ∷ (codes "state", state)
            ∷ [])
          []))
      λ payload.
        and_then (get (codes "access_token") payload) (token_or naver_token_exchange_failed)

-- `result_code == "00"`
abbrev is_success : Value → Bool
is_success (str s) = text_eq s (codes "00")
is_success null = false
is_success (boolean _) = false
is_success (number _ _) = false
is_success (array _) = false
is_success (object _) = false

-- The user of `response`.
unfoldable pub response_user : PyStr → Value → Result UserInfo
response_user py response = and_then (get (codes "id") response) λ naver_id.
    if truthy naver_id
    then (and_then (get (codes "email") response) λ email.
        if truthy email
        then (and_then (get (codes "nickname") response) λ nickname.
            and_then (get (codes "name") response) λ name. ok (record {
              provider_user_id = py.text_of naver_id;
              email = some (py.text_of email);
              nickname = optional_text py (or_value nickname name);
            }))
        else err email_consent_required)
    else err naver_userinfo_failed

unfoldable pub user_of : PyStr → Value → Result UserInfo
user_of py payload = and_then (get (codes "resultcode") payload) λ result_code.
    if is_success result_code
    then (and_then (get (codes "response") payload) λ found. response_user py (or_object found))
    else err naver_userinfo_failed

unfoldable pub fetch_userinfo : Http → PyStr → Text → Result UserInfo
fetch_userinfo http py access_token =
    and_then
      (body_or naver_userinfo_failed
        (http.get userinfo_url [] ((codes "Authorization", codes "Bearer " ++ access_token) ∷ [])))
      (user_of py)

unfoldable pub naver_user : Http → PyStr → NaverSettings → Text → Text → Result UserInfo
naver_user http py settings code state =
    and_then (exchange_code http settings code state) (fetch_userinfo http py)

pub login_with_naver :
    Jwt → Orm → Settings → Draws → Http → PyStr → NaverSettings → Text → Text → Action TokenPair
login_with_naver jwt orm settings draws http py naver code state =
    login jwt orm settings draws (codes "naver") (naver_user http py naver code state)
