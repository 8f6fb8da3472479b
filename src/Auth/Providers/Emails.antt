-- ===== src/Auth/Providers/Emails.antt =====
-- The users that the clients of the login providers return.
use price_checker.Base.{◌≡◌, arith, true, false, Bool, none, some, Text, codes}
use price_checker.Errors.{Result, ok, err, and_then, and_then-eq-ok}
use price_checker.Auth.{UserInfo}
use price_checker.Auth.Providers.{Value, null, PyStr, Http, is_full, get, or_object}
use price_checker.Auth.Providers.Kakao.{KakaoSettings, kakao_user, account_user}
use price_checker.Auth.Providers.Kakao
use price_checker.Auth.Providers.Naver.{NaverSettings, naver_user, response_user}
use price_checker.Auth.Providers.Naver

-- An email that is there and is not empty.
abbrev has_email : UserInfo → Bool
has_email info = elim info.email [ none ↦ false | some email ↦ is_full email ]

-- The value that is there, or null.
abbrev value_of : Result Value → Value
value_of (ok v) = v
value_of (err _) = null

module _ (py : PyStr) where
  account_user-has_email :
      (kakao_id account : Value) {info : UserInfo}
      → account_user py kakao_id account ≡ ok info
      → has_email info ≡ true
  unfolding account_user
  account_user-has_email kakao_id account h =
      ground (arith, py.text_of-full (value_of (get (codes "email") account)))

  response_user-has_email :
      (response : Value) {info : UserInfo}
      → response_user py response ≡ ok info
      → has_email info ≡ true
  unfolding response_user
  response_user-has_email response h =
      ground (arith, py.text_of-full (value_of (get (codes "email") response)))

  kakao_user_of-has_email :
      (payload kakao_id : Value) {info : UserInfo}
      → Kakao.user_of py payload kakao_id ≡ ok info
      → has_email info ≡ true
  unfolding Kakao.user_of
  kakao_user_of-has_email payload kakao_id {info} h = ground (
    arith,
    account_user-has_email kakao_id (or_object (value_of (get (codes "kakao_account") payload)))
        {info = info},
  )

  naver_user_of-has_email :
      (payload : Value) {info : UserInfo}
      → Naver.user_of py payload ≡ ok info
      → has_email info ≡ true
  unfolding Naver.user_of
  naver_user_of-has_email payload {info} h = ground (
    arith,
    response_user-has_email (or_object (value_of (get (codes "response") payload))) {info = info},
  )

  -- A user whom Kakao's client returns has an email that is not empty.
  pub kakao_user-has_email :
      (http : Http) (settings : KakaoSettings) (code : Text) {info : UserInfo}
      → kakao_user http py settings code ≡ ok info
      → has_email info ≡ true
  unfolding kakao_user Kakao.fetch_userinfo
  kakao_user-has_email http settings code {info} h =
      let (token, _, fetched) =
        and_then-eq-ok (Kakao.exchange_code http settings code) (Kakao.fetch_userinfo http py) h in
      let (payload, _, read) =
        and_then-eq-ok _ (λ payload. and_then (get (codes "id") payload) (Kakao.user_of py payload))
          fetched in
      let (kakao_id, _, made) =
        and_then-eq-ok (get (codes "id") payload) (Kakao.user_of py payload) read in
      kakao_user_of-has_email payload kakao_id made

  -- So has a user whom Naver's client returns.
  pub naver_user-has_email :
      (http : Http) (settings : NaverSettings) (code state : Text) {info : UserInfo}
      → naver_user http py settings code state ≡ ok info
      → has_email info ≡ true
  unfolding naver_user Naver.fetch_userinfo
  naver_user-has_email http settings code state {info} h =
      let (token, _, fetched) =
        and_then-eq-ok (Naver.exchange_code http settings code state) (Naver.fetch_userinfo http py)
          h in
      let (payload, _, made) = and_then-eq-ok _ (Naver.user_of py) fetched in
      naver_user_of-has_email payload made
