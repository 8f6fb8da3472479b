-- ===== src/Errors.antt =====
-- backend/app/core/exceptions.py and the exceptions of the services: the exceptions as values of
-- one type, the answer that the handler of `ServiceError` makes of each, and `Result`.
use price_checker.Base.{ℕ, Text, Option, none, some, ◌≡◌, refl}

pub data Error : Type 0 where
  -- notifications/service.py
  recipient_not_found consent_not_found recipient_already_exists : Error
  template_not_found template_already_exists : Error
  missing_template_variables : Text → Error
  invalid_template_variables : Error
  -- notifications/policy.py and `_validate_channel_purpose`
  invalid_phone_number marketing_alimtalk_not_allowed : Error
  -- tenancy/service.py
  tenant_not_found shop_not_found user_not_found tenant_already_exists : Error
  -- procurement/service.py and price_collection/service.py, which are no `ServiceError`
  procurement_shop_not_found procurement_order_not_found collection_order_not_found : Error
  -- services/quota_service.py
  quota_exceeded : Error
  negative_quota amount_below_one : Error
  -- auth/service.py
  state_mismatch email_required : Error
  -- auth/kakao.py and auth/naver.py
  email_consent_required : Error
  kakao_token_exchange_failed kakao_userinfo_failed : Error
  naver_token_exchange_failed naver_userinfo_failed : Error
  invalid_refresh_token refresh_token_expired refresh_token_revoked : Error
  -- raised by the session: a violated constraint, and a statement in a failed transaction
  integrity_error pending_rollback : Error
  -- raised by `d[key]`
  key_error : Error
  -- `OverflowError` of a number too large, `InvalidOperation` of a decimal
  overflow_error invalid_operation : Error
  -- `AttributeError` of `get` on a value that is no object
  attribute_error : Error
  -- `ValueError`
  value_error : Error
  -- raised by the search client
  naver_client_error : Text → Error
  -- raised by `scalar_one_or_none` on two rows or more
  multiple_results : Error

-- The status code of the answer: `http_status` of a `ServiceError`; what the routers make of the
-- exceptions that are none; 500 from the handler of all others.
pub http_status : Error → ℕ
http_status recipient_not_found = 404
http_status consent_not_found = 404
http_status recipient_already_exists = 409
http_status template_not_found = 404
http_status template_already_exists = 409
http_status (missing_template_variables _) = 400
http_status invalid_template_variables = 400
http_status invalid_phone_number = 400
http_status marketing_alimtalk_not_allowed = 400
http_status tenant_not_found = 404
http_status shop_not_found = 404
http_status user_not_found = 404
http_status tenant_already_exists = 409
http_status procurement_shop_not_found = 404
http_status procurement_order_not_found = 404
http_status collection_order_not_found = 404
http_status quota_exceeded = 429
http_status negative_quota = 500
http_status amount_below_one = 500
http_status state_mismatch = 400
http_status email_required = 502
http_status email_consent_required = 400
http_status kakao_token_exchange_failed = 502
http_status kakao_userinfo_failed = 502
http_status naver_token_exchange_failed = 502
http_status naver_userinfo_failed = 502
http_status invalid_refresh_token = 401
http_status refresh_token_expired = 401
http_status refresh_token_revoked = 401
http_status integrity_error = 500
http_status pending_rollback = 500
http_status (naver_client_error _) = 500
http_status multiple_results = 500
http_status key_error = 500
http_status overflow_error = 500
http_status invalid_operation = 500
http_status attribute_error = 500
http_status value_error = 500

pub data Result {ℓ} (A : Type ℓ) : Type ℓ where
  ok : A → Result A
  err : Error → Result A

-- The next step of a computation that may raise.
abbrev pub and_then {ℓ κ} : {A : Type ℓ} {B : Type κ} → Result A → (A → Result B) → Result B
and_then (ok a) f = f a
and_then (err e) f = err e

-- Where such a computation succeeded, both steps did.
pub and_then-eq-ok {ℓ κ} :
    {A : Type ℓ} {B : Type κ} (r : Result A) (f : A → Result B) {b : B}
    → and_then r f ≡ ok b
    → (a : A) × (r ≡ ok a) × (f a ≡ ok b)
and_then-eq-ok (ok a) f h = (a, refl, h)
and_then-eq-ok (err e) f h = cc

pub ok_injective {ℓ} : {A : Type ℓ} {a b : A} → ok a ≡ ok b → a ≡ b
ok_injective e = cc e

abbrev pub or_overflow {ℓ} : {A : Type ℓ} → Option A → Result A
or_overflow none = err overflow_error
or_overflow (some a) = ok a
