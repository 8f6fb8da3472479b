-- ===== src/Models/Tenancy.antt =====
-- backend/app/tenancy/models.py and backend/app/auth/models.py.
use price_checker.Base.{ℕ, Option, Text}

pub record Tenant : Type 0 where
  pub id : ℕ
  pub name : Text
  pub plan : Text
  pub api_quota_monthly : ℕ

pub record Shop : Type 0 where
  pub id : ℕ
  pub tenant_id : ℕ
  pub name : Text
  pub business_number : Option Text
  pub created_at : ℕ

pub record User : Type 0 where
  pub id : ℕ
  pub tenant_id : ℕ
  pub email : Text
  pub auth_provider : Text
  pub provider_user_id : Text
  pub role : Text
  pub password_hash : Option Text
  pub last_login_at : Option ℕ
  pub created_at : ℕ

-- The key is the text of the token's UUID.
pub record RefreshToken : Type 0 where
  pub jti : Text
  pub user_id : ℕ
  pub expires_at : ℕ
  pub revoked_at : Option ℕ
