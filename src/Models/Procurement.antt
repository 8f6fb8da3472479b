-- ===== src/Models/Procurement.antt =====
-- backend/app/procurement/models.py.
use price_checker.Base.{ℕ, ℤ, Bool, true, false, Option, Text}

pub data OrderStatus : Type 0 where
  draft collecting completed cancelled : OrderStatus

abbrev pub is_completed : OrderStatus → Bool
is_completed OrderStatus.completed = true
is_completed _ = false

-- The number of a status, by which two are compared.
abbrev pub order_status_code : OrderStatus → ℕ
order_status_code OrderStatus.draft = 0
order_status_code OrderStatus.collecting = 1
order_status_code OrderStatus.completed = 2
order_status_code OrderStatus.cancelled = 3

pub data ResultSource : Type 0 where
  naver coupang manual : ResultSource

abbrev pub result_source_code : ResultSource → ℕ
result_source_code ResultSource.naver = 0
result_source_code ResultSource.coupang = 1
result_source_code ResultSource.manual = 2

pub record ProcurementOrder : Type 0 where
  pub id : ℕ
  pub tenant_id : ℕ
  pub shop_id : ℕ
  pub product_name : Text
  pub option_text : Option Text
  pub quantity : ℕ
  pub unit : Text
  pub target_unit_price : Option ℕ
  pub memo : Option Text
  pub status : OrderStatus
  pub created_at : ℕ

-- `raw_excerpt`, which is only stored, is left out. Prices are in hundredths; the one that a shop
-- lists is whatever its answer says, below 0 too.
pub record ProcurementResult : Type 0 where
  pub id : ℕ
  pub order_id : ℕ
  pub job_id : Option ℕ
  pub tenant_id : ℕ
  pub source : ResultSource
  pub product_url : Text
  pub seller_name : Option Text
  pub listed_price : ℤ
  pub per_unit_price : ℕ
  pub shipping_fee : ℕ
  pub unit_count : ℕ
  pub source_method : Option Text
  pub external_offer_id : Option Text
  pub compare_eligible : Bool
  pub parser_version : Option ℕ
  pub collected_at : ℕ
