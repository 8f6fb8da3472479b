-- ===== src/Search/Shipping.antt =====
-- backend/app/services/shipping_policy.py. A subtotal is not below 0.
use price_checker.Base.{ℕ, Bool, true, false, ◌||◌, Option, none, some, is_some, leb, if◌then◌else◌}

pub data ShippingConfidence : Type 0 where
  explicit estimated unknown : ShippingConfidence

abbrev pub coupang_rocket_free_threshold : ℕ
coupang_rocket_free_threshold = 19800

abbrev pub coupang_rocket_default_fee : ℕ
coupang_rocket_default_fee = 3000

abbrev pub naver_smartstore_default_fee : ℕ
naver_smartstore_default_fee = 3000

abbrev pub naver_smartstore_default_threshold : ℕ
naver_smartstore_default_threshold = 50000

pub record ShippingEstimate : Type 0 where
  pub fee : ℕ
  pub confidence : ShippingConfidence
  pub free_threshold : Option ℕ

pub estimate_coupang_rocket : ℕ → Bool → ShippingEstimate
estimate_coupang_rocket subtotal true = record {
  fee = 0;
  confidence = ShippingConfidence.explicit;
  free_threshold = some 0;
}
estimate_coupang_rocket subtotal false =
    if leb coupang_rocket_free_threshold subtotal
    then record {
      fee = 0;
      confidence = ShippingConfidence.estimated;
      free_threshold = some coupang_rocket_free_threshold;
    }
    else record {
      fee = coupang_rocket_default_fee;
      confidence = ShippingConfidence.estimated;
      free_threshold = some coupang_rocket_free_threshold;
    }

abbrev or_default : Option ℕ → ℕ → ℕ
or_default none default = default
or_default (some given) default = given

pub estimate_smartstore_generic : ℕ → Option ℕ → Option ℕ → ShippingEstimate
estimate_smartstore_generic subtotal seller_default_fee seller_free_threshold =
    let fee = or_default seller_default_fee naver_smartstore_default_fee in
    let threshold = or_default seller_free_threshold naver_smartstore_default_threshold in
    if leb threshold subtotal
    then record {
      fee = 0;
      confidence = ShippingConfidence.estimated;
      free_threshold = some threshold;
    }
    else record {
      fee = fee;
      confidence =
          if is_some seller_default_fee || is_some seller_free_threshold
          then ShippingConfidence.explicit
          else ShippingConfidence.estimated;
      free_threshold = some threshold;
    }
