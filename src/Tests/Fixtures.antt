-- ===== src/Tests/Fixtures.antt =====
-- Tables with two tenants, and the session on them.
use price_checker.Base.{
  ℕ, ◌+◌, ◌<◌, ◌≢◌, refl, arith, List, [], ◌∷◌, All, All-map, max, true, false, none, some, codes,
}
use price_checker.Models.Notification.{
  NotificationRecipient, NotificationConsent, NotificationTemplateVersion, NotificationOutboxEvent,
  NotificationDelivery, Channel, Purpose, ConsentType, ReviewStatus, DeliveryStatus, OutboxStatus,
  int, str, names,
}
use price_checker.Notifications.Deliveries.{outbox_key}
use price_checker.Database.{Db, Session, Orm}

pub largest : List ℕ → ℕ
largest [] = 0
largest (i ∷ is) = max i (largest is)

pub below : (is : List ℕ) → All (λ i. i < largest is + 1) is
unfolding largest
below [] = tt
below (i ∷ is) = (ground arith, All-map _ _ is (λ j h. ground arith) (below is))

pub fresh : (is : List ℕ) → All (λ i. i ≢ largest is + 1) is
fresh is = All-map _ _ is (λ i h e. omega (arith, h, e)) (below is)

abbrev failed : Session → Session
failed s = record s { db = s.saved; active = false }

abbrev restored : Session → Session
restored s = record s { db = s.saved; active = true }

-- An ORM that does what the parameter of the model asks for.
abbrev pub orm : Orm
unfolding largest
orm = record {
  next_id = λ is. largest is + 1;
  next_id_fresh = fresh;
  failed_flush = failed;
  failed_flush-db = λ s. refl;
  failed_flush-saved = λ s. refl;
  failed_flush-active = λ s. refl;
  rollback = restored;
  rollback-db = λ s. refl;
  rollback-saved = λ s. refl;
  rollback-active = λ s. refl;
}

abbrev pub owner : NotificationRecipient
owner = record {
  id = 1;
  tenant_id = 1;
  shop_id = some 1;
  user_id = none;
  phone_e164 = codes "+821012345678";
  display_name = codes "owner";
  is_active = true;
  created_at = 10;
}

-- The same number at another tenant.
abbrev pub stranger : NotificationRecipient
stranger = record {
  id = 2;
  tenant_id = 2;
  shop_id = none;
  user_id = none;
  phone_e164 = codes "+821012345678";
  display_name = codes "stranger";
  is_active = true;
  created_at = 11;
}

abbrev pub consent : NotificationConsent
consent = record {
  id = 1;
  tenant_id = 1;
  recipient_id = 1;
  consent_type = ConsentType.sms_marketing;
  consent_source = codes "web";
  evidence = [];
  granted_at = 12;
  revoked_at = none;
}

abbrev pub version : NotificationTemplateVersion
version = record {
  id = 1;
  template_id = 1;
  tenant_id = 1;
  version = 1;
  channel = Channel.kakao_alimtalk;
  purpose = Purpose.transactional;
  provider_template_key = none;
  review_status = ReviewStatus.approved;
  locale = codes "ko";
  title = none;
  body = codes "{{product_name}}";
  fallback_body = some (codes "sms");
  variables = names [];
}

abbrev pub event : NotificationOutboxEvent
event = record {
  id = 1;
  tenant_id = 1;
  event_type = codes "procurement.result.completed";
  aggregate_type = codes "procurement_result";
  aggregate_id = 7;
  payload = (codes "order_id", int 3) ∷ (codes "product_name", str (codes "rice")) ∷ [];
  idempotency_key = outbox_key 1 7;
  status = OutboxStatus.pending;
}

abbrev pub delivery : NotificationDelivery
delivery = record {
  id = 1;
  tenant_id = 1;
  outbox_event_id = some 1;
  procurement_order_id = some 3;
  recipient_id = 1;
  template_version_id = 1;
  channel = Channel.kakao_alimtalk;
  purpose = Purpose.transactional;
  status = DeliveryStatus.ready;
  idempotency_key = codes "k";
  rendered_title = none;
  rendered_body = codes "rice";
  rendered_fallback_body = some (codes "sms");
  variable_payload = [];
}

abbrev pub tables : Db
tables = record {
  tenants = [];
  shops =
      record { id = 1; tenant_id = 1; name = codes "shop"; business_number = none; created_at = 1 }
      ∷ [];
  users = [];
  refresh_tokens = [];
  orders = [];
  results = [];
  jobs = [];
  attempts = [];
  recipients = owner ∷ stranger ∷ [];
  consents = consent ∷ [];
  templates =
      record {
        id = 1;
        tenant_id = 1;
        template_code = codes "procurement_result";
        name = codes "result";
        is_active = true;
      }
      ∷ [];
  template_versions = version ∷ [];
  outbox_events = event ∷ [];
  deliveries = delivery ∷ [];
  dead_letters = [];
}

abbrev pub session : Session
session = record { saved = tables; db = tables; active = true }
