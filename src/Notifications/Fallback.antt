-- ===== src/Notifications/Fallback.antt =====
-- `NotificationDeliveryService` of backend/app/notifications/service.py, its fallback by SMS.
pub mod Consented
use price_checker.Base.{
  ℕ, Bool, true, false, not, ◌&&◌, ◌||◌, Option, none, some, ◌∷◌, [], ◌++◌, List, map, Text, codes,
  text_eq, str_int, any, filter, update_where, ◌==◌, leb, sort_by, if◌then◌else◌, Unicode,
}
use price_checker.Errors.{Error, Result, ok, err, and_then, key_error, integrity_error}
use price_checker.Models.Tenancy.{Shop}
use price_checker.Models.Notification.{
  NotificationRecipient, NotificationTemplate, NotificationTemplateVersion, NotificationOutboxEvent,
  NotificationDelivery, NotificationDeadLetter, Channel, Purpose, OutboxStatus, DeliveryStatus,
  ConsentType, Json, null, int, str, Payload, is_alimtalk, is_transactional, is_approved,
}
use price_checker.Database.{
  Db, Session, Orm, Action, pure, raise, or_raise, query, query_one, lift, ◌>>=◌, ◌>>◌, flush,
  write, except_integrity,
}
use price_checker.Notifications.Consents.{has_active_consent}
use price_checker.Notifications.Render.{lookup, RenderedNotification, render_version}
use price_checker.Notifications.Deliveries.{dead_letter, delivery_clash, add_deliveries}

module _ (orm : Orm) (u : Unicode) where
  pub get_delivery : ℕ → ℕ → Action (Option NotificationDelivery)
  get_delivery tenant_id delivery_id =
      query_one (λ d. d.deliveries)
        (λ (x : NotificationDelivery). x.tenant_id == tenant_id && x.id == delivery_id)

  pub get_delivery_by_idempotency : Text → Action (Option NotificationDelivery)
  get_delivery_by_idempotency key =
      query_one (λ d. d.deliveries) (λ (x : NotificationDelivery). text_eq x.idempotency_key key)

  abbrev or_zero : Option ℕ → ℕ
  or_zero none = 0
  or_zero (some n) = n

  -- No fallback is sent: a dead letter says why.
  abandon : ℕ → NotificationDelivery → Text → Text → Action (Option NotificationDelivery)
  abandon tenant_id original why reason = do
    dead_letter orm tenant_id (or_zero original.outbox_event_id) why
        ((codes "delivery_id", int original.id) ∷ (codes "fallback_reason", str reason) ∷ []) true
    pure none

  -- `{**payload, "fallback_reason": reason}`
  pub put : Text → Json → Payload → Payload
  put key value [] = (key, value) ∷ []
  put key value ((k, v) ∷ rest) =
      if text_eq k key then (k, value) ∷ rest else (k, v) ∷ put key value rest

  new_fallback : ℕ → NotificationDelivery → Text → Text → Db → NotificationDelivery
  new_fallback tenant_id original body reason d = record {
    id = orm.next_id (map (λ (x : NotificationDelivery). x.id) d.deliveries);
    tenant_id = tenant_id;
    outbox_event_id = original.outbox_event_id;
    procurement_order_id = original.procurement_order_id;
    recipient_id = original.recipient_id;
    template_version_id = original.template_version_id;
    channel = Channel.sms;
    purpose = Purpose.fallback;
    status = DeliveryStatus.ready;
    idempotency_key = original.idempotency_key ++ codes ":sms_fallback";
    rendered_title = original.rendered_title;
    rendered_body = body;
    rendered_fallback_body = none;
    variable_payload = put (codes "fallback_reason") (str reason) original.variable_payload;
  }

  store_fallback : NotificationDelivery → Action (Option NotificationDelivery)
  store_fallback fallback =
      except_integrity
        (flush orm (delivery_clash (fallback ∷ [])) (add_deliveries (fallback ∷ []))
          >> pure (some fallback))
        (do
          existing ← get_delivery_by_idempotency fallback.idempotency_key
          or_raise existing integrity_error >>= λ e. pure (some e))

  -- With the body of the fallback, if there is one.
  fallback_with :
      ℕ → NotificationDelivery → Text → Option Text → Action (Option NotificationDelivery)
  fallback_with tenant_id original reason none =
      abandon tenant_id original (codes "sms_fallback_body_missing") reason
  fallback_with tenant_id original reason (some body) = do
    fallback ← query (new_fallback tenant_id original body reason)
    store_fallback fallback

  -- With the answer on the consent.
  fallback_if : ℕ → NotificationDelivery → Text → Bool → Action (Option NotificationDelivery)
  fallback_if tenant_id original reason false =
      abandon tenant_id original (codes "sms_fallback_consent_missing") reason
  fallback_if tenant_id original reason true =
      fallback_with tenant_id original reason original.rendered_fallback_body

  fallback_for : ℕ → NotificationDelivery → Text → Bool → Action (Option NotificationDelivery)
  fallback_for tenant_id original reason false = pure none
  fallback_for tenant_id original reason true = do
    consent ← has_active_consent tenant_id original.recipient_id ConsentType.sms_marketing
    fallback_if tenant_id original reason consent

  fallback_of : ℕ → Text → Option NotificationDelivery → Action (Option NotificationDelivery)
  fallback_of tenant_id reason none = pure none
  fallback_of tenant_id reason (some original) =
      fallback_for tenant_id original reason (is_alimtalk original.channel)

  pub create_sms_fallback_for_delivery : ℕ → ℕ → Text → Action (Option NotificationDelivery)
  create_sms_fallback_for_delivery tenant_id delivery_id reason = do
    original ← get_delivery tenant_id delivery_id
    fallback_of tenant_id reason original
