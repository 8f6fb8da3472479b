-- ===== src/Notifications/Deliveries.antt =====
-- `NotificationDeliveryService` of backend/app/notifications/service.py, its expansion
-- of an event into one delivery for each active recipient.
pub mod Built
pub mod Events
pub mod Keys
pub mod Outbox
pub mod Sendable
use price_checker.Base.{
  ℕ, Bool, true, false, not, ◌&&◌, ◌||◌, Option, none, some, ◌∷◌, [], ◌++◌, List, map, Text, codes,
  text_eq, str_int, any, filter, update_where, ◌==◌, leb, sort_by, if◌then◌else◌, Unicode,
}
use price_checker.Errors.{Error, Result, ok, err, and_then, key_error, integrity_error}
use price_checker.Models.Tenancy.{Shop}
use price_checker.Models.Notification.{
  NotificationRecipient, NotificationTemplate, NotificationTemplateVersion, NotificationOutboxEvent,
  NotificationDelivery, NotificationDeadLetter, Channel, Purpose, OutboxStatus, DeliveryStatus,
  ConsentType, Json, null, int, str, Payload, is_alimtalk, is_transactional, is_approved,
}
use price_checker.Database.{
  Db, Session, Orm, Action, pure, raise, or_raise, query, query_one, lift, ◌>>=◌, ◌>>◌, flush,
  write, except_integrity,
}
use price_checker.Notifications.Consents.{has_active_consent}
use price_checker.Notifications.Render.{lookup, RenderedNotification, render_version}

abbrev pub procurement_result : Text
procurement_result = codes "procurement_result"

abbrev pub channel_text : Channel → Text
channel_text Channel.kakao_alimtalk = codes "kakao_alimtalk"
channel_text Channel.kakao_brand_message = codes "kakao_brand_message"
channel_text Channel.sms = codes "sms"
channel_text Channel.lms = codes "lms"

abbrev pub colon : Text → Text → Text
colon s t = s ++ b':' ∷ t

-- f"procurement_result:{tenant_id}:{result_id}"
pub outbox_key : ℕ → ℕ → Text
outbox_key tenant_id result_id =
    colon procurement_result (colon (str_int tenant_id) (str_int result_id))

-- f"{event_type}:{aggregate_id}:{recipient.id}:{channel}:{version.id}"
pub delivery_key : NotificationOutboxEvent → ℕ → NotificationTemplateVersion → Text
delivery_key event recipient_id version = colon event.event_type (
    colon (str_int event.aggregate_id)
      (colon (str_int recipient_id) (colon (channel_text version.channel) (str_int version.id))))

pub active_recipients : ℕ → Action (List NotificationRecipient)
active_recipients tenant_id = query (λ d.
    filter (λ (r : NotificationRecipient). r.tenant_id == tenant_id && r.is_active) d.recipients)

-- The versions of the tenant's active template with this code that may be sent by Alimtalk.
abbrev is_candidate : ℕ → Text → Db → NotificationTemplateVersion → Bool
is_candidate tenant_id template_code d v =
    any
      (λ (t : NotificationTemplate).
        t.id == v.template_id
        && t.tenant_id == tenant_id
        && text_eq t.template_code template_code
        && t.is_active)
      d.templates
    && v.tenant_id == tenant_id
    && is_alimtalk v.channel
    && is_transactional v.purpose
    && is_approved v.review_status

abbrev head? : {A : Type 0} → List A → Option A
head? [] = none
head? (x ∷ xs) = some x

-- The latest of them: `ORDER BY version DESC LIMIT 1`.
pub approved_template_version : ℕ → Text → Action (Option NotificationTemplateVersion)
approved_template_version tenant_id template_code = query λ d. head? (
    sort_by (λ (v w : NotificationTemplateVersion). leb w.version v.version)
      (filter (is_candidate tenant_id template_code d) d.template_versions))

abbrev pub add_dead_letter : NotificationDeadLetter → Db → Db
add_dead_letter l d = record d { dead_letters = d.dead_letters ++ l ∷ [] }

abbrev pub set_event : NotificationOutboxEvent → Db → Db
set_event e d = record d {
  outbox_events =
      update_where (λ (f : NotificationOutboxEvent). f.id == e.id) (λ f. e) d.outbox_events;
}

abbrev pub add_deliveries : List NotificationDelivery → Db → Db
add_deliveries new d = record d { deliveries = d.deliveries ++ new }

-- `int(payload["order_id"])`: the code stores a number there.
abbrev payload_order_id : Payload → Result ℕ
payload_order_id payload = elim (lookup (codes "order_id") payload) [
  | none ↦ err key_error
  | some value ↦ elim value [ int n ↦ ok n | _ ↦ err key_error ]
]

-- The unique constraint on the key of a delivery, among old and new rows.
abbrev pub delivery_clash : List NotificationDelivery → Db → Bool
delivery_clash [] d = false
delivery_clash (x ∷ xs) d =
    any (λ (y : NotificationDelivery). text_eq y.idempotency_key x.idempotency_key) d.deliveries
    || any (λ (y : NotificationDelivery). text_eq y.idempotency_key x.idempotency_key) xs
    || delivery_clash xs d

module _ (orm : Orm) where
  pub new_dead_letter : ℕ → ℕ → Text → Payload → Bool → Db → NotificationDeadLetter
  new_dead_letter tenant_id outbox_event_id reason envelope recoverable d = record {
    id = orm.next_id (map (λ (l : NotificationDeadLetter). l.id) d.dead_letters);
    tenant_id = tenant_id;
    outbox_event_id = some outbox_event_id;
    reason = reason;
    envelope = envelope;
    recoverable = recoverable;
  }

  unfoldable pub dead_letter : ℕ → ℕ → Text → Payload → Bool → Action NotificationDeadLetter
  dead_letter tenant_id outbox_event_id reason envelope recoverable = do
    letter ← query (new_dead_letter tenant_id outbox_event_id reason envelope recoverable)
    write (add_dead_letter letter)
    pure letter

module _ (orm : Orm) (u : Unicode) where
  new_delivery :
      NotificationOutboxEvent
      → NotificationTemplateVersion
      → NotificationRecipient
      → List ℕ
      → ℕ
      → RenderedNotification
      → NotificationDelivery
  new_delivery event version recipient ids order_id rendered = record {
    id = orm.next_id ids;
    tenant_id = event.tenant_id;
    outbox_event_id = some event.id;
    procurement_order_id = some order_id;
    recipient_id = recipient.id;
    template_version_id = version.id;
    channel = version.channel;
    purpose = version.purpose;
    status = DeliveryStatus.ready;
    idempotency_key = delivery_key event recipient.id version;
    rendered_title = rendered.title;
    rendered_body = rendered.body;
    rendered_fallback_body = rendered.fallback_body;
    variable_payload = rendered.variables;
  }

  -- The loop over the recipients; `ids` are the ids given so far.
  pub build_deliveries :
      NotificationOutboxEvent
      → NotificationTemplateVersion
      → List NotificationRecipient
      → List ℕ
      → Result (List NotificationDelivery)
  build_deliveries event version [] ids = ok []
  build_deliveries event version (recipient ∷ rest) ids =
      and_then (render_version u version event.payload) λ rendered.
        and_then (payload_order_id event.payload) λ order_id.
          let delivery = new_delivery event version recipient ids order_id rendered in
          and_then (build_deliveries event version rest (delivery.id ∷ ids))
            λ more. ok (delivery ∷ more)

  abbrev pub published : NotificationOutboxEvent → NotificationOutboxEvent
  published event = record event { status = OutboxStatus.published }

  -- An event that cannot be delivered: a dead letter, and no delivery.
  undeliverable : NotificationOutboxEvent → Text → Action (List NotificationDelivery)
  undeliverable event reason = do
    dead_letter orm event.tenant_id event.id reason event.payload true
    write (set_event (published event))
    pure []

  deliver :
      NotificationOutboxEvent
      → List NotificationRecipient
      → Option NotificationTemplateVersion
      → Action (List NotificationDelivery)
  deliver event recipients none = undeliverable event (codes "missing_procurement_result_template")
  deliver event recipients (some version) = do
    ids ← query (λ d. map (λ (x : NotificationDelivery). x.id) d.deliveries)
    deliveries ← lift (build_deliveries event version recipients ids)
    flush orm (delivery_clash deliveries)
        (λ d. set_event (published event) (add_deliveries deliveries d))
    pure deliveries

  expand_to :
      NotificationOutboxEvent → List NotificationRecipient → Action (List NotificationDelivery)
  expand_to event [] = undeliverable event (codes "no_active_recipients")
  expand_to event (r ∷ rs) = do
    version ← approved_template_version event.tenant_id procurement_result
    deliver event (r ∷ rs) version

  pub expand_procurement_result_event : NotificationOutboxEvent → Action (List NotificationDelivery)
  expand_procurement_result_event event = do
    recipients ← active_recipients event.tenant_id
    expand_to event recipients
