-- ===== src/Notifications/Deliveries/Events.antt =====
-- The events of `NotificationDeliveryService` of backend/app/notifications/service.py: what is written
-- for a result, and what becomes of a second event with the same key.
use price_checker.Base.{
  ℕ, Bool, ◌&&◌, Option, none, some, ◌∷◌, [], ◌++◌, map, Text, codes, text_eq, any, ◌==◌, Unicode,
}
use price_checker.Errors.{integrity_error}
use price_checker.Models.Tenancy.{Shop}
use price_checker.Models.Notification.{NotificationOutboxEvent, OutboxStatus, Json, null, int, str}
use price_checker.Database.{
  Db, Orm, Action, pure, or_raise, query, query_one, ◌>>=◌, ◌>>◌, flush, except_integrity,
}
use price_checker.Notifications.Deliveries.{
  procurement_result, outbox_key, published, expand_procurement_result_event,
}

abbrev pub event_completed : Text
event_completed = codes "procurement.result.completed"

-- `str(name or "매장")`
abbrev or_default_name : Option Text → Text
or_default_name none = codes "매장"
or_default_name (some []) = codes "매장"
or_default_name (some (c ∷ s)) = c ∷ s

abbrev shop_name_of : Option Shop → Text
shop_name_of none = or_default_name none
shop_name_of (some shop) = or_default_name (some shop.name)

unfoldable pub get_shop_name : ℕ → ℕ → Action Text
get_shop_name tenant_id shop_id = do
  shop ← query_one (λ d. d.shops) (λ (s : Shop). s.id == shop_id && s.tenant_id == tenant_id)
  pure (shop_name_of shop)

abbrev pub add_event : NotificationOutboxEvent → Db → Db
add_event e d = record d { outbox_events = d.outbox_events ++ e ∷ [] }

module _ (orm : Orm) (u : Unicode) where
  abbrev optional_str : Option Text → Json
  optional_str none = null
  optional_str (some s) = str s

  -- `"failed" if failure_state else "success"`
  abbrev status_of : Option Text → Text
  status_of none = codes "success"
  status_of (some []) = codes "success"
  status_of (some (c ∷ s)) = codes "failed"

  unfoldable pub new_event :
      ℕ → ℕ → ℕ → ℕ → Text → Text → Option Text → Text → Db → NotificationOutboxEvent
  new_event tenant_id order_id result_id shop_id product_name best_price failure_state shop_name d =
      record {
        id = orm.next_id (map (λ (e : NotificationOutboxEvent). e.id) d.outbox_events);
        tenant_id = tenant_id;
        event_type = event_completed;
        aggregate_type = procurement_result;
        aggregate_id = result_id;
        payload =
            (codes "status", str (status_of failure_state))
            ∷ (codes "failure_state", optional_str failure_state)
            ∷ (codes "order_id", int order_id)
            ∷ (codes "result_id", int result_id)
            ∷ (codes "shop_id", int shop_id)
            ∷ (codes "shop_name", str shop_name)
            ∷ (codes "product_name", str product_name)
            ∷ (codes "best_price", str best_price)
            ∷ [];
        idempotency_key = outbox_key tenant_id result_id;
        status = OutboxStatus.pending;
      }

  abbrev pub has_key : Text → NotificationOutboxEvent → Bool
  has_key key e = text_eq e.idempotency_key key

  unfoldable pub get_outbox_by_idempotency : Text → Action (Option NotificationOutboxEvent)
  get_outbox_by_idempotency key = query_one (λ d. d.outbox_events) (has_key key)

  -- The event is stored (`none`), or the constraint on its key is violated and the stored event
  -- with the key is looked up.
  unfoldable pub store_event : NotificationOutboxEvent → Action (Option NotificationOutboxEvent)
  store_event event =
      except_integrity
        (flush orm (λ d. any (has_key event.idempotency_key) d.outbox_events) (add_event event)
          >> pure none)
        (do
          existing ← get_outbox_by_idempotency event.idempotency_key
          or_raise existing integrity_error >>= λ e. pure (some e))

  pub finish_event :
      NotificationOutboxEvent → Option NotificationOutboxEvent → Action NotificationOutboxEvent
  finish_event event (some existing) = pure existing
  finish_event event none = do
    expand_procurement_result_event orm u event
    pure (published orm u event)

  unfoldable pub create_procurement_result_event :
      ℕ → ℕ → ℕ → ℕ → Text → Text → Option Text → Action NotificationOutboxEvent
  create_procurement_result_event tenant_id order_id result_id shop_id product_name best_price
        failure_state =
      do
        shop_name ← get_shop_name tenant_id shop_id
        event ← query (
            new_event tenant_id order_id result_id shop_id product_name best_price failure_state
              shop_name)
        existing ← store_event event
        finish_event event existing
