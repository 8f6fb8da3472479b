-- ===== src/Notifications/Deliveries/Built.antt =====
-- What the loop over the recipients in backend/app/notifications/service.py builds.
use price_checker.Base.{ℕ, ◌≡◌, refl, subst, ap, List, [], ◌∷◌, map, str_int, some, All, Unicode}
use price_checker.Errors.{ok, and_then-eq-ok, ok_injective}
use price_checker.Notifications.Render.{RenderedNotification, render_version}
use price_checker.Models.Notification.{
  NotificationOutboxEvent, NotificationDelivery, NotificationRecipient, NotificationTemplateVersion,
  DeliveryStatus,
}
use price_checker.Database.{Orm}
use price_checker.Notifications.Deliveries.{
  delivery_key, colon, channel_text, build_deliveries, new_delivery, payload_order_id,
}

abbrev pub recipient_of : NotificationDelivery → ℕ
recipient_of x = x.recipient_id

abbrev pub id_of : NotificationRecipient → ℕ
id_of r = r.id

module _ (orm : Orm) (u : Unicode) where
  -- What a delivery is made of.
  abbrev pub Serves :
      NotificationOutboxEvent → NotificationTemplateVersion → NotificationDelivery → Type 0
  Serves event version x =
      (x.tenant_id ≡ event.tenant_id)
      × (x.outbox_event_id ≡ some event.id)
      × (x.template_version_id ≡ version.id)
      × (x.status ≡ DeliveryStatus.ready)
      × (x.idempotency_key
          ≡ colon event.event_type (
              colon (str_int event.aggregate_id) (
                colon (str_int x.recipient_id)
                  (colon (channel_text version.channel) (str_int version.id)))))
      × (x.channel ≡ version.channel)
      × (x.purpose ≡ version.purpose)
      × ((rendered : RenderedNotification) × (render_version u version event.payload ≡ ok rendered)
          × (x.rendered_title ≡ rendered.title)
          × (x.rendered_body ≡ rendered.body)
          × (x.rendered_fallback_body ≡ rendered.fallback_body))

  -- The loop makes one delivery for each recipient, in their order.
  pub build_deliveries_lem :
      (event : NotificationOutboxEvent) (version : NotificationTemplateVersion)
      (rs : List NotificationRecipient) (ids : List ℕ) (ds : List NotificationDelivery)
      → build_deliveries orm u event version rs ids ≡ ok ds
      → (map recipient_of ds ≡ map id_of rs) × All (Serves event version) ds
  unfolding build_deliveries new_delivery delivery_key
  build_deliveries_lem event version [] ids ds e =
      subst (λ ds. (map recipient_of ds ≡ []) × All (Serves event version) ds) (ok_injective e)
        (refl, tt)
  build_deliveries_lem event version (r ∷ rs) ids ds e =
      let (rendered, shown, e₁) = and_then-eq-ok (render_version u version event.payload) _ e in
      let (order_id, _, e₂) = and_then-eq-ok (payload_order_id event.payload) _ e₁ in
      let x = new_delivery orm u event version r ids order_id rendered in
      let (more, built, e₃) =
        and_then-eq-ok (build_deliveries orm u event version rs (x.id ∷ ids)) _ e₂ in
      let (covered, serve) = build_deliveries_lem event version rs (x.id ∷ ids) more built in
      subst (λ ds. (map recipient_of ds ≡ map id_of (r ∷ rs)) × All (Serves event version) ds)
        (ok_injective e₃)
        (
          ap (λ l. r.id ∷ l) covered,
          ((refl, refl, refl, refl, refl, refl, refl, (rendered, shown, refl, refl, refl)), serve),
        )
