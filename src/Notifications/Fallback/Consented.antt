-- ===== src/Notifications/Fallback/Consented.antt =====
-- The fallback by SMS in backend/app/notifications/service.py: when it is sent, and when not.
use price_checker.Base.{
  ℕ, Bool, true, false, ◌≡◌, refl, sym, subst, arith, [], ◌∷◌, ◌++◌, Text, Option, none, some,
  Unicode, inl, inr, Bool-cases, ◌⊎◌,
}
use price_checker.Errors.{Result, ok, err}
use price_checker.Models.Notification.{
  NotificationDelivery, Channel, Purpose, DeliveryStatus, ConsentType, is_alimtalk,
}
use price_checker.Database.{Session, Orm, IsReadOnly, query, query_ok, ◌>>=◌, read_to}
use price_checker.Notifications.Consents.{has_active_consent}
use price_checker.Notifications.Consents.InForce.{has_active_consent-IsReadOnly}
use price_checker.Notifications.Deliveries.{add_deliveries, dead_letter, delivery_clash}
use price_checker.Notifications.Fallback.{
  get_delivery, get_delivery_by_idempotency, abandon, new_fallback, store_fallback, fallback_with,
  fallback_if, fallback_for, fallback_of, create_sms_fallback_for_delivery,
}

module _ (orm : Orm) (u : Unicode) (t i : ℕ) where
  -- The delivery that a fallback stands for: one by Alimtalk, of this tenant and id, with the
  -- recipient of the fallback and its text as the text to fall back on.
  abbrev pub StandsFor : NotificationDelivery → NotificationDelivery → Session → Type 0
  StandsFor f x s =
      ((get_delivery orm u t i s).0 ≡ ok (some x))
      × (is_alimtalk x.channel ≡ true)
      × (f.tenant_id ≡ t)
      × (f.recipient_id ≡ x.recipient_id)
      × (x.rendered_fallback_body ≡ some f.rendered_body)

  -- How the call ends: with no fallback, and no delivery more; with a new text message, for which
  -- the recipient's consent is in force; or with an exception, and the session as it was or as
  -- the failed flush left it.
  abbrev pub Falls : Session → Result (Option NotificationDelivery) → Session → Type 0
  Falls s (ok none) s' = s'.db.deliveries ≡ s.db.deliveries
  Falls s (ok (some f)) s' =
      (f.channel ≡ Channel.sms)
      × (f.purpose ≡ Purpose.fallback)
      × (f.status ≡ DeliveryStatus.ready)
      × (s'.db.deliveries ≡ s.db.deliveries ++ f ∷ [])
      × ((has_active_consent t f.recipient_id ConsentType.sms_marketing s).0 ≡ ok true)
      × ((x : NotificationDelivery) × StandsFor f x s)
  Falls s (err e) s' = (s' ≡ s) ⊎ (s' ≡ orm.failed_flush s)

  abandon-Falls :
      (x : NotificationDelivery) (why reason : Text) (s : Session)
      → Falls s (abandon orm u t x why reason s).0 (abandon orm u t x why reason s).1
  unfolding abandon dead_letter ◌>>=◌
  abandon-Falls x why reason s = ground arith

  stored :
      (f : NotificationDelivery) (s : Session)
      → s.active ≡ true
      → delivery_clash (f ∷ []) s.db ≡ false
      → store_fallback orm u f s ≡ (ok (some f), record s { db = add_deliveries (f ∷ []) s.db })
  unfolding store_fallback ◌>>=◌
  stored f s a free = ground arith

  store-Falls :
      (f x : NotificationDelivery) (s : Session)
      → f.channel ≡ Channel.sms
      → f.purpose ≡ Purpose.fallback
      → f.status ≡ DeliveryStatus.ready
      → (has_active_consent t f.recipient_id ConsentType.sms_marketing s).0 ≡ ok true
      → StandsFor f x s
      → Falls s (store_fallback orm u f s).0 (store_fallback orm u f s).1
  unfolding store_fallback get_delivery_by_idempotency ◌>>=◌
  store-Falls f x s c p r consent original = elim (Bool-cases s.active) [
    | inl a ↦ elim (Bool-cases (delivery_clash (f ∷ []) s.db)) [
      | inl clash ↦ ground (arith, orm.failed_flush-active s)
      | inr free ↦
          subst (λ (q : Result (Option NotificationDelivery) × Session). Falls s q.0 q.1)
            (sym (stored f s a free)) (c, p, r, refl, consent, (x, original))
    ]
    | inr off ↦ ground arith
  ]

  with-Falls :
      (x : NotificationDelivery) (reason : Text) (body : Option Text) (s : Session)
      → (has_active_consent t x.recipient_id ConsentType.sms_marketing s).0 ≡ ok true
      → (get_delivery orm u t i s).0 ≡ ok (some x)
      → is_alimtalk x.channel ≡ true
      → x.rendered_fallback_body ≡ body
      → Falls s (fallback_with orm u t x reason body s).0 (fallback_with orm u t x reason body s).1
  unfolding fallback_with new_fallback
  with-Falls x reason none s consent found kakao same = abandon-Falls x _ reason s
  with-Falls x reason (some body) s consent found kakao same =
      read_to (Falls s) (query (new_fallback orm u t x body reason)) _ s (λ _. refl) (λ _. inl refl)
        λ f e.
          subst (λ f. Falls s (store_fallback orm u f s).0 (store_fallback orm u f s).1)
            (sym (query_ok (new_fallback orm u t x body reason) s f e))
            (store-Falls (new_fallback orm u t x body reason s.db) x s refl refl refl consent
              (found, kakao, refl, refl, same))

  for-Falls :
      (x : NotificationDelivery) (reason : Text) (b : Bool) (s : Session)
      → (get_delivery orm u t i s).0 ≡ ok (some x)
      → is_alimtalk x.channel ≡ b
      → Falls s (fallback_for orm u t x reason b s).0 (fallback_for orm u t x reason b s).1
  unfolding fallback_for
  for-Falls x reason false s found kakao = refl
  for-Falls x reason true s found kakao =
      read_to (Falls s) (has_active_consent t x.recipient_id ConsentType.sms_marketing)
        (fallback_if orm u t x reason) s (has_active_consent-IsReadOnly t x.recipient_id _)
        (λ _. inl refl) answer
    where
      answer :
          (b : Bool)
          → (has_active_consent t x.recipient_id ConsentType.sms_marketing s).0 ≡ ok b
          → Falls s (fallback_if orm u t x reason b s).0 (fallback_if orm u t x reason b s).1
      answer false e = unfold fallback_if in abandon-Falls x _ reason s
      answer true e = unfold fallback_if in with-Falls x reason _ s e found kakao refl

  -- The call either returns nothing and adds no delivery; or it adds and returns one delivery
  -- by SMS, ready, with purpose fallback, for the recipient of the tenant's Alimtalk delivery
  -- that is asked for, with that delivery's text to fall back on, where the consent to SMS
  -- marketing is in force when the call begins; or it raises and leaves the session as it was
  -- or as a failed flush leaves it.
  pub create_sms_fallback-Falls :
      (reason : Text) (s : Session)
      → let (result, s') = create_sms_fallback_for_delivery orm u t i reason s in Falls s result s'
  unfolding create_sms_fallback_for_delivery
  create_sms_fallback-Falls reason s =
      read_to (Falls s) (get_delivery orm u t i) (fallback_of orm u t reason) s
        (get_delivery-IsReadOnly i) (λ _. inl refl) of-Falls
    where
      get_delivery-IsReadOnly : (i : ℕ) → IsReadOnly (get_delivery orm u t i)
      get_delivery-IsReadOnly i s = unfold get_delivery ◌>>=◌ in ground arith

      of-Falls :
          (o : Option NotificationDelivery)
          → (get_delivery orm u t i s).0 ≡ ok o
          → Falls s (fallback_of orm u t reason o s).0 (fallback_of orm u t reason o s).1
      of-Falls none found = unfold fallback_of in refl
      of-Falls (some x) found =
          unfold fallback_of in for-Falls x reason (is_alimtalk x.channel) s found refl
